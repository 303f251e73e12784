-- ===== src/Monitor/Examples.antt =====
-- A detector that saw one call and a run of counted calls, on which the statements about
-- monitor/thrash.py and monitor/counters.py are exercised.
use byo_firmware_mcp.Prelude.{◌≡◌, refl, true, false, none, some, List, [], ◌∷◌, all, arith, filter}
use byo_firmware_mcp.Prelude.Dict.{get, put}
use byo_firmware_mcp.Prelude.Sorting.{contains, sorted, insert_sorted, dedup}
use byo_firmware_mcp.Prelude.Text.{ends_with}
use byo_firmware_mcp.Monitor.Counters.{
  new_counters, count_of, bump, record_call, note_appended, note_write_failure, set_advertised,
  snapshot, Event, recorded, appended, write_failed, advertise, observe_event, run_events,
}
use byo_firmware_mcp.Monitor.Counters.Exact.{IsExact, run_events-IsExact}
use byo_firmware_mcp.Monitor.Thrash.{
  ThrashDetector, Observation, excluded, fresh_events, signature_of, uniform, reported_lately,
  bucket_at, events_with, reports, count, observe,
}
use byo_firmware_mcp.Monitor.Thrash.Reports.{observe_run, once_per_window}

abbrev reading : Observation
reading = record {
  board = some "nucleo";
  tool = "read_memory";
  args_fp = "a1";
  outcome = "failed";
  error_class = some "probe/Lost";
  guard_fp = "g1";
}

abbrev detector : ThrashDetector
detector = record {
  threshold = 2;
  window = 60;
  buckets =
      (
        (some "nucleo", ("read_memory", "a1")),
        record {
          events = record { time = 5; signature = "failed|probe/Lost"; guard_fp = "g1" } ∷ [];
          reported_at = none;
        },
      )
      ∷ [];
  last_tool = [];
  accepted_response_fp = [];
}

reported : (observe detector 10 reading).0 ≡ true
unfolding observe count reports excluded contains ends_with get events_with bucket_at fresh_events
    signature_of uniform reported_lately all
reported = refl

once_per_window_example :
    (observe (observe_run (observe detector 10 reading).1 ((20, reading) ∷ [])) 30 reading).0
    ≡ false
once_per_window_example =
    once_per_window detector 10 reading ((20, reading) ∷ []) 30 reading reported (omega arith, tt)
      refl (omega arith)

abbrev events : List Event
events =
    advertise ("read_memory" ∷ "flash" ∷ [])
    ∷ recorded "read_memory" "ok" none "t1"
    ∷ appended
    ∷ recorded "read_memory" "failed" (some "probe/Lost") "t2"
    ∷ write_failed "disk"
    ∷ []

run_events-IsExact_example : IsExact events (run_events new_counters events)
run_events-IsExact_example = run_events-IsExact events

never_flashed : (snapshot (run_events new_counters events)).never_exercised ≡ "flash" ∷ []
unfolding snapshot run_events new_counters observe_event record_call note_appended
    note_write_failure set_advertised bump count_of get put contains filter sorted insert_sorted
    dedup
never_flashed = refl
