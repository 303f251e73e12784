-- ===== src/Monitor/Counters.antt =====
-- `RunCounters` of monitor/counters.py: the counts of the calls of a run, with the times as arguments.
pub mod Exact
use Prim.Native.String.{compare as compare_text}
use byo_firmware_mcp.Prelude.{
  ℕ, ◌+◌, String, Option, none, some, not, List, [], ◌∷◌, map, filter, string_eq, if◌then◌else◌,
}
use byo_firmware_mcp.Prelude.Dict.{Dict, get, put}
use byo_firmware_mcp.Prelude.Sorting.{sorted, dedup, contains}
use byo_firmware_mcp.Prelude.Text.{is_empty}

pub record RunCounters : Type 0 where
  pub total : ℕ
  pub per_tool : Dict String ℕ
  pub per_outcome : Dict String ℕ
  pub per_error : Dict String ℕ
  pub first_at : Option String
  pub last_at : Option String
  pub total_appended : ℕ
  pub advertised : List String
  pub last_write_error : Option String
  pub write_failures : ℕ

unfoldable pub new_counters : RunCounters
new_counters = record {
  total = 0;
  per_tool = [];
  per_outcome = [];
  per_error = [];
  first_at = none;
  last_at = none;
  total_appended = 0;
  advertised = [];
  last_write_error = none;
  write_failures = 0;
}

abbrev pub or_zero : Option ℕ → ℕ
or_zero none = 0
or_zero (some n) = n

-- `counts.get(name, 0)`
unfoldable pub count_of : Dict String ℕ → String → ℕ
count_of counts name = or_zero (get counts name)

unfoldable pub bump : Dict String ℕ → String → Dict String ℕ
bump counts name = put counts name (count_of counts name + 1)

-- `if error_class:`
abbrev pub bump_error : Dict String ℕ → Option String → Dict String ℕ
bump_error counts none = counts
bump_error counts (some name) = if is_empty name then counts else bump counts name

abbrev pub or_now : Option String → String → String
or_now none now = now
or_now (some first) now = first

-- `record`, with the new total.
unfoldable pub record_call :
    RunCounters → String → String → Option String → String → ℕ × RunCounters
record_call c tool outcome error_class now = (
  c.total + 1,
  record c {
    total = c.total + 1;
    per_tool = bump c.per_tool tool;
    per_outcome = bump c.per_outcome outcome;
    per_error = bump_error c.per_error error_class;
    first_at = some (or_now c.first_at now);
    last_at = some now;
  },
)

unfoldable pub note_appended : RunCounters → RunCounters
note_appended c = record c { total_appended = c.total_appended + 1 }

unfoldable pub note_write_failure : RunCounters → String → RunCounters
note_write_failure c detail = record c {
  write_failures = c.write_failures + 1;
  last_write_error = some detail;
}

unfoldable pub set_advertised : RunCounters → List String → RunCounters
set_advertised c names = record c { advertised = names }

pub record CountersSnapshot : Type 0 where
  pub counters : RunCounters
  pub exercised : List String
  pub never_exercised : List String

abbrev pub keys_of : Dict String ℕ → List String
keys_of = map (λ entry. entry.0)

-- `snapshot`; the fields that it copies stand together.
unfoldable pub snapshot : RunCounters → CountersSnapshot
snapshot c = record {
  counters = c;
  exercised = sorted compare_text (keys_of c.per_tool);
  never_exercised =
      sorted compare_text
        (dedup (filter (λ name. not (contains name (keys_of c.per_tool))) c.advertised));
}

-- The calls of the methods of the counters, and what a sequence of them leaves.
pub data Event : Type 0 where
  recorded : (tool outcome : String) → Option String → String → Event
  appended : Event
  write_failed : String → Event
  advertise : List String → Event

unfoldable pub observe_event : RunCounters → Event → RunCounters
observe_event c (recorded tool outcome error_class now) =
    (record_call c tool outcome error_class now).1
observe_event c appended = note_appended c
observe_event c (write_failed detail) = note_write_failure c detail
observe_event c (advertise names) = set_advertised c names

unfoldable pub run_events : RunCounters → List Event → RunCounters
run_events c [] = c
run_events c (event ∷ events) = run_events (observe_event c event) events
