-- ===== src/Monitor/Thrash.antt =====
-- `ThrashDetector` of src/pyocd_debug_mcp/monitor/thrash.py. The clock is an argument, and its times
-- and the window are counted in a unit as small as one likes.
pub mod Reports
use Prim.Native.String.{◌++◌ as append}
use byo_firmware_mcp.Prelude.{
  ℕ, ◌+◌, String, Bool, true, false, ◌&&◌, ◌||◌, not, Option, none, some, List, [], ◌∷◌, ◌++◌,
  length, all, ◌==◌, string_eq, pair_eq, option_eq, if◌then◌else◌, ltb,
}
use byo_firmware_mcp.Prelude.Dict.{Dict, get, put}
use byo_firmware_mcp.Prelude.Sorting.{contains}
use byo_firmware_mcp.Prelude.Text.{ends_with}

abbrev pub polling_tools : List String
polling_tools =
    "get_state" ∷ "read_execution_state" ∷ "get_setup_status" ∷ "wait" ∷ "setup_overview"
    ∷ "server_health_check" ∷ "report_agent_issue" ∷ "submit_routine_checkin"
    ∷ "initialization_handshake" ∷ "refresh_discovery_hooks" ∷ "register_remote_probe" ∷ []

abbrev pub retry_inviting : List String
retry_inviting = "runtime/BoardBusyError" ∷ "runtime/OperationTimeoutError" ∷ []

-- One observation that a bucket keeps; the fingerprint of the arguments is that of its key.
pub record Event : Type 0 where
  pub time : ℕ
  pub signature : String
  pub guard_fp : String

pub record Bucket : Type 0 where
  pub events : List Event
  pub reported_at : Option ℕ

abbrev pub Board : Type 0
Board = Option String

-- Board, tool and fingerprint of the arguments.
abbrev pub BucketKey : Type 0
BucketKey = Board × (String × String)

pub record ThrashDetector : Type 0 where
  pub threshold : ℕ
  pub window : ℕ
  pub buckets : Dict BucketKey Bucket
  pub last_tool : Dict Board String
  pub accepted_response_fp : Dict Board String

pub record Observation : Type 0 where
  pub board : Board
  pub tool : String
  pub args_fp : String
  pub outcome : String
  pub error_class : Option String
  pub guard_fp : String

abbrev pub bucket_key : Observation → BucketKey
bucket_key o = (o.board, (o.tool, o.args_fp))

unfoldable pub note_accepted_response : ThrashDetector → Board → String → ThrashDetector
note_accepted_response d board args_fp = record d {
  accepted_response_fp = put d.accepted_response_fp board args_fp;
}

-- `_excluded_locked`
unfoldable pub excluded : ThrashDetector → Observation → Bool
excluded d o =
    contains o.tool polling_tools
    || ends_with "-plan" o.tool
    || (elim o.error_class [ none ↦ false | some c ↦ contains c retry_inviting ])
    || (o.tool == "board_validate" && get d.accepted_response_fp o.board == some o.args_fp)
    || (get d.last_tool o.board == some "board_safety_refresh" && o.tool == "board_validate")

-- The events that the `while` leaves: those at the front that are older than the window go.
unfoldable pub fresh_events : ℕ → ℕ → List Event → List Event
fresh_events window now [] = []
fresh_events window now (e ∷ es) =
    let rest = fresh_events window now es in if ltb (e.time + window) now then rest else e ∷ es

unfoldable pub signature_of : Observation → String
signature_of o =
    append o.outcome
      (append "|" (elim o.error_class [ none ↦ "-" | some c ↦ if c == "" then "-" else c ]))

-- The sets of signatures and of guards have one member each.
unfoldable pub uniform : List Event → Bool
uniform [] = false
uniform (e ∷ es) = all (λ f. f.signature == e.signature && f.guard_fp == e.guard_fp) es

unfoldable pub reported_lately : ℕ → ℕ → Option ℕ → Bool
reported_lately window now none = false
reported_lately window now (some at) = ltb now (at + window)

unfoldable pub bucket_at : ThrashDetector → BucketKey → Bucket
bucket_at d key = elim (get d.buckets key) [
  | none ↦ record { events = []; reported_at = none }
  | some bucket ↦ bucket
]

-- The events with the new one.
unfoldable pub events_with : ThrashDetector → ℕ → Observation → List Event
events_with d now o =
    fresh_events d.window now (bucket_at d (bucket_key o)).events
    ++ (record { time = now; signature = signature_of o; guard_fp = o.guard_fp } ∷ [])

unfoldable pub reports : ThrashDetector → ℕ → Observation → Bool
reports d now o =
    let events = events_with d now o in
    not (ltb (length events) d.threshold)
    && uniform events
    && not (reported_lately d.window now (bucket_at d (bucket_key o)).reported_at)

-- The bucket is written, with the time of a report.
unfoldable pub count : ThrashDetector → ℕ → Observation → Bool × ThrashDetector
count d now o =
    let fired = reports d now o in
    let bucket : Bucket = record {
      events = events_with d now o;
      reported_at = if fired then some now else (bucket_at d (bucket_key o)).reported_at;
    } in
    (fired, record d { buckets = put d.buckets (bucket_key o) bucket })

unfoldable pub observe : ThrashDetector → ℕ → Observation → Bool × ThrashDetector
observe d now o =
    let d' : ThrashDetector = record d { last_tool = put d.last_tool o.board o.tool } in
    if excluded d o then (false, d') else count d' now o
