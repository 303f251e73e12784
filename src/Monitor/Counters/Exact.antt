-- ===== src/Monitor/Counters/Exact.antt =====
-- What the counters of monitor/counters.py hold after a sequence of calls.
use Prim.Native.String.{compare as compare_text}
use byo_firmware_mcp.Prelude.{
  ℕ, ◌+◌, ◌≤◌, String, ◌≡◌, refl, sym, ◌∙◌, Option, none, some, List, [], ◌∷◌, ◌==◌, string_eq,
  if◌then◌else◌, Bool-cases, Bool, true, false, inl, inr, arith, eq_iff, All, filter,
}
use byo_firmware_mcp.Prelude.Dict.{Dict, get, put, get-put}
use byo_firmware_mcp.Prelude.Sorting.{contains, All-sorted, All-dedup}
use byo_firmware_mcp.Prelude.Text.{is_empty}
use byo_firmware_mcp.Monitor.Counters.{
  RunCounters, new_counters, or_zero, count_of, bump, bump_error, record_call, note_appended,
  note_write_failure, set_advertised, Event, recorded, appended, write_failed, advertise,
  observe_event, run_events, snapshot, keys_of,
}

-- The sum of the counts.
unfoldable pub sum_of : Dict String ℕ → ℕ
sum_of [] = 0
sum_of ((name, n) ∷ counts) = n + sum_of counts

sum-bump : (counts : Dict String ℕ) (name : String) → sum_of (bump counts name) ≡ sum_of counts + 1
unfolding sum_of bump count_of put get
sum-bump [] name = omega arith
sum-bump ((k, n) ∷ counts) name = elim (Bool-cases (k == name)) [
  | inl p ↦ rw p (omega arith)
  | inr p ↦ rw p (omega (arith, sum-bump counts name))
]

count-bump :
    (counts : Dict String ℕ) (name other : String)
    → count_of (bump counts name) other ≡ count_of counts other + (if name == other then 1 else 0)
unfolding count_of bump
count-bump counts name other =
    ground (arith, get-put counts name (or_zero (get counts name) + 1) other, eq_iff name other)

sum-bump_error :
    (counts : Dict String ℕ) (e : Option String) → sum_of (bump_error counts e) ≤ sum_of counts + 1
sum-bump_error counts none = omega arith
sum-bump_error counts (some name) = elim (Bool-cases (is_empty name)) [
  | inl p ↦ rw p (omega arith)
  | inr p ↦ rw p (omega (arith, sum-bump counts name))
]

-- The calls that were recorded, and those of one tool.
unfoldable pub calls : List Event → ℕ
calls [] = 0
calls (recorded _ _ _ _ ∷ events) = calls events + 1
calls (_ ∷ events) = calls events

unfoldable pub calls_of : String → List Event → ℕ
calls_of name [] = 0
calls_of name (recorded tool _ _ _ ∷ events) =
    calls_of name events + (if tool == name then 1 else 0)
calls_of name (_ ∷ events) = calls_of name events

-- The counts of one state are those of another and so many calls.
abbrev IsLater : RunCounters → List Event → RunCounters → Type 0
IsLater c events d =
    (d.total ≡ c.total + calls events)
    × (sum_of d.per_tool ≡ sum_of c.per_tool + calls events)
    × (sum_of d.per_outcome ≡ sum_of c.per_outcome + calls events)
    × (sum_of d.per_error ≤ sum_of c.per_error + calls events)
    × ((name : String) → count_of d.per_tool name ≡ count_of c.per_tool name + calls_of name events)

run_events-IsLater :
    (c : RunCounters) (events : List Event) → IsLater c events (run_events c events)
unfolding run_events observe_event record_call note_appended note_write_failure set_advertised calls
    calls_of
run_events-IsLater c [] = (omega arith, omega arith, omega arith, omega arith, λ name. omega arith)
run_events-IsLater c (recorded tool outcome e now ∷ events) =
    let (a, b, d, f, g) = run_events-IsLater (record_call c tool outcome e now).1 events in
    (
      omega (arith, a),
      omega (arith, b, sum-bump c.per_tool tool),
      omega (arith, d, sum-bump c.per_outcome outcome),
      omega (arith, f, sum-bump_error c.per_error e),
      λ name. omega (arith, g name, count-bump c.per_tool tool name),
    )
run_events-IsLater c (appended ∷ events) = run_events-IsLater (note_appended c) events
run_events-IsLater c (write_failed detail ∷ events) =
    run_events-IsLater (note_write_failure c detail) events
run_events-IsLater c (advertise names ∷ events) = run_events-IsLater (set_advertised c names) events

-- The counts of a state are those of the calls.
abbrev pub IsExact : List Event → RunCounters → Type 0
IsExact events c =
    (c.total ≡ calls events)
    × (sum_of c.per_tool ≡ calls events)
    × (sum_of c.per_outcome ≡ calls events)
    × (sum_of c.per_error ≤ calls events)
    × ((name : String) → count_of c.per_tool name ≡ calls_of name events)

-- After any calls of the counters, in whatever order, the total, the sum over the tools and the
-- sum over the outcomes are the number of calls that were recorded, the sum over the errors is no
-- more, and the count of each tool is the number of its calls.
pub run_events-IsExact : (events : List Event) → IsExact events (run_events new_counters events)
unfolding new_counters sum_of count_of get
run_events-IsExact events =
    let (a, b, d, f, g) = run_events-IsLater new_counters events in
    (
      omega (arith, a),
      omega (arith, b),
      omega (arith, d),
      omega (arith, f),
      λ name. omega (arith, g name),
    )

count-absent :
    (counts : Dict String ℕ) (name : String)
    → contains name (keys_of counts) ≡ false
    → count_of counts name ≡ 0
unfolding contains count_of get
count-absent [] name h = refl
count-absent ((k, n) ∷ counts) name h =
    ground (arith, count-absent counts name, eq_iff name k, eq_iff k name, h)

All-filter :
    {P : String → Type 0} (p : String → Bool) (xs : List String)
    → ((x : String) → p x ≡ true → P x)
    → All P (filter p xs)
unfolding filter
All-filter p [] h = tt
All-filter p (x ∷ xs) h = elim (Bool-cases (p x)) [
  | inl q ↦ rw q (h x q, All-filter p xs h)
  | inr q ↦ rw q (All-filter p xs h)
]

-- A tool that a snapshot names as never exercised was not called in the run.
pub snapshot-never_exercised :
    (events : List Event)
    → All
        (λ name. calls_of name events ≡ 0)
        (snapshot (run_events new_counters events)).never_exercised
unfolding snapshot
snapshot-never_exercised events =
    let c = run_events new_counters events in
    All-sorted compare_text _ _ (
      All-dedup _ _ (
        All-filter _ c.advertised (λ name h.
          sym ((run_events-IsExact events).4 name)
          ∙ count-absent c.per_tool name (ground (arith, h)))))
