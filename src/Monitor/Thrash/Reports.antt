-- ===== src/Monitor/Thrash/Reports.antt =====
-- When the detector of monitor/thrash.py reports.
use byo_firmware_mcp.Prelude.{
  ℕ, ◌+◌, ◌<◌, ◌≡◌, refl, ◌∙◌, inl, inr, Bool, true, false, some, List, [], ◌∷◌, ◌==◌, ==_refl,
  string_eq, pair_eq, option_eq, arith, Bool-cases, if◌then◌else◌, true-ne-false, if_either,
  pair_beq_iff, All,
}
use byo_firmware_mcp.Prelude.Dict.{put, get-put}
use byo_firmware_mcp.Monitor.Thrash.{
  ThrashDetector, Observation, Bucket, bucket_key, excluded, events_with, reported_lately,
  bucket_at, reports, count, observe, BucketKey,
}

-- The bucket of the key has reported at the time, and the window is what it was.
record Reported (d : ThrashDetector) (window : ℕ) (key : BucketKey) (at : ℕ) : Type 0 where
  lately : (bucket_at d key).reported_at ≡ some at
  same_window : d.window ≡ window

bucket_at-count :
    (d : ThrashDetector) (now : ℕ) (o : Observation) (key : BucketKey)
    → (bucket_at (count d now o).1 key).reported_at ≡ (
        if bucket_key o == key
        then (if reports d now o then some now else (bucket_at d (bucket_key o)).reported_at)
        else (bucket_at d key).reported_at)
unfolding count bucket_at
bucket_at-count d now o key = ground (arith, get-put d.buckets (bucket_key o) (written) key)
  where
    written : Bucket
    written = record {
      events = events_with d now o;
      reported_at = if reports d now o then some now else (bucket_at d (bucket_key o)).reported_at;
    }

silent :
    (d : ThrashDetector) (window now at : ℕ) (o : Observation)
    → Reported d window (bucket_key o) at
    → now < at + window
    → reports d now o ≡ false
unfolding reports reported_lately
silent d window now at o r h = rw (r.lately, r.same_window) (ground arith)

-- Within the window the time of the report stays.
count-Reported :
    (d : ThrashDetector) (window now at : ℕ) (o : Observation) (key : BucketKey)
    → Reported d window key at
    → now < at + window
    → Reported (count d now o).1 window key at
count-Reported d window now at o key r h = record {
  lately = bucket_at-count d now o key ∙ (elim (Bool-cases (bucket_key o == key)) [
    | inl p ↦
        let same : bucket_key o ≡ key = (pair_beq_iff (bucket_key o) key).0 p in
        let r' : Reported d window (bucket_key o) at = rw same r in
        rw (p, silent d window now at o r' h) r'.lately
    | inr p ↦ rw p r.lately
  ]);
  same_window = unfold count in r.same_window;
}

observe-Reported :
    (d : ThrashDetector) (window now at : ℕ) (o : Observation) (key : BucketKey)
    → Reported d window key at
    → now < at + window
    → Reported (observe d now o).1 window key at
unfolding observe bucket_at
observe-Reported d window now at o key r h =
    if_either (λ (x : Bool × ThrashDetector). Reported x.1 window key at) (excluded d o) _ _ seen
      (count-Reported _ window now at o key seen h)
  where
    d' : ThrashDetector
    d' = record d { last_tool = put d.last_tool o.board o.tool }

    seen : Reported d' window key at
    seen = record { lately = r.lately; same_window = r.same_window }

first-Reported :
    (d : ThrashDetector) (now : ℕ) (o : Observation)
    → (observe d now o).0 ≡ true
    → Reported (observe d now o).1 d.window (bucket_key o) now
unfolding observe
first-Reported d now o h = elim (Bool-cases (excluded d o)) [
  | inl p ↦ absurd (true-ne-false h (rw p))
  | inr p ↦
      let fired : reports d' now o ≡ true = unfold count in (rw p at h) in
      rw p (record {
        lately = bucket_at-count d' now o (bucket_key o) ∙ (rw (==_refl (bucket_key o), fired));
        same_window = unfold count in refl;
      })
]
  where
    d' : ThrashDetector
    d' = record d { last_tool = put d.last_tool o.board o.tool }

unfoldable pub observe_run : ThrashDetector → List (ℕ × Observation) → ThrashDetector
observe_run d [] = d
observe_run d ((now, o) ∷ later) = observe_run (observe d now o).1 later

run-Reported :
    (d : ThrashDetector) (window at : ℕ) (key : BucketKey) (later : List (ℕ × Observation))
    → Reported d window key at
    → All (λ x. x.0 < at + window) later
    → Reported (observe_run d later) window key at
unfolding observe_run
run-Reported d window at key [] r h = r
run-Reported d window at key ((now, o) ∷ later) r h =
    run-Reported (observe d now o).1 window at key later
      (observe-Reported d window now at o key r h.0) h.1

silent_observe :
    (d : ThrashDetector) (window now at : ℕ) (o : Observation)
    → Reported d window (bucket_key o) at
    → now < at + window
    → (observe d now o).0 ≡ false
unfolding observe count bucket_at
silent_observe d window now at o r h =
    if_either (λ (x : Bool × ThrashDetector). x.0 ≡ false) (excluded d o) _ _ refl
      (silent (record d { last_tool = put d.last_tool o.board o.tool }) window now at o seen h)
  where
    seen :
        Reported (record d { last_tool = put d.last_tool o.board o.tool }) window (bucket_key o) at
    seen = record { lately = r.lately; same_window = r.same_window }

-- After a report, no observation with the same board, tool and arguments is reported again before
-- the window has passed, whatever is observed in between.
pub once_per_window :
    (d : ThrashDetector) (now : ℕ) (o : Observation) (later : List (ℕ × Observation)) (again : ℕ)
    (p : Observation)
    → (observe d now o).0 ≡ true
    → All (λ x. x.0 < now + d.window) later
    → bucket_key p ≡ bucket_key o
    → again < now + d.window
    → (observe (observe_run (observe d now o).1 later) again p).0 ≡ false
once_per_window d now o later again p h early same soon =
    silent_observe (observe_run (observe d now o).1 later) d.window again now p
      (rw same (
        run-Reported (observe d now o).1 d.window now (bucket_key o) later
          (first-Reported d now o h) early))
      soon
