-- ===== src/Kernel/Operations/Ends.antt =====
-- How `run_synchronous` of kernel/operations.py ends, whatever happens on its way.
use byo_firmware_mcp.Prelude.{
  ℕ, String, ◌≡◌, refl, sym, ap, ◌∙◌, inl, inr, Bool, true, false, Option, none, some, [], arith,
}
use byo_firmware_mcp.Prelude.Result.{Result, ok, raise, Result-cases, ▷-ok}
use byo_firmware_mcp.Kernel.Operations.{
  OperationError, cancelled_error, other_error, cleanup_error, OperationResources, ManagedOperation,
  stops, checkpoint, mark_running, mark_handler_started, finish, clean, cleanup, run_finalizer,
}
use byo_firmware_mcp.Kernel.Operations.Worker.{
  arrive, WorkerSurroundings, set_result, set_error, execute, settle, is_completed, judge_cleanup,
  conclude, take_locks, mark_done, run_synchronous,
}

clean_once : (r : OperationResources) (p : Bool) → (clean r p).is_cleaned ≡ true
unfolding clean
clean_once r p = ground arith

cleanup-cleaned : (op : ManagedOperation) → (cleanup op).resources.is_cleaned ≡ true
unfolding cleanup
cleanup-cleaned op = clean_once op.resources op.preserve_halt

judge-cleaned :
    (now : ℕ) (b : Bool) (op : ManagedOperation)
    → op.resources.is_cleaned ≡ true
    → (judge_cleanup now b op).resources.is_cleaned ≡ true
unfolding judge_cleanup finish set_error
judge-cleaned now b op h = ground arith

conclude-cleaned :
    (s : WorkerSurroundings) (op : ManagedOperation) → (conclude s op).resources.is_cleaned ≡ true
unfolding conclude
conclude-cleaned s op = judge-cleaned s.now _ _ (cleanup-cleaned (run_finalizer s.finalizer op))

-- Whatever the handler and the other calls do, and whenever a cancellation arrives, the worker ends:
-- the operation is done and its resources have been cleaned up.
pub run_synchronous_ends :
    (s : WorkerSurroundings) (op : ManagedOperation)
    → ((run_synchronous s op).is_done ≡ true) × ((run_synchronous s op).resources.is_cleaned ≡ true)
unfolding run_synchronous mark_done
run_synchronous_ends s op = elim (Result-cases (take_locks s op).0) [
  | inl (u, k) ↦ (refl, rw k (conclude-cleaned s (settle s.now (execute s (take_locks s op).1))))
  | inr (e, k) ↦ (refl, rw k (cleanup-cleaned (settle s.now (raise e, (take_locks s op).1))))
]

finalizer-keeps :
    (f : Option (Option String)) (op : ManagedOperation)
    → ((run_finalizer f op).state ≡ op.state)
      × ((run_finalizer f op).error ≡ op.error)
      × ((run_finalizer f op).result ≡ op.result)
unfolding run_finalizer
finalizer-keeps none op = (refl, refl, refl)
finalizer-keeps (some none) op = (refl, refl, refl)
finalizer-keeps (some (some e)) op = (ground arith, ground arith, ground arith)

judge_cleanup-none :
    (now : ℕ) (b : Bool) (op : ManagedOperation)
    → (judge_cleanup now b op).error ≡ none
    → (op.error ≡ none)
      × (b ≡ true → op.resources.fatal_cleanup_errors ≡ [])
      × (judge_cleanup now b op ≡ op)
unfolding judge_cleanup finish set_error
judge_cleanup-none now b op h = (ground arith, λ e. ground arith, ground arith)

settle-error :
    (now : ℕ) (e : OperationError) (op : ManagedOperation)
    → (settle now (raise e, op)).error ≡ some e
unfolding settle finish set_error
settle-error now (cancelled_error r) op = refl
settle-error now (other_error r) op = refl
settle-error now (cleanup_error r) op = refl

checkpoint-ok :
    (op : ManagedOperation) (u : Unit)
    → (checkpoint op).0 ≡ ok u
    → (stops op ≡ false) × ((checkpoint op).1 ≡ op)
unfolding checkpoint
checkpoint-ok op u h = (ground arith, ground arith)

-- Where the innermost block returns, the handler did, and no cancellation stopped it behind that.
execute-ok :
    (s : WorkerSurroundings) (op : ManagedOperation) (u : Unit)
    → (execute s op).0 ≡ ok u
    → (o : ManagedOperation) × (value : String) × ((s.sync_operation o).0 ≡ ok value)
      × (stops (set_result value (s.sync_operation o).1) ≡ false)
      × ((execute s op).1 ≡ set_result value (s.sync_operation o).1)
unfolding execute
execute-ok s op u h =
    let (_, _, h1, e1) = ▷-ok (checkpoint (arrive s.before_checkpoint op)) _ u h in
    let (_, _, h2, e2) = ▷-ok _ _ u h1 in
    let (_, _, h3, e3) = ▷-ok _ _ u h2 in
    let (value, returned, h4, e4) = ▷-ok _ _ u h3 in
    let o : ManagedOperation =
      mark_handler_started s.now
        (checkpoint
          (s.before_execution
            (mark_running s.now (checkpoint (arrive s.before_checkpoint op)).1)).1).1 in
    let (clear, same) = checkpoint-ok (set_result value (s.sync_operation o).1) u h4 in
    (o, value, returned, clear, ap (λ x. x.1) (e1 ∙ e2 ∙ e3 ∙ e4) ∙ same)

-- What an operation that ended without an error has behind it.
abbrev pub Succeeded : WorkerSurroundings → ManagedOperation → Type 0
Succeeded s ended =
    (o : ManagedOperation) × (value : String) × ((s.sync_operation o).0 ≡ ok value)
    × (stops (set_result value (s.sync_operation o).1) ≡ false)
    × (ended.result ≡ some value)
    × (ended.resources.fatal_cleanup_errors ≡ [])

cleanup-error : (op : ManagedOperation) → (cleanup op).error ≡ op.error
unfolding cleanup
cleanup-error op = refl

cleanup-result : (op : ManagedOperation) → (cleanup op).result ≡ op.result
unfolding cleanup
cleanup-result op = refl

conclude-none :
    (s : WorkerSurroundings) (op : ManagedOperation)
    → (conclude s op).error ≡ none
    → (op.error ≡ none)
      × ((conclude s op).result ≡ op.result)
      × (is_completed op.state ≡ true → (conclude s op).resources.fatal_cleanup_errors ≡ [])
unfolding conclude
conclude-none s op h =
    let f : ManagedOperation = run_finalizer s.finalizer op in
    let (keeps_state, keeps_error, keeps_result) = finalizer-keeps s.finalizer op in
    let (clear, no_fatal, same) = judge_cleanup-none s.now (is_completed f.state) (cleanup f) h in
    (
      sym keeps_error ∙ sym (cleanup-error f) ∙ clear,
      ap (λ (x : ManagedOperation). x.result) same ∙ cleanup-result f ∙ keeps_result,
      λ c.
          ap (λ (x : ManagedOperation). x.resources.fatal_cleanup_errors) same
          ∙ no_fatal (ap is_completed keeps_state ∙ c),
    )

settle-completed :
    (now : ℕ) (u : Unit) (op : ManagedOperation)
    → (is_completed (settle now (ok u, op)).state ≡ true)
      × ((settle now (ok u, op)).result ≡ op.result)
unfolding settle finish
settle-completed now u op = (refl, refl)

stored : (value : String) (o : ManagedOperation) → (set_result value o).result ≡ some value
unfolding set_result
stored value o = refl

some_error : {e : OperationError} → some e ≡ none → ⊥
some_error h = cc

-- An operation that its worker ends without an error has run its handler to the end: the handler
-- returned the value that is the result, no cancellation could stop the operation behind it, and
-- no fatal error of a cleanup stands on it.
pub run_synchronous-Succeeded :
    (s : WorkerSurroundings) (op : ManagedOperation)
    → (run_synchronous s op).error ≡ none
    → Succeeded s (run_synchronous s op)
unfolding run_synchronous mark_done
run_synchronous-Succeeded s op h = elim (Result-cases (take_locks s op).0) [
  | inr (e, k) ↦ absurd (
      some_error (
        sym (settle-error s.now e (take_locks s op).1)
        ∙ sym (cleanup-error (settle s.now (raise e, (take_locks s op).1)))
        ∙ (rw k at h)))
  | inl (u, k) ↦ rw k (within (execute s (take_locks s op).1) refl (rw k at h))
]
  where
    within :
        (x : Result OperationError (Unit {0}) × ManagedOperation)
        → execute s (take_locks s op).1 ≡ x
        → (conclude s (settle s.now x)).error ≡ none
        → Succeeded s (mark_done (conclude s (settle s.now x)))
    within (raise e, o) is h = absurd (
        some_error
          (sym (settle-error s.now e o) ∙ (conclude-none s (settle s.now (raise e, o)) h).0))
    within (ok u, o) is h =
        let (x, value, returned, clear, last) =
          execute-ok s (take_locks s op).1 u (ap (λ y. y.0) is) in
        let (_, result, no_fatal) = conclude-none s (settle s.now (ok u, o)) h in
        let (done, kept) = settle-completed s.now u o in
        let same : set_result value (s.sync_operation x).1 ≡ o = sym last ∙ ap (λ y. y.1) is in
        (
          x,
          value,
          returned,
          clear,
          result ∙ kept ∙ sym (ap (λ (y : ManagedOperation). y.result) same) ∙ stored value _,
          no_fatal done,
        )
