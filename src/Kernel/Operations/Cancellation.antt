-- ===== src/Kernel/Operations/Cancellation.antt =====
-- When a managed operation of kernel/operations.py stops for a cancellation, and when it does not.
use byo_firmware_mcp.Prelude.{
  String, ◌≡◌, refl, sym, ap, ◌∙◌, ◌↔◌, Bool, true, false, some, List, [], ◌∷◌, arith, All,
}
use byo_firmware_mcp.Prelude.Result.{Result, ok, raise}
use byo_firmware_mcp.Kernel.Operations.{
  OperationError, cancelled_error, OperationResources, ManagedOperation, request_cancel, stops,
  reason_text, checkpoint, begin_non_interruptible, run_if_not_cancelled, clean, terminate_all,
  OwnedSubprocess, confirmed,
}

-- Requests one after the other.
abbrev pub cancel_all_of : List String → ManagedOperation → ManagedOperation
cancel_all_of [] op = op
cancel_all_of (reason ∷ reasons) op = cancel_all_of reasons (request_cancel reason op)

request_cancel-keeps :
    (reasons : List String) (op : ManagedOperation)
    → ((cancel_all_of reasons op).completion_committed ≡ op.completion_committed)
      × ((cancel_all_of reasons op).non_interruptible ≡ op.non_interruptible)
unfolding request_cancel
request_cancel-keeps [] op = (refl, refl)
request_cancel-keeps (r ∷ rs) op = request_cancel-keeps rs (request_cancel r op)

cancel_reason :
    (reasons : List String) (op : ManagedOperation) (first : String)
    → op.cancellation_reason ≡ some first
    → (cancel_all_of reasons op).cancellation_reason ≡ some first
unfolding request_cancel
cancel_reason [] op first h = h
cancel_reason (r ∷ rs) op first h = cancel_reason rs (request_cancel r op) first (rw h refl)

checkpoint-passes : (op : ManagedOperation) → stops op ≡ false → checkpoint op ≡ (ok tt, op)
unfolding checkpoint
checkpoint-passes op h = rw h refl

committed-passes : (op : ManagedOperation) → op.completion_committed ≡ true → stops op ≡ false
unfolding stops
committed-passes op h = ground arith

run_if_not_cancelled-commits :
    {A : Type 0} (action : Unit {0} → Result OperationError A) (op : ManagedOperation) (a : A)
    → (run_if_not_cancelled action op).0 ≡ ok a
    → (stops op ≡ false)
      × (action tt ≡ ok a)
      × ((run_if_not_cancelled action op).1.completion_committed ≡ true)
unfolding run_if_not_cancelled checkpoint
run_if_not_cancelled-commits action op a h = (ground arith, ground arith, ground arith)

-- Once a short commit has returned, no cancellation stops the operation, however many are
-- requested after it; and it returns only where no pending one could stop the operation before.
pub run_if_not_cancelled-then-checkpoint :
    {A : Type 0} (action : Unit {0} → Result OperationError A) (op : ManagedOperation) (a : A)
    (reasons : List String)
    → (run_if_not_cancelled action op).0 ≡ ok a
    → ((checkpoint (cancel_all_of reasons (run_if_not_cancelled action op).1)).0 ≡ ok tt)
      × (stops op ≡ false)
run_if_not_cancelled-then-checkpoint action op a reasons h =
    let (clear, _, committed) = run_if_not_cancelled-commits action op a h in
    let after : ManagedOperation = (run_if_not_cancelled action op).1 in
    (
      ap (λ x. x.0)
          (checkpoint-passes (cancel_all_of reasons after) (
            committed-passes (cancel_all_of reasons after)
              ((request_cancel-keeps reasons after).0 ∙ committed))),
      clear,
    )

-- A cancellation that is pending on an operation that it can stop: nothing runs, nothing commits.
pub pending-not-committed :
    {A : Type 0} (action : Unit {0} → Result OperationError A) (op : ManagedOperation)
    → stops op ≡ true
    → (run_if_not_cancelled action op
        ≡ (raise (cancelled_error (reason_text op.cancellation_reason)), op))
      × (begin_non_interruptible op
          ≡ (raise (cancelled_error (reason_text op.cancellation_reason)), op))
unfolding run_if_not_cancelled begin_non_interruptible checkpoint
pending-not-committed action op h = (ground arith, ground arith)

terminate_all-nil :
    (ps : List OwnedSubprocess) → terminate_all ps ≡ [] → All (λ p. p.termination ≡ confirmed) ps
unfolding terminate_all
terminate_all-nil [] h = tt
terminate_all-nil (p ∷ ps) h = (ground arith, terminate_all-nil ps (ground arith))

nil-terminate_all :
    (ps : List OwnedSubprocess) → All (λ p. p.termination ≡ confirmed) ps → terminate_all ps ≡ []
unfolding terminate_all
nil-terminate_all [] h = refl
nil-terminate_all (p ∷ ps) h = ground (arith, nil-terminate_all ps h.1)

clean-fatal :
    (r : OperationResources) (preserve_halt : Bool)
    → r.is_cleaned ≡ false
    → r.fatal_cleanup_errors ≡ []
    → (clean r preserve_halt).fatal_cleanup_errors ≡ terminate_all r.subprocesses
unfolding clean
clean-fatal r p h e = rw (h, e) refl

-- The first cleanup of resources without earlier errors leaves no fatal error exactly when the end
-- of every owned process was confirmed; and a second cleanup changes nothing.
pub clean_fatal_iff :
    (r : OperationResources) (preserve_halt again : Bool)
    → r.is_cleaned ≡ false
    → r.fatal_cleanup_errors ≡ []
    → (((clean r preserve_halt).fatal_cleanup_errors ≡ [])
        ↔ All (λ p. p.termination ≡ confirmed) r.subprocesses)
      × (clean (clean r preserve_halt) again ≡ clean r preserve_halt)
clean_fatal_iff r p again h e = (
  (
    λ k. terminate_all-nil r.subprocesses (sym (clean-fatal r p h e) ∙ k),
    λ k. clean-fatal r p h e ∙ nil-terminate_all r.subprocesses k,
  ),
  twice,
)
  where
    cleaned : (clean r p).is_cleaned ≡ true
    cleaned = unfold clean in rw h refl

    stays : (x : OperationResources) → x.is_cleaned ≡ true → clean x again ≡ x
    stays x k = unfold clean in rw k refl

    twice : clean (clean r p) again ≡ clean r p
    twice = stays (clean r p) cleaned
