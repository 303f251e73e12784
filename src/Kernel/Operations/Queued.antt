-- ===== src/Kernel/Operations/Queued.antt =====
-- A cancellation that reaches an operation of kernel/operations.py while it waits for a lock.
use byo_firmware_mcp.Prelude.{
  ℕ, String, ◌≡◌, refl, sym, ◌∙◌, inl, inr, true, false, Option, none, some, [], ◌∷◌, ◌++◌, arith,
  Bool-cases,
}
use byo_firmware_mcp.Prelude.Result.{Result, raise, ◌▷◌}
use byo_firmware_mcp.Kernel.Operations.{
  OperationError, cancelled_error, ManagedOperation, request_cancel, stops, reason_text, checkpoint,
  finish, cleanup,
}
use byo_firmware_mcp.Kernel.Operations.Worker.{
  Polls, arrive, acquire, WorkerSurroundings, set_error, settle, take_locks, mark_done,
  run_synchronous,
}

-- A poll that finds the lock taken: either the operation stops there, or it polls again.
acquire-stops :
    (poll : Option String) (polls : Polls) (op : ManagedOperation)
    → stops (arrive poll op) ≡ true
    → acquire (poll ∷ polls) op
      ≡ (raise (cancelled_error (reason_text (arrive poll op).cancellation_reason)), arrive poll op)
unfolding acquire checkpoint ◌▷◌
acquire-stops poll polls op h = ground arith

acquire-polls :
    (poll : Option String) (polls : Polls) (op : ManagedOperation)
    → stops (arrive poll op) ≡ false
    → acquire (poll ∷ polls) op ≡ acquire polls (arrive poll op)
unfolding acquire checkpoint ◌▷◌
acquire-polls poll polls op h = ground arith

-- The handler was not started and gave no result between the two states.
abbrev pub Unstarted : ManagedOperation → ManagedOperation → Type 0
Unstarted before after =
    (after.handler_started_at ≡ before.handler_started_at) × (after.result ≡ before.result)

arrive-keeps :
    (poll : Option String) (op : ManagedOperation)
    → Unstarted op (arrive poll op)
      × ((arrive poll op).non_interruptible ≡ op.non_interruptible)
      × ((arrive poll op).completion_committed ≡ op.completion_committed)
unfolding request_cancel
arrive-keeps none op = ((refl, refl), refl, refl)
arrive-keeps (some r) op = ((refl, refl), refl, refl)

cancelled_stops :
    (reason : String) (op : ManagedOperation)
    → op.non_interruptible ≡ false
    → op.completion_committed ≡ false
    → stops (request_cancel reason op) ≡ true
unfolding stops request_cancel
cancelled_stops reason op h k = ground arith

abbrev pub Cancelled :
    ManagedOperation → Result OperationError (Unit {0}) × ManagedOperation → Type 0
Cancelled before x = (why : String) × (x.0 ≡ raise (cancelled_error why)) × Unstarted before x.1

acquire-Cancelled :
    (before after : Polls) (reason : String) (op : ManagedOperation)
    → op.non_interruptible ≡ false
    → op.completion_committed ≡ false
    → Cancelled op (acquire (before ++ some reason ∷ after) op)
acquire-Cancelled [] after reason op h k =
    rw (acquire-stops (some reason) after op (cancelled_stops reason op h k)) (
      reason_text (request_cancel reason op).cancellation_reason,
      refl,
      (arrive-keeps (some reason) op).0,
    )
acquire-Cancelled (poll ∷ before) after reason op h k =
    let (kept, same_mode, same_commit) = arrive-keeps poll op in
    elim (Bool-cases (stops (arrive poll op))) [
      | inl e ↦
          rw (acquire-stops poll (before ++ some reason ∷ after) op e)
            (reason_text (arrive poll op).cancellation_reason, refl, kept)
      | inr e ↦
          let (why, raised, unstarted) =
            acquire-Cancelled before after reason (arrive poll op) (same_mode ∙ h)
              (same_commit ∙ k) in
          rw (acquire-polls poll (before ++ some reason ∷ after) op e)
            (why, raised, (unstarted.0 ∙ kept.0, unstarted.1 ∙ kept.1))
    ]

settled :
    (now : ℕ) (why : String) (op : ManagedOperation)
    → ((mark_done (cleanup (settle now (raise (cancelled_error why), op)))).error
        ≡ some (cancelled_error why))
      × Unstarted op (mark_done (cleanup (settle now (raise (cancelled_error why), op))))
unfolding mark_done cleanup settle finish set_error
settled now why op = (refl, (refl, refl))

run_synchronous-raise :
    (s : WorkerSurroundings) (op : ManagedOperation) (e : OperationError)
    → (take_locks s op).0 ≡ raise e
    → run_synchronous s op ≡ mark_done (cleanup (settle s.now (raise e, (take_locks s op).1)))
unfolding run_synchronous
run_synchronous-raise s op e h = rw h refl

take_locks-Cancelled :
    (s : WorkerSurroundings) (op : ManagedOperation)
    → Cancelled op (acquire s.reservation_polls op)
    → Cancelled op (take_locks s op)
unfolding take_locks ◌▷◌
take_locks-Cancelled s op (why, raised, kept) = (why, rw raised refl, rw raised kept)

-- A cancellation that arrives while an operation waits for the reservation of its board ends it,
-- though the lock be never free: it ends as cancelled, and its handler is not started. The
-- operation must be interruptible and not committed.
pub queued-then-cancelled :
    (s : WorkerSurroundings) (before after : Polls) (reason : String) (op : ManagedOperation)
    → s.reservation_polls ≡ before ++ some reason ∷ after
    → op.non_interruptible ≡ false
    → op.completion_committed ≡ false
    → ((why : String) × ((run_synchronous s op).error ≡ some (cancelled_error why)))
      × Unstarted op (run_synchronous s op)
queued-then-cancelled s before after reason op e h k =
    let (why, raised, kept) =
      take_locks-Cancelled s op (rw (sym e) at (acquire-Cancelled before after reason op h k)) in
    let (error, same) = settled s.now why (take_locks s op).1 in
    rw (run_synchronous-raise s op (cancelled_error why) raised)
      ((why, error), (same.0 ∙ kept.0, same.1 ∙ kept.1))
