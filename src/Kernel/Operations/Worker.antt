-- ===== src/Kernel/Operations/Worker.antt =====
-- `_acquire_worker_lock` and `run_synchronous` of kernel/operations.py: the life of one operation on
-- its worker thread. What other threads do meanwhile is in the arguments: a cancellation may arrive
-- at each poll of a lock, and the calls of the handler may change the operation in any way.
use byo_firmware_mcp.Prelude.{
  ℕ, String, Bool, true, false, Option, none, some, List, [], ◌∷◌, is_nil, not, ◌&&◌, if◌then◌else◌,
}
use byo_firmware_mcp.Prelude.Result.{Result, ok, raise, ◌▷◌}
use byo_firmware_mcp.Kernel.Operations.{
  OperationState, completed, failed, cancelled, OperationError, cancelled_error, cleanup_error,
  ManagedOperation, request_cancel, checkpoint, mark_running, mark_handler_started, finish, cleanup,
  run_finalizer,
}

-- The polls of a lock that find it taken, before the one that takes it: each with the reason of a
-- cancellation that arrived in its time.
abbrev pub Polls : Type 0
Polls = List (Option String)

abbrev pub arrive : Option String → ManagedOperation → ManagedOperation
arrive none op = op
arrive (some reason) op = request_cancel reason op

-- `_CooperativeLock.__enter__`: a checkpoint after every poll that finds the lock taken.
unfoldable pub acquire :
    Polls → ManagedOperation → Result OperationError (Unit {0}) × ManagedOperation
acquire [] op = (ok tt, op)
acquire (poll ∷ polls) op = checkpoint (arrive poll op) ▷ λ _ o. acquire polls o

-- What the worker meets. The calls are steps of the operation with their answer.
pub record WorkerSurroundings : Type 0 where
  pub reservation_polls : Polls
  pub worker_polls : Polls
  pub before_checkpoint : Option String
  pub now : ℕ
  pub before_execution : ManagedOperation → Result OperationError (Unit {0}) × ManagedOperation
  pub sync_operation : ManagedOperation → Result OperationError String × ManagedOperation
  pub finalizer : Option (Option String)

unfoldable pub set_result : String → ManagedOperation → ManagedOperation
set_result value op = record op { result = some value }

unfoldable pub set_error : OperationError → ManagedOperation → ManagedOperation
set_error e op = record op { error = some e }

-- The innermost block, inside the execution lock.
unfoldable pub execute :
    WorkerSurroundings → ManagedOperation → Result OperationError (Unit {0}) × ManagedOperation
execute s op = checkpoint (arrive s.before_checkpoint op) ▷ λ _ o1.
    s.before_execution (mark_running s.now o1) ▷ λ _ o2. checkpoint o2 ▷ λ _ o3.
    s.sync_operation (mark_handler_started s.now o3) ▷ λ value o4. checkpoint (set_result value o4)

-- Its exception clauses: the state and the error that they leave.
unfoldable pub settle : ℕ → Result OperationError (Unit {0}) × ManagedOperation → ManagedOperation
settle now (ok _, op) = finish now completed op
settle now (raise (cancelled_error reason), op) =
    finish now cancelled (set_error (cancelled_error reason) op)
settle now (raise e, op) = finish now failed (set_error e op)

abbrev pub is_completed : OperationState → Bool
is_completed completed = true
is_completed _ = false

abbrev pub is_none : {A : Type 0} → Option A → Bool
is_none none = true
is_none (some a) = false

-- A cleanup that failed turns a success into an error.
unfoldable pub judge_cleanup : ℕ → Bool → ManagedOperation → ManagedOperation
judge_cleanup now was_completed op =
    let fatal = op.resources.fatal_cleanup_errors in
    if is_none op.error && was_completed && not (is_nil fatal)
    then finish now failed (set_error (cleanup_error fatal) op)
    else op

-- The `finally` clause, still inside the locks.
unfoldable pub conclude : WorkerSurroundings → ManagedOperation → ManagedOperation
conclude s op =
    let finalized = run_finalizer s.finalizer op in
    judge_cleanup s.now (is_completed finalized.state) (cleanup finalized)

unfoldable pub take_locks :
    WorkerSurroundings → ManagedOperation → Result OperationError (Unit {0}) × ManagedOperation
take_locks s op = acquire s.reservation_polls op ▷ λ _ o. acquire s.worker_polls o

unfoldable pub mark_done : ManagedOperation → ManagedOperation
mark_done op = record op { is_done = true }

-- `run_synchronous`. An error while the locks are taken is settled and cleaned up outside of them.
unfoldable pub run_synchronous : WorkerSurroundings → ManagedOperation → ManagedOperation
run_synchronous s op =
    let taken = take_locks s op in
    mark_done (elim taken.0 [
      | ok _ ↦ conclude s (settle s.now (execute s taken.1))
      | raise e ↦ cleanup (settle s.now (raise e, taken.1))
    ])
