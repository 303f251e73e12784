-- ===== src/Kernel/Operations/Examples.antt =====
-- One operation and one manager, on which the statements about kernel/operations.py are exercised.
use byo_firmware_mcp.Prelude.{
  ℕ, zero, suc, String, ◌≡◌, refl, sym, ap, false, none, some, [], ◌∷◌, string_eq, true-ne-false,
  if◌then◌else◌,
}
use byo_firmware_mcp.Prelude.Result.{Result, ok, ◌▷◌}
use byo_firmware_mcp.Prelude.Dict.{get, put}
use byo_firmware_mcp.Prelude.Text.{is_empty}
use byo_firmware_mcp.Kernel.Operations.{
  OperationError, cancelled_error, ManagedOperation, checkpoint, stops, run_if_not_cancelled, clean,
  mark_running, mark_handler_started, finish, cleanup, run_finalizer, run_cleanup, terminate_all,
}
use byo_firmware_mcp.Kernel.Operations.Cancellation.{
  cancel_all_of, run_if_not_cancelled-then-checkpoint,
}
use byo_firmware_mcp.Kernel.Operations.Worker.{
  WorkerSurroundings, run_synchronous, acquire, execute, settle, set_result, set_error,
  judge_cleanup, conclude, take_locks, mark_done,
}
use byo_firmware_mcp.Kernel.Operations.Ends.{Succeeded, run_synchronous-Succeeded}
use byo_firmware_mcp.Kernel.Operations.Queued.{Unstarted, queued-then-cancelled}
use byo_firmware_mcp.Kernel.Operations.Manager.{
  OperationManager, new_manager, new_operation, create, enter, write_operation, cancel_request,
  cancel_all, Reachable, start, created, advanced,
}
use byo_firmware_mcp.Kernel.Operations.Manager.Index.{
  IsIndexed, IsNumbered, serves, Reachable-IsIndexed,
}
use byo_firmware_mcp.Kernel.Operations.Manager.Cancel.{asked_to_stop, cancel_request_exact}

abbrev halt : ManagedOperation
halt = new_operation "op-1" "request" "halt" (some "board")

-- A handler that answers, behind one poll of a taken lock.
abbrev bench : WorkerSurroundings
bench = record {
  reservation_polls = none ∷ [];
  worker_polls = [];
  before_checkpoint = none;
  now = 7;
  before_execution = λ op. (ok tt, op);
  sync_operation = λ op. (ok "halted", op);
  finalizer = none;
}

-- The same, with a cancellation in the time of the poll.
abbrev busy : WorkerSurroundings
busy = record bench { reservation_polls = some "client left" ∷ [] }

no_error : (run_synchronous bench halt).error ≡ none
unfolding run_synchronous acquire execute settle set_result set_error judge_cleanup conclude
    take_locks mark_done checkpoint stops ◌▷◌ mark_running mark_handler_started finish cleanup
    run_finalizer clean new_operation terminate_all run_cleanup
no_error = refl

run_synchronous-Succeeded_example : Succeeded bench (run_synchronous bench halt)
run_synchronous-Succeeded_example = run_synchronous-Succeeded bench halt no_error

interruptible : (halt.non_interruptible ≡ false) × (halt.completion_committed ≡ false)
unfolding new_operation
interruptible = (refl, refl)

queued-then-cancelled_example :
    ((why : String) × ((run_synchronous busy halt).error ≡ some (cancelled_error why)))
    × Unstarted halt (run_synchronous busy halt)
queued-then-cancelled_example =
    queued-then-cancelled busy [] [] "client left" halt refl interruptible.0 interruptible.1

abbrev commit : Unit {0} → Result OperationError String
commit _ = ok "committed"

committed : (run_if_not_cancelled commit halt).0 ≡ ok "committed"
unfolding run_if_not_cancelled checkpoint stops new_operation
committed = refl

run_if_not_cancelled-then-checkpoint_example :
    ((checkpoint (cancel_all_of ("client left" ∷ []) (run_if_not_cancelled commit halt).1)).0
      ≡ ok tt)
    × (stops halt ≡ false)
run_if_not_cancelled-then-checkpoint_example =
    run_if_not_cancelled-then-checkpoint commit halt "committed" ("client left" ∷ []) committed

-- As many strokes as the number says.
abbrev strokes : ℕ → String
strokes zero = Prim.Native.String.[]
strokes (suc n) = Prim.Native.String.◌∷◌ "x" (strokes n)

abbrev rest : String → String
rest Prim.Native.String.[] = Prim.Native.String.[]
rest (Prim.Native.String.◌∷◌ c s) = s

strokes_injective : (i j : ℕ) → strokes i ≡ strokes j → i ≡ j
strokes_injective zero zero h = refl
strokes_injective zero (suc j) h = absurd (true-ne-false refl (ap is_empty h))
strokes_injective (suc i) zero h = absurd (true-ne-false refl (ap is_empty (sym h)))
strokes_injective (suc i) (suc j) h = ap suc (strokes_injective i j (ap rest h))

abbrev created_manager : OperationManager
created_manager = (create strokes (some "request") "halt" none new_manager).1

abbrev created_operation : ManagedOperation
created_operation = new_operation "x" "request" "halt" none

-- The worker of the operation has started it.
abbrev managed : OperationManager
managed = write_operation "x" (mark_running 3 created_operation) created_manager

entered : get created_manager.operations "x" ≡ some created_operation
unfolding create new_operation enter get put
entered = refl

same_names :
    ((mark_running 3 created_operation).operation_id ≡ created_operation.operation_id)
    × ((mark_running 3 created_operation).request_id ≡ created_operation.request_id)
unfolding mark_running new_operation
same_names = (refl, refl)

managed_reached : Reachable strokes managed
managed_reached =
    advanced "x" created_operation (mark_running 3 created_operation) created_manager entered
      same_names.0 same_names.1 (created (some "request") "halt" none new_manager start)

Reachable-IsIndexed_example : IsIndexed managed × IsNumbered strokes managed
Reachable-IsIndexed_example = Reachable-IsIndexed strokes managed strokes_injective managed_reached

cancel_request_exact_example :
    (get (cancel_request "request" "client left" managed).operations "x" ≡ (
      if serves managed.operations "request" "x"
      then asked_to_stop "client left" (get managed.operations "x")
      else get managed.operations "x"))
    × (get (cancel_all "client left" managed).operations "x"
        ≡ asked_to_stop "client left" (get managed.operations "x"))
cancel_request_exact_example =
    cancel_request_exact strokes "request" "client left" "x" managed strokes_injective
      managed_reached
