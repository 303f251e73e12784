-- ===== src/Kernel/Operations.antt =====
-- One managed operation of src/pyocd_debug_mcp/kernel/operations.py and the resources that it owns.
-- The lock of an operation makes each method one step; a moment of the clock is an argument.
pub mod Cancellation
pub mod Worker
pub mod Ends
pub mod Queued
pub mod Manager
pub mod Examples
use byo_firmware_mcp.Prelude.{
  ℕ, String, Bool, true, false, ◌&&◌, not, Option, none, some, List, [], ◌∷◌, ◌++◌, is_nil,
  if◌then◌else◌,
}
use byo_firmware_mcp.Prelude.Result.{Result, ok, raise}

pub data OperationState : Type 0 where
  queued running completed failed cancelled timed_out cleaned_up : OperationState

-- What a worker stops with: `OperationCancelledError` with its reason, another exception, or
-- `OperationCleanupError` with the errors of the cleanup.
pub data OperationError : Type 0 where
  cancelled_error other_error : String → OperationError
  cleanup_error : List String → OperationError

-- A cleanup callback by its name, and what it raises when it is called.
pub record Cleanup : Type 0 where
  pub name : String
  pub raises : Option String

-- What `terminate_process_group` and the removal of the marker answer for an owned process.
pub data Termination : Type 0 where
  confirmed unconfirmed : Termination
  termination_raises removal_raises : String → Termination

pub record OwnedSubprocess : Type 0 where
  pub marker : String
  pub termination : Termination

pub record OperationResources : Type 0 where
  pub stop_io : List Cleanup
  pub close_uart : List Cleanup
  pub close_debug : List Cleanup
  pub subprocesses : List OwnedSubprocess
  pub release_reset : List Cleanup
  pub restore_final_state : List Cleanup
  pub cleanup_errors : List String
  pub fatal_cleanup_errors : List String
  pub is_cleaned : Bool

-- `_run_cleanup`: the errors that the callbacks add; each of them is called.
unfoldable pub run_cleanup : List Cleanup → List String
run_cleanup [] = []
run_cleanup (c ∷ cs) = elim c.raises [ none ↦ run_cleanup cs | some e ↦ e ∷ run_cleanup cs ]

abbrev pub unconfirmed_message : String
unconfirmed_message =
    "RuntimeError: owned subprocess cleanup was not confirmed; recovery marker retained"

abbrev pub termination_error : Termination → Option String
termination_error confirmed = none
termination_error unconfirmed = some unconfirmed_message
termination_error (termination_raises e) = some e
termination_error (removal_raises e) = some e

-- The loop over the owned processes: the errors that it adds to both lists.
unfoldable pub terminate_all : List OwnedSubprocess → List String
terminate_all [] = []
terminate_all (p ∷ ps) =
    let rest = terminate_all ps in
    elim (termination_error p.termination) [ none ↦ rest | some e ↦ e ∷ rest ]

-- The markers that the loop removes: only those of processes that are confirmed to have ended.
unfoldable pub removed_markers : List OwnedSubprocess → List String
removed_markers [] = []
removed_markers (p ∷ ps) =
    let rest = removed_markers ps in
    elim p.termination [
      | confirmed ↦ p.marker ∷ rest
      | unconfirmed ↦ rest
      | termination_raises e ↦ rest
      | removal_raises e ↦ rest
    ]

abbrev pub to_restore : Bool → OperationResources → List Cleanup
to_restore true r = []
to_restore false r = r.restore_final_state

-- `OperationResources.cleanup`.
unfoldable pub clean : OperationResources → Bool → OperationResources
clean r preserve_halt = if r.is_cleaned then r else record r {
  cleanup_errors =
      r.cleanup_errors
      ++ run_cleanup r.stop_io
      ++ run_cleanup r.close_uart
      ++ run_cleanup r.close_debug
      ++ terminate_all r.subprocesses
      ++ run_cleanup r.release_reset
      ++ run_cleanup (to_restore preserve_halt r);
  fatal_cleanup_errors = r.fatal_cleanup_errors ++ terminate_all r.subprocesses;
  is_cleaned = true;
}

-- `result` holds what the handler returned, as a text.
pub record ManagedOperation : Type 0 where
  pub operation_id : String
  pub request_id : String
  pub tool_name : String
  pub board_id : Option String
  pub non_interruptible : Bool
  pub preserve_halt : Bool
  pub resources : OperationResources
  pub state : OperationState
  pub cancellation_reason : Option String
  pub completion_committed : Bool
  pub execution_started_at : Option ℕ
  pub handler_started_at : Option ℕ
  pub finished_at : Option ℕ
  pub cancellation_requested : Bool
  pub is_done : Bool
  pub result : Option String
  pub error : Option OperationError

abbrev pub or_first : Option String → String → String
or_first none reason = reason
or_first (some first) reason = first

unfoldable pub request_cancel : String → ManagedOperation → ManagedOperation
request_cancel reason op = record op {
  cancellation_reason = some (or_first op.cancellation_reason reason);
  cancellation_requested = true;
}

unfoldable pub stops : ManagedOperation → Bool
stops op = op.cancellation_requested && not op.non_interruptible && not op.completion_committed

-- An empty reason counts as none.
abbrev pub reason_text : Option String → String
reason_text none = "operation cancelled"
reason_text (some Prim.Native.String.[]) = "operation cancelled"
reason_text (some reason) = reason

unfoldable pub checkpoint : ManagedOperation → Result OperationError (Unit {0}) × ManagedOperation
checkpoint op =
    if stops op
    then (raise (cancelled_error (reason_text op.cancellation_reason)), op)
    else (ok tt, op)

unfoldable pub begin_non_interruptible :
    ManagedOperation → Result OperationError (Unit {0}) × ManagedOperation
begin_non_interruptible op = elim (checkpoint op).0 [
  | raise e ↦ (raise e, op)
  | ok _ ↦ (ok tt, record op { non_interruptible = true })
]

-- The action is a call that returns or raises; it is called only behind the checkpoint.
unfoldable pub run_if_not_cancelled :
    {A : Type 0}
    → (Unit {0} → Result OperationError A)
    → ManagedOperation
    → Result OperationError A × ManagedOperation
run_if_not_cancelled action op = elim (checkpoint op).0 [
  | raise e ↦ (raise e, op)
  | ok _ ↦ elim (action tt) [
    | raise e ↦ (raise e, op)
    | ok a ↦ (ok a, record op { completion_committed = true })
  ]
]

unfoldable pub mark_running : ℕ → ManagedOperation → ManagedOperation
mark_running now op = record op { state = running; execution_started_at = some now }

unfoldable pub mark_handler_started : ℕ → ManagedOperation → ManagedOperation
mark_handler_started now op = record op { handler_started_at = some now }

unfoldable pub finish : ℕ → OperationState → ManagedOperation → ManagedOperation
finish now s op = record op { state = s; finished_at = some now }

unfoldable pub cleanup : ManagedOperation → ManagedOperation
cleanup op = record op { resources = clean op.resources op.preserve_halt; state = cleaned_up }

-- A finalizer by what it raises; it is called only once the handler has started.
unfoldable pub run_finalizer : Option (Option String) → ManagedOperation → ManagedOperation
run_finalizer none op = op
run_finalizer (some none) op = op
run_finalizer (some (some e)) op = elim op.handler_started_at [
  | none ↦ op
  | some _ ↦ record op {
    resources = record op.resources { cleanup_errors = op.resources.cleanup_errors ++ e ∷ [] };
  }
]
