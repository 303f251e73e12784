-- ===== src/Kernel/Operations/Manager.antt =====
-- `OperationManager` of kernel/operations.py: the operations under way, by their own identifier and by
-- the request that they serve. The text of an identifier, "op-" and a number, is a parameter; the number
-- of operations that a cancellation answers is left out.
pub mod Index
pub mod Cancel
use byo_firmware_mcp.Prelude.{
  ℕ, suc, ◌<◌, String, ◌≡◌, Bool, true, false, Option, none, some, List, [], ◌∷◌, is_nil, length,
  ◌==◌, string_eq, if◌then◌else◌,
}
use byo_firmware_mcp.Prelude.Dict.{Dict, get, put, pop}
use byo_firmware_mcp.Prelude.Sorting.{contains}
use byo_firmware_mcp.Prelude.Text.{is_empty}
use byo_firmware_mcp.Kernel.Registry.{add, discard}
use byo_firmware_mcp.Kernel.Operations.{
  OperationState, queued, OperationResources, ManagedOperation, request_cancel,
}

pub record OperationManager : Type 0 where
  pub sequence : ℕ
  pub operations : Dict String ManagedOperation
  pub operations_by_request : Dict String (List String)

abbrev pub new_manager : OperationManager
new_manager = record { sequence = 1; operations = []; operations_by_request = [] }

unfoldable pub ids_in : Dict String (List String) → String → List String
ids_in by_request request = elim (get by_request request) [ none ↦ [] | some ids ↦ ids ]

unfoldable pub ids_of : OperationManager → String → List String
ids_of m request = ids_in m.operations_by_request request

abbrev pub no_resources : OperationResources
no_resources = record {
  stop_io = [];
  close_uart = [];
  close_debug = [];
  subprocesses = [];
  release_reset = [];
  restore_final_state = [];
  cleanup_errors = [];
  fatal_cleanup_errors = [];
  is_cleaned = false;
}

-- `request_id or operation_id`
abbrev pub or_operation : Option String → String → String
or_operation none id = id
or_operation (some request) id = if is_empty request then id else request

-- `_INTENTIONAL_HALT_TOOLS`
abbrev pub intentional_halt_tools : List String
intentional_halt_tools = "halt" ∷ "reset_and_halt" ∷ "connect_under_reset" ∷ "set_breakpoint" ∷ []

unfoldable pub new_operation : String → String → String → Option String → ManagedOperation
new_operation id request tool board = record {
  operation_id = id;
  request_id = request;
  tool_name = tool;
  board_id = board;
  non_interruptible = false;
  preserve_halt = contains tool intentional_halt_tools;
  resources = no_resources;
  state = queued;
  cancellation_reason = none;
  completion_committed = false;
  execution_started_at = none;
  handler_started_at = none;
  finished_at = none;
  cancellation_requested = false;
  is_done = false;
  result = none;
  error = none;
}

-- The operation is entered under its identifier and under its request.
unfoldable pub enter : ManagedOperation → OperationManager → OperationManager
enter op m = record {
  sequence = suc m.sequence;
  operations = put m.operations op.operation_id op;
  operations_by_request =
      put m.operations_by_request op.request_id (add op.operation_id (ids_of m op.request_id));
}

unfoldable pub create :
    (ℕ → String)
    → Option String
    → String
    → Option String
    → OperationManager
    → ManagedOperation × OperationManager
create identifier request tool board m =
    let id = identifier m.sequence in
    let op = new_operation id (or_operation request id) tool board in (op, enter op m)

unfoldable pub without_id : Dict String (List String) → String → String → Dict String (List String)
without_id by_request request id = elim (get by_request request) [
  | none ↦ by_request
  | some ids ↦
      if is_nil (discard id ids)
      then pop by_request request
      else put by_request request (discard id ids)
]

-- `OperationManager.finish`
unfoldable pub finish_operation : ManagedOperation → OperationManager → OperationManager
finish_operation op m = record {
  sequence = m.sequence;
  operations = pop m.operations op.operation_id;
  operations_by_request = without_id m.operations_by_request op.request_id op.operation_id;
}

unfoldable pub cancel_ids :
    String → List String → Dict String ManagedOperation → Dict String ManagedOperation
cancel_ids reason [] operations = operations
cancel_ids reason (id ∷ ids) operations = elim (get operations id) [
  | none ↦ cancel_ids reason ids operations
  | some op ↦ cancel_ids reason ids (put operations id (request_cancel reason op))
]

unfoldable pub cancel_request : String → String → OperationManager → OperationManager
cancel_request request reason m = record {
  sequence = m.sequence;
  operations = cancel_ids reason (ids_of m request) m.operations;
  operations_by_request = m.operations_by_request;
}

unfoldable pub cancel_each : String → Dict String ManagedOperation → Dict String ManagedOperation
cancel_each reason [] = []
cancel_each reason ((id, op) ∷ operations) =
    (id, request_cancel reason op) ∷ cancel_each reason operations

unfoldable pub cancel_all : String → OperationManager → OperationManager
cancel_all reason m = record {
  sequence = m.sequence;
  operations = cancel_each reason m.operations;
  operations_by_request = m.operations_by_request;
}

-- An operation under way is the same object in the manager and in its worker: what the worker or the
-- handler writes to it stands in the manager.
unfoldable pub write_operation : String → ManagedOperation → OperationManager → OperationManager
write_operation id op m = record {
  sequence = m.sequence;
  operations = put m.operations id op;
  operations_by_request = m.operations_by_request;
}

-- The managers that the program reaches. Between the calls of the manager, a worker may change any
-- field of an operation under way but its identifier and its request, which the code never writes. An
-- operation that ends is one that is under way, by its identifier and its request.
pub data Reachable (identifier : ℕ → String) : OperationManager → Type 0 where
  start : Reachable identifier new_manager
  created :
      (request : Option String) (tool : String) (board : Option String) (m : OperationManager)
      → Reachable identifier m
      → Reachable identifier (create identifier request tool board m).1
  advanced :
      (id : String) (stored op : ManagedOperation) (m : OperationManager)
      → get m.operations id ≡ some stored
      → op.operation_id ≡ stored.operation_id
      → op.request_id ≡ stored.request_id
      → Reachable identifier m
      → Reachable identifier (write_operation id op m)
  finished :
      (op stored : ManagedOperation) (m : OperationManager)
      → get m.operations op.operation_id ≡ some stored
      → op.request_id ≡ stored.request_id
      → Reachable identifier m
      → Reachable identifier (finish_operation op m)
  cancelled :
      (request reason : String) (m : OperationManager)
      → Reachable identifier m
      → Reachable identifier (cancel_request request reason m)
  cancelled_all :
      (reason : String) (m : OperationManager)
      → Reachable identifier m
      → Reachable identifier (cancel_all reason m)
