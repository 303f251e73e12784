-- ===== src/Kernel/Operations/Manager/Cancel.antt =====
-- Whom the cancellations of an operation manager in kernel/operations.py reach.
use byo_firmware_mcp.Prelude.{
  ℕ, String, ◌≡◌, refl, sym, ap, ◌∙◌, true, Option, none, some, string_eq, if◌then◌else◌,
}
use byo_firmware_mcp.Prelude.Dict.{get}
use byo_firmware_mcp.Kernel.Operations.{ManagedOperation, request_cancel, or_first}
use byo_firmware_mcp.Kernel.Operations.Manager.{
  OperationManager, ids_of, cancel_request, cancel_all, Reachable,
}
use byo_firmware_mcp.Kernel.Operations.Manager.Index.{
  IsIndexed, serves, stopped, cancel_ids-get, cancel_each-get, Reachable-IsIndexed,
}

-- An operation that was asked to stop: the first reason stays, and nothing else changes.
abbrev pub with_reason : String → ManagedOperation → Option String → ManagedOperation
with_reason reason op none = record op {
  cancellation_requested = true;
  cancellation_reason = some reason;
}
with_reason reason op (some first) = record op { cancellation_requested = true }

abbrev pub asked_to_stop : String → Option ManagedOperation → Option ManagedOperation
asked_to_stop reason none = none
asked_to_stop reason (some op) = some (with_reason reason op op.cancellation_reason)

asked-with :
    (reason : String) (op : ManagedOperation) (o : Option String)
    → op.cancellation_reason ≡ o
    → ◌≡◌ {A = ManagedOperation}
        (record op {
          cancellation_reason = some (or_first o reason);
          cancellation_requested = true;
        })
        (with_reason reason op o)
asked-with reason op none h = refl
asked-with reason op (some first) h =
    ap (λ r. record op { cancellation_reason = r; cancellation_requested = true }) (sym h)

request_cancel-asks :
    (reason : String) (op : ManagedOperation)
    → request_cancel reason op ≡ with_reason reason op op.cancellation_reason
unfolding request_cancel
request_cancel-asks reason op = asked-with reason op op.cancellation_reason refl

stopped-asked :
    (reason : String) (o : Option ManagedOperation) → stopped reason o ≡ asked_to_stop reason o
stopped-asked reason none = refl
stopped-asked reason (some op) = ap some (request_cancel-asks reason op)

-- Whatever calls of the manager were made before, and in whatever state the operations under way
-- are, a cancellation of a request asks exactly those that serve it to stop, and the cancellation
-- of all asks every one: an operation that is asked has its cancellation requested, with that
-- reason unless it has one already, and every other one, and every other field, is as it was.
-- Different numbers must have different identifiers.
pub cancel_request_exact :
    (identifier : ℕ → String) (request reason id : String) (m : OperationManager)
    → ((i j : ℕ) → identifier i ≡ identifier j → i ≡ j)
    → Reachable identifier m
    → (get (cancel_request request reason m).operations id ≡ (
        if serves m.operations request id
        then asked_to_stop reason (get m.operations id)
        else get m.operations id))
      × (get (cancel_all reason m).operations id ≡ asked_to_stop reason (get m.operations id))
unfolding cancel_request cancel_all
cancel_request_exact identifier request reason id m injective r =
    let indexed : IsIndexed m = (Reachable-IsIndexed identifier m injective r).0 in
    (
      (rw (indexed request id) at (cancel_ids-get reason (ids_of m request) m.operations id))
          ∙ ap (λ o. if serves m.operations request id then o else get m.operations id)
              (stopped-asked reason (get m.operations id)),
      cancel_each-get reason m.operations id ∙ stopped-asked reason (get m.operations id),
    )
