-- ===== src/Kernel/Operations/Manager/Index.antt =====
-- The index by requests of an operation manager in kernel/operations.py.
use byo_firmware_mcp.Prelude.{
  ℕ, ◌≤◌, String, ◌≡◌, refl, sym, ap, ◌∙◌, inl, inr, Bool, true, false, Option, none, some, List,
  [], ◌∷◌, is_nil, arith, ◌==◌, string_eq, eq_iff, if◌then◌else◌, Bool-cases, Option-cases,
}
use byo_firmware_mcp.Prelude.Dict.{Dict, get, put, pop, get-put, get-pop}
use byo_firmware_mcp.Prelude.Sorting.{contains}
use byo_firmware_mcp.Prelude.{filter}
use byo_firmware_mcp.Kernel.Registry.{add, discard}
use byo_firmware_mcp.Kernel.Registry.Locks.{contains-add, contains-discard}
use byo_firmware_mcp.Kernel.Operations.{ManagedOperation, request_cancel}
use byo_firmware_mcp.Kernel.Operations.Manager.{
  OperationManager, new_manager, ids_of, ids_in, enter, create, new_operation, or_operation,
  without_id, finish_operation, cancel_ids, cancel_request, cancel_each, cancel_all,
  write_operation, Reachable, start, created, advanced, finished, cancelled, cancelled_all,
}

-- The operation under an identifier serves the request.
unfoldable pub serves : Dict String ManagedOperation → String → String → Bool
serves operations request id = elim (get operations id) [
  | none ↦ false
  | some op ↦ op.request_id == request
]

-- The index lists the operations of each request and no other.
abbrev pub IsIndexed : OperationManager → Type 0
IsIndexed m =
    (request id : String) → contains id (ids_of m request) ≡ serves m.operations request id

-- The identifiers that were given out, so that a new one is fresh.
abbrev pub IsNumbered : (ℕ → String) → OperationManager → Type 0
IsNumbered identifier m = (n : ℕ) → m.sequence ≤ n → get m.operations (identifier n) ≡ none

serves-put :
    (ops : Dict String ManagedOperation) (op : ManagedOperation) (k request id : String)
    → serves (put ops k op) request id
      ≡ (if k == id then op.request_id == request else serves ops request id)
unfolding serves
serves-put ops op k request id = ground (arith, get-put ops k op id)

serves-pop :
    (ops : Dict String ManagedOperation) (k request id : String)
    → serves (pop ops k) request id ≡ (if k == id then false else serves ops request id)
unfolding serves
serves-pop ops k request id = ground (arith, get-pop ops k id)

serves-some :
    (ops : Dict String ManagedOperation) (id : String) (op : ManagedOperation) (request : String)
    → get ops id ≡ some op
    → serves ops request id ≡ (op.request_id == request)
unfolding serves
serves-some ops id op request h = ground arith

enter-IsIndexed :
    (op : ManagedOperation) (m : OperationManager)
    → get m.operations op.operation_id ≡ none
    → IsIndexed m
    → IsIndexed (enter op m)
unfolding enter ids_of ids_in serves
enter-IsIndexed op m fresh h request id = ground (
  arith,
  get-put m.operations op.operation_id op id,
  get-put m.operations_by_request op.request_id (add op.operation_id (ids_of m op.request_id))
      request,
  contains-add id op.operation_id (ids_of m op.request_id),
  h request id,
  eq_iff op.request_id request,
  eq_iff op.operation_id id,
  eq_iff id op.operation_id,
)

discard-nil : (id : String) → discard id [] ≡ []
unfolding discard filter
discard-nil id = refl

is_nil-eq : (xs : List String) → is_nil xs ≡ true → xs ≡ []
is_nil-eq [] h = refl
is_nil-eq (x ∷ xs) h = ground arith

ids_without :
    (d : Dict String (List String)) (request id other : String)
    → ids_in (without_id d request id) other
      ≡ (if request == other then discard id (ids_in d other) else ids_in d other)
unfolding ids_in without_id
ids_without d request id other = elim (Option-cases (get d request)) [
  | inl e ↦ ground (arith, eq_iff request other, discard-nil id)
  | inr (ids, e) ↦ elim (Bool-cases (is_nil (discard id ids))) [
    | inl k ↦
        ground (arith, eq_iff request other, get-pop d request other, is_nil-eq (discard id ids) k)
    | inr k ↦ ground (arith, eq_iff request other, get-put d request (discard id ids) other)
  ]
]

finish-IsIndexed :
    (op stored : ManagedOperation) (m : OperationManager)
    → get m.operations op.operation_id ≡ some stored
    → op.request_id ≡ stored.request_id
    → IsIndexed m
    → IsIndexed (finish_operation op m)
unfolding finish_operation ids_of
finish-IsIndexed op stored m k same h request id = ground (
  arith,
  ids_without m.operations_by_request op.request_id op.operation_id request,
  contains-discard id op.operation_id (ids_in m.operations_by_request request),
  serves-pop m.operations op.operation_id request id,
  h request id,
  serves-some m.operations op.operation_id stored request k,
  eq_iff op.request_id request,
  eq_iff op.operation_id id,
  eq_iff id op.operation_id,
  eq_iff stored.request_id request,
)

-- The operation under an identifier with the request to stop.
abbrev pub stopped : String → Option ManagedOperation → Option ManagedOperation
stopped reason none = none
stopped reason (some op) = some (request_cancel reason op)

request_cancel-twice :
    (reason : String) (op : ManagedOperation)
    → request_cancel reason (request_cancel reason op) ≡ request_cancel reason op
unfolding request_cancel
request_cancel-twice reason op = refl

stopped-twice :
    (reason : String) (o : Option ManagedOperation)
    → stopped reason (stopped reason o) ≡ stopped reason o
stopped-twice reason none = refl
stopped-twice reason (some op) = ap some (request_cancel-twice reason op)

put-stopped :
    (reason : String) (ops : Dict String ManagedOperation) (x id : String) (op : ManagedOperation)
    → get ops x ≡ some op
    → get (put ops x (request_cancel reason op)) id
      ≡ (if x == id then stopped reason (get ops id) else get ops id)
put-stopped reason ops x id op h =
    ground (arith, get-put ops x (request_cancel reason op) id, eq_iff x id)

pub cancel_ids-get :
    (reason : String) (ids : List String) (ops : Dict String ManagedOperation) (id : String)
    → get (cancel_ids reason ids ops) id
      ≡ (if contains id ids then stopped reason (get ops id) else get ops id)
unfolding cancel_ids contains
cancel_ids-get reason [] ops id = refl
cancel_ids-get reason (x ∷ xs) ops id = elim (Option-cases (get ops x)) [
  | inl e ↦ ground (arith, cancel_ids-get reason xs ops id, eq_iff id x)
  | inr (op, e) ↦ ground (
    arith,
    cancel_ids-get reason xs (put ops x (request_cancel reason op)) id,
    put-stopped reason ops x id op e,
    stopped-twice reason (get ops id),
    eq_iff id x,
    eq_iff x id,
  )
]

serves-stopped :
    (reason : String) (ops others : Dict String ManagedOperation) (request id : String) (b : Bool)
    → get others id ≡ (if b then stopped reason (get ops id) else get ops id)
    → serves others request id ≡ serves ops request id
unfolding serves request_cancel
serves-stopped reason ops others request id b h = ground arith

cancel-IsIndexed :
    (request reason : String) (m : OperationManager)
    → IsIndexed m
    → IsIndexed (cancel_request request reason m)
unfolding cancel_request ids_of
cancel-IsIndexed request reason m h other id =
    h other id
    ∙ sym (
        serves-stopped reason m.operations _ other id (contains id (ids_of m request))
          (cancel_ids-get reason (ids_of m request) m.operations id))

pub cancel_each-get :
    (reason : String) (ops : Dict String ManagedOperation) (id : String)
    → get (cancel_each reason ops) id ≡ stopped reason (get ops id)
unfolding cancel_each get
cancel_each-get reason [] id = refl
cancel_each-get reason ((k, op) ∷ ops) id = ground (arith, cancel_each-get reason ops id)

cancel_all-IsIndexed :
    (reason : String) (m : OperationManager) → IsIndexed m → IsIndexed (cancel_all reason m)
unfolding cancel_all ids_of
cancel_all-IsIndexed reason m h request id =
    h request id
    ∙ sym (
        serves-stopped reason m.operations _ request id true
          (cancel_each-get reason m.operations id))

write-IsIndexed :
    (id : String) (stored op : ManagedOperation) (m : OperationManager)
    → get m.operations id ≡ some stored
    → op.request_id ≡ stored.request_id
    → IsIndexed m
    → IsIndexed (write_operation id op m)
unfolding write_operation ids_of
write-IsIndexed id stored op m found same h request other = ground (
  arith,
  h request other,
  serves-put m.operations op id request other,
  serves-some m.operations id stored request found,
  eq_iff id other,
  eq_iff op.request_id request,
  eq_iff stored.request_id request,
)

create-IsNumbered :
    (identifier : ℕ → String) (op : ManagedOperation) (m : OperationManager)
    → ((i j : ℕ) → identifier i ≡ identifier j → i ≡ j)
    → op.operation_id ≡ identifier m.sequence
    → IsNumbered identifier m
    → IsNumbered identifier (enter op m)
unfolding enter
create-IsNumbered identifier op m injective e h n p =
    elim (Bool-cases (op.operation_id == identifier n)) [
      | inl k ↦
          let same : m.sequence ≡ n =
            injective m.sequence n (sym e ∙ (eq_iff op.operation_id (identifier n)).0 k) in
          absurd (omega arith)
      | inr k ↦ get-put m.operations op.operation_id op (identifier n) ∙ rw k (h n (omega arith))
    ]

finish-IsNumbered :
    (identifier : ℕ → String) (op : ManagedOperation) (m : OperationManager)
    → IsNumbered identifier m
    → IsNumbered identifier (finish_operation op m)
unfolding finish_operation
finish-IsNumbered identifier op m h n p =
    ground (arith, get-pop m.operations op.operation_id (identifier n), h n p)

cancel-IsNumbered :
    (identifier : ℕ → String) (request reason : String) (m : OperationManager)
    → IsNumbered identifier m
    → IsNumbered identifier (cancel_request request reason m)
unfolding cancel_request
cancel-IsNumbered identifier request reason m h n p =
    ground (arith, cancel_ids-get reason (ids_of m request) m.operations (identifier n), h n p)

cancel_all-IsNumbered :
    (identifier : ℕ → String) (reason : String) (m : OperationManager)
    → IsNumbered identifier m
    → IsNumbered identifier (cancel_all reason m)
unfolding cancel_all
cancel_all-IsNumbered identifier reason m h n p =
    cancel_each-get reason m.operations (identifier n) ∙ ap (stopped reason) (h n p)

write-IsNumbered :
    (identifier : ℕ → String) (id : String) (stored op : ManagedOperation) (m : OperationManager)
    → get m.operations id ≡ some stored
    → IsNumbered identifier m
    → IsNumbered identifier (write_operation id op m)
unfolding write_operation
write-IsNumbered identifier id stored op m found h n p =
    ground (arith, get-put m.operations id op (identifier n), h n p, eq_iff id (identifier n))

create-holds :
    (identifier : ℕ → String) (request : Option String) (tool : String) (board : Option String)
    (m : OperationManager)
    → ((i j : ℕ) → identifier i ≡ identifier j → i ≡ j)
    → IsIndexed m
    → IsNumbered identifier m
    → IsIndexed (create identifier request tool board m).1
      × IsNumbered identifier (create identifier request tool board m).1
unfolding create new_operation
create-holds identifier request tool board m injective indexed numbered =
    let id : String = identifier m.sequence in
    let op : ManagedOperation = new_operation id (or_operation request id) tool board in
    (
      enter-IsIndexed op m (numbered m.sequence (omega arith)) indexed,
      create-IsNumbered identifier op m injective refl numbered,
    )

new-holds : (identifier : ℕ → String) → IsIndexed new_manager × IsNumbered identifier new_manager
unfolding ids_of ids_in serves get contains
new-holds identifier = (λ request id. refl, λ n p. refl)

-- Whatever calls of the manager were made, and whatever the operations under way did in between,
-- the index of the requests lists the operations under way of each request and no other, and no
-- identifier that is still to be given out is in use; different numbers must have different
-- identifiers.
pub Reachable-IsIndexed :
    (identifier : ℕ → String) (m : OperationManager)
    → ((i j : ℕ) → identifier i ≡ identifier j → i ≡ j)
    → Reachable identifier m
    → IsIndexed m × IsNumbered identifier m
Reachable-IsIndexed identifier _ injective start = new-holds identifier
Reachable-IsIndexed identifier _ injective (created request tool board m r) =
    let (indexed, numbered) = Reachable-IsIndexed identifier m injective r in
    create-holds identifier request tool board m injective indexed numbered
Reachable-IsIndexed identifier _ injective (advanced id stored op m k _ same r) =
    let (indexed, numbered) = Reachable-IsIndexed identifier m injective r in
    (
      write-IsIndexed id stored op m k same indexed,
      write-IsNumbered identifier id stored op m k numbered,
    )
Reachable-IsIndexed identifier _ injective (finished op stored m k same r) =
    let (indexed, numbered) = Reachable-IsIndexed identifier m injective r in
    (finish-IsIndexed op stored m k same indexed, finish-IsNumbered identifier op m numbered)
Reachable-IsIndexed identifier _ injective (cancelled request reason m r) =
    let (indexed, numbered) = Reachable-IsIndexed identifier m injective r in
    (
      cancel-IsIndexed request reason m indexed,
      cancel-IsNumbered identifier request reason m numbered,
    )
Reachable-IsIndexed identifier _ injective (cancelled_all reason m r) =
    let (indexed, numbered) = Reachable-IsIndexed identifier m injective r in
    (cancel_all-IsIndexed reason m indexed, cancel_all-IsNumbered identifier reason m numbered)
