-- ===== src/Kernel/Registry/Revision.antt =====
-- The list revision of `ToolRegistry`: a client that sees the same revision sees the same tools.
use byo_firmware_mcp.Prelude.{
  ◌<◌, String, ◌≡◌, refl, sym, ap, ◌∙◌, ◌⊎◌, inl, inr, Bool, true, false, not, some, List, map,
  ◌==◌, string_eq, list_eq, list_beq_iff, if_either, bool_eq, arith, eq_iff, Bool-cases,
  Option-cases, filter_congr_All, some-injective,
}
use byo_firmware_mcp.Prelude.Result.{Result}
use byo_firmware_mcp.Prelude.Dict.{get, put, All-of_get}
use byo_firmware_mcp.Kernel.Registry.{
  ToolDefinition, ToolRegistry, RegistryError, bump_if, boards_of, is_advertised, unlock, relock,
  reset, cleared, advertised, add, discard,
}
use byo_firmware_mcp.Kernel.Registry.Locks.{boards_of-put}
use byo_firmware_mcp.Kernel.Registry.Consistent.{IsConsistent}

abbrev WithBoards : ToolRegistry → String → List String → ToolRegistry
WithBoards r name boards = record r { unlocked_boards = put r.unlocked_boards name boards }

advertised_other :
    (r : ToolRegistry) (name n : String) (boards : List String) (e : ToolDefinition)
    → e.name ≡ n
    → (name == n) ≡ false
    → is_advertised (WithBoards r name boards) e ≡ is_advertised r e
unfolding is_advertised
advertised_other r name n boards e q p = rw (boards_of-put, q, p)

-- Where one tool's boards change and it stays advertised or hidden, so does each tool.
advertised_same :
    (r : ToolRegistry) (name : String) (boards : List String) (d : ToolDefinition)
    → IsConsistent r
    → get r.definitions name ≡ some d
    → is_advertised (WithBoards r name boards) d ≡ is_advertised r d
    → advertised (WithBoards r name boards) ≡ advertised r
unfolding advertised
advertised_same r name boards d c h same = ap (map (λ e. e.0)) (
    filter_congr_All (λ e. is_advertised r' e.1) (λ e. is_advertised r e.1) r.definitions
      (All-of_get (λ e. is_advertised r' e.1 ≡ is_advertised r e.1) r.definitions c.unique agree))
  where
    r' : ToolRegistry
    r' = WithBoards r name boards

    agree :
        (n : String) (e : ToolDefinition)
        → get r.definitions n ≡ some e
        → is_advertised r' e ≡ is_advertised r e
    agree n e k = elim (Bool-cases (name == n)) [
      | inl p ↦
          let q : d ≡ e =
            some-injective (sym h ∙ ap (get r.definitions) ((eq_iff name n).0 p) ∙ k) in
          rw (← q) same
      | inr p ↦ advertised_other r name n boards e (c.named n e k) p
    ]

-- The tools are the same, or the revision grew.
abbrev pub Tracked : ToolRegistry → ToolRegistry → Type 0
Tracked r r' = (advertised r' ≡ advertised r) ⊎ (r.list_revision < r'.list_revision)

bump-Tracked :
    (r r' : ToolRegistry) (t : Bool)
    → r'.list_revision ≡ r.list_revision
    → (t ≡ false → advertised r' ≡ advertised r)
    → Tracked r (bump_if t r')
unfolding bump_if
bump-Tracked r r' true e f = inr (rw (← e) (omega arith))
bump-Tracked r r' false e f = inl (f refl)

moved : (a b : Bool) → not (a == b) ≡ false → b ≡ a
moved a b h = ground (arith, bool_eq.beq_iff a b)

write-Tracked :
    (r : ToolRegistry) (name : String) (boards : List String) (d : ToolDefinition)
    → IsConsistent r
    → get r.definitions name ≡ some d
    → Tracked r (
        bump_if
          (not (is_advertised r d == is_advertised (WithBoards r name boards) d))
          (WithBoards r name boards))
write-Tracked r name boards d c h = bump-Tracked r (WithBoards r name boards) _ refl (λ e.
    advertised_same r name boards d c h
      (moved (is_advertised r d) (is_advertised (WithBoards r name boards) d) e))

-- Opening a tool for a board changes the advertised tools only if it raises the list revision.
pub unlock-Tracked :
    (r : ToolRegistry) (name board_id : String)
    → IsConsistent r
    → Tracked r (unlock r name board_id).1
unfolding unlock
unlock-Tracked r name board_id c = elim (Bool-cases (board_id == "")) [
  | inl p ↦ rw p (inl refl)
  | inr p ↦ elim (Option-cases (get r.definitions name)) [
    | inl q ↦ rw (p, q) (inl refl)
    | inr (d, q) ↦
        rw (p, q)
          (if_either (λ (x : Result RegistryError (Unit {0}) × ToolRegistry). Tracked r x.1)
            (not d.locked_by_default) _ _ (inl refl)
            (write-Tracked r name (add board_id (boards_of r name)) d c q))
  ]
]

relock-Tracked :
    (r : ToolRegistry) (name board_id : String)
    → IsConsistent r
    → Tracked r (relock r name board_id).1
unfolding relock
relock-Tracked r name board_id c = elim (Option-cases (get r.definitions name)) [
  | inl q ↦ rw (q, relock) (inl refl)
  | inr (d, q) ↦ rw (q, relock) (write-Tracked r name (discard board_id (boards_of r name)) d c q)
]

reset-Tracked : (r : ToolRegistry) → Tracked r (reset r)
unfolding reset
reset-Tracked r =
    bump-Tracked r (record r { unlocked_boards = cleared r.unlocked_boards }) _ refl
      (λ e.
        same (advertised r) (advertised (record r { unlocked_boards = cleared r.unlocked_boards }))
          e)
  where
    same : (xs ys : List String) → not (xs == ys) ≡ false → ys ≡ xs
    same xs ys e = ground (arith, list_beq_iff xs ys)

-- On a consistent registry, each of unlock, relock and reset that changes the advertised tools
-- raises the list revision.
pub locks-Tracked :
    (r : ToolRegistry) (name board_id : String)
    → IsConsistent r
    → Tracked r (unlock r name board_id).1
      × Tracked r (relock r name board_id).1
      × Tracked r (reset r)
locks-Tracked r name board_id c =
    (unlock-Tracked r name board_id c, relock-Tracked r name board_id c, reset-Tracked r)
