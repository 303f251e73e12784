-- ===== src/Kernel/Registry/Locks.antt =====
-- Locks of `ToolRegistry`: `unlock` and `relock` move one tool and one board, `reset` locks all.
use byo_firmware_mcp.Prelude.{
  String, ◌≡◌, refl, ◌∙◌, ◌≢◌, inl, inr, Bool, true, false, ◌&&◌, ◌||◌, not, Option, none, some,
  List, [], ◌∷◌, ◌==◌, string_eq, arith, eq_iff, Bool-cases, if◌then◌else◌, filter,
}
use byo_firmware_mcp.Prelude.Result.{ok, raise}
use byo_firmware_mcp.Prelude.Dict.{get, put, get-put}
use byo_firmware_mcp.Prelude.Sorting.{contains}
use byo_firmware_mcp.Kernel.Registry.{
  ToolDefinition, ToolRegistry, unknown_tool, bump_if, boards_of, add, discard, unlock, relock,
  reset, cleared, is_unlocked,
}
use byo_firmware_mcp.Kernel.Registry.Consistent.{get-cleared}

pub contains-add :
    (b board : String) (boards : List String)
    → contains b (add board boards) ≡ (b == board || contains b boards)
unfolding add contains
contains-add b board boards = elim (Bool-cases (contains board boards)) [
  | inl p ↦ elim (Bool-cases (b == board)) [
    | inl q ↦ rw (p, q) (rw ((eq_iff b board).0 q) p)
    | inr q ↦ rw (p, q)
  ]
  | inr p ↦ rw p (ground arith)
]

pub contains-discard :
    (b board : String) (boards : List String)
    → contains b (discard board boards) ≡ (not (b == board) && contains b boards)
unfolding discard filter contains
contains-discard b board [] = ground arith
contains-discard b board (x ∷ xs) =
    ground (arith, contains-discard b board xs, eq_iff b board, eq_iff x board, eq_iff b x)

-- The boards that a write to one name leaves.
pub boards_of-put :
    (r : ToolRegistry) (name j : String) (boards : List String)
    → boards_of (record r { unlocked_boards = put r.unlocked_boards name boards }) j
      ≡ (if name == j then boards else boards_of r j)
unfolding boards_of
boards_of-put r name j boards = ground (arith, get-put r.unlocked_boards name boards j)

bump-is_unlocked :
    (t : Bool) (r : ToolRegistry) (j : String) (b : Option String)
    → is_unlocked (bump_if t r) j b ≡ is_unlocked r j b
unfolding bump_if is_unlocked boards_of
bump-is_unlocked true r j b = refl
bump-is_unlocked false r j b = refl

-- The locks after a write of one tool's boards.
is_unlocked-put :
    (r : ToolRegistry) (t : Bool) (name j b : String) (boards : List String)
    → is_unlocked
        (bump_if t (record r { unlocked_boards = put r.unlocked_boards name boards }))
        j
        (some b)
      ≡ (elim (get r.definitions j) [
        | none ↦ raise unknown_tool
        | some d ↦
            if not d.locked_by_default
            then ok true
            else ok (contains b (if name == j then boards else boards_of r j))
      ])
is_unlocked-put r t name j b boards =
    bump-is_unlocked t _ j (some b)
    ∙ (unfold is_unlocked in ground (arith, boards_of-put r name j boards))

-- After unlock of a registered tool for a board with a non-empty name, the tool is open for that
-- board, and every other pair of a tool and a board is as before.
pub unlock_exact :
    (r : ToolRegistry) (name board_id : String) (d : ToolDefinition) (j b : String)
    → get r.definitions name ≡ some d
    → board_id ≢ ""
    → is_unlocked (unlock r name board_id).1 j (some b)
      ≡ (if name == j && b == board_id then ok true else is_unlocked r j (some b))
unfolding unlock
unlock_exact r name board_id d j b h n = elim (Bool-cases (board_id == "")) [
  | inl p ↦ absurd (n ((eq_iff board_id "").0 p))
  | inr p ↦ elim (Bool-cases d.locked_by_default) [
    | inl l ↦
        rw (p, h, unlock, l, is_unlocked-put)
          (unfold is_unlocked in
            ground (arith, contains-add b board_id (boards_of r name), eq_iff name j))
    | inr l ↦ rw (p, h, unlock, l) (unfold is_unlocked in ground (arith, eq_iff name j))
  ]
]

-- After relock of a registered tool for a board, the tool is closed for that board unless it is
-- never locked, and every other pair of a tool and a board is as before.
pub relock_exact :
    (r : ToolRegistry) (name board_id : String) (d : ToolDefinition) (j b : String)
    → get r.definitions name ≡ some d
    → is_unlocked (relock r name board_id).1 j (some b) ≡ (
        if name == j && b == board_id
        then ok (not d.locked_by_default)
        else is_unlocked r j (some b))
unfolding relock
relock_exact r name board_id d j b h =
    rw (h, relock, is_unlocked-put)
      (unfold is_unlocked in
        ground (arith, contains-discard b board_id (boards_of r name), eq_iff name j))

boards_of-cleared :
    (r : ToolRegistry) (j : String)
    → boards_of (record r { unlocked_boards = cleared r.unlocked_boards }) j ≡ []
unfolding boards_of
boards_of-cleared r j = ground (arith, get-cleared r.unlocked_boards j)

-- After reset a registered tool that is locked by default is closed, and another is open, for
-- every board and for none.
pub reset_locks_all :
    (r : ToolRegistry) (name : String) (d : ToolDefinition) (board : Option String)
    → get r.definitions name ≡ some d
    → is_unlocked (reset r) name board ≡ ok (not d.locked_by_default)
unfolding reset
reset_locks_all r name d board h =
    bump-is_unlocked _ (record r { unlocked_boards = cleared r.unlocked_boards }) name board
    ∙ (unfold is_unlocked in unfold contains in ground (arith, boards_of-cleared r name))
