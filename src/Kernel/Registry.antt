-- ===== src/Kernel/Registry.antt =====
-- `ToolRegistry` of src/pyocd_debug_mcp/kernel/registry.py: which tools a client sees, and which
-- boards each locked tool is open for. The lock of the source makes each method one step.
pub mod Consistent
pub mod Locks
pub mod Revision
pub mod Examples
use byo_firmware_mcp.Prelude.{
  ℕ, suc, String, ◌≡◌, Bool, true, false, ◌&&◌, ◌||◌, not, Option, none, some, List, [], ◌∷◌, ◌==◌,
  map, filter, is_nil, Eq, string_eq, option_eq, list_eq, bool_eq, if◌then◌else◌, eq_iff, arith,
  ◌↔◌,
}
use byo_firmware_mcp.Prelude.Result.{Result, ok, raise}
use byo_firmware_mcp.Prelude.Dict.{Dict, get, put, pop}
use byo_firmware_mcp.Prelude.Sorting.{contains}

-- `ValueError` and `ToolError` of the registry.
pub data RegistryError : Type 0 where
  empty_name empty_board different_policy unknown_tool locked_tool : RegistryError

pub record ToolDefinition : Type 0 where
  pub name : String
  pub hidden_by_default : Bool
  pub locked_by_default : Bool
  pub prerequisite : Option String

abbrev definition_beq : ToolDefinition → ToolDefinition → Bool
definition_beq a b =
    a.name == b.name
    && a.hidden_by_default == b.hidden_by_default
    && a.locked_by_default == b.locked_by_default
    && a.prerequisite == b.prerequisite

-- A set of boards is a list without repetition.
pub record ToolRegistry : Type 0 where
  pub definitions : Dict String ToolDefinition
  pub unlocked_boards : Dict String (List String)
  pub list_revision : ℕ

abbrev pub new_registry : ToolRegistry
new_registry = record { definitions = []; unlocked_boards = []; list_revision = 0 }

-- `_unlocked_boards[name]`, for a registered name; `IsConsistent` says that the key is there.
unfoldable pub boards_of : ToolRegistry → String → List String
boards_of r name = elim (get r.unlocked_boards name) [ none ↦ [] | some boards ↦ boards ]

unfoldable pub is_advertised : ToolRegistry → ToolDefinition → Bool
is_advertised r d = not d.hidden_by_default || not (is_nil (boards_of r d.name))

-- `_list_revision += 1` where the test says so.
unfoldable pub bump_if : Bool → ToolRegistry → ToolRegistry
bump_if moved r = if moved then record r { list_revision = suc r.list_revision } else r

unfoldable pub registered : ToolRegistry → String → Option ToolDefinition
registered r name = get r.definitions name

unfoldable pub is_registered : ToolRegistry → String → Bool
is_registered r name = elim (get r.definitions name) [ none ↦ false | some d ↦ true ]

-- `prerequisite or f"{name}-plan"` of a locked tool; an empty text is no prerequisite.
unfoldable pub prerequisite_of : String → Bool → Option String → Option String
prerequisite_of name locked prerequisite =
    if locked && (elim prerequisite [ none ↦ true | some p ↦ p == "" ])
    then some (Prim.Native.String.◌++◌ name "-plan")
    else prerequisite

unfoldable pub register :
    ToolRegistry
    → String
    → Bool
    → Bool
    → Option String
    → Result RegistryError ToolDefinition × ToolRegistry
register r name hidden locked prerequisite =
    let d : ToolDefinition = record {
      name = name;
      hidden_by_default = hidden;
      locked_by_default = locked;
      prerequisite = prerequisite_of name locked prerequisite;
    } in
    if name == "" then (raise empty_name, r) else elim (get r.definitions name) [
      | some existing ↦
          (if definition_beq existing d then ok existing else raise different_policy, r)
      | none ↦ (
        ok d,
        bump_if (not hidden) (record r {
          definitions = put r.definitions name d;
          unlocked_boards = put r.unlocked_boards name [];
        }),
      )
    ]

unfoldable pub configure :
    ToolRegistry
    → String
    → Bool
    → Bool
    → Option String
    → Result RegistryError ToolDefinition × ToolRegistry
configure r name hidden locked prerequisite = elim (get r.definitions name) [
  | none ↦ (raise unknown_tool, r)
  | some current ↦
      let updated : ToolDefinition = record current {
        hidden_by_default = hidden;
        locked_by_default = locked;
        prerequisite = prerequisite_of name locked prerequisite;
      } in
      let r' : ToolRegistry = record r {
        definitions = put r.definitions name updated;
        unlocked_boards = if locked then r.unlocked_boards else put r.unlocked_boards name [];
      } in
      (ok updated, bump_if (not (is_advertised r current == is_advertised r' updated)) r')
]

unfoldable pub unregister : ToolRegistry → String → Result RegistryError (Unit {0}) × ToolRegistry
unregister r name = elim (get r.definitions name) [
  | none ↦ (raise unknown_tool, r)
  | some d ↦ (
    ok tt,
    bump_if (is_advertised r d) (record r {
      definitions = pop r.definitions name;
      unlocked_boards = pop r.unlocked_boards name;
    }),
  )
]

unfoldable pub advertised : ToolRegistry → List String
advertised r = map (λ e. e.0) (filter (λ e. is_advertised r e.1) r.definitions)

unfoldable pub add : String → List String → List String
add board boards = if contains board boards then boards else board ∷ boards

unfoldable pub discard : String → List String → List String
discard board boards = filter (λ b. not (b == board)) boards

unfoldable pub unlock :
    ToolRegistry → String → String → Result RegistryError (Unit {0}) × ToolRegistry
unlock r name board_id =
    if board_id == "" then (raise empty_board, r) else elim (get r.definitions name) [
      | none ↦ (raise unknown_tool, r)
      | some d ↦
          if not d.locked_by_default
          then (ok tt, r)
          else let r' : ToolRegistry = record r {
            unlocked_boards = put r.unlocked_boards name (add board_id (boards_of r name));
          } in
            (ok tt, bump_if (not (is_advertised r d == is_advertised r' d)) r')
    ]

unfoldable pub relock :
    ToolRegistry → String → String → Result RegistryError (Unit {0}) × ToolRegistry
relock r name board_id = elim (get r.definitions name) [
  | none ↦ (raise unknown_tool, r)
  | some d ↦
      let r' : ToolRegistry = record r {
        unlocked_boards = put r.unlocked_boards name (discard board_id (boards_of r name));
      } in
      (ok tt, bump_if (not (is_advertised r d == is_advertised r' d)) r')
]

-- The loop of `reset`: every set is cleared in place.
unfoldable pub cleared : Dict String (List String) → Dict String (List String)
cleared [] = []
cleared ((name, boards) ∷ rest) = (name, []) ∷ cleared rest

unfoldable pub reset : ToolRegistry → ToolRegistry
reset r =
    let r' : ToolRegistry = record r { unlocked_boards = cleared r.unlocked_boards } in
    bump_if (not (advertised r == advertised r')) r'

unfoldable pub is_unlocked : ToolRegistry → String → Option String → Result RegistryError Bool
is_unlocked r name board_id = elim (get r.definitions name) [
  | none ↦ raise unknown_tool
  | some d ↦
      if not d.locked_by_default
      then ok true
      else elim board_id [ none ↦ ok false | some board ↦ ok (contains board (boards_of r name)) ]
]

unfoldable pub require_unlocked :
    ToolRegistry → String → Option String → Result RegistryError (Unit {0})
require_unlocked r name board_id = elim (is_unlocked r name board_id) [
  | raise e ↦ raise e
  | ok true ↦ ok tt
  | ok false ↦ raise locked_tool
]
