-- ===== src/Guardrails/Permissions/Examples.antt =====
-- A store of one run, on which the statements about guardrails/permissions.py are exercised.
use byo_firmware_mcp.Prelude.{
  ℕ, String, ◌≡◌, refl, true, false, Option, none, some, [], ◌∷◌, none-ne-some,
}
use byo_firmware_mcp.Prelude.Result.{ok, raise}
use byo_firmware_mcp.Prelude.Dict.{get, put}
use byo_firmware_mcp.Prelude.Text.{is_blank, strip, lstrip, rstrip, is_space}
use byo_firmware_mcp.Guardrails.Definitions.{
  flexible, PermissionMode, required, fresh_one_time, PlanDefinition, policy,
}
use byo_firmware_mcp.Guardrails.Permissions.{
  GrantMode, one_time, full_session, PermissionGrant, PermissionAuthorization, PermissionStore,
  valid_key, current_grant, drop_stale, new_grant, authorization_of, grant, authorize_null,
  authorize_one_time, authorize_value, authorize_plan, matches, is_authorized, validate_execution,
  spend, consume_execution,
}
use byo_firmware_mcp.Guardrails.Permissions.Active.{IsKeyed}
use byo_firmware_mcp.Guardrails.Permissions.Laws.{fresh-needs-approval, consume-one_time-ends}

abbrev erase_definition : PermissionMode → PlanDefinition
erase_definition mode = record {
  action_name = "erase";
  plan_tool_name = "erase-plan";
  budget_mode = flexible;
  permission_mode = mode;
  paired_actions = [];
  artifact_binding_field = none;
  artifact_nullable = false;
  artifact_binding_suffixes = [];
}

abbrev empty_store : PermissionStore
empty_store = record { run_id = "run"; permissions = [] }

abbrev granted : GrantMode → PermissionGrant
granted mode = record {
  grant_id = "grant-1";
  run_id = "run";
  tool_name = "erase";
  board_id = "board";
  mode = mode;
  granted_at = "now";
}

abbrev authorized : GrantMode → PermissionAuthorization
authorized mode = record {
  grant_id = "grant-1";
  run_id = "run";
  tool_name = "erase";
  board_id = "board";
  mode = mode;
}

abbrev store_with : GrantMode → PermissionStore
store_with mode = record { run_id = "run"; permissions = (("erase", "board"), granted mode) ∷ [] }

empty-IsKeyed : IsKeyed empty_store
unfolding get
empty-IsKeyed = record { at = λ k g h. absurd (none-ne-some h) }

approved :
    (authorize_plan empty_store
      (erase_definition fresh_one_time)
      "board"
      (some "one-time")
      1
      0
      "grant-1"
      "now").0
    ≡ ok (authorized one_time)
unfolding authorize_plan drop_stale current_grant get valid_key is_blank strip lstrip rstrip
    is_space authorize_value authorize_one_time grant new_grant authorization_of put
approved = refl

abbrev approval : Option String
approval = some "one-time"

fresh-needs-approval_example :
    (approval ≡ some "one-time")
    × (◌≡◌ {A = ℕ} 1 1)
    × (◌≡◌ {A = ℕ} 0 0)
    × ((authorized one_time).mode ≡ one_time)
    × ((authorized one_time).grant_id ≡ "grant-1")
fresh-needs-approval_example =
    fresh-needs-approval empty_store (erase_definition fresh_one_time) "board" (some "one-time") 1 0
      "grant-1" "now" (authorized one_time) refl approved

reused :
    (authorize_plan
      (store_with full_session)
      (erase_definition required)
      "board"
      none
      4
      1
      "grant-2"
      "now").0
    ≡ ok (authorized full_session)
unfolding authorize_plan drop_stale current_grant get valid_key is_blank strip lstrip rstrip
    is_space authorize_null authorization_of
reused = refl

consumed :
    (consume_execution
      (store_with one_time)
      (erase_definition required)
      "board"
      (some (authorized one_time))).0
    ≡ ok tt
unfolding consume_execution validate_execution valid_key is_blank strip lstrip rstrip is_space
    is_authorized matches current_grant drop_stale spend get
consumed = refl

consume-one_time-ends_example :
    (validate_execution
      (consume_execution
        (store_with one_time)
        (erase_definition required)
        "board"
        (some (authorized one_time))).1
      (erase_definition required)
      "board"
      (some (authorized one_time))).0
    ≡ raise (policy "permission/inactive")
consume-one_time-ends_example =
    consume-one_time-ends (store_with one_time) (erase_definition required) "board"
      (authorized one_time) (authorized one_time) refl consumed

key_valid : valid_key "erase" "board" ≡ true
unfolding valid_key is_blank strip lstrip rstrip is_space
key_valid = refl

reason_given : is_blank "swapped" ≡ false
unfolding is_blank strip lstrip rstrip is_space
reason_given = refl
