-- ===== src/Guardrails/Permissions.antt =====
-- `PermissionStore` of src/pyocd_debug_mcp/guardrails/permissions.py: grants of one Server Run.
-- A new identifier and the time come from outside, as arguments.
pub mod Active
pub mod Rule
pub mod Laws
pub mod Examples
use byo_firmware_mcp.Prelude.{
  ℕ, String, Bool, true, false, ◌&&◌, ◌||◌, not, Option, none, some, List, [], map, ◌==◌, string_eq,
  pair_eq, nat_eq, if◌then◌else◌,
}
use byo_firmware_mcp.Prelude.Result.{Result, ok, raise}
use byo_firmware_mcp.Prelude.Dict.{Dict, get, put, pop}
use byo_firmware_mcp.Prelude.Text.{is_blank}
use byo_firmware_mcp.Guardrails.Definitions.{
  PermissionMode, none_needed, fresh_one_time, PlanDefinition, Refusal, policy, value_error,
}

pub data GrantMode : Type 0 where
  one_time full_session : GrantMode

abbrev pub mode_value : GrantMode → String
mode_value one_time = "one-time"
mode_value full_session = "full-session"

abbrev pub is_full_session : GrantMode → Bool
is_full_session one_time = false
is_full_session full_session = true

abbrev pub is_fresh_one_time : PermissionMode → Bool
is_fresh_one_time fresh_one_time = true
is_fresh_one_time _ = false

abbrev pub is_none_needed : PermissionMode → Bool
is_none_needed none_needed = true
is_none_needed _ = false

pub record PermissionGrant : Type 0 where
  pub grant_id : String
  pub run_id : String
  pub tool_name : String
  pub board_id : String
  pub mode : GrantMode
  pub granted_at : String

pub record PermissionAuthorization : Type 0 where
  pub grant_id : String
  pub run_id : String
  pub tool_name : String
  pub board_id : String
  pub mode : GrantMode

-- The run's identifier and its `permissions`, keyed by action and board.
pub record PermissionStore : Type 0 where
  pub run_id : String
  pub permissions : Dict (String × String) PermissionGrant

abbrev pub Outcome : Type 0 → Type 0
Outcome A = Result Refusal A × PermissionStore

unfoldable pub valid_key : String → String → Bool
valid_key tool_name board_id = not (is_blank tool_name) && not (is_blank board_id)

-- `_current_state_locked`: a grant of another run counts as none.
unfoldable pub current_grant : PermissionStore → String × String → Option PermissionGrant
current_grant s key = elim (get s.permissions key) [
  | none ↦ none
  | some state ↦ if state.run_id == s.run_id then some state else none
]

-- The same call drops it.
unfoldable pub drop_stale : PermissionStore → String × String → PermissionStore
drop_stale s key = elim (get s.permissions key) [
  | none ↦ s
  | some state ↦
      if state.run_id == s.run_id then s else record s { permissions = pop s.permissions key }
]

unfoldable pub active_grant : PermissionStore → String → String → Outcome (Option PermissionGrant)
active_grant s tool_name board_id =
    if valid_key tool_name board_id
    then (ok (current_grant s (tool_name, board_id)), drop_stale s (tool_name, board_id))
    else (raise value_error, s)

-- `_grant_locked`
unfoldable pub new_grant :
    PermissionStore → String × String → GrantMode → String → String → PermissionGrant
new_grant s key mode fresh now = record {
  grant_id = fresh;
  run_id = s.run_id;
  tool_name = key.0;
  board_id = key.1;
  mode = mode;
  granted_at = now;
}

unfoldable pub authorization_of : PermissionGrant → PermissionAuthorization
authorization_of g = record {
  grant_id = g.grant_id;
  run_id = g.run_id;
  tool_name = g.tool_name;
  board_id = g.board_id;
  mode = g.mode;
}

abbrev pub Authorized : Type 0
Authorized = Outcome PermissionAuthorization

unfoldable pub grant : PermissionStore → String × String → GrantMode → String → String → Authorized
grant s key mode fresh now =
    let g = new_grant s key mode fresh now in
    (ok (authorization_of g), record s { permissions = put s.permissions key g })

-- `user_permission is None`
unfoldable pub authorize_null : PermissionStore → Option PermissionGrant → Authorized
authorize_null s none = (raise (policy "permission/required"), s)
authorize_null s (some active) =
    if is_full_session active.mode
    then (ok (authorization_of active), s)
    else (raise (policy "permission/required"), s)

-- The grant of a one-time approval: an active full-session grant is not downgraded.
unfoldable pub authorize_one_time :
    PermissionStore → String × String → Option PermissionGrant → String → String → Authorized
authorize_one_time s key none fresh now = grant s key one_time fresh now
authorize_one_time s key (some active) fresh now =
    if is_full_session active.mode
    then (ok (authorization_of active), s)
    else grant s key one_time fresh now

unfoldable pub authorize_value :
    PermissionStore
    → PermissionMode
    → String × String
    → Option PermissionGrant
    → String
    → ℕ
    → ℕ
    → String
    → String
    → Authorized
authorize_value s mode key active user_permission max_calls max_calls_buffer fresh now =
    if user_permission == "one-time"
    then (if not (max_calls == 1 && max_calls_buffer == 0)
        then (raise (policy "permission/one-time-budget"), s)
        else authorize_one_time s key active fresh now)
    else if user_permission == "full-session"
    then (if is_fresh_one_time mode
        then (raise (policy "permission/fresh-one-time-required"), s)
        else grant s key full_session fresh now)
    else (raise (policy "permission/required"), s)

-- A value that is no text is a text here that is neither of the two.
unfoldable pub authorize_plan :
    PermissionStore → PlanDefinition → String → Option String → ℕ → ℕ → String → String → Authorized
authorize_plan s d board_id user_permission max_calls max_calls_buffer fresh now =
    let key : String × String = (d.action_name, board_id) in
    let s' = drop_stale s key in
    let active = if is_fresh_one_time d.permission_mode then none else current_grant s key in
    if is_none_needed d.permission_mode
    then (raise (policy "permission/not-applicable"), s)
    else if not (valid_key d.action_name board_id)
    then (raise value_error, s)
    else elim user_permission [
      | none ↦ authorize_null s' active
      | some value ↦
          authorize_value s' d.permission_mode key active value max_calls max_calls_buffer fresh now
    ]

-- The comparison of an authorization with the active grant.
unfoldable pub matches :
    PermissionStore → String × String → PermissionAuthorization → PermissionGrant → Bool
matches s key a active =
    a.run_id == s.run_id
    && a.tool_name == key.0
    && a.board_id == key.1
    && a.grant_id == active.grant_id

unfoldable pub is_authorized : PermissionStore → String × String → PermissionAuthorization → Bool
is_authorized s key a = elim (current_grant s key) [
  | none ↦ false
  | some active ↦ matches s key a active
]

-- `none` stands for an object that is no authorization.
unfoldable pub validate_execution :
    PermissionStore → PlanDefinition → String → Option PermissionAuthorization → Outcome (Unit {0})
validate_execution s d board_id none = (raise (policy "permission/invalid-authorization"), s)
validate_execution s d board_id (some a) =
    let key : String × String = (d.action_name, board_id) in
    if not (valid_key d.action_name board_id) then (raise value_error, s) else (
      if is_authorized s key a then ok tt else raise (policy "permission/inactive"),
      drop_stale s key,
    )

-- The removal of a one-time grant that still is the active one.
unfoldable pub spend : PermissionStore → String × String → PermissionAuthorization → PermissionStore
spend s key a = elim (current_grant s key) [
  | none ↦ drop_stale s key
  | some active ↦
      if active.grant_id == a.grant_id then record s { permissions = pop s.permissions key } else s
]

unfoldable pub consume_execution :
    PermissionStore → PlanDefinition → String → Option PermissionAuthorization → Outcome (Unit {0})
consume_execution s d board_id authorization =
    let (validated, s') = validate_execution s d board_id authorization in
    elim validated [
      | raise e ↦ (raise e, s')
      | ok _ ↦ elim authorization [
        | none ↦ (ok tt, s')
        | some a ↦
            if is_full_session a.mode
            then (ok tt, s')
            else (ok tt, spend s' (d.action_name, board_id) a)
      ]
    ]

-- `PermissionRevocation`, less the texts that the caller passed in.
pub record PermissionRevocation : Type 0 where
  pub grant_id : Option String
  pub revoked : Bool

-- The store's part of `revoke`; the callback is then called with the same action and board.
unfoldable pub revoke : PermissionStore → String → String → String → Outcome PermissionRevocation
revoke s tool_name board_id reason =
    let key : String × String = (tool_name, board_id) in
    if is_blank reason || not (valid_key tool_name board_id) then (raise value_error, s) else (
      ok (elim (current_grant s key) [
        | none ↦ record { grant_id = none; revoked = false }
        | some g ↦ record { grant_id = some g.grant_id; revoked = true }
      ]),
      record s { permissions = pop s.permissions key },
    )

-- The store's part of `reset`: the keys whose plans the callback is called for, and no grant left.
unfoldable pub reset : PermissionStore → List (String × String) × PermissionStore
reset s = (map (λ e. e.0) s.permissions, record s { permissions = [] })
