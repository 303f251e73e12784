-- ===== src/Guardrails/Permissions/Rule.antt =====
-- One rule for every branch of `authorize_plan` in guardrails/permissions.py.
use byo_firmware_mcp.Prelude.{
  ℕ, String, ◌≡◌, refl, sym, ap, ◌∙◌, true, false, ◌&&◌, not, Option, none, some, ◌==◌, string_eq,
  nat_eq, arith, eq_iff, if◌then◌else◌, if_rule,
}
use byo_firmware_mcp.Prelude.Result.{ok, raise}
use byo_firmware_mcp.Guardrails.Definitions.{PermissionMode, PlanDefinition, Refusal}
use byo_firmware_mcp.Guardrails.Permissions.{
  one_time, full_session, is_full_session, is_fresh_one_time, is_none_needed, PermissionGrant,
  PermissionStore, Authorized, valid_key, current_grant, drop_stale, authorization_of, grant,
  authorize_null, authorize_one_time, authorize_value, authorize_plan,
}
use byo_firmware_mcp.Guardrails.Permissions.Active.{Key}

-- A raise, a new grant for an approval, or an active full-session grant again.
module _ (s s' : PermissionStore) (mode : PermissionMode) (key : Key) (u : Option String) (n m : ℕ)
    (fresh now : String) (P : Authorized → Type 0) (raised : (e : Refusal) → P (raise e, s'))
    (one : u ≡ some "one-time" → n ≡ 1 → m ≡ 0 → P (grant s' key one_time fresh now))
    (full : u ≡ some "full-session"
      → is_fresh_one_time mode ≡ false
      → P (grant s' key full_session fresh now))
    (reuse : (g : PermissionGrant)
      → is_fresh_one_time mode ≡ false
      → current_grant s key ≡ some g
      → is_full_session g.mode ≡ true
      → P (ok (authorization_of g), s')) where
  abbrev active : Option PermissionGrant
  active = if is_fresh_one_time mode then none else current_grant s key

  active-some :
      (g : PermissionGrant)
      → active ≡ some g
      → (is_fresh_one_time mode ≡ false) × (current_grant s key ≡ some g)
  active-some g h = ground arith

  null_rule : (o : Option PermissionGrant) → o ≡ active → P (authorize_null s' o)
  unfolding authorize_null
  null_rule none e = raised _
  null_rule (some g) e =
      let (stale, found) = active-some g (sym e) in
      if_rule P (is_full_session g.mode) _ _ (reuse g stale found) (λ _. raised _)

  one_time_rule :
      (o : Option PermissionGrant)
      → o ≡ active
      → P (grant s' key one_time fresh now)
      → P (authorize_one_time s' key o fresh now)
  unfolding authorize_one_time
  one_time_rule none e h = h
  one_time_rule (some g) e h =
      let (stale, found) = active-some g (sym e) in
      if_rule P (is_full_session g.mode) _ _ (reuse g stale found) (λ _. h)

  value_rule :
      (value : String) → u ≡ some value → P (authorize_value s' mode key active value n m fresh now)
  unfolding authorize_value
  value_rule value e =
      if_rule P (value == "one-time") _ _
        (λ one_time.
          if_rule P (not (n == 1 && m == 0)) _ _ (λ _. raised _)
            (λ budget. one_time_rule active refl (
              one (e ∙ ap some ((eq_iff value "one-time").0 one_time)) (exact budget).0
                (exact budget).1)))
        (λ _.
          if_rule P (value == "full-session") _ _
            (λ full_session.
              if_rule P (is_fresh_one_time mode) _ _ (λ _. raised _)
                (full (e ∙ ap some ((eq_iff value "full-session").0 full_session))))
            (λ _. raised _))
    where
      exact : not (n == 1 && m == 0) ≡ false → (n ≡ 1) × (m ≡ 0)
      exact h = ground arith

-- The rule for the whole call: what holds of each raise, of a new grant for the approval that it
-- needs, and of an active full-session grant, holds of the answer.
pub authorize_rule :
    (s : PermissionStore) (d : PlanDefinition) (board_id : String) (u : Option String) (n m : ℕ)
    (fresh now : String) (P : Authorized → Type 0)
    → ((e : Refusal) → P (raise e, s))
    → ((e : Refusal) → P (raise e, drop_stale s (d.action_name, board_id)))
    → (valid_key d.action_name board_id ≡ true
        → u ≡ some "one-time"
        → n ≡ 1
        → m ≡ 0
        → P (
            grant
              (drop_stale s (d.action_name, board_id))
              (d.action_name, board_id)
              one_time
              fresh
              now))
    → (valid_key d.action_name board_id ≡ true
        → u ≡ some "full-session"
        → is_fresh_one_time d.permission_mode ≡ false
        → P (
            grant
              (drop_stale s (d.action_name, board_id))
              (d.action_name, board_id)
              full_session
              fresh
              now))
    → ((g : PermissionGrant)
        → valid_key d.action_name board_id ≡ true
        → is_fresh_one_time d.permission_mode ≡ false
        → current_grant s (d.action_name, board_id) ≡ some g
        → is_full_session g.mode ≡ true
        → P (ok (authorization_of g), drop_stale s (d.action_name, board_id)))
    → P (authorize_plan s d board_id u n m fresh now)
unfolding authorize_plan
authorize_rule s d board_id u n m fresh now P early raised one full reuse =
    if_rule P (is_none_needed d.permission_mode) _ _ (λ _. early _)
      (λ _.
        if_rule P (not (valid_key d.action_name board_id)) _ _ (λ _. early _)
          (λ v. value u refl (flip v)))
  where
    flip : not (valid_key d.action_name board_id) ≡ false → valid_key d.action_name board_id ≡ true
    flip h = ground arith

    key : Key
    key = (d.action_name, board_id)

    s' : PermissionStore
    s' = drop_stale s key

    now_active : Option PermissionGrant
    now_active = if is_fresh_one_time d.permission_mode then none else current_grant s key

    value :
        (v : Option String)
        → u ≡ v
        → valid_key d.action_name board_id ≡ true
        → P (elim v [
          | none ↦ authorize_null s' now_active
          | some value ↦ authorize_value s' d.permission_mode key now_active value n m fresh now
        ])
    value none e k =
        null_rule s s' d.permission_mode key u n m fresh now P raised (one k) (full k)
          (λ g. reuse g k) now_active refl
    value (some x) e k =
        value_rule s s' d.permission_mode key u n m fresh now P raised (one k) (full k)
          (λ g. reuse g k) x e
