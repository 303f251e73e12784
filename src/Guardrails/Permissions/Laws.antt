-- ===== src/Guardrails/Permissions/Laws.antt =====
-- What the grants of guardrails/permissions.py allow, and when they end.
use byo_firmware_mcp.Prelude.{
  ℕ, String, ◌≡◌, refl, sym, ◌∙◌, inl, inr, true, false, Option, none, some, ◌==◌, ==_refl,
  string_eq, pair_eq, arith, eq_iff, Option-cases, if◌then◌else◌, none-ne-some, true-ne-false,
}
use byo_firmware_mcp.Prelude.Result.{ok, raise, ok-injective, raise-ne-ok}
use byo_firmware_mcp.Prelude.Text.{is_blank}
use byo_firmware_mcp.Guardrails.Definitions.{fresh_one_time, PlanDefinition, policy}
use byo_firmware_mcp.Guardrails.Permissions.{
  GrantMode, one_time, full_session, is_full_session, PermissionGrant, PermissionAuthorization,
  PermissionStore, Authorized, valid_key, current_grant, drop_stale, new_grant, authorization_of,
  grant, authorize_plan, matches, is_authorized, validate_execution, spend, consume_execution,
  revoke,
}
use byo_firmware_mcp.Guardrails.Permissions.Active.{
  Key, IsKeyed, current-put, current-pop, current-drop_stale, current-get, drop-IsKeyed,
  grant-IsKeyed,
}
use byo_firmware_mcp.Guardrails.Permissions.Rule.{authorize_rule}

-- The authorization is that of the active grant, which stands under its own action and board.
pub record IsGranted (s : PermissionStore) (key : Key) (a : PermissionAuthorization) : Type 0 where
  pub active : PermissionGrant
  pub found : current_grant s key ≡ some active
  pub bound : a ≡ authorization_of active

-- Where the call returns, the plan is bound to the active grant.
abbrev Binds : Key → Authorized → Type 0
Binds key x = (a : PermissionAuthorization) → x.0 ≡ ok a → IsGranted x.1 key a

grant-Binds :
    (s : PermissionStore) (key : Key) (m : GrantMode) (fresh now : String)
    → Binds key (grant s key m fresh now)
unfolding grant
grant-Binds s key m fresh now a h = record {
  active = new_grant s key m fresh now;
  found =
      current-put s key key (new_grant s key m fresh now) (unfold new_grant in refl)
      ∙ (rw (==_refl key));
  bound = sym (ok-injective h);
}

authorize-Binds :
    (s : PermissionStore) (d : PlanDefinition) (board_id : String) (u : Option String) (n m : ℕ)
    (fresh now : String)
    → Binds (d.action_name, board_id) (authorize_plan s d board_id u n m fresh now)
authorize-Binds s d board_id u n m fresh now =
    authorize_rule s d board_id u n m fresh now (Binds key) (λ e a h. absurd (raise-ne-ok h))
      (λ e a h. absurd (raise-ne-ok h)) (λ _ _ _ _. grant-Binds _ key one_time fresh now)
      (λ _ _ _. grant-Binds _ key full_session fresh now)
      (λ g _ _ e _ a h. record {
        active = g;
        found = current-drop_stale s key key ∙ e;
        bound = sym (ok-injective h);
      })
  where
    key : Key
    key = (d.action_name, board_id)

-- If each grant stands under its own action and board, it does so after any answer of
-- authorize_plan.
pub authorize-IsKeyed :
    (s : PermissionStore) (d : PlanDefinition) (board_id : String) (u : Option String) (n m : ℕ)
    (fresh now : String)
    → IsKeyed s
    → IsKeyed (authorize_plan s d board_id u n m fresh now).1
authorize-IsKeyed s d board_id u n m fresh now v =
    authorize_rule s d board_id u n m fresh now (λ x. IsKeyed x.1) (λ e. v) (λ e. v')
      (λ _ _ _ _. grant-IsKeyed s' key one_time fresh now v')
      (λ _ _ _. grant-IsKeyed s' key full_session fresh now v') (λ g _ _ _ _. v')
  where
    key : Key
    key = (d.action_name, board_id)

    s' : PermissionStore
    s' = drop_stale s key

    v' : IsKeyed s'
    v' = drop-IsKeyed s key v

authorize-valid_key :
    (s : PermissionStore) (d : PlanDefinition) (board_id : String) (u : Option String) (n m : ℕ)
    (fresh now : String) (a : PermissionAuthorization)
    → (authorize_plan s d board_id u n m fresh now).0 ≡ ok a
    → valid_key d.action_name board_id ≡ true
authorize-valid_key s d board_id u n m fresh now =
    authorize_rule s d board_id u n m fresh now
      (λ x. (a : PermissionAuthorization) → x.0 ≡ ok a → valid_key d.action_name board_id ≡ true)
      (λ e a h. absurd (raise-ne-ok h)) (λ e a h. absurd (raise-ne-ok h)) (λ v _ _ _ a h. v)
      (λ v _ _ a h. v) (λ g v _ _ _ a h. v)

granted-authorized :
    (s : PermissionStore) (key : Key) (a : PermissionAuthorization)
    → IsKeyed s
    → IsGranted s key a
    → is_authorized s key a ≡ true
unfolding is_authorized matches authorization_of
granted-authorized s key a v i =
    let g = i.active in
    let (stored, run) = current-get s key g i.found in
    let (tool, board) = v.at key g stored in
    ground (
      arith,
      i.found,
      i.bound,
      eq_iff g.run_id s.run_id,
      eq_iff g.tool_name key.0,
      eq_iff g.board_id key.1,
      eq_iff g.grant_id g.grant_id,
    )

-- In a store whose grants stand under their own action and board, a plan whose permission was
-- accepted passes the check at execution, as long as nothing else changes the store.
pub authorize-then-validate :
    (s : PermissionStore) (d : PlanDefinition) (board_id : String) (u : Option String) (n m : ℕ)
    (fresh now : String) (a : PermissionAuthorization)
    → IsKeyed s
    → (authorize_plan s d board_id u n m fresh now).0 ≡ ok a
    → (validate_execution (authorize_plan s d board_id u n m fresh now).1 d board_id (some a)).0
      ≡ ok tt
unfolding validate_execution
authorize-then-validate s d board_id u n m fresh now a v h = rw (
  authorize-valid_key s d board_id u n m fresh now a h,
  granted-authorized (authorize_plan s d board_id u n m fresh now).1 (d.action_name, board_id) a
      (authorize-IsKeyed s d board_id u n m fresh now v)
      (authorize-Binds s d board_id u n m fresh now a h),
)

grant-fields :
    (s : PermissionStore) (key : Key) (m : GrantMode) (fresh now : String)
    (a : PermissionAuthorization)
    → (grant s key m fresh now).0 ≡ ok a
    → (a.mode ≡ m) × (a.grant_id ≡ fresh)
unfolding grant new_grant authorization_of
grant-fields s key m fresh now a h = ground arith

-- For an action that needs a fresh one-time approval, a plan is authorized only by the value
-- one-time with a budget of exactly one call, and always by a new one-time grant.
pub fresh-needs-approval :
    (s : PermissionStore) (d : PlanDefinition) (board_id : String) (u : Option String) (n m : ℕ)
    (fresh now : String) (a : PermissionAuthorization)
    → d.permission_mode ≡ fresh_one_time
    → (authorize_plan s d board_id u n m fresh now).0 ≡ ok a
    → (u ≡ some "one-time") × (n ≡ 1) × (m ≡ 0) × (a.mode ≡ one_time) × (a.grant_id ≡ fresh)
fresh-needs-approval s d board_id u n m fresh now a p =
    authorize_rule s d board_id u n m fresh now
      (λ x.
        x.0 ≡ ok a
        → (u ≡ some "one-time") × (n ≡ 1) × (m ≡ 0) × (a.mode ≡ one_time) × (a.grant_id ≡ fresh))
      (λ e h. absurd (raise-ne-ok h)) (λ e h. absurd (raise-ne-ok h))
      (λ _ eu en em h. let (e, f) = grant-fields _ _ one_time fresh now a h in (eu, en, em, e, f))
      (λ _ _ f h. absurd (true-ne-false (rw p refl) f))
      (λ g _ f _ _ h. absurd (true-ne-false (rw p refl) f))

-- Without a user permission no authority comes into being: a plan is then authorized only by a
-- full-session grant that was active before.
pub null-needs-grant :
    (s : PermissionStore) (d : PlanDefinition) (board_id : String) (n m : ℕ) (fresh now : String)
    (a : PermissionAuthorization)
    → (authorize_plan s d board_id none n m fresh now).0 ≡ ok a
    → (g : PermissionGrant) × (current_grant s (d.action_name, board_id) ≡ some g)
      × (g.mode ≡ full_session)
      × (a ≡ authorization_of g)
null-needs-grant s d board_id n m fresh now a =
    authorize_rule s d board_id none n m fresh now
      (λ x.
        x.0 ≡ ok a
        → (g : PermissionGrant) × (current_grant s (d.action_name, board_id) ≡ some g)
          × (g.mode ≡ full_session)
          × (a ≡ authorization_of g))
      (λ e h. absurd (raise-ne-ok h)) (λ e h. absurd (raise-ne-ok h))
      (λ _ q _ _ h. absurd (none-ne-some q)) (λ _ q _ h. absurd (none-ne-some q))
      (λ g _ _ e f h. (g, e, full g.mode f, sym (ok-injective h)))
  where
    full : (x : GrantMode) → is_full_session x ≡ true → x ≡ full_session
    full full_session q = refl
    full one_time q = cc

-- Spending a one-time authorization ends the grant that it was taken from.
spend-ends :
    (s : PermissionStore) (key : Key) (a : PermissionAuthorization)
    → is_authorized s key a ≡ true
    → current_grant (spend s key a) key ≡ none
unfolding spend is_authorized matches
spend-ends s key a h = elim (Option-cases (current_grant s key)) [
  | inl p ↦ ground arith
  | inr (g, p) ↦
      let same : (g.grant_id == a.grant_id) ≡ true =
        ground (arith, eq_iff g.grant_id a.grant_id, eq_iff a.grant_id g.grant_id) in
      rw (p, spend, same, current-pop, ==_refl key)
]

inactive :
    (s : PermissionStore) (d : PlanDefinition) (board_id : String) (a : PermissionAuthorization)
    → valid_key d.action_name board_id ≡ true
    → current_grant s (d.action_name, board_id) ≡ none
    → (validate_execution s d board_id (some a)).0 ≡ raise (policy "permission/inactive")
unfolding validate_execution is_authorized
inactive s d board_id a v h = ground arith

matches-drop_stale :
    (s : PermissionStore) (key k : Key) (a : PermissionAuthorization) (g : PermissionGrant)
    → matches (drop_stale s key) k a g ≡ matches s k a g
unfolding matches drop_stale
matches-drop_stale s key k a g = ground arith

is_authorized-drop_stale :
    (s : PermissionStore) (key : Key) (a : PermissionAuthorization)
    → is_authorized (drop_stale s key) key a ≡ is_authorized s key a
unfolding is_authorized
is_authorized-drop_stale s key a = elim (Option-cases (current_grant s key)) [
  | inl p ↦ ground (arith, current-drop_stale s key key)
  | inr (g, p) ↦ ground (arith, current-drop_stale s key key, matches-drop_stale s key key a g)
]

-- What a consumption that returns leaves.
consume-state :
    (s : PermissionStore) (d : PlanDefinition) (board_id : String) (a : PermissionAuthorization)
    → (consume_execution s d board_id (some a)).0 ≡ ok tt
    → (valid_key d.action_name board_id ≡ true)
      × (is_authorized s (d.action_name, board_id) a ≡ true)
      × ((consume_execution s d board_id (some a)).1 ≡ (
          if is_full_session a.mode
          then drop_stale s (d.action_name, board_id)
          else spend (drop_stale s (d.action_name, board_id)) (d.action_name, board_id) a))
unfolding consume_execution validate_execution
consume-state s d board_id a h = ground arith

-- Once a one-time authorization is consumed, neither it nor any other authorization of the action
-- and the board passes the check at execution.
pub consume-one_time-ends :
    (s : PermissionStore) (d : PlanDefinition) (board_id : String) (a b : PermissionAuthorization)
    → a.mode ≡ one_time
    → (consume_execution s d board_id (some a)).0 ≡ ok tt
    → (validate_execution (consume_execution s d board_id (some a)).1 d board_id (some b)).0
      ≡ raise (policy "permission/inactive")
consume-one_time-ends s d board_id a b m h =
    let (v, authorized, e) = consume-state s d board_id a h in
    inactive _ d board_id b v (
      rw (e, only_once a.mode m)
        (spend-ends (drop_stale s (d.action_name, board_id)) (d.action_name, board_id) a
          (is_authorized-drop_stale s (d.action_name, board_id) a ∙ authorized)))
  where
    only_once : (x : GrantMode) → x ≡ one_time → is_full_session x ≡ false
    only_once one_time q = refl
    only_once full_session q = cc

-- Consuming a full-session authorization leaves the outcome of its check as it was.
pub consume-full_session-keeps :
    (s : PermissionStore) (d : PlanDefinition) (board_id : String) (a : PermissionAuthorization)
    → a.mode ≡ full_session
    → (validate_execution (consume_execution s d board_id (some a)).1 d board_id (some a)).0
      ≡ (validate_execution s d board_id (some a)).0
unfolding consume_execution validate_execution
consume-full_session-keeps s d board_id a m =
    ground (arith, is_authorized-drop_stale s (d.action_name, board_id) a)

-- After a revocation with a reason, of an action and a board that are not blank, no authorization
-- of the action and the board passes the check, and the grants of every other action or board are
-- as before.
pub revoke-ends :
    (s : PermissionStore) (d : PlanDefinition) (board_id reason : String)
    (a : PermissionAuthorization) (k : Key)
    → valid_key d.action_name board_id ≡ true
    → is_blank reason ≡ false
    → ((validate_execution (revoke s d.action_name board_id reason).1 d board_id (some a)).0
        ≡ raise (policy "permission/inactive"))
      × (current_grant (revoke s d.action_name board_id reason).1 k
          ≡ (if (d.action_name, board_id) == k then none else current_grant s k))
unfolding revoke
revoke-ends s d board_id reason a k v r =
    rw (r, v)
      (
        inactive _ d board_id a v (
            current-pop s (d.action_name, board_id) (d.action_name, board_id)
            ∙ (rw (==_refl d.action_name, ==_refl board_id))),
        current-pop s (d.action_name, board_id) k,
      )
