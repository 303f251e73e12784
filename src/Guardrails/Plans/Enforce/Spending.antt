-- ===== src/Guardrails/Plans/Enforce/Spending.antt =====
-- What an accepted call of guardrails/plan_engine.py takes off the plan's budget.
use byo_firmware_mcp.Prelude.{
  ◌-◌, String, ◌≡◌, refl, sym, ap, ◌∙◌, inl, inr, Bool, true, false, Option, none, some, ◌==◌,
  string_eq, pair_eq, arith, eq_iff, Bool-cases, if◌then◌else◌,
}
use byo_firmware_mcp.Prelude.Result.{Result, ok, ok-injective, raise-ne-ok, Result-cases, ▷-ok}
use byo_firmware_mcp.Prelude.Dict.{get, put, get-put}
use byo_firmware_mcp.Guardrails.Definitions.{PlanDefinition, Refusal}
use byo_firmware_mcp.Guardrails.Plans.State.{PlanEngine, PlanState, Key, paired_for}
use byo_firmware_mcp.Guardrails.Plans.Locking.{closed, relock_definition}
use byo_firmware_mcp.Guardrails.Plans.Enforce.{
  Request, key_of, allowance, recheck, precheck, check_permission, recheck, spent, is_exhausted,
  consume_permission, relock_closed, close_exhausted, exhausted_plan, take_call, execute_locked,
  verify_if_bound, Surroundings,
}
use byo_firmware_mcp.Guardrails.Plans.Enforce.Accepted.{Covers, recheck-ok, check_permission-plans}

-- Taking a call off a plan lowers the allowance of the invoked action by one and no other.
pub allowance-spent :
    (q : Request) (s : PlanState) (action : String)
    → allowance q.definition (spent q s) action ≡ (
        if q.action_name == action
        then allowance q.definition s action - 1
        else allowance q.definition s action)
unfolding allowance spent paired_for
allowance-spent q s action = ground (
  arith,
  get-put s.paired_remaining q.action_name (paired_for s q.action_name - 1) action,
  eq_iff q.action_name action,
  eq_iff action q.definition.action_name,
  eq_iff q.action_name q.definition.action_name,
)

-- `t` is what is stored for `s`, and no other plan is touched.
record Stores (e : PlanEngine) (q : Request) (s t : PlanState) (e' : PlanEngine) : Type 0 where
  same_calls : t.remaining_calls ≡ s.remaining_calls
  same_paired : t.paired_remaining ≡ s.paired_remaining
  stored : (k : Key) → get e'.plans k ≡ (if key_of q == k then some t else get e.plans k)

consume_permission-plans :
    (e : PlanEngine) (q : Request) (s : PlanState) → (consume_permission e q s).1.plans ≡ e.plans
unfolding consume_permission
consume_permission-plans e q s = ground arith

relock_closed-ok :
    (e : PlanEngine) (q : Request) (s t : PlanState)
    → (relock_closed e q s).0 ≡ ok t
    → (s ≡ t) × ((relock_closed e q s).1.plans ≡ put e.plans (key_of q) s)
unfolding relock_closed
relock_closed-ok e q s t h =
    elim (Result-cases (relock_definition q.definition e.registry q.board_id).0) [
      | inl (u, p) ↦ (ok-injective (rw p at h), refl)
      | inr (x, p) ↦ absurd (raise-ne-ok (rw p at h))
    ]

close_exhausted-Stores :
    (e : PlanEngine) (q : Request) (s t : PlanState)
    → (close_exhausted e q s).0 ≡ ok t
    → Stores e q s t (close_exhausted e q s).1
unfolding close_exhausted exhausted_plan closed
close_exhausted-Stores e q s t h =
    let (_, _, h', moved) = ▷-ok (consume_permission e q s) _ t h in
    let (same, plans) = relock_closed-ok (consume_permission e q s).1 q _ t h' in
    let after : (close_exhausted e q s).1.plans ≡ put e.plans (key_of q) t =
      ap (λ (x : Result Refusal PlanState × PlanEngine). x.1.plans) moved
      ∙ plans
      ∙ ap (λ x. put x (key_of q) (exhausted_plan s)) (consume_permission-plans e q s)
      ∙ ap (put e.plans (key_of q)) same in
    record {
      same_calls = ap (λ (x : PlanState). x.remaining_calls) (sym same);
      same_paired = ap (λ (x : PlanState). x.paired_remaining) (sym same);
      stored = λ k. ap (λ x. get x k) after ∙ get-put e.plans (key_of q) t k;
    }

-- The second write under the same key replaces the first.
Stores-put :
    (e : PlanEngine) (q : Request) (s s' t : PlanState) (e' : PlanEngine)
    → Stores (record e { plans = put e.plans (key_of q) s }) q s' t e'
    → Stores e q s' t e'
Stores-put e q s s' t e' st = record {
  same_calls = st.same_calls;
  same_paired = st.same_paired;
  stored =
      λ k. st.stored k ∙ twice (get e.plans k) (key_of q == k) _ (get-put e.plans (key_of q) s k);
}
  where
    twice :
        (m : Option PlanState) (b : Bool) (x : Option PlanState)
        → x ≡ (if b then some s else m)
        → ◌≡◌ {A = Option PlanState} (if b then some t else x) (if b then some t else m)
    twice m true x p = refl
    twice m false x p = p

take_call-Stores :
    (e : PlanEngine) (q : Request) (s t : PlanState)
    → (take_call e q s).0 ≡ ok t
    → Stores e q s t (take_call e q s).1
unfolding take_call
take_call-Stores e q s t h = elim (Bool-cases (is_exhausted s)) [
  | inl p ↦
      rw (p, take_call)
        (Stores-put e q s s t _ (close_exhausted-Stores _ q s t (rw (p, take_call) at h)))
  | inr p ↦
      let same : s ≡ t = ok-injective (rw (p, take_call) at h) in
      rw (p, take_call)
        (record {
          same_calls = ap (λ (x : PlanState). x.remaining_calls) (sym same);
          same_paired = ap (λ (x : PlanState). x.paired_remaining) (sym same);
          stored = λ k.
              get-put e.plans (key_of q) s k
              ∙ ap (λ x. if key_of q == k then some x else get e.plans k) same;
        })
]

allowance-Stores :
    (d : PlanDefinition) (s t : PlanState) (action : String)
    → t.remaining_calls ≡ s.remaining_calls
    → t.paired_remaining ≡ s.paired_remaining
    → allowance d t action ≡ allowance d s action
unfolding allowance paired_for
allowance-Stores d s t action p r = rw (p, r) refl

-- What a call that returns found in the engine and left there: `state` is the plan that covers the
-- call, `t` what is stored in its place.
pub record Charges (e : PlanEngine) (q : Request) (plan_id : String) (t : PlanState)
    (e' : PlanEngine) : Type 0 where
  pub state : PlanState
  pub covers : Covers e q plan_id state
  pub permitted : (check_permission e q state).0 ≡ ok tt
  pub left :
      (action : String)
      → allowance q.definition t action ≡ (
          if q.action_name == action
          then allowance q.definition state action - 1
          else allowance q.definition state action)
  pub stored : (k : Key) → get e'.plans k ≡ (if key_of q == k then some t else get e.plans k)

-- Where the last locked block of enforce returns, an active plan with the expected identifier,
-- the same parameters, Server Run and session, a call left for the action and a valid permission
-- was stored; one call is taken off the invoked action, none off the others, and no other plan
-- changes.
pub execute-Charges :
    (e : PlanEngine) (q : Request) (plan_id : String) (t : PlanState)
    → (execute_locked e q plan_id).0 ≡ ok t
    → Charges e q plan_id t (execute_locked e q plan_id).1
unfolding execute_locked
execute-Charges e q plan_id t h =
    let (s, found, h', moved) = ▷-ok (recheck e q plan_id) _ t h in
    let (covers, permitted, checked) = recheck-ok e q plan_id s found in
    let stores = take_call-Stores (recheck e q plan_id).1 q (spent q s) t h' in
    let kept : (recheck e q plan_id).1.plans ≡ e.plans =
      ap (λ (x : PlanEngine). x.plans) checked ∙ (check_permission-plans e q s).0 in
    record {
      state = s;
      covers = covers;
      permitted = permitted;
      left = λ action.
          allowance-Stores q.definition (spent q s) t action stores.same_calls stores.same_paired
          ∙ allowance-spent q s action;
      stored = λ k.
          ap (λ (x : Result Refusal PlanState × PlanEngine). get x.1.plans k) moved
          ∙ stores.stored k
          ∙ ap (λ x. if key_of q == k then some t else get x k) kept;
    }

-- The engine at the second locked block of a call that no block before refused, and at the last one:
-- only other calls come between.
abbrev pub at_scope : Surroundings → PlanEngine → PlanEngine
at_scope w e = w.after_scope (w.before_scope e)

abbrev pub at_execution : Surroundings → PlanEngine → PlanEngine
at_execution w e = w.before_execution (w.after_preconditions (at_scope w e))

-- What a call that returns found in each locked block: a plan at the start, the same plan at the
-- second block, and at the last one the plan that it charges.
pub record Executed (w : Surroundings) (e : PlanEngine) (q : Request) (t : PlanState)
    (e' : PlanEngine) : Type 0 where
  pub first : PlanState
  pub started : (precheck e q none).0 ≡ ok first
  pub verified : (verify_if_bound w.files e q first.plan_id first.artifact_binding).0 ≡ ok tt
  pub in_scope : w.in_scope ≡ true
  pub second : PlanState
  pub covers : Covers (at_scope w e) q first.plan_id second
  pub permitted : (check_permission (at_scope w e) q second).0 ≡ ok tt
  pub preconditions_met : w.preconditions_met ≡ true
  pub charges : Charges (at_execution w e) q first.plan_id t e'
