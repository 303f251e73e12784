-- ===== src/Guardrails/Permissions/Active.antt =====
-- The active grants of guardrails/permissions.py after each change of the store, and the invariant
-- that a grant stands under its own action and board.
use byo_firmware_mcp.Prelude.{
  String, ◌≡◌, refl, ap, inl, inr, none, some, ◌==◌, string_eq, pair_eq, pair_beq_iff, nat_eq,
  arith, eq_iff, Bool-cases, Option-cases, if◌then◌else◌, none-ne-some, some-injective, if_either,
}
use byo_firmware_mcp.Prelude.Dict.{get, put, pop, get-put, get-pop}
use byo_firmware_mcp.Guardrails.Permissions.{
  GrantMode, PermissionGrant, PermissionStore, current_grant, drop_stale, new_grant, grant,
}

abbrev pub Key : Type 0
Key = String × String

-- A lookup is not changed by dropping what is stale.
pub current-drop_stale :
    (s : PermissionStore) (key k : Key) → current_grant (drop_stale s key) k ≡ current_grant s k
unfolding current_grant drop_stale
current-drop_stale s key k = ground (
  arith,
  get-pop s.permissions key k,
  pair_beq_iff key k,
  ap (get s.permissions) {x = key} {y = k},
)

-- A grant stands under its own action and board.
pub record IsKeyed (s : PermissionStore) : Type 0 where
  pub at :
      (k : Key) (g : PermissionGrant)
      → get s.permissions k ≡ some g
      → (g.tool_name ≡ k.0) × (g.board_id ≡ k.1)

-- The active grants after a write and after a removal.
pub current-put :
    (s : PermissionStore) (key k : Key) (g : PermissionGrant)
    → g.run_id ≡ s.run_id
    → current_grant (record s { permissions = put s.permissions key g }) k
      ≡ (if key == k then some g else current_grant s k)
unfolding current_grant
current-put s key k g h = ground (arith, get-put s.permissions key g k, eq_iff g.run_id s.run_id)

pub current-pop :
    (s : PermissionStore) (key k : Key)
    → current_grant (record s { permissions = pop s.permissions key }) k
      ≡ (if key == k then none else current_grant s k)
unfolding current_grant
current-pop s key k = ground (arith, get-pop s.permissions key k)

pub current-get :
    (s : PermissionStore) (k : Key) (g : PermissionGrant)
    → current_grant s k ≡ some g
    → (get s.permissions k ≡ some g) × (g.run_id ≡ s.run_id)
unfolding current_grant
current-get s k g h = elim (Option-cases (get s.permissions k)) [
  | inl p ↦ ground arith
  | inr (f, p) ↦ ground (arith, eq_iff f.run_id s.run_id)
]

pub put-IsKeyed :
    (s : PermissionStore) (key : Key) (g : PermissionGrant)
    → g.tool_name ≡ key.0
    → g.board_id ≡ key.1
    → IsKeyed s
    → IsKeyed (record s { permissions = put s.permissions key g })
put-IsKeyed s key g t b v = record {
  at = λ k x h. elim (Bool-cases (key == k)) [
    | inl p ↦ same k x (some-injective (rw (get-put, p) at h)) ((pair_beq_iff key k).0 p)
    | inr p ↦ v.at k x (rw (get-put, p) at h)
  ];
}
  where
    same :
        (k : Key) (x : PermissionGrant) → g ≡ x → key ≡ k → (x.tool_name ≡ k.0) × (x.board_id ≡ k.1)
    same k x q r = rw (← q, ← r) (t, b)

pub pop-IsKeyed :
    (s : PermissionStore) (key : Key)
    → IsKeyed s
    → IsKeyed (record s { permissions = pop s.permissions key })
pop-IsKeyed s key v = record {
  at = λ k x h. elim (Bool-cases (key == k)) [
    | inl p ↦ absurd (none-ne-some (rw (get-pop, p) at h))
    | inr p ↦ v.at k x (rw (get-pop, p) at h)
  ];
}

pub drop-IsKeyed : (s : PermissionStore) (key : Key) → IsKeyed s → IsKeyed (drop_stale s key)
unfolding drop_stale
drop-IsKeyed s key v = elim (Option-cases (get s.permissions key)) [
  | inl p ↦ rw (p, drop_stale) v
  | inr (g, p) ↦
      rw (p, drop_stale) (if_either IsKeyed (g.run_id == s.run_id) _ _ v (pop-IsKeyed s key v))
]

pub grant-IsKeyed :
    (s : PermissionStore) (key : Key) (m : GrantMode) (fresh now : String)
    → IsKeyed s
    → IsKeyed (grant s key m fresh now).1
unfolding grant new_grant
grant-IsKeyed s key m fresh now v = put-IsKeyed s key (new_grant s key m fresh now) refl refl v
