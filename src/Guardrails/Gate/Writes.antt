-- ===== src/Guardrails/Gate/Writes.antt =====
-- When `require_write` of guardrails/gate.py returns.
use byo_firmware_mcp.Prelude.{
  String, ◌≡◌, refl, sym, ap, ◌∙◌, ◌↔◌, inl, inr, false, some, ◌==◌, string_eq, arith, eq_iff,
  Bool-cases, Option-cases,
}
use byo_firmware_mcp.Prelude.Result.{ok, raise, ok-injective, raise-ne-ok, ◌▷◌, ▷-ok}
use byo_firmware_mcp.Prelude.Dict.{get}
use byo_firmware_mcp.Prelude.Text.{strip, is_empty}
use byo_firmware_mcp.Guardrails.Gate.{
  ValidationStamp, GateManager, GateError, Outcome, required_text, needs, validated,
  require_validated, check_digest, require_write,
}

-- The stamp is that of the board, of the connection, and of the map with the digest.
pub record Proves (g : GateManager) (board connection digest : String) (s : ValidationStamp)
    : Type 0 where
  pub identity : get g.identities board ≡ some s.live_identity
  pub safety_map : get g.maps board ≡ some s.safety_map
  pub same_connection : s.live_identity.connection_id ≡ connection
  pub same_digest : s.safety_map.map_digest ≡ digest

pub needs-ok :
    (g : GateManager) (value text : String)
    → (needs g value).0 ≡ ok text
    → (is_empty text ≡ false) × (text ≡ strip value)
unfolding required_text
needs-ok g value text h = elim (Bool-cases (is_empty (strip value))) [
  | inl p ↦ absurd (raise-ne-ok (rw p at h))
  | inr p ↦ ground arith
]

pub ok-needs :
    (g : GateManager) (value : String)
    → is_empty (strip value) ≡ false
    → (needs g value).0 ≡ ok (strip value)
unfolding required_text
ok-needs g value h = rw h refl

-- What holds of each raise and of the call on the text that was stripped holds of the whole.
pub needs_rule :
    {B : Type 0} (P : Outcome B → Type 0) (g : GateManager) (value : String)
    (f : String → GateManager → Outcome B)
    → ((e : GateError) → P (raise e, g))
    → (is_empty (strip value) ≡ false → P (f (strip value) g))
    → P (needs g value ▷ f)
unfolding required_text ◌▷◌
needs_rule P g value f raised h = elim (Bool-cases (is_empty (strip value))) [
  | inl p ↦ rw p (raised _)
  | inr p ↦ rw p (h p)
]

validated-ok :
    (g : GateManager) (board connection : String) (s : ValidationStamp)
    → (validated g board connection).0 ≡ ok s
    → (get g.identities board ≡ some s.live_identity)
      × (get g.maps board ≡ some s.safety_map)
      × (s.live_identity.connection_id ≡ connection)
      × ((validated g board connection).1 ≡ g)
unfolding validated
validated-ok g board connection s h = elim (Option-cases (get g.identities board)) [
  | inl p ↦ absurd (raise-ne-ok (rw (p, validated) at h))
  | inr (i, p) ↦ elim (Bool-cases (i.connection_id == connection)) [
    | inr q ↦ absurd (raise-ne-ok (rw (p, validated, q) at h))
    | inl q ↦ elim (Option-cases (get g.maps board)) [
      | inl r ↦ absurd (raise-ne-ok (rw (p, validated, q, r) at h))
      | inr (m, r) ↦
          let e : record { live_identity = i; safety_map = m } ≡ s =
            ok-injective (rw (p, validated, q, r) at h) in
          (
            p ∙ ap (λ (x : ValidationStamp). some x.live_identity) e,
            r ∙ ap (λ (x : ValidationStamp). some x.safety_map) e,
            ap (λ (x : ValidationStamp). x.live_identity.connection_id) (sym e)
                ∙ (eq_iff i.connection_id connection).0 q,
            rw (p, validated, q, r) refl,
          )
    ]
  ]
]

check_digest-ok :
    (g : GateManager) (s t : ValidationStamp) (current : String)
    → (check_digest g s current).0 ≡ ok t
    → (s ≡ t) × (s.safety_map.map_digest ≡ current)
unfolding check_digest
check_digest-ok g s t current h = elim (Bool-cases (s.safety_map.map_digest == current)) [
  | inl p ↦ (ok-injective (rw p at h), (eq_iff s.safety_map.map_digest current).0 p)
  | inr p ↦ absurd (raise-ne-ok (rw p at h))
]

write-proven :
    (g : GateManager) (board_id connection_id digest : String) (s : ValidationStamp)
    → (require_write g board_id connection_id digest).0 ≡ ok s
    → (is_empty (strip board_id) ≡ false)
      × (is_empty (strip connection_id) ≡ false)
      × (is_empty (strip digest) ≡ false)
      × Proves g (strip board_id) (strip connection_id) (strip digest) s
unfolding require_write require_validated
write-proven g board_id connection_id digest s h =
    let (t, h₁, h₂, _) = ▷-ok (require_validated g board_id connection_id) _ s h in
    let (board, b, h₃, _) = ▷-ok (needs g board_id) _ t h₁ in
    let (connection, c, h₄, _) = ▷-ok (needs g connection_id) _ t h₃ in
    let (identity, safety_map, same, _) = validated-ok g board connection t h₄ in
    let (current, d, h₅, _) =
      ▷-ok (needs (require_validated g board_id connection_id).1 digest) _ s h₂ in
    let (e, fresh) = check_digest-ok _ t s current h₅ in
    let (b₁, b₂) = needs-ok g board_id board b in
    let (c₁, c₂) = needs-ok g connection_id connection c in
    let (d₁, d₂) = needs-ok g digest current d in
    rw (← e, ← b₂, ← c₂, ← d₂)
      (
        b₁,
        c₁,
        d₁,
        record {
          identity = identity;
          safety_map = safety_map;
          same_connection = same;
          same_digest = fresh;
        },
      )

validated-proven :
    (g : GateManager) (board connection digest : String) (s : ValidationStamp)
    → Proves g board connection digest s
    → validated g board connection ≡ (ok s, g)
unfolding validated
validated-proven g board connection digest s p =
    rw
      (
        p.identity,
        validated,
        (eq_iff s.live_identity.connection_id connection).1 p.same_connection,
        p.safety_map,
      )
      refl

check_digest-proven :
    (g : GateManager) (board connection digest : String) (s : ValidationStamp)
    → Proves g board connection digest s
    → check_digest g s digest ≡ (ok s, g)
unfolding check_digest
check_digest-proven g board connection digest s p =
    rw ((eq_iff s.safety_map.map_digest digest).1 p.same_digest) refl

pub proven-write :
    (g : GateManager) (board_id connection_id digest : String) (s : ValidationStamp)
    → is_empty (strip board_id) ≡ false
    → is_empty (strip connection_id) ≡ false
    → is_empty (strip digest) ≡ false
    → Proves g (strip board_id) (strip connection_id) (strip digest) s
    → require_write g board_id connection_id digest ≡ (ok s, g)
unfolding require_write require_validated ◌▷◌
proven-write g board_id connection_id digest s b c d p =
    rw
      (
        ok-needs g board_id b,
        ok-needs g connection_id c,
        validated-proven g (strip board_id) (strip connection_id) (strip digest) s p,
        ok-needs g digest d,
      )
      (check_digest-proven g (strip board_id) (strip connection_id) (strip digest) s p)

-- A write is let through with a stamp exactly when the board, the connection and the digest are
-- not blank and the board has that stamp: its live identity on this very connection, and its map
-- with this very digest, each text without the space around it.
pub require_write_iff :
    (g : GateManager) (board_id connection_id digest : String) (s : ValidationStamp)
    → ((require_write g board_id connection_id digest).0 ≡ ok s) ↔ (
        (is_empty (strip board_id) ≡ false)
        × (is_empty (strip connection_id) ≡ false)
        × (is_empty (strip digest) ≡ false)
        × Proves g (strip board_id) (strip connection_id) (strip digest) s)
require_write_iff g board_id connection_id digest s = (
  write-proven g board_id connection_id digest s,
  λ h.
      let (b, c, d, p) = h in
      ap (λ (x : Outcome ValidationStamp). x.0)
        (proven-write g board_id connection_id digest s b c d p),
)
