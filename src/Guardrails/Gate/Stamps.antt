-- ===== src/Guardrails/Gate/Stamps.antt =====
-- What a validation and a refresh of guardrails/gate.py allow afterwards.
use byo_firmware_mcp.Prelude.{
  String, ◌≡◌, refl, sym, ap, ◌∙◌, inl, inr, false, ◌||◌, not, Option, some, ◌==◌, ==_refl,
  string_eq, arith, eq_iff, Bool-cases, Option-cases, if_rule, some-injective, none-ne-some,
}
use byo_firmware_mcp.Prelude.Result.{ok, raise, ok-injective, raise-ne-ok}
use byo_firmware_mcp.Prelude.Dict.{get, get-put}
use byo_firmware_mcp.Prelude.Text.{strip, is_empty}
use byo_firmware_mcp.Guardrails.Gate.{
  SafetyMapStamp, ValidationStamp, GateManager, GateError, Outcome, require_write, refresh_map,
  refresh_map_stamp, establish, stamp_validation, clear_mismatches_of,
}
use byo_firmware_mcp.Guardrails.Gate.Writes.{Proves, needs_rule, proven-write}

-- What a validation that returns did.
record Stamped (g : GateManager) (b c d : String) (x : Outcome ValidationStamp)
    (s : ValidationStamp) : Type 0 where
  has_board : is_empty (strip b) ≡ false
  has_connection : is_empty (strip c) ≡ false
  has_digest : is_empty (strip d) ≡ false
  board : s.live_identity.board_id ≡ strip b
  connection : s.live_identity.connection_id ≡ strip c
  digest : s.safety_map.map_digest ≡ strip d
  after : x.1 ≡ establish g s

stamp-ok :
    (g : GateManager) (b c p o v d k now : String) (s : ValidationStamp)
    → (stamp_validation g b c p o v d k now).0 ≡ ok s
    → Stamped g b c d (stamp_validation g b c p o v d k now) s
unfolding stamp_validation
stamp-ok g b c p o v d k now s = needs_rule P g b _ raised λ b₁. needs_rule P g c _ raised λ c₁.
    needs_rule P g p _ raised λ _. needs_rule P g o _ raised λ _. needs_rule P g k _ raised λ _.
      if_rule P (not (strip k == "exact" || strip k == "compatible")) _ _ (λ _. raised _)
        λ _. needs_rule P g v _ raised λ _. needs_rule P g d _ raised λ d₁ h. record {
          has_board = b₁;
          has_connection = c₁;
          has_digest = d₁;
          board = ap (λ (x : ValidationStamp). x.live_identity.board_id) (sym (ok-injective h));
          connection =
              ap (λ (x : ValidationStamp). x.live_identity.connection_id) (sym (ok-injective h));
          digest = ap (λ (x : ValidationStamp). x.safety_map.map_digest) (sym (ok-injective h));
          after = ap (establish g) (ok-injective h);
        }
  where
    P : Outcome ValidationStamp → Type 0
    P x = x.0 ≡ ok s → Stamped g b c d x s

    raised : (e : GateError) → P (raise e, g)
    raised e h = absurd (raise-ne-ok h)

-- An established stamp stands under its board.
get-establish :
    (g : GateManager) (s : ValidationStamp) (board connection digest : String)
    → s.live_identity.board_id ≡ board
    → s.live_identity.connection_id ≡ connection
    → s.safety_map.map_digest ≡ digest
    → Proves (establish g s) board connection digest s
unfolding establish clear_mismatches_of
get-establish g s board connection digest b c d = record {
  identity = rw (← b, get-put, ==_refl s.live_identity.board_id) refl;
  safety_map = rw (← b, get-put, ==_refl s.live_identity.board_id) refl;
  same_connection = c;
  same_digest = d;
}

-- After a validation that returns, a write on the same board and connection with the same digest
-- is let through with the new stamp, as long as nothing else changes the gate.
pub stamp-then-write :
    (g : GateManager) (b c p o v d k now : String) (s : ValidationStamp)
    → (stamp_validation g b c p o v d k now).0 ≡ ok s
    → (require_write (stamp_validation g b c p o v d k now).1 b c d).0 ≡ ok s
stamp-then-write g b c p o v d k now s h =
    let st = stamp-ok g b c p o v d k now s h in
    ap (λ x. (require_write x b c d).0) st.after
    ∙ ap (λ (x : Outcome ValidationStamp). x.0)
        (proven-write (establish g s) b c d s st.has_board st.has_connection st.has_digest
          (get-establish g s (strip b) (strip c) (strip d) st.board st.connection st.digest))

-- What a refresh on stripped texts did.
refresh_map-ok :
    (g : GateManager) (board connection digest : String) (s : ValidationStamp)
    → (refresh_map g board connection digest).0 ≡ ok (some s)
    → Proves (refresh_map g board connection digest).1 board connection digest s
unfolding refresh_map
refresh_map-ok g board connection digest s h = elim (Option-cases (get g.identities board)) [
  | inl p ↦ absurd (none-ne-some (ok-injective (rw (p, refresh_map) at h)))
  | inr (i, p) ↦ elim (Bool-cases (i.connection_id == connection)) [
    | inr q ↦ absurd (none-ne-some (ok-injective (rw (p, refresh_map, q) at h)))
    | inl q ↦
        let m : SafetyMapStamp = record { board_id = board; map_digest = digest } in
        let e : record { live_identity = i; safety_map = m } ≡ s =
          some-injective (ok-injective (rw (p, refresh_map, q) at h)) in
        rw (p, refresh_map, q)
          (record {
            identity = p ∙ ap (λ (x : ValidationStamp). some x.live_identity) e;
            safety_map =
                get-put g.maps board m board
                ∙ (rw (==_refl board))
                ∙ ap (λ (x : ValidationStamp). some x.safety_map) e;
            same_connection =
                ap (λ (x : ValidationStamp). x.live_identity.connection_id) (sym e)
                ∙ (eq_iff i.connection_id connection).0 q;
            same_digest = ap (λ (x : ValidationStamp). x.safety_map.map_digest) (sym e);
          })
  ]
]

-- After a refresh that returns a stamp, a write on the same board and connection with the same
-- digest is let through with it, as long as nothing else changes the gate.
pub refresh-then-write :
    (g : GateManager) (b c d : String) (s : ValidationStamp)
    → (refresh_map_stamp g b c d).0 ≡ ok (some s)
    → (require_write (refresh_map_stamp g b c d).1 b c d).0 ≡ ok s
unfolding refresh_map_stamp
refresh-then-write g b c d s = needs_rule P g b _ raised λ b₁. needs_rule P g c _ raised λ c₁.
    needs_rule P g d _ raised λ d₁ h.
      ap (λ (x : Outcome ValidationStamp). x.0)
        (proven-write _ b c d s b₁ c₁ d₁ (refresh_map-ok g (strip b) (strip c) (strip d) s h))
  where
    P : Outcome (Option ValidationStamp) → Type 0
    P x = x.0 ≡ ok (some s) → (require_write x.1 b c d).0 ≡ ok s

    raised : (e : GateError) → P (raise e, g)
    raised e h = absurd (raise-ne-ok h)

pub refresh_map-identities :
    (g : GateManager) (board connection digest : String)
    → (refresh_map g board connection digest).1.identities ≡ g.identities
unfolding refresh_map
refresh_map-identities g board connection digest = ground arith

-- A refresh changes no live identity, whatever it answers.
pub refresh_keeps_identities :
    (g : GateManager) (b c d : String) → (refresh_map_stamp g b c d).1.identities ≡ g.identities
unfolding refresh_map_stamp
refresh_keeps_identities g b c d =
    needs_rule P g b _ (λ e. refl)
      λ _.
        needs_rule P g c _ (λ e. refl)
          λ _.
            needs_rule P g d _ (λ e. refl)
              λ _. refresh_map-identities g (strip b) (strip c) (strip d)
  where
    P : Outcome (Option ValidationStamp) → Type 0
    P x = x.1.identities ≡ g.identities
