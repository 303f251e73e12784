-- ===== src/Guardrails/Gate/Keyed.antt =====
-- The invariant of the gate of guardrails/gate.py: a live identity stands under its own board. Every
-- method keeps it, whether it returns or raises.
use byo_firmware_mcp.Prelude.{
  String, ◌≡◌, refl, sym, ap, ◌∙◌, inl, inr, Bool, not, none, List, [], ◌∷◌, ◌==◌, string_eq,
  eq_iff, Bool-cases, Option-cases, if◌then◌else◌, if_either, some-injective, none-ne-some, ◌||◌,
}
use byo_firmware_mcp.Prelude.Result.{▷_rule}
use byo_firmware_mcp.Prelude.Dict.{get, get-put, get-pop}
use byo_firmware_mcp.Prelude.Sorting.{contains}
use byo_firmware_mcp.Prelude.Text.{strip}
use byo_firmware_mcp.Guardrails.Gate.{
  LiveIdentityStamp, GateManager, Outcome, ValidationStamp, clear_mismatches_of, establish,
  stamp_validation, clear_board, clear, clear_connection, validated, require_validated,
  check_digest, require_write, refresh_map_stamp, drop_board, close_reason,
}
use byo_firmware_mcp.Guardrails.Gate.Mismatch.{
  record_mismatch, clear_mismatch, rollback, rollback_validation, stamped_by,
}
use byo_firmware_mcp.Guardrails.Gate.Writes.{needs_rule}
use byo_firmware_mcp.Guardrails.Gate.Stamps.{refresh_keeps_identities}
use byo_firmware_mcp.Guardrails.Gate.Closing.{
  IsKeyed, OnlyCloses, clear_board-identities, record_allowance-identities, close_boards-identities,
}

-- Identities that stay or go keep the invariant.
fewer-IsKeyed :
    (g g' : GateManager) (gone : String → Bool)
    → ((k : String) → get g'.identities k ≡ (if gone k then none else get g.identities k))
    → IsKeyed g
    → IsKeyed g'
fewer-IsKeyed g g' gone h v = record {
  at = λ k i e. elim (Bool-cases (gone k)) [
    | inl p ↦ absurd (none-ne-some (sym (h k ∙ (rw p)) ∙ e))
    | inr p ↦ v.at k i (sym (h k ∙ (rw p)) ∙ e)
  ];
}

same-IsKeyed : (g g' : GateManager) → g'.identities ≡ g.identities → IsKeyed g → IsKeyed g'
same-IsKeyed g g' e v = record { at = λ k i h. v.at k i (ap (λ m. get m k) (sym e) ∙ h) }

closing-IsKeyed :
    (g g' : GateManager) (board : String) → OnlyCloses g board g' → IsKeyed g → IsKeyed g'
closing-IsKeyed g g' board h v = fewer-IsKeyed g g' (λ k. board == k) h v

establish-IsKeyed : (g : GateManager) (s : ValidationStamp) → IsKeyed g → IsKeyed (establish g s)
unfolding establish clear_mismatches_of
establish-IsKeyed g s v = record {
  at = λ k i h. elim (Bool-cases (s.live_identity.board_id == k)) [
    | inl p ↦
        let e : s.live_identity ≡ i = some-injective (rw (get-put, p) at h) in
        ap (λ (x : LiveIdentityStamp). x.board_id) (sym e) ∙ (eq_iff s.live_identity.board_id k).0 p
    | inr p ↦ v.at k i (rw (get-put, p) at h)
  ];
}

stamp-IsKeyed :
    (g : GateManager) (b c p o v d k now : String)
    → IsKeyed g
    → IsKeyed (stamp_validation g b c p o v d k now).1
unfolding stamp_validation
stamp-IsKeyed g b c p o v d k now w =
    needs_rule P g b _ (λ e. w)
      λ _.
        needs_rule P g c _ (λ e. w)
          λ _.
            needs_rule P g p _ (λ e. w)
              λ _.
                needs_rule P g o _ (λ e. w)
                  λ _.
                    needs_rule P g k _ (λ e. w)
                      λ _. if_either P (not (strip k == "exact" || strip k == "compatible")) _ _ w (
                        needs_rule P g v _ (λ e. w)
                          λ _. needs_rule P g d _ (λ e. w) λ _. establish-IsKeyed g _ w)
  where
    P : Outcome ValidationStamp → Type 0
    P x = IsKeyed x.1

clear-IsKeyed : (g : GateManager) (b reason : String) → IsKeyed g → IsKeyed (clear g b reason).1
unfolding clear
clear-IsKeyed g b reason w =
    needs_rule (λ x. IsKeyed x.1) g b _ (λ e. w)
      (λ _.
        closing-IsKeyed g (clear_board g (strip b) reason) (strip b)
          (clear_board-identities g (strip b) reason) w)

clear_connection-IsKeyed :
    (g : GateManager) (c reason : String) → IsKeyed g → IsKeyed (clear_connection g c reason).1
unfolding clear_connection clear_mismatches_of
clear_connection-IsKeyed g c reason w =
    needs_rule (λ x. IsKeyed x.1) g c _ (λ e. w)
      (λ _. fewer-IsKeyed g _ (λ k. contains k _) (close_boards-identities _ _ g) w)

validated-IsKeyed :
    (g : GateManager) (board connection : String)
    → IsKeyed g
    → IsKeyed (validated g board connection).1
unfolding validated
validated-IsKeyed g board connection w = elim (Option-cases (get g.identities board)) [
  | inl p ↦ rw (p, validated) w
  | inr (i, p) ↦ elim (Bool-cases (i.connection_id == connection)) [
    | inr q ↦
        rw (p, validated, q)
          (closing-IsKeyed g _ board (clear_board-identities g board "connection identity changed")
            w)
    | inl q ↦ elim (Option-cases (get g.maps board)) [
      | inl r ↦ rw (p, validated, q, r) w
      | inr (m, r) ↦ rw (p, validated, q, r) w
    ]
  ]
]

write-IsKeyed : (g : GateManager) (b c d : String) → IsKeyed g → IsKeyed (require_write g b c d).1
unfolding require_write require_validated check_digest
write-IsKeyed g b c d w =
    ▷_rule IsKeyed (require_validated g b c) _
      (needs_rule (λ x. IsKeyed x.1) g b _ (λ e. w)
        (λ _.
          needs_rule (λ x. IsKeyed x.1) g c _ (λ e. w)
            (λ _. validated-IsKeyed g (strip b) (strip c) w)))
      (λ s _ k.
        needs_rule (λ x. IsKeyed x.1) (require_validated g b c).1 d _ (λ e. k)
          (λ _.
            if_either (λ (x : Outcome ValidationStamp). IsKeyed x.1)
              (not (s.safety_map.map_digest == strip d)) _ _ (same-IsKeyed _ _ refl k) k))

mismatch-IsKeyed :
    (g : GateManager) (b c p x o v now : String)
    → IsKeyed g
    → IsKeyed (record_mismatch g b c p x o v now).1
unfolding record_mismatch
mismatch-IsKeyed g b c p x o v now w =
    needs_rule (λ x. IsKeyed x.1) g b _ (λ e. w)
      λ _.
        needs_rule (λ x. IsKeyed x.1) g c _ (λ e. w)
          λ _.
            needs_rule (λ x. IsKeyed x.1) g p _ (λ e. w)
              λ _.
                needs_rule (λ x. IsKeyed x.1) g x _ (λ e. w)
                  λ _.
                    needs_rule (λ x. IsKeyed x.1) g o _ (λ e. w)
                      λ _.
                        needs_rule (λ x. IsKeyed x.1) g v _ (λ e. w)
                          λ _. closing-IsKeyed g _ (strip b) (record_allowance-identities g _) w

validated_call-IsKeyed :
    (g : GateManager) (b c : String) → IsKeyed g → IsKeyed (require_validated g b c).1
unfolding require_validated
validated_call-IsKeyed g b c w =
    needs_rule (λ x. IsKeyed x.1) g b _ (λ e. w)
      λ _.
        needs_rule (λ x. IsKeyed x.1) g c _ (λ e. w) λ _. validated-IsKeyed g (strip b) (strip c) w

drop_board-IsKeyed : (g : GateManager) (board : String) → IsKeyed g → IsKeyed (drop_board board g)
unfolding drop_board
drop_board-IsKeyed g board w = closing-IsKeyed g _ board (get-pop g.identities board) w

rollback-IsKeyed :
    (g : GateManager) (b v : String) → IsKeyed g → IsKeyed (rollback_validation g b v).1
unfolding rollback_validation rollback clear_mismatches_of close_reason
rollback-IsKeyed g b v w =
    needs_rule (λ x. IsKeyed x.1) g b _ (λ e. w)
      λ _.
        needs_rule (λ x. IsKeyed x.1) g v _ (λ e. w)
          λ _.
            let dropped : GateManager =
              if stamped_by g (strip b) (strip v) then drop_board (strip b) g else g in
            let kept : IsKeyed dropped =
              if_either IsKeyed (stamped_by g (strip b) (strip v)) _ _
                (drop_board-IsKeyed g (strip b) w) w in
            if_either IsKeyed _ _ _ (same-IsKeyed dropped _ refl kept)
              (same-IsKeyed dropped _ refl kept)

clear_mismatch-IsKeyed : (g : GateManager) (b : String) → IsKeyed g → IsKeyed (clear_mismatch g b).1
unfolding clear_mismatch clear_mismatches_of
clear_mismatch-IsKeyed g b w =
    needs_rule (λ x. IsKeyed x.1) g b _ (λ e. w) λ _. same-IsKeyed g _ refl w

-- One call of a method that may change the gate, with the texts in the order of its parameters.
pub data GateCall : Type 0 where
  stamp_call : (b c p o v d k now : String) → GateCall
  mismatch_call : (b c p x o v now : String) → GateCall
  write_call refresh_call : (b c d : String) → GateCall
  validated_call clear_call connection_call rollback_call : (b c : String) → GateCall
  clear_mismatch_call : (b : String) → GateCall

unfoldable pub gate_apply : GateManager → GateCall → GateManager
gate_apply g (stamp_call b c p o v d k now) = (stamp_validation g b c p o v d k now).1
gate_apply g (mismatch_call b c p x o v now) = (record_mismatch g b c p x o v now).1
gate_apply g (write_call b c d) = (require_write g b c d).1
gate_apply g (refresh_call b c d) = (refresh_map_stamp g b c d).1
gate_apply g (validated_call b c) = (require_validated g b c).1
gate_apply g (clear_call b reason) = (clear g b reason).1
gate_apply g (connection_call c reason) = (clear_connection g c reason).1
gate_apply g (rollback_call b v) = (rollback_validation g b v).1
gate_apply g (clear_mismatch_call b) = (clear_mismatch g b).1

gate_apply-IsKeyed : (g : GateManager) (call : GateCall) → IsKeyed g → IsKeyed (gate_apply g call)
unfolding gate_apply
gate_apply-IsKeyed g (stamp_call b c p o v d k now) w = stamp-IsKeyed g b c p o v d k now w
gate_apply-IsKeyed g (mismatch_call b c p x o v now) w = mismatch-IsKeyed g b c p x o v now w
gate_apply-IsKeyed g (write_call b c d) w = write-IsKeyed g b c d w
gate_apply-IsKeyed g (refresh_call b c d) w = same-IsKeyed g _ (refresh_keeps_identities g b c d) w
gate_apply-IsKeyed g (validated_call b c) w = validated_call-IsKeyed g b c w
gate_apply-IsKeyed g (clear_call b reason) w = clear-IsKeyed g b reason w
gate_apply-IsKeyed g (connection_call c reason) w = clear_connection-IsKeyed g c reason w
gate_apply-IsKeyed g (rollback_call b v) w = rollback-IsKeyed g b v w
gate_apply-IsKeyed g (clear_mismatch_call b) w = clear_mismatch-IsKeyed g b w

unfoldable pub gate_run : GateManager → List GateCall → GateManager
gate_run g [] = g
gate_run g (call ∷ calls) = gate_run (gate_apply g call) calls

-- Whatever calls are made, a gate whose live identities stand under their own boards stays so.
pub gate_run-IsKeyed :
    (g : GateManager) (calls : List GateCall) → IsKeyed g → IsKeyed (gate_run g calls)
unfolding gate_run
gate_run-IsKeyed g [] w = w
gate_run-IsKeyed g (call ∷ calls) w =
    gate_run-IsKeyed (gate_apply g call) calls (gate_apply-IsKeyed g call w)
