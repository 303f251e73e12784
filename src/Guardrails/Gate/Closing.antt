-- ===== src/Guardrails/Gate/Closing.antt =====
-- What closes the gate of guardrails/gate.py: a clearing, a mismatch, and the end of a connection.
use byo_firmware_mcp.Prelude.{
  String, ◌≡◌, ◌≢◌, refl, sym, ◌∙◌, inl, inr, true, false, none, some, List, [], ◌∷◌, ◌==◌, ==_refl,
  string_eq, arith, eq_iff, Bool-cases, if◌then◌else◌, some-injective, none-ne-some, true-ne-false,
  Member, filter-Member, map_list-Any, Member-Any, Any-left,
}
use byo_firmware_mcp.Prelude.Result.{ok, raise, raise-ne-ok, ◌▷◌}
use byo_firmware_mcp.Prelude.Dict.{Dict, get, get-pop}
use byo_firmware_mcp.Prelude.Sorting.{contains, Member-dedup, Any→contains}
use byo_firmware_mcp.Prelude.Text.{strip, is_empty}
use byo_firmware_mcp.Guardrails.Gate.{
  LiveIdentityStamp, GateManager, GateError, gate, MismatchAllowance, Outcome, validated,
  require_validated, require_write, clear_mismatches_of, drop_board, close_reason, clear_board,
  clear, close_boards, boards_on, clear_connection, reason_or,
}
use byo_firmware_mcp.Guardrails.Gate.Mismatch.{record_allowance, record_mismatch}
use byo_firmware_mcp.Guardrails.Gate.Writes.{needs_rule, ok-needs}

validated-closed :
    (g : GateManager) (board connection : String)
    → get g.identities board ≡ none
    → validated g board connection ≡ (raise (gate "gate/validation-required"), g)
unfolding validated
validated-closed g board connection p = rw (p, validated) refl

-- Without a live identity of its board a write is refused.
write-closed :
    (g : GateManager) (b c d : String)
    → is_empty (strip b) ≡ false
    → is_empty (strip c) ≡ false
    → get g.identities (strip b) ≡ none
    → (require_write g b c d).0 ≡ raise (gate "gate/validation-required")
unfolding require_write require_validated ◌▷◌
write-closed g b c d b₁ c₁ p =
    rw (ok-needs g b b₁, ok-needs g c c₁, validated-closed g (strip b) (strip c) p) refl

-- The other boards' identities stay.
abbrev pub OnlyCloses : GateManager → String → GateManager → Type 0
OnlyCloses g board g' =
    (k : String) → get g'.identities k ≡ (if board == k then none else get g.identities k)

pub clear_board-identities :
    (g : GateManager) (board reason : String) → OnlyCloses g board (clear_board g board reason)
unfolding clear_board close_reason clear_mismatches_of drop_board
clear_board-identities g board reason k = get-pop g.identities board k

pub record_allowance-identities :
    (g : GateManager) (a : MismatchAllowance) → OnlyCloses g a.board_id (record_allowance g a)
unfolding record_allowance close_reason clear_mismatches_of drop_board
record_allowance-identities g a k = get-pop g.identities a.board_id k

closes-write :
    (g g' : GateManager) (b c d : String)
    → is_empty (strip b) ≡ false
    → is_empty (strip c) ≡ false
    → OnlyCloses g (strip b) g'
    → ((require_write g' b c d).0 ≡ raise (gate "gate/validation-required"))
      × OnlyCloses g (strip b) g'
closes-write g g' b c d b₁ c₁ h =
    (write-closed g' b c d b₁ c₁ (h (strip b) ∙ (rw (==_refl (strip b)))), h)

-- After a clearing of a board that is not blank, a write on it is refused for want of a
-- validation, whatever the connection, as long as that is not blank, and the live identities of
-- other boards are as before.
pub clear-then-write :
    (g : GateManager) (b reason c d : String)
    → is_empty (strip b) ≡ false
    → is_empty (strip c) ≡ false
    → ((require_write (clear g b reason).1 b c d).0 ≡ raise (gate "gate/validation-required"))
      × OnlyCloses g (strip b) (clear g b reason).1
unfolding clear ◌▷◌
clear-then-write g b reason c d b₁ c₁ = rw (ok-needs g b b₁) (
    closes-write g (clear_board g (strip b) reason) b c d b₁ c₁
      (clear_board-identities g (strip b) reason))

-- After a mismatch is recorded, a write on its board is refused for want of a validation,
-- whatever the connection, as long as that is not blank, and the live identities of other boards
-- are as before.
pub mismatch-then-write :
    (g : GateManager) (b c p x o v now : String) (a : MismatchAllowance) (connection d : String)
    → (record_mismatch g b c p x o v now).0 ≡ ok a
    → is_empty (strip connection) ≡ false
    → ((require_write (record_mismatch g b c p x o v now).1 b connection d).0
        ≡ raise (gate "gate/validation-required"))
      × OnlyCloses g (strip b) (record_mismatch g b c p x o v now).1
unfolding record_mismatch
mismatch-then-write g b c p x o v now a connection d h c₁ =
    (needs_rule P g b _ raised λ b₁. needs_rule P g c _ raised λ _. needs_rule P g p _ raised λ _.
        needs_rule P g x _ raised λ _. needs_rule P g o _ raised λ _.
          needs_rule P g v _ raised λ _ _.
            closes-write g (record_allowance g recorded) b connection d b₁ c₁
              (record_allowance-identities g recorded))
      h
  where
    recorded : MismatchAllowance
    recorded = record {
      board_id = strip b;
      connection_id = strip c;
      probe_identity = strip p;
      expected_mcu = strip x;
      observed_mcu = strip o;
      validation_run = strip v;
      recorded_at = now;
    }

    P : Outcome MismatchAllowance → Type 0
    P r =
        r.0 ≡ ok a
        → ((require_write r.1 b connection d).0 ≡ raise (gate "gate/validation-required"))
          × OnlyCloses g (strip b) r.1

    raised : (e : GateError) → P (raise e, g)
    raised e k = absurd (raise-ne-ok k)

-- A live identity stands under its own board.
pub record IsKeyed (g : GateManager) : Type 0 where
  pub at : (k : String) (i : LiveIdentityStamp) → get g.identities k ≡ some i → i.board_id ≡ k

get-Member :
    (m : Dict String LiveIdentityStamp) (k : String) (i : LiveIdentityStamp)
    → get m k ≡ some i
    → Member (k, i) m
unfolding get
get-Member [] k i h = absurd (none-ne-some h)
get-Member ((j, w) ∷ m) k i h = elim (Bool-cases (j == k)) [
  | inl p ↦
      let q : some w ≡ some i = rw p at h in inl (rw ((eq_iff j k).0 p, some-injective q) refl)
  | inr p ↦ inr (get-Member m k i (rw p at h))
]

pub close_boards-identities :
    (boards : List String) (reason : String) (g : GateManager) (k : String)
    → get (close_boards boards reason g).identities k
      ≡ (if contains k boards then none else get g.identities k)
unfolding close_boards close_reason drop_board contains
close_boards-identities [] reason g k = refl
close_boards-identities (board ∷ boards) reason g k = ground (
  arith,
  close_boards-identities boards reason (close_reason board reason (drop_board board g)) k,
  get-pop g.identities board k,
  eq_iff k board,
  eq_iff board k,
)

-- The board of a live identity on the connection is collected.
boards_on-contains :
    (g : GateManager) (connection k : String) (i : LiveIdentityStamp)
    → get g.identities k ≡ some i
    → i.board_id ≡ k
    → (i.connection_id == connection) ≡ true
    → contains k (boards_on g connection) ≡ true
unfolding boards_on
boards_on-contains g connection k i h e q = Any→contains k (boards_on g connection) (
    Member-dedup k _ (
      Any-left (λ y. k ≡ y) _ _
        (map_list-Any (λ y. k ≡ y) (λ (x : String × LiveIdentityStamp). x.1.board_id) _
          (Member-Any (λ x. k ≡ x.1.board_id) (k, i) _
            (filter-Member (λ x. x.1.connection_id == connection) (k, i) g.identities
              (get-Member g.identities k i h) q)
            (sym e)))))

-- After the end of a connection that is not blank, no live identity of it is left, provided each
-- live identity stood under its own board.
pub clear_connection_ends :
    (g : GateManager) (c reason k : String) (i : LiveIdentityStamp)
    → IsKeyed g
    → is_empty (strip c) ≡ false
    → get (clear_connection g c reason).1.identities k ≡ some i
    → i.connection_id ≢ strip c
unfolding clear_connection clear_mismatches_of ◌▷◌
clear_connection_ends g c reason k i v c₁ h e =
    elim (Bool-cases (contains k (boards_on g (strip c)))) [
      | inl p ↦ absurd (none-ne-some (sym (closed_at ∙ (rw p)) ∙ left))
      | inr p ↦
          let found : get g.identities k ≡ some i = sym (closed_at ∙ (rw p)) ∙ left in
          true-ne-false
            (boards_on-contains g (strip c) k i found (v.at k i found)
              ((eq_iff i.connection_id (strip c)).1 e))
            p
    ]
  where
    after : GateManager
    after = close_boards (boards_on g (strip c)) (reason_or reason "connection closed") g

    left : get after.identities k ≡ some i
    left = rw (ok-needs g c c₁) at h

    closed_at :
        get after.identities k
        ≡ (if contains k (boards_on g (strip c)) then none else get g.identities k)
    closed_at =
        close_boards-identities (boards_on g (strip c)) (reason_or reason "connection closed") g k
