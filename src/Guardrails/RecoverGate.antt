-- ===== src/Guardrails/RecoverGate.antt =====
-- `authorize_recover` of src/pyocd_debug_mcp/guardrails/recover_gate.py: when a destructive recovery of
-- a target may start. A session is given by its board configuration, where it has one.
use byo_firmware_mcp.Prelude.{
  String, ◌≡◌, ◌≢◌, ◌∙◌, ap, inl, inr, refl, Bool-cases, true-ne-false, Bool, true, false, not,
  Option, none, some, arith, ◌==◌, string_eq, if◌then◌else◌, eq_iff,
}
use byo_firmware_mcp.Prelude.Result.{Result, ok, raise, ◌>>=◌, >>=-ok, raise-ne-ok, ok-injective}
use byo_firmware_mcp.Prelude.Text.{is_empty}

-- The codes of the refusals, in the order of the tests.
pub data RecoverRefusal : Type 0 where
  no_session no_board_config confirmation_required already_used : RecoverRefusal
  unsupported_mode manual_only : RecoverRefusal

pub record BoardConfig : Type 0 where
  pub board_id : String
  pub recover_mode : Option String

pub record AuthorizedRecoverRequest : Type 0 where
  pub board_id : String
  pub recover_mode : String

abbrev pub recover_mode_manual_only : String
recover_mode_manual_only = "manual_only"

-- The mode of a board that has one; `none` and the empty text alike are no mode.
abbrev pub mode_of : Option String → Result RecoverRefusal String
mode_of none = raise unsupported_mode
mode_of (some mode) = if is_empty mode then raise unsupported_mode else ok mode

unfoldable pub authorize_mode : String → String → Result RecoverRefusal AuthorizedRecoverRequest
authorize_mode board_id mode =
    if mode == recover_mode_manual_only
    then raise manual_only
    else ok (record { board_id = board_id; recover_mode = mode })

unfoldable pub authorize_board :
    BoardConfig → Bool → Bool → Result RecoverRefusal AuthorizedRecoverRequest
authorize_board board confirm completed =
    if not confirm
    then raise confirmation_required
    else if completed
    then raise already_used
    else mode_of board.recover_mode >>= λ mode. authorize_mode board.board_id mode

unfoldable pub authorize_recover :
    Option (Option BoardConfig) → Bool → Bool → Result RecoverRefusal AuthorizedRecoverRequest
authorize_recover none confirm completed = raise no_session
authorize_recover (some none) confirm completed = raise no_board_config
authorize_recover (some (some board)) confirm completed = authorize_board board confirm completed

authorize_mode-ok :
    (board_id mode : String) (r : AuthorizedRecoverRequest)
    → authorize_mode board_id mode ≡ ok r
    → ((mode == recover_mode_manual_only) ≡ false)
      × (board_id ≡ r.board_id)
      × (mode ≡ r.recover_mode)
unfolding authorize_mode
authorize_mode-ok board_id mode r h = ground arith

mode_of-ok :
    (o : Option String) (mode : String)
    → mode_of o ≡ ok mode
    → (o ≡ some mode) × (is_empty mode ≡ false)
mode_of-ok none mode h = absurd (raise-ne-ok h)
mode_of-ok (some x) mode h = elim (Bool-cases (is_empty x)) [
  | inl e ↦ absurd (raise-ne-ok (rw e at h))
  | inr e ↦ let same : x ≡ mode = ok-injective (rw e at h) in (ap some same, rw same at e)
]

authorize_board-step :
    (board : BoardConfig) (confirm completed : Bool) (r : AuthorizedRecoverRequest)
    → authorize_board board confirm completed ≡ ok r
    → (confirm ≡ true)
      × (completed ≡ false)
      × ((mode_of board.recover_mode >>= λ mode. authorize_mode board.board_id mode) ≡ ok r)
unfolding authorize_board
authorize_board-step board true false r h = (refl, refl, h)
authorize_board-step board true true r h = absurd (raise-ne-ok h)
authorize_board-step board false completed r h = absurd (raise-ne-ok h)

-- A recovery that is authorized was confirmed, is the first of its session, and is for the board
-- of that session, in its own mode, which is neither empty nor the manual one.
pub authorize_recover-confirmed :
    (handle : Option (Option BoardConfig)) (confirm completed : Bool) (r : AuthorizedRecoverRequest)
    → authorize_recover handle confirm completed ≡ ok r
    → (confirm ≡ true)
      × (completed ≡ false)
      × ((board : BoardConfig) × (handle ≡ some (some board))
          × (board.board_id ≡ r.board_id)
          × (board.recover_mode ≡ some r.recover_mode))
      × (is_empty r.recover_mode ≡ false)
      × (r.recover_mode ≢ recover_mode_manual_only)
unfolding authorize_recover
authorize_recover-confirmed none confirm completed r h = absurd (raise-ne-ok h)
authorize_recover-confirmed (some none) confirm completed r h = absurd (raise-ne-ok h)
authorize_recover-confirmed (some (some b)) confirm completed r h =
    let (asked, first, h1) = authorize_board-step b confirm completed r h in
    let (mode, found, h2) =
      >>=-ok (mode_of b.recover_mode) (λ mode. authorize_mode b.board_id mode) r h1 in
    let (automated, here, same) = authorize_mode-ok b.board_id mode r h2 in
    let (is_mode, nonempty) = mode_of-ok b.recover_mode mode found in
    (
      asked,
      first,
      (b, refl, here, rw same at is_mode),
      rw same at nonempty,
      λ e. true-ne-false ((eq_iff mode recover_mode_manual_only).1 (same ∙ e)) automated,
    )
