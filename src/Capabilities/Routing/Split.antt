-- ===== src/Capabilities/Routing/Split.antt =====
-- Which of its two routes a board has, in capabilities/routing.py.
use byo_firmware_mcp.Prelude.{
  String, ◌≡◌, refl, ap, ◌∙◌, true, false, true-ne-false, and_true, Option, none, some, [], ◌∷◌,
  ◌⊎◌, inl, inr, Bool-cases, ◌↔◌, arith, eq_iff, string_eq,
}
use Prim.Native.String.{◌++◌}
use byo_firmware_mcp.Prelude.Result.{ok, raise, ◌>>=◌}
use byo_firmware_mcp.Prelude.Sorting.{contains}
use byo_firmware_mcp.Capabilities.Matrix.{raw_tool_for, safe_tool_for}
use byo_firmware_mcp.Capabilities.Routing.{
  Tier, no_setup, setup_lite, setup_full, CapabilityState, hardware_allowed, corrupt, wrong_route,
  lite_warning, bypassed, has_tier, state_for, safe_by, raw_by, require_safe, require_raw,
}

Tier-cases :
    (o : Option Tier)
    → (o ≡ none) ⊎ (o ≡ some no_setup) ⊎ (o ≡ some setup_lite) ⊎ (o ≡ some setup_full)
Tier-cases none = inl refl
Tier-cases (some no_setup) = inr (inl refl)
Tier-cases (some setup_lite) = inr (inr (inl refl))
Tier-cases (some setup_full) = inr (inr (inr refl))

module _ (resolve : String → CapabilityState) (operation board : String) where
  abbrev IsTier : Option Tier → Type 0
  IsTier t = (resolve board).tier ≡ t

  -- A policy that was committed, or stands in for one that was.
  abbrev pub IsCommitted : Type 0
  IsCommitted =
      ((resolve board).status ≡ "committed")
      ⊎ ((resolve board).status ≡ "legacy-migrated")
      ⊎ ((resolve board).status ≡ "setup-incomplete")

  -- Neither route, the raw one, both with a warning on the raw one, or the safe one.
  abbrev pub IsSplit : Type 0
  IsSplit =
      ((IsTier none ⊎ ¬ IsCommitted)
        × (require_safe resolve operation board none ≡ raise corrupt)
        × (require_raw resolve operation board none ≡ raise corrupt))
      ⊎ (IsCommitted
          × IsTier (some no_setup)
          × (require_safe resolve operation board none
              ≡ raise
                  (wrong_route (raw_tool_for operation ∷ "board_setup-plan" ∷ "board_setup" ∷ [])))
          × (require_raw resolve operation board none ≡ ok none))
      ⊎ (IsCommitted
          × IsTier (some setup_lite)
          × (require_safe resolve operation board none ≡ ok (resolve board))
          × (require_raw resolve operation board none
              ≡ ok (some (lite_warning (bypassed operation board "containment.")))))
      ⊎ (IsCommitted
          × IsTier (some setup_full)
          × (require_safe resolve operation board none ≡ ok (resolve board))
          × (require_raw resolve operation board none
              ≡ raise (
                  wrong_route
                    ((safe_tool_for operation ++ "-plan") ∷ safe_tool_for operation ∷ []))))

  -- What the statuses that allow hardware are.
  committed_iff :
      (contains (resolve board).status ("committed" ∷ "legacy-migrated" ∷ "setup-incomplete" ∷ [])
        ≡ true)
      ↔ IsCommitted
  unfolding contains
  committed_iff =
      let c = eq_iff (resolve board).status "committed" in
      let l = eq_iff (resolve board).status "legacy-migrated" in
      let i = eq_iff (resolve board).status "setup-incomplete" in
      (λ h. ground (arith, c, l, i), λ h. ground (arith, c, l, i))

  not-allowed : hardware_allowed (resolve board) ≡ false → IsTier none ⊎ ¬ IsCommitted
  unfolding hardware_allowed
  not-allowed p = elim (Bool-cases (has_tier (resolve board).tier)) [
    | inl q ↦ inr (λ h. true-ne-false (committed_iff.1 h) (ground (arith, q)))
    | inr q ↦ inl (no_tier (resolve board).tier q)
  ]
    where
      no_tier : (o : Option Tier) → has_tier o ≡ false → o ≡ none
      no_tier none h = refl
      no_tier (some t) h = ground arith

  allowed-IsCommitted : hardware_allowed (resolve board) ≡ true → IsCommitted
  unfolding hardware_allowed
  allowed-IsCommitted p = committed_iff.0 (and_true _ _ p).1

  state-allowed :
      hardware_allowed (resolve board) ≡ true → state_for resolve board ≡ ok (resolve board)
  unfolding state_for
  state-allowed p = rw p refl

  IsTier-allowed : hardware_allowed (resolve board) ≡ true → ¬ IsTier none
  unfolding hardware_allowed
  IsTier-allowed p t = true-ne-false (and_true _ _ p).0 (ap has_tier t)

  safe-tier :
      (t : Option Tier)
      → hardware_allowed (resolve board) ≡ true
      → IsTier t
      → require_safe resolve operation board none ≡ safe_by resolve operation (resolve board) t
  unfolding require_safe
  safe-tier t p q =
      ap (λ m. m >>= λ s. safe_by resolve operation s s.tier) (state-allowed p)
      ∙ ap (safe_by resolve operation (resolve board)) q

  raw-tier :
      (t : Option Tier)
      → hardware_allowed (resolve board) ≡ true
      → IsTier t
      → require_raw resolve operation board none ≡ raw_by resolve operation board t
  unfolding require_raw
  raw-tier t p q =
      ap (λ m. m >>= λ s. raw_by resolve operation board s.tier) (state-allowed p)
      ∙ ap (raw_by resolve operation board) q

  -- A board has no route where its policy has no tier or its status is none of committed,
  -- legacy-migrated and setup-incomplete. Otherwise, before setup the raw route is open and the
  -- safe one refused with the raw tool as a remedy; after a full setup the safe route is open and
  -- the raw one refused with the safe tool as a remedy; after a lite setup both are open, and the
  -- raw one gives a warning.
  pub routes-IsSplit : IsSplit
  unfolding require_safe require_raw state_for
  routes-IsSplit = elim (Bool-cases (hardware_allowed (resolve board))) [
    | inr p ↦ inl (not-allowed p, rw p refl, rw p refl)
    | inl p ↦
        let c : IsCommitted = allowed-IsCommitted p in
        elim (Tier-cases (resolve board).tier) [
          | inl t ↦ absurd (IsTier-allowed p t)
          | inr (inl t) ↦ inr (inl (c, t, safe-tier _ p t, raw-tier _ p t))
          | inr (inr (inl t)) ↦ inr (inr (inl (c, t, safe-tier _ p t, raw-tier _ p t)))
          | inr (inr (inr t)) ↦ inr (inr (inr (c, t, safe-tier _ p t, raw-tier _ p t)))
        ]
  ]
