-- ===== src/Guardrails/Plans/Submit/Opens.antt =====
-- The locks after the unlocking of a plan's tools in guardrails/plan_engine.py.
use byo_firmware_mcp.Prelude.{
  String, ◌≡◌, ◌∙◌, ◌≢◌, inl, inr, true, ◌&&◌, not, some, List, [], ◌∷◌, ◌==◌, ==_refl, string_eq,
  pair_eq, option_eq, arith, eq_iff, Bool-cases, Option-cases, if◌then◌else◌, true-ne-false,
}
use byo_firmware_mcp.Prelude.Result.{ok, raise-ne-ok, Result-cases}
use byo_firmware_mcp.Prelude.Dict.{get}
use byo_firmware_mcp.Kernel.Registry
use byo_firmware_mcp.Kernel.Registry.{ToolDefinition, ToolRegistry, RegistryError}
use byo_firmware_mcp.Kernel.Registry.Locks.{unlock_exact}
use byo_firmware_mcp.Guardrails.Definitions.{PlanDefinition}
use byo_firmware_mcp.Guardrails.Plans.Locking.{unlock_all, unlock_definition}

-- An unlock that returns found its tool, for a board that has a name.
unlock_found :
    (r : ToolRegistry) (name board : String)
    → (Registry.unlock r name board).0 ≡ ok tt
    → (board ≢ "") × ((d : ToolDefinition) × (get r.definitions name ≡ some d))
unfolding Registry.unlock
unlock_found r name board h = elim (Bool-cases (board == "")) [
  | inl p ↦ absurd (raise-ne-ok (rw p at h))
  | inr p ↦ elim (Option-cases (get r.definitions name)) [
    | inl q ↦ absurd (raise-ne-ok (rw (p, q) at h))
    | inr found ↦ (λ e. true-ne-false ((eq_iff board "").1 e) p, found)
  ]
]

-- What an unlock that returns does to the locks of the board.
unlock-ok :
    (r : ToolRegistry) (name board j : String)
    → (Registry.unlock r name board).0 ≡ ok tt
    → Registry.is_unlocked (Registry.unlock r name board).1 j (some board)
      ≡ (if name == j then ok true else Registry.is_unlocked r j (some board))
unlock-ok r name board j h =
    let (named, (d, p)) = unlock_found r name board h in
    unlock_exact r name board d j board p named ∙ (rw (==_refl board) (ground arith))

-- A loop of unlocks that returns keeps open what was open.
unlock_all_keeps :
    (actions unlocked : List String) (r : ToolRegistry) (primary board j : String)
    → (unlock_all actions unlocked r primary board).0 ≡ ok tt
    → Registry.is_unlocked r j (some board) ≡ ok true
    → Registry.is_unlocked (unlock_all actions unlocked r primary board).1 j (some board) ≡ ok true
unfolding unlock_all
unlock_all_keeps [] unlocked r primary board j h k = k
unlock_all_keeps (action ∷ actions) unlocked r primary board j h k =
    elim (Bool-cases (not (action == primary) && not (Registry.is_registered r action))) [
      | inl p ↦
          rw (p, unlock_all)
            (unlock_all_keeps actions unlocked r primary board j (rw (p, unlock_all) at h) k)
      | inr p ↦ elim (Result-cases (Registry.unlock r action board).0) [
        | inr (x, q) ↦ absurd (raise-ne-ok (rw (p, q, unlock_all) at h))
        | inl (u, q) ↦
            rw (p, q, unlock_all)
              (unlock_all_keeps actions (action ∷ unlocked) (Registry.unlock r action board).1
                primary board j (rw (p, q, unlock_all) at h)
                (unlock-ok r action board j q ∙ (ground arith)))
      ]
    ]

-- The primary action is open afterwards.
pub unlock_definition-opens :
    (d : PlanDefinition) (r : ToolRegistry) (board : String)
    → (unlock_definition d r board).0 ≡ ok tt
    → Registry.is_unlocked (unlock_definition d r board).1 d.action_name (some board) ≡ ok true
unfolding unlock_definition unlock_all
unlock_definition-opens d r board h =
    elim (Result-cases (Registry.unlock r d.action_name board).0) [
      | inr (x, q) ↦ absurd (raise-ne-ok (rw (==_refl d.action_name, q, unlock_all) at h))
      | inl (u, q) ↦
          rw (==_refl d.action_name, q, unlock_all)
            (unlock_all_keeps d.paired_actions (d.action_name ∷ [])
              (Registry.unlock r d.action_name board).1 d.action_name board d.action_name
              (rw (==_refl d.action_name, q, unlock_all) at h)
              (unlock-ok r d.action_name board d.action_name q ∙ (rw (==_refl d.action_name))))
    ]
