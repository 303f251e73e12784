-- ===== src/Guardrails/Plans/State.antt =====
-- Plans and the engine's state: `ActivePlan`, `_PlanState` and the artifact binding of
-- guardrails/plan_engine.py.
use byo_firmware_mcp.Prelude.{
  ℕ, String, Bool, true, false, not, Option, none, some, [], ◌∷◌, string_eq, pair_eq, option_eq,
  if◌then◌else◌,
}
use byo_firmware_mcp.Prelude.Result.{Result, ok, raise}
use byo_firmware_mcp.Prelude.Dict.{Dict, get}
use byo_firmware_mcp.Prelude.Sorting.{contains}
use byo_firmware_mcp.Prelude.Text.{is_blank}
use byo_firmware_mcp.Kernel.Registry.{ToolRegistry}
use byo_firmware_mcp.Guardrails.Definitions.{PlanDefinition, Refusal, policy}
use byo_firmware_mcp.Guardrails.Permissions.{PermissionAuthorization, PermissionStore}

pub data PlanStatus : Type 0 where
  active exhausted replaced invalidated run_closed : PlanStatus

abbrev pub is_active_status : PlanStatus → Bool
is_active_status active = true
is_active_status _ = false

pub record ArtifactDigestBinding : Type 0 where
  pub field_name : String
  pub supplied_path : String
  pub resolved_path : String
  pub sha256 : String

pub record PlanState : Type 0 where
  pub plan_id : String
  pub run_id : String
  pub definition : PlanDefinition
  pub board_id : String
  pub session_id : Option String
  pub max_calls : ℕ
  pub max_calls_buffer : ℕ
  pub remaining_calls : ℕ
  pub paired_remaining : Dict String ℕ
  pub canonical_parameters : String
  pub authorization : Option PermissionAuthorization
  pub artifact_binding : Option ArtifactDigestBinding
  pub status : PlanStatus
  pub close_reason : Option String

abbrev pub Key : Type 0
Key = String × String

-- The plans of the run and what the engine shares with the registry and the permission store.
pub record PlanEngine : Type 0 where
  pub run_id : String
  pub plans : Dict Key PlanState
  pub registry : ToolRegistry
  pub permissions : PermissionStore

-- The plan under a key, if it is active.
unfoldable pub active_state : PlanEngine → Key → Option PlanState
active_state e key = elim (get e.plans key) [
  | none ↦ none
  | some state ↦ if is_active_status state.status then some state else none
]

unfoldable pub paired_for : PlanState → String → ℕ
paired_for state action = elim (get state.paired_remaining action) [ none ↦ 0 | some n ↦ n ]

-- What a resolved path shows: its name, whether it is a regular file, its suffix in lower case and,
-- if it can be read, the digest of its bytes.
pub record FileView : Type 0 where
  pub resolved_path : String
  pub is_file : Bool
  pub suffix : String
  pub sha256 : Option String

-- The file system at one moment; `none` where a path cannot be resolved.
abbrev pub Files : Type 0
Files = String → Option FileView

unfoldable pub bind_file :
    PlanDefinition → String → String → FileView → Result Refusal (Option ArtifactDigestBinding)
bind_file d field supplied view =
    if not view.is_file
    then raise (policy "plan/artifact-unreadable")
    else if (elim d.artifact_binding_suffixes [
      | [] ↦ false
      | x ∷ xs ↦ not (contains view.suffix (x ∷ xs))
    ])
    then raise (policy "plan/artifact-type")
    else elim view.sha256 [
      | none ↦ raise (policy "plan/artifact-unreadable")
      | some digest ↦ ok (
          some (record {
            field_name = field;
            supplied_path = supplied;
            resolved_path = view.resolved_path;
            sha256 = digest;
          }))
    ]

-- `_bind_artifact`; the value of the field is a text here, or `none` for NULL.
unfoldable pub bind_artifact :
    Files → PlanDefinition → Option String → Result Refusal (Option ArtifactDigestBinding)
bind_artifact files d supplied = elim d.artifact_binding_field [
  | none ↦ ok none
  | some field ↦ elim supplied [
    | none ↦ if d.artifact_nullable then ok none else raise (policy "plan/artifact-unreadable")
    | some path ↦
        if is_blank path then raise (policy "plan/artifact-unreadable") else elim (files path) [
          | none ↦ raise (policy "plan/artifact-unreadable")
          | some view ↦ bind_file d field path view
        ]
  ]
]
