-- ===== src/Lib.antt =====
-- A model of the policy core of the firmware debugging server: which memory an action may touch,
-- which tools a client may call, and which approvals and plans a call needs.
--
-- Parts and their files:
-- Safety: src/pyocd_debug_mcp/safety/regions.py. `AddressRange` and its methods stand in
--   Safety/Ranges, the enumerations, tables and `SafetyRegion` in Safety/Regions, `_covered` in
--   Safety/Coverage, `SafetyMap` (`classify`, `check`, `partition_prohibited_conflicts`) in
--   Safety/Map, and `build_recovery_erase_disclosure` with its two span builders in Safety/Recovery.
--   Of src/pyocd_debug_mcp/safety/map_build.py, the geometries, partitions and erase sectors stand in
--   Safety/Geometry, and `SafetyMapDocument` with `region_conflicts` and its map of regions in
--   Safety/Document. `SafetyPolicy` of src/pyocd_debug_mcp/safety/enforce.py stands in Safety/Policy:
--   `_erase_sectors` in Policy/Erase, `_extract_runtime_evidence` in Policy/Evidence, and
--   `check_generic_application_candidate` in Policy/Candidate.
-- Kernel: src/pyocd_debug_mcp/kernel/registry.py. `ToolRegistry` stands in Kernel/Registry; its
--   lock makes each method one step, and a sequence of calls is a list of `Call`. Of
--   src/pyocd_debug_mcp/kernel/operations.py, `ManagedOperation` and `OperationResources` stand in
--   Kernel/Operations, the worker thread (`run_synchronous` of `dispatch`) in Operations/Worker, and
--   `OperationManager` in Operations/Manager, whose calls are the relation `Reachable`,
--   with the changes that a worker makes to its own operation between them.
-- Guardrails: src/pyocd_debug_mcp/guardrails/. `PermissionStore` of permissions.py stands in
--   Guardrails/Permissions; `PlanEngine` of plan_engine.py in Guardrails/Plans, over the registry and
--   the permission store, which it calls as the code does: plans and artifacts in Plans/State, locks
--   and invalidation in Plans/Locking, `enforce` in Plans/Enforce, `submit` in Plans/Submit, and
--   `complete_paired_plan` and `close_run` in Plans/Close. What a call is checked for before that is in
--   Guardrails/Schema: JSON values in Schema/Values, `FieldDefinition` of plan_defs.py and
--   `_field_error` in Schema/Fields, the form in which parameters are compared in Schema/Canonical, and
--   the checks of `submit` and `enforce` on a call in Schema/Envelope. `GateManager` of gate.py stands in
--   Guardrails/Gate, its mismatch evidence and rollback in Gate/Mismatch. `resolve_flash_request` of
--   flash_gate.py and `authorize_recover` of recover_gate.py stand in Guardrails/FlashGate and
--   Guardrails/RecoverGate.
-- Capabilities: src/pyocd_debug_mcp/capabilities/. The route inventory of matrix.py stands in
--   Capabilities/Matrix, `TierRouter` of routing.py in Capabilities/Routing.
-- Monitor: `ThrashDetector` of src/pyocd_debug_mcp/monitor/thrash.py stands in Monitor/Thrash,
--   and `RunCounters` of counters.py in Monitor/Counters.
-- Prelude: tests, lists, equality, results, dictionaries and sorting that the parts share.
--
-- Correspondence: a method that changes state takes it and returns its result with the new state; a
-- raise keeps what was written before it. Dictionaries are association lists in insertion order, and
-- sets are lists. `enforce` has three locked blocks; `Surroundings` holds one function for each gap,
-- which stands for everything that other calls do to the engine in that gap, and what the two
-- callbacks and the file system answer. The worker of an operation is given the polls of its locks,
-- each with the cancellation that may arrive in its time, and calls that change the operation in any
-- way. Loops are over lists, but for `while cursor < end` of `_erase_sectors`, which runs on fuel: the
-- distance from the first sector to the end of the range, enough since each round moves the cursor
-- by at least one byte or raises.
--
-- From outside come the identifiers and times that the code draws, the digest and the resolved path
-- of a file, and the canonical text of a call's parameters; the loading of a map document, its
-- authority and the evidence that is extracted from build artifacts; and how a cleanup callback or an
-- owned process ends; and the policy of a board that routing reads. The texts of refusals are left
-- out where their code determines them. A float is `n / 2 ^ k`, an infinity or no number, so that comparisons are
-- exact. Not modelled: the digests of a map document and the allocation policy of a generic one, the
-- time-outs and the asynchronous branch of `dispatch`, the table of plan definitions with the
-- validators of three actions, which are any functions that answer a text or none, `preview_submission`, rendering of documents, the dispatcher of the
-- third-party FastMCP server, and all input and output.

pub mod Prelude
pub mod Safety
pub mod Kernel
pub mod Capabilities
pub mod Guardrails
pub mod Monitor
