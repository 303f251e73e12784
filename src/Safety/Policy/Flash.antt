-- ===== src/Safety/Policy/Flash.antt =====
-- What `check_flash` and `check_breakpoint` of safety/enforce.py accept, stated over the addresses.
use byo_firmware_mcp.Prelude.{
  ℕ, ◌+◌, ◌-◌, ◌≤◌, ◌<◌, String, ◌≡◌, refl, ◌≢◌, ◌⊎◌, inl, inr, Bool, true, false, not, Option,
  none, some, List, [], ◌∷◌, ◌++◌, arith, All, Any, Member, All-Member, any→Any, Any-left,
  Any-map_list, Any-filter, is_nil, map, filter, leb, leb→le, string_eq, eq_iff, any,
}
use byo_firmware_mcp.Prelude.Result.{
  Result, ok, raise, guard, >>=-ok, >>-ok, ok-injective, raise-ne-ok, Result-cases,
}
use byo_firmware_mcp.Prelude.Sorting.{contains as is_in}
use byo_firmware_mcp.Safety.Ranges.{
  AddressRange, IsRange, Holds, RegionError, from_start_size, make_range, contains,
}
use byo_firmware_mcp.Safety.Regions.{
  RegionKind, application_flash, bootloader_flash, ram, kind_eq, ActionCategory, memory_read,
  memory_write, flash_application, flash_bootloader, allowed_kinds,
}
use byo_firmware_mcp.Safety.Map.{SafetyMap, CheckResult, allowed, refusal, check}
use byo_firmware_mcp.Safety.Map.Classify.{Touches, CoversBy}
use byo_firmware_mcp.Safety.Map.Check.{IsAllowed}
use byo_firmware_mcp.Safety.Map.Contained.{check-mutation_contained}
use byo_firmware_mcp.Safety.Document.{Document, target_of}
use byo_firmware_mcp.Safety.Policy.Errors.{PolicyError, or_region_error}
use byo_firmware_mcp.Safety.Policy.Erase.{erase_sectors}
use byo_firmware_mcp.Safety.Policy.Sectors.{IsEraseOf, erase_sectors-IsEraseOf}
use byo_firmware_mcp.Safety.Policy.Evidence.{
  BuildRole, application, bootloader, BuildEvidence, Services, content_ranges, executable_ranges,
  extract_runtime_evidence,
}
use byo_firmware_mcp.Safety.Policy.{
  LoadedSafetyMap, flash_action, or_code, require_some, check_one, check_each, check_stack,
  flash_ranges, range_at, as_list, check_contents, load_or, check_flash, check_breakpoint,
  or_bootloader,
}

pub guard-ok : (b : Bool) (e : PolicyError) (u : Unit) → guard b e ≡ ok u → b ≡ true
guard-ok true e u h = refl
guard-ok false e u h = absurd (raise-ne-ok h)

or_code-IsAllowed :
    (c : String) (x : Result RegionError CheckResult) (y : CheckResult)
    → or_code c x ≡ ok y
    → IsAllowed x
or_code-IsAllowed c (ok (allowed a rs ks)) y h = tt
or_code-IsAllowed c (ok (refusal a d r k)) y h = absurd (raise-ne-ok h)
or_code-IsAllowed c (raise e) y h = absurd (raise-ne-ok h)

check_one-IsAllowed :
    (m : SafetyMap) (action : ActionCategory) (r : AddressRange) (c : String) (y : CheckResult)
    → check_one m action r c ≡ ok y
    → IsAllowed (check m action (r ∷ []))
unfolding check_one
check_one-IsAllowed m action r c y h = or_code-IsAllowed c (check m action (r ∷ [])) y h

check_each-IsAllowed :
    (m : SafetyMap) (action : ActionCategory) (c : String) (rs : List AddressRange) (u : Unit)
    → check_each m action c rs ≡ ok u
    → All (λ r. IsAllowed (check m action (r ∷ []))) rs
unfolding check_each
check_each-IsAllowed m action c [] u h = tt
check_each-IsAllowed m action c (r ∷ rs) u h =
    let (y, first, rest) = >>=-ok _ _ u h in
    (check_one-IsAllowed m action r c y first, check_each-IsAllowed m action c rs u rest)

abbrev pub partition_kind : BuildRole → RegionKind
partition_kind application = application_flash
partition_kind bootloader = bootloader_flash

-- The range lies wholly in regions of the role's kind and shares no address with a prohibited one.
abbrev pub IsFlashable : SafetyMap → BuildRole → AddressRange → Type 0
IsFlashable m role r = CoversBy m r (partition_kind role) × (¬ Touches m r)

kind_of_flash :
    (role : BuildRole) (k : RegionKind)
    → is_in k (allowed_kinds (flash_action role)) ≡ true
    → k ≡ partition_kind role
unfolding is_in
kind_of_flash application k h = ground (arith, kind_eq.beq_iff k application_flash)
kind_of_flash bootloader k h = ground (arith, kind_eq.beq_iff k bootloader_flash)

flash-ne-read : (role : BuildRole) → flash_action role ≢ memory_read
flash-ne-read application h = ground arith
flash-ne-read bootloader h = ground arith

allowed-IsFlashable :
    (m : SafetyMap) (role : BuildRole) (r : AddressRange)
    → IsAllowed (check m (flash_action role) (r ∷ []))
    → IsRange r
    → IsFlashable m role r
allowed-IsFlashable m role r h v =
    let (k, is, covers, clear) =
      check-mutation_contained m (flash_action role) (r ∷ []) r (flash-ne-read role) h (inl refl)
        v in
    (rw (kind_of_flash role k is) at covers, clear)

pub from_start_size-IsRange :
    (c n : ℕ) (s : AddressRange)
    → or_region_error (from_start_size c n) ≡ ok s
    → IsRange s × (s.start ≡ c) × (s.end ≡ c + n)
unfolding from_start_size make_range
from_start_size-IsRange c n s h =
    (record { nonempty = ground arith; bounded = ground arith }, ground arith, ground arith)

-- The word under the initial stack pointer of the evidence lies wholly in memory regions.
abbrev pub StackIn : SafetyMap → BuildEvidence → Type 0
StackIn m evidence =
    (p : ℕ) × (evidence.initial_stack_pointer ≡ some p)
    × (4 ≤ p)
    × ((a : ℕ) → p ≤ a + 4 → a < p → Any (λ g. (g.kind ≡ ram) × Holds a g.address_range) m.regions)

ram_of_write : (k : RegionKind) → is_in k (allowed_kinds memory_write) ≡ true → k ≡ ram
unfolding is_in
ram_of_write k h = ground (arith, kind_eq.beq_iff k ram)

write-ne-read : memory_write ≢ memory_read
write-ne-read h = ground arith

pub require_some-some :
    {A : Type 0} (o : Option A) (c : String) (a : A) → require_some o c ≡ ok a → o ≡ some a
require_some-some none c a h = absurd (raise-ne-ok h)
require_some-some (some b) c a h = ground arith

pub check_stack-StackIn :
    (m : SafetyMap) (evidence : BuildEvidence) (y : CheckResult)
    → check_stack m evidence ≡ ok y
    → StackIn m evidence
unfolding check_stack
check_stack-StackIn m evidence y h =
    let (p, found, h1) = >>=-ok _ _ y h in
    let (u, least, h2) = >>=-ok _ _ y h1 in
    let (w, word, h3) = >>=-ok _ _ y h2 in
    let (valid, starts, ends) = from_start_size-IsRange (p - 4) 4 w word in
    let four : 4 ≤ p = leb→le 4 p (guard-ok (leb 4 p) _ u least) in
    let (k, is, covers, _) =
      check-mutation_contained m memory_write (w ∷ []) w write-ne-read
        (check_one-IsAllowed m memory_write w "safety/vector-stack-outside-ram" y h3) (inl refl)
        valid in
    (
      p,
      require_some-some evidence.initial_stack_pointer _ p found,
      four,
      λ a q l. rw (ram_of_write k is) at covers a (omega arith, omega arith),
    )

flash_ranges-content :
    (evidence : BuildEvidence) (rs : List AddressRange) (r : AddressRange)
    → or_region_error (flash_ranges evidence) ≡ ok rs
    → Member r (content_ranges evidence)
    → Member r rs
unfolding flash_ranges
flash_ranges-content evidence rs r h i = elim (Result-cases (range_at evidence.entry_point 1)) [
  | inr (x, k) ↦ absurd (raise-ne-ok (rw k at h))
  | inl (xs, k) ↦ elim (Result-cases (range_at evidence.vector_table 8)) [
    | inr (x, l) ↦ absurd (raise-ne-ok (rw (k, l) at h))
    | inl (ys, l) ↦
        let e : content_ranges evidence ++ as_list evidence.flash_partition ++ xs ++ ys ≡ rs =
          appended xs ys k l in
        rw e at (
          Any-left (λ x. r ≡ x) _ ys
            (Any-left (λ x. r ≡ x) _ xs
              (Any-left (λ x. r ≡ x) (content_ranges evidence) (as_list evidence.flash_partition)
                i)))
  ]
]
  where
    appended :
        (xs ys : List AddressRange)
        → range_at evidence.entry_point 1 ≡ ok xs
        → range_at evidence.vector_table 8 ≡ ok ys
        → content_ranges evidence ++ as_list evidence.flash_partition ++ xs ++ ys ≡ rs
    appended xs ys k l = ground arith

-- What passes the checks of the contents: the sectors that are erased for them, each range of the
-- contents and each such sector flashable.
abbrev pub ContentsIn : LoadedSafetyMap → BuildRole → BuildEvidence → Type 0
ContentsIn loaded role evidence =
    (sectors : List AddressRange) × (erase_sectors loaded.document (content_ranges evidence)
      ≡ ok sectors)
    × IsEraseOf (content_ranges evidence) sectors
    × ((r : AddressRange)
        → Member r (content_ranges evidence) ⊎ Member r sectors
        → IsRange r
        → IsFlashable loaded.map role r)

not_empty : (rs : List AddressRange) → not (is_nil rs) ≡ true → rs ≢ []
not_empty [] h e = ground arith
not_empty (r ∷ rs) h e = ground arith

check_contents-ContentsIn :
    (loaded : LoadedSafetyMap) (role : BuildRole) (evidence answer : BuildEvidence)
    → check_contents loaded (flash_action role) evidence ≡ ok answer
    → ContentsIn loaded role evidence × (evidence ≡ answer) × (content_ranges evidence ≢ [])
unfolding check_contents
check_contents-ContentsIn loaded role evidence answer h =
    let (u, some_content, h1) = >>-ok _ _ answer h in
    let (ranges, made, h2) = >>=-ok _ _ answer h1 in
    let (u2, inside, h3) = >>-ok _ _ answer h2 in
    let (sectors, erased, h4) = >>=-ok _ _ answer h3 in
    let (u3, erasable, h5) = >>-ok _ _ answer h4 in
    let contents : (r : AddressRange)
        → Member r (content_ranges evidence) ⊎ Member r sectors
        → IsAllowed (check loaded.map (flash_action role) (r ∷ [])) =
      λ r q. elim q [
        | inl i ↦
            All-Member _ r ranges
              (check_each-IsAllowed loaded.map (flash_action role) "safety/flash-outside-partition"
                ranges u2 inside)
              (flash_ranges-content evidence ranges r made i)
        | inr i ↦
            All-Member _ r sectors
              (check_each-IsAllowed loaded.map (flash_action role)
                "safety/erase-sector-outside-partition" sectors u3 erasable)
              i
      ] in
    (
      (
        sectors,
        erased,
        erase_sectors-IsEraseOf loaded.document (content_ranges evidence) sectors erased,
        λ r q v. allowed-IsFlashable loaded.map role r (contents r q) v,
      ),
      ok-injective h5,
      not_empty (content_ranges evidence) (guard-ok _ _ u some_content),
    )

-- What an accepted flash has, for the map that was used.
abbrev pub IsAccepted :
    Services → LoadedSafetyMap → BuildRole → String → String → BuildEvidence → Type 0
IsAccepted services loaded role path target evidence =
    (target ≡ target_of loaded.document)
    × (extract_runtime_evidence services role (services.resolve path) ≡ ok evidence)
    × (content_ranges evidence ≢ [])
    × ContentsIn loaded role evidence
    × StackIn loaded.map evidence

-- A flash that is accepted is for the target of the map that was used, and the answer is the
-- evidence of the artifact. It has contents; the sectors to erase for them hold each of their
-- addresses and each meets a range of the contents; each valid range of the contents and each
-- valid sector lies wholly in regions of the role's partition kind and shares no address with a
-- prohibited region; and the word under the initial stack pointer lies in memory regions.
pub check_flash-IsAccepted :
    (services : Services) (board_id : String) (role : BuildRole) (path target : String)
    (document : Option Document) (evidence : BuildEvidence)
    → check_flash services board_id role path target document ≡ ok evidence
    → (loaded : LoadedSafetyMap) × (load_or services board_id document ≡ ok loaded)
      × IsAccepted services loaded role path target evidence
unfolding check_flash
check_flash-IsAccepted services board_id role path target document evidence h =
    let (loaded, found, h1) = >>=-ok _ _ evidence h in
    let (u, matches, h2) = >>-ok _ _ evidence h1 in
    let (partition, _, h3) = >>-ok _ _ evidence h2 in
    let (e, extracted, h4) = >>=-ok _ _ evidence h3 in
    let (stacked, stack, h5) = >>-ok _ _ evidence h4 in
    let (reset, _, h6) = >>-ok _ _ evidence h5 in
    let (contents, same, nonempty) = check_contents-ContentsIn loaded role e evidence h6 in
    let accepted : IsAccepted services loaded role path target e = (
      (eq_iff target (target_of loaded.document)).0 (guard-ok _ _ u matches),
      extracted,
      nonempty,
      contents,
      check_stack-StackIn loaded.map e stacked stack,
    ) in
    (loaded, found, rw same at accepted)

or_bootloader-IsFlashable :
    (services : Services) (m : SafetyMap) (r : AddressRange) (x : Result RegionError CheckResult)
    (y : CheckResult)
    → check m flash_application (r ∷ []) ≡ x
    → or_bootloader services m r x ≡ ok y
    → IsRange r
    → (role : BuildRole) × IsFlashable m role r
or_bootloader-IsFlashable services m r (ok (allowed a rs ks)) y e h v =
    (application, allowed-IsFlashable m application r (rw e tt) v)
or_bootloader-IsFlashable services m r (ok (refusal a c q k)) y e h v = (
  bootloader,
  allowed-IsFlashable m bootloader r
      (check_one-IsAllowed m flash_bootloader r "safety/breakpoint-outside-partition" y h) v,
)
or_bootloader-IsFlashable services m r (raise x) y e h v = absurd (raise-ne-ok h)

-- A breakpoint that is accepted lies, with both its bytes, in regions of one partition kind and
-- touches nothing prohibited, and in the runtime range of an executable segment of the artifact.
pub check_breakpoint-IsFlashable :
    (services : Services) (board_id : String) (address : ℕ) (path : String)
    (document : Option Document) (answer : CheckResult)
    → check_breakpoint services board_id address path document ≡ ok answer
    → (loaded : LoadedSafetyMap) × (load_or services board_id document ≡ ok loaded)
      × ((r : AddressRange) × (r.start ≡ address)
          × (r.end ≡ address + 2)
          × ((role : BuildRole) × IsFlashable loaded.map role r)
          × ((evidence : BuildEvidence) × (extract_runtime_evidence services application path
                ≡ ok evidence)
              × Any
                  (λ s. (s.executable ≡ true) × (contains s.runtime_range r ≡ true))
                  evidence.loadable_segments))
unfolding check_breakpoint
check_breakpoint-IsFlashable services board_id address path document answer h =
    let (loaded, found, h1) = >>=-ok _ _ answer h in
    let (r, made, h2) = >>=-ok _ _ answer h1 in
    let (partition, in_partition, h3) = >>=-ok _ _ answer h2 in
    let (evidence, extracted, h4) = >>=-ok _ _ answer h3 in
    let (u, inside, _) = >>-ok _ _ answer h4 in
    let (valid, starts, ends) = from_start_size-IsRange address 2 r made in
    (
      loaded,
      found,
      (
        r,
        starts,
        ends,
        or_bootloader-IsFlashable services loaded.map r
            (check loaded.map flash_application (r ∷ [])) partition refl in_partition valid,
        (evidence, extracted, in_segment r evidence (guard-ok _ _ u inside)),
      ),
    )
  where
    in_segment :
        (r : AddressRange) (evidence : BuildEvidence)
        → any (λ region. contains region r) (executable_ranges evidence) ≡ true
        → Any
            (λ s. (s.executable ≡ true) × (contains s.runtime_range r ≡ true))
            evidence.loadable_segments
    in_segment r evidence e =
        let opened : any (λ region. contains region r)
              (map (λ s. s.runtime_range) (filter (λ s. s.executable) evidence.loadable_segments))
            ≡ true =
          unfold executable_ranges in e in
        Any-filter (λ s. contains s.runtime_range r ≡ true) (λ s. s.executable)
          evidence.loadable_segments
          (Any-map_list (λ x. contains x r ≡ true) (λ s. s.runtime_range) _
            (any→Any (λ region. contains region r) _ opened))
