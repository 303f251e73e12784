-- ===== src/Safety/Map/Contained.antt =====
-- What an allowed request of `SafetyMap.check` can reach, and the one way past the map's coverage.
use byo_firmware_mcp.Prelude.{
  ℕ, ◌<◌, ◌≡◌, refl, ◌≢◌, ◌↔◌, true, not, ◌&&◌, List, [], ◌∷◌, arith, filter, Any, All, All-map,
  ◌⊎◌, Member, All-Member, Any-map, Any-filter, Any-map_list, ◌==◌,
}
use byo_firmware_mcp.Prelude.Sorting.{contains}
use byo_firmware_mcp.Safety.Ranges.{AddressRange, IsRange, Holds, range_eq}
use byo_firmware_mcp.Safety.Coverage.{covered_iff}
use byo_firmware_mcp.Safety.Regions.{
  RegionKind, unknown, prohibited, kind_eq, ActionCategory, memory_read, memory_write, ram,
  specificity, breakpoint, allowed_kinds, SafetyRegion,
}
use byo_firmware_mcp.Safety.Map.{SafetyMap, mapped_kinds, classify, executable_contains, check}
use byo_firmware_mcp.Safety.Map.Classify.{
  Touches, CoversBy, classify-prohibited_iff, classify-mapped_iff,
}
use byo_firmware_mcp.Safety.Map.Check.{Permits, IsAllowed, check-IsAllowed_iff}

-- No mutation is allowed in unknown or prohibited space.
mutable_kind :
    (action : ActionCategory) (k : RegionKind)
    → action ≢ memory_read
    → contains k (allowed_kinds action) ≡ true
    → (k ≢ unknown) × (k ≢ prohibited)
unfolding contains
mutable_kind memory_read k n h = absurd (n refl)
mutable_kind _ k n h = (λ e. ground arith, λ e. ground arith)

Permits-at :
    (m : SafetyMap) (action : ActionCategory) (ranges : List AddressRange) (r : AddressRange)
    → IsAllowed (check m action ranges)
    → Member r ranges
    → Permits m action r
Permits-at m action ranges r h i =
    All-Member (Permits m action) r ranges ((check-IsAllowed_iff m action ranges).0 h).1 i

-- Of an allowed request that is no memory read, each valid range lies wholly in regions of one
-- kind that the table allows to the action, and shares no address with a prohibited region.
pub check-mutation_contained :
    (m : SafetyMap) (action : ActionCategory) (ranges : List AddressRange) (r : AddressRange)
    → action ≢ memory_read
    → IsAllowed (check m action ranges)
    → Member r ranges
    → IsRange r
    → (k : RegionKind) × (contains k (allowed_kinds action) ≡ true)
      × CoversBy m r k
      × (¬ Touches m r)
check-mutation_contained m action ranges r n h i v =
    let (permitted, _) = Permits-at m action ranges r h i in
    let (known, clear) = mutable_kind action (classify m r) n permitted in
    let (untouched, covers, _) = (classify-mapped_iff m r (classify m r) v known clear).0 refl in
    (classify m r, permitted, covers, untouched)

-- Of an allowed breakpoint request, each address of each valid range lies in an executable region
-- that is not prohibited.
pub check-breakpoint_executable :
    (m : SafetyMap) (ranges : List AddressRange) (r : AddressRange) (a : ℕ)
    → IsAllowed (check m breakpoint ranges)
    → Member r ranges
    → IsRange r
    → Holds a r
    → Any (λ g. (g.executable ≡ true) × (g.kind ≢ prohibited) × Holds a g.address_range) m.regions
unfolding executable_contains
check-breakpoint_executable m ranges r a h i v q =
    Any-map m.regions (λ g x. loadable g x.0 x.1)
      (Any-filter (λ g. Holds a g.address_range) (λ g. g.executable && not (g.kind == prohibited))
        m.regions
        (Any-map_list (Holds a) (λ g. g.address_range)
          (filter (λ g. g.executable && not (g.kind == prohibited)) m.regions)
          ((covered_iff r _ v.nonempty).0 ((Permits-at m breakpoint ranges r h i).1 refl) a q)))
  where
    loadable :
        (g : SafetyRegion)
        → (g.executable && not (g.kind == prohibited)) ≡ true
        → Holds a g.address_range
        → (g.executable ≡ true) × (g.kind ≢ prohibited) × Holds a g.address_range
    loadable g e k = ground (arith, kind_eq.beq_iff g.kind prohibited)

-- The range is writable memory of the map: RAM holds each address, nothing prohibited is touched,
-- and no other kind that covers it is as specific.
abbrev pub IsWritable : SafetyMap → AddressRange → Type 0
IsWritable m r =
    (¬ Touches m r)
    × CoversBy m r ram
    × ((j : RegionKind)
        → Member j mapped_kinds
        → CoversBy m r j
        → (j ≡ ram) ⊎ (specificity j < specificity ram))

ram_only : (k : RegionKind) → contains k (allowed_kinds memory_write) ≡ true → k ≡ ram
unfolding contains
ram_only k h = ground (arith, kind_eq.beq_iff k ram)

IsWritable-iff :
    (m : SafetyMap) (r : AddressRange) → IsRange r → Permits m memory_write r ↔ IsWritable m r
IsWritable-iff m r v = (
  λ h. (classify-mapped_iff m r ram v (λ e. ground arith) (λ e. ground arith)).0 (ram_only _ h.0),
  λ h.
      let e : classify m r ≡ ram =
        (classify-mapped_iff m r ram v (λ e. ground arith) (λ e. ground arith)).1 h in
      (rw e (unfold contains in refl), λ q. ground arith),
)

-- A memory write of valid ranges is allowed exactly when it names a range and each of its ranges
-- is writable memory of the map: nothing prohibited in it, memory regions hold each of its
-- addresses, and no other kind that does so is as specific.
pub check-memory_write_iff :
    (m : SafetyMap) (ranges : List AddressRange)
    → All IsRange ranges
    → IsAllowed (check m memory_write ranges) ↔ ((ranges ≢ []) × All (IsWritable m) ranges)
check-memory_write_iff m ranges v = (
  λ h.
      let (n, p) = (check-IsAllowed_iff m memory_write ranges).0 h in
      (n, All-zip (λ r w q. (IsWritable-iff m r w).0 q) ranges v p),
  λ h.
      (check-IsAllowed_iff m memory_write ranges).1
        (h.0, All-zip (λ r w q. (IsWritable-iff m r w).1 q) ranges v h.1),
)
  where
    All-zip :
        {P Q : AddressRange → Type 0}
        → ((r : AddressRange) → IsRange r → P r → Q r)
        → (rs : List AddressRange) → All IsRange rs
        → All P rs
        → All Q rs
    All-zip f [] v p = tt
    All-zip f (r ∷ rs) v p = (f r v.0 p.0, All-zip f rs v.1 p.1)

-- A memory read of at least one range is allowed as soon as each of its ranges shares one address
-- with a prohibited region: no other address of the ranges need be in any region.
pub check-read_touching :
    (m : SafetyMap) (ranges : List AddressRange)
    → ranges ≢ []
    → All (Touches m) ranges
    → IsAllowed (check m memory_read ranges)
check-read_touching m ranges n h =
    (check-IsAllowed_iff m memory_read ranges).1
      (n, All-map ranges (λ r t. readable r ((classify-prohibited_iff m r).1 t)) h)
  where
    readable : (r : AddressRange) → classify m r ≡ prohibited → Permits m memory_read r
    readable r e = (rw e (unfold contains in refl), λ q. ground arith)
