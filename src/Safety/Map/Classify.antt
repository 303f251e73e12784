-- ===== src/Safety/Map/Classify.antt =====
-- What `classify` of safety/regions.py answers, stated over addresses and regions.
use byo_firmware_mcp.Prelude.{
  ℕ, sym, ◌∙◌, ◌≤◌, ◌<◌, ◌≡◌, refl, ◌≢◌, ◌↔◌, ◌⊎◌, inl, inr, Bool, true, false, ◌&&◌, List, [], ◌∷◌,
  arith, filter, is_nil, dec_lt, eqb_iff, and_true, Bool_ext, filter-filter, filter_congr,
  filter-Member, Member-filter, Member-All, Any, All, Member, any→Any, Any→any, Any-filter,
  filter-Any, Any-map, Any-map_list, map_list-Any, ◌==◌, ==_refl, nat_eq, eqb, Bool-cases,
  if◌then◌else◌,
}
use byo_firmware_mcp.Safety.Ranges.{AddressRange, IsRange, Holds, overlaps}
use byo_firmware_mcp.Safety.Coverage.{covered_iff}
use byo_firmware_mcp.Safety.Regions.{
  RegionKind, unknown, prohibited, kind_eq, specificity, SafetyRegion,
}
use byo_firmware_mcp.Safety.Map.{
  SafetyMap, mapped_kinds, overlapping, ranges_of, covers_by, highest, only, most_specific,
  touches_prohibited, classify,
}

-- A prohibited region shares an address with the range.
abbrev pub Touches : SafetyMap → AddressRange → Type 0
Touches m r = Any (λ g. (overlaps g.address_range r ≡ true) × (g.kind ≡ prohibited)) m.regions

-- Each address of the range lies in a region of the kind.
abbrev pub CoversBy : SafetyMap → AddressRange → RegionKind → Type 0
CoversBy m r k = (a : ℕ) → Holds a r → Any (λ g. (g.kind ≡ k) × Holds a g.address_range) m.regions

Touches-of : (m : SafetyMap) (r : AddressRange) → touches_prohibited m r ≡ true → Touches m r
unfolding touches_prohibited overlapping
Touches-of m r h =
    Any-map m.regions (λ g k. (k.0, (kind_eq.beq_iff g.kind prohibited).0 k.1))
      (Any-filter (λ g. (g.kind == prohibited) ≡ true) _ m.regions (any→Any _ _ h))

of-Touches : (m : SafetyMap) (r : AddressRange) → Touches m r → touches_prohibited m r ≡ true
unfolding touches_prohibited overlapping
of-Touches m r h = Any→any _ _ (
    filter-Any (λ g. (g.kind == prohibited) ≡ true) _ m.regions
      (Any-map m.regions (λ g k. (k.0, (kind_eq.beq_iff g.kind prohibited).1 k.1)) h))

-- `kind` covers, and each other covering kind is less specific.
pub record IsMostSpecific (cov : RegionKind → Bool) (k : RegionKind) : Type 0 where
  pub covers : cov k ≡ true
  pub mapped : Member k mapped_kinds
  pub beats :
      (j : RegionKind)
      → Member j mapped_kinds
      → cov j ≡ true
      → (j ≡ k) ⊎ (specificity j < specificity k)

le-highest : (j : RegionKind) (ks : List RegionKind) → Member j ks → specificity j ≤ highest ks
unfolding highest
le-highest j [] h = absurd h
le-highest j (k ∷ ks) (inl h) = rw h (omega arith)
le-highest j (k ∷ ks) (inr h) = omega (arith, le-highest j ks h)

highest-le : (n : ℕ) (ks : List RegionKind) → All (λ k. specificity k ≤ n) ks → highest ks ≤ n
unfolding highest
highest-le n [] h = omega arith
highest-le n (k ∷ ks) h = omega (arith, highest-le n ks h.1)

only-eq : (k : RegionKind) (ks : List RegionKind) → k ≢ unknown → only ks ≡ k → ks ≡ k ∷ []
only-eq k [] h e = absurd (h (sym e))
only-eq k (j ∷ []) h e = cc
only-eq k (j ∷ i ∷ ks) h e = absurd (h (sym e))

filter-mapped :
    (k : RegionKind) → Member k mapped_kinds → filter (λ j. j == k) mapped_kinds ≡ k ∷ []
unfolding filter
filter-mapped unknown h = ground arith
filter-mapped prohibited h = ground arith
filter-mapped _ h = refl

most_specific→ :
    (cov : RegionKind → Bool) (k : RegionKind)
    → k ≢ unknown
    → most_specific (filter cov mapped_kinds) ≡ k
    → IsMostSpecific cov k
unfolding most_specific
most_specific→ cov k h e =
    let ks : List RegionKind = filter cov mapped_kinds in
    let top : RegionKind → Bool = λ j. eqb (specificity j) (highest ks) in
    let single : filter top ks ≡ k ∷ [] = only-eq k (filter top ks) h e in
    let (inside, is_top) = Member-filter top k ks (rw single (inl refl)) in
    let (mapped, covers) = Member-filter cov k mapped_kinds inside in
    record {
      covers = covers;
      mapped = mapped;
      beats = λ j m c.
          let here : Member j ks = filter-Member cov j mapped_kinds m c in
          elim (dec_lt (specificity j) (highest ks)) [
            | yes l ↦ inr (rw (← (eqb_iff _ _).0 is_top) at l)
            | no l ↦ inl (
                one j k (
                  rw single at (
                    filter-Member top j ks here
                      ((eqb_iff _ _).1 (omega (arith, le-highest j ks here))))))
          ];
    }
  where
    one : (j i : RegionKind) → Member j (i ∷ []) → j ≡ i
    one j i (inl q) = q
    one j i (inr q) = absurd q

→most_specific :
    (cov : RegionKind → Bool) (k : RegionKind)
    → IsMostSpecific cov k
    → most_specific (filter cov mapped_kinds) ≡ k
unfolding most_specific
→most_specific cov k s = rw (filter-filter, same, filter-mapped k s.mapped)
  where
    ks : List RegionKind
    ks = filter cov mapped_kinds

    bound : (j : RegionKind) → Member j ks → specificity j ≤ specificity k
    bound j m =
        let (inside, c) = Member-filter cov j mapped_kinds m in
        elim (s.beats j inside c) [ inl q ↦ rw q (omega arith) | inr l ↦ omega arith ]

    top : highest ks ≡ specificity k
    top = omega (
      arith,
      highest-le (specificity k) ks (Member-All _ ks bound),
      le-highest k ks (filter-Member cov k mapped_kinds s.mapped s.covers),
    )

    agree :
        (j : RegionKind)
        → Member j mapped_kinds
        → (cov j && eqb (specificity j) (highest ks)) ≡ (j == k)
    agree j m =
        Bool_ext _ _
          (λ b.
            let (c, t) = and_true _ _ b in
            elim (s.beats j m c) [
              | inl q ↦ (kind_eq.beq_iff j k).1 q
              | inr l ↦ absurd (omega (arith, top, (eqb_iff _ _).0 t))
            ])
          (λ b.
            let q : j ≡ k = (kind_eq.beq_iff j k).0 b in
            rw (q, s.covers, top) (==_refl (specificity k)))

    same :
        filter (λ j. cov j && eqb (specificity j) (highest ks)) mapped_kinds
        ≡ filter (λ j. j == k) mapped_kinds
    same = filter_congr _ _ mapped_kinds agree

-- With nothing prohibited in the range, the answer is the most specific covering kind.
classify_clear :
    (m : SafetyMap) (r : AddressRange)
    → touches_prohibited m r ≡ false
    → classify m r ≡ most_specific (filter (covers_by m r) mapped_kinds)
unfolding classify
classify_clear m r h = rw h (nonempty (filter (covers_by m r) mapped_kinds))
  where
    nonempty :
        (ks : List RegionKind)
        → (if is_nil ks then unknown else most_specific ks) ≡ most_specific ks
    nonempty [] = unfold most_specific filter in refl
    nonempty (k ∷ ks) = refl

classify_touched :
    (m : SafetyMap) (r : AddressRange) → touches_prohibited m r ≡ true → classify m r ≡ prohibited
unfolding classify
classify_touched m r h = rw h

not_mapped : ¬ Member prohibited mapped_kinds
not_mapped h = ground arith

Mapped : (k : RegionKind) → k ≢ unknown → k ≢ prohibited → Member k mapped_kinds
Mapped unknown u p = absurd (u refl)
Mapped prohibited u p = absurd (p refl)
Mapped _ u p = ground arith

-- A range is classified as prohibited exactly when a prohibited region shares an address with it,
-- whatever else it touches.
pub classify-prohibited_iff :
    (m : SafetyMap) (r : AddressRange) → (classify m r ≡ prohibited) ↔ Touches m r
classify-prohibited_iff m r = (
  λ h. elim (Bool-cases (touches_prohibited m r)) [
    | inl e ↦ Touches-of m r e
    | inr e ↦ absurd (
        not_mapped
          (most_specific→ (covers_by m r) prohibited (λ q. cc)
            (rw (classify_clear m r e) at h)).mapped)
  ],
  λ h. classify_touched m r (of-Touches m r h),
)

-- The regions of a kind that hold an address, against the ranges that `classify` collects.
ranges_of→ :
    (a : ℕ) (k : RegionKind) (gs : List SafetyRegion)
    → Any (Holds a) (ranges_of k gs)
    → Any (λ g. ((g.kind == k) ≡ true) × Holds a g.address_range) gs
unfolding ranges_of
ranges_of→ a k gs h =
    Any-filter (λ g. Holds a g.address_range) (λ g. g.kind == k) gs
      (Any-map_list (Holds a) (λ g. g.address_range) (filter (λ g. g.kind == k) gs) h)

→ranges_of :
    (a : ℕ) (k : RegionKind) (gs : List SafetyRegion)
    → Any (λ g. ((g.kind == k) ≡ true) × Holds a g.address_range) gs
    → Any (Holds a) (ranges_of k gs)
unfolding ranges_of
→ranges_of a k gs h =
    map_list-Any (Holds a) (λ g. g.address_range) (filter (λ g. g.kind == k) gs)
      (filter-Any (λ g. Holds a g.address_range) (λ g. g.kind == k) gs h)

covers_by→ :
    (m : SafetyMap) (r : AddressRange) (k : RegionKind)
    → r.start < r.end
    → covers_by m r k ≡ true
    → CoversBy m r k
unfolding covers_by overlapping
covers_by→ m r k p h a q =
    Any-map m.regions (λ g x. ((kind_eq.beq_iff g.kind k).0 x.1.0, x.1.1))
      (Any-filter (λ g. ((g.kind == k) ≡ true) × Holds a g.address_range)
        (λ g. overlaps g.address_range r) m.regions
        (ranges_of→ a k (overlapping m r)
          ((covered_iff r (ranges_of k (overlapping m r)) p).0 h a q)))

-- A region that holds an address of the range overlaps it.
overlaps_of : (a : ℕ) (g r : AddressRange) → Holds a g → Holds a r → overlaps g r ≡ true
unfolding overlaps
overlaps_of a g r h k = ground arith

→covers_by :
    (m : SafetyMap) (r : AddressRange) (k : RegionKind)
    → r.start < r.end
    → CoversBy m r k
    → covers_by m r k ≡ true
unfolding covers_by overlapping
→covers_by m r k p h = (covered_iff r (ranges_of k (overlapping m r)) p).1 λ a q.
    →ranges_of a k (overlapping m r) (
      filter-Any (λ g. ((g.kind == k) ≡ true) × Holds a g.address_range)
        (λ g. overlaps g.address_range r) m.regions
        (Any-map m.regions
          (λ g x. (overlaps_of a g.address_range r x.1 q, ((kind_eq.beq_iff g.kind k).1 x.0, x.1)))
          (h a q)))

-- The classification of a valid range is a given mapped kind exactly when no prohibited region
-- shares an address with it, regions of that kind hold each address of it, and each other kind
-- that does so is less specific.
pub classify-mapped_iff :
    (m : SafetyMap) (r : AddressRange) (k : RegionKind)
    → IsRange r
    → k ≢ unknown
    → k ≢ prohibited
    → (classify m r ≡ k) ↔ (
        (¬ Touches m r)
        × CoversBy m r k
        × ((j : RegionKind)
            → Member j mapped_kinds
            → CoversBy m r j
            → (j ≡ k) ⊎ (specificity j < specificity k)))
classify-mapped_iff m r k v u p = (
  λ h. elim (Bool-cases (touches_prohibited m r)) [
    | inl e ↦ absurd (p (sym h ∙ classify_touched m r e))
    | inr e ↦
        let s : IsMostSpecific (covers_by m r) k =
          most_specific→ (covers_by m r) k u (rw (classify_clear m r e) at h) in
        (
          λ t. absurd (clash (of-Touches m r t) e),
          covers_by→ m r k v.nonempty s.covers,
          λ j i c. s.beats j i (→covers_by m r j v.nonempty c),
        )
  ],
  λ h. elim (Bool-cases (touches_prohibited m r)) [
    | inl e ↦ absurd (h.0 (Touches-of m r e))
    | inr e ↦
        classify_clear m r e
        ∙ →most_specific (covers_by m r) k (record {
          covers = →covers_by m r k v.nonempty h.1;
          mapped = Mapped k u p;
          beats = λ j i c. h.2 j i (covers_by→ m r j v.nonempty c);
        })
  ],
)
  where
    clash : {b : Bool} → b ≡ true → b ≡ false → ⊥
    clash x y = cc
