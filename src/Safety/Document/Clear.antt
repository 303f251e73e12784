-- ===== src/Safety/Document/Clear.antt =====
-- What a reviewed document that safety/map_build.py accepts gives: its partitions, and the map of
-- regions that it stands for, which no prohibited region and no ambiguous pair spoils.
use byo_firmware_mcp.Prelude.{
  String, ◌≡◌, refl, ◌∙◌, ◌⊎◌, inl, inr, true, false, Option, none, some, List, [], ◌∷◌, ◌++◌,
  arith, is_nil, Member, filter-Member, Any-left, Any-right, Any-map, map_list-Any, Bool-cases,
  Option-cases, ◌==◌, if◌then◌else◌, list_beq_iff, list_eq,
}
use byo_firmware_mcp.Prelude.Result.{Result, ok, raise, ◌>>=◌, ok-injective, raise-ne-ok, >>=-ok}
use byo_firmware_mcp.Prelude.Sorting.{contains as is_in, sorted, Member-sorted}
use byo_firmware_mcp.Safety.Ranges.{AddressRange, overlaps, contains, range_eq}
use byo_firmware_mcp.Safety.Regions.{
  prohibited, physical_flash, physical_ram, kind_eq, SafetyRegion,
}
use byo_firmware_mcp.Safety.Map.{
  SafetyMap, make_map, compare_regions, partition_kinds, conflicts_of, flat_conflicts,
  partition_prohibited_conflicts,
}
use byo_firmware_mcp.Safety.Geometry.{conflicting_regions}
use byo_firmware_mcp.Safety.Document.{
  DocumentError, map_error, or_region_error, Conflict, conflicts_with, ambiguous_pairs,
  compare_conflicts, region_conflicts, SafetyMapDocument, map_regions, reviewed_map,
  canonical_regions, document_error, without_conflicts, make_document, with_regions, is_outside,
  ranges_with,
}

conflicts_with-nil :
    (c : String) (ps : List (SafetyRegion × SafetyRegion)) → conflicts_with c ps ≡ ok [] → ps ≡ []
unfolding conflicts_with
conflicts_with-nil c [] h = refl
conflicts_with-nil c (p ∷ ps) h = ground arith

append-nil : {A : Type 0} (xs ys : List A) → xs ++ ys ≡ [] → (xs ≡ []) × (ys ≡ [])
append-nil [] ys h = (refl, h)
append-nil (x ∷ xs) ys h = ground arith

sorted-nil :
    (render : String × String → String) (xs : List Conflict)
    → is_nil (sorted (compare_conflicts render) xs) ≡ true
    → xs ≡ []
sorted-nil render [] h = refl
sorted-nil render (x ∷ xs) h =
    absurd (none_in _ h (Member-sorted (compare_conflicts render) x (x ∷ xs) (inl refl)))
  where
    none_in : (ys : List Conflict) → is_nil ys ≡ true → Member x ys → ⊥
    none_in [] e m = m
    none_in (y ∷ ys) e m = ground arith

make_map-nonempty :
    (typed : List SafetyRegion) (m : SafetyMap)
    → make_map typed ≡ ok m
    → (is_nil typed ≡ false) × (m.regions ≡ sorted compare_regions typed)
unfolding make_map
make_map-nonempty typed m h = ground arith

-- Without a conflict neither kind of pair exists.
region_conflicts-nil :
    (render : String × String → String) (typed : List SafetyRegion) (cs : List Conflict)
    (m : SafetyMap)
    → region_conflicts render typed ≡ ok cs
    → is_nil cs ≡ true
    → make_map typed ≡ ok m
    → (partition_prohibited_conflicts m ≡ []) × (ambiguous_pairs typed ≡ [])
unfolding region_conflicts
region_conflicts-nil render typed cs m h n made =
    let found : pair_conflicts m ≡ ok cs = rw ((make_map-nonempty typed m made).0, made) at h in
    let (blocked, eb, hb) =
      >>=-ok (conflicts_with "partition_prohibited_overlap" (partition_prohibited_conflicts m))
        with_ambiguous cs found in
    let (ambiguous, ea, ha) =
      >>=-ok (conflicts_with "ambiguous_region_overlap" (ambiguous_pairs typed))
        (λ xs. ok (sorted (compare_conflicts render) (blocked ++ xs))) cs hb in
    let same : sorted (compare_conflicts render) (blocked ++ ambiguous) ≡ cs = ok-injective ha in
    let none_left =
      append-nil blocked ambiguous (sorted-nil render (blocked ++ ambiguous) (rw (← same) at n)) in
    (conflicts_with-nil _ _ (rw none_left.0 at eb), conflicts_with-nil _ _ (rw none_left.1 at ea))
  where
    with_ambiguous : List Conflict → Result DocumentError (List Conflict)
    with_ambiguous blocked = do
      ambiguous ← conflicts_with "ambiguous_region_overlap" (ambiguous_pairs typed)
      ok (sorted (compare_conflicts render) (blocked ++ ambiguous))

    pair_conflicts : SafetyMap → Result DocumentError (List Conflict)
    pair_conflicts s =
        conflicts_with "partition_prohibited_overlap" (partition_prohibited_conflicts s)
        >>= with_ambiguous

flat_conflicts-Member :
    (ps bs : List SafetyRegion) (g b : SafetyRegion)
    → Member g ps
    → Member b bs
    → overlaps g.address_range b.address_range ≡ true
    → Member (g, b) (flat_conflicts ps bs)
unfolding flat_conflicts conflicts_of
flat_conflicts-Member [] bs g b i j o = i
flat_conflicts-Member (p ∷ ps) bs g b (inr i) j o =
    Any-right _ (conflicts_of p bs) (flat_conflicts ps bs) (flat_conflicts-Member ps bs g b i j o)
flat_conflicts-Member (p ∷ ps) bs g b (inl i) j o =
    Any-left _ (conflicts_of p bs) (flat_conflicts ps bs) (
      rw i (
        map_list-Any (λ x. (p, b) ≡ x) (λ x. (p, x)) _
          (Any-map _ (λ x e. rw e refl)
            (filter-Member (λ x. overlaps p.address_range x.address_range) b bs j (rw i at o)))))

-- A map without such conflicts keeps its partitions clear of prohibited regions.
conflicts-clear :
    (m : SafetyMap) (g b : SafetyRegion)
    → partition_prohibited_conflicts m ≡ []
    → Member g m.regions
    → Member b m.regions
    → is_in g.kind partition_kinds ≡ true
    → b.kind ≡ prohibited
    → overlaps g.address_range b.address_range ≡ false
unfolding partition_prohibited_conflicts
conflicts-clear m g b e i j k p = elim (Bool-cases (overlaps g.address_range b.address_range)) [
  | inr o ↦ o
  | inl o ↦ absurd (
      rw e at (
        flat_conflicts-Member _ _ g b
          (filter-Member (λ r. is_in r.kind partition_kinds) g m.regions i k)
          (filter-Member (λ r. r.kind == prohibited) b m.regions j ((kind_eq.beq_iff _ _).1 p)) o))
]

without_conflicts-step :
    (render : String × String → String) (d e : SafetyMapDocument)
    → without_conflicts render d ≡ ok e
    → (d ≡ e)
      × ((rs : List SafetyRegion) × (map_regions d ≡ ok rs)
          × ((cs : List Conflict) × (region_conflicts render rs ≡ ok cs) × (is_nil cs ≡ true)))
unfolding without_conflicts
without_conflicts-step render d e h =
    let (rs, er, hr) = >>=-ok _ _ e h in
    let (cs, ec, hc) = >>=-ok _ _ e hr in
    let (same, none_found) = last cs hc in (same, (rs, returned rs er, (cs, ec, none_found)))
  where
    last :
        (cs : List Conflict)
        → (if is_nil cs then ok d else raise (map_error conflicting_regions)) ≡ ok e
        → (d ≡ e) × (is_nil cs ≡ true)
    last [] h = (ok-injective h, refl)
    last (c ∷ cs) h = absurd (raise-ne-ok h)

    returned :
        (rs : List SafetyRegion) → or_region_error (map_regions d) ≡ ok rs → map_regions d ≡ ok rs
    returned rs h = ground arith

document_error-with :
    (d : SafetyMapDocument) (rs : List SafetyRegion)
    → document_error (with_regions d rs) rs ≡ document_error d rs
unfolding document_error
document_error-with d rs = refl

make_document-step :
    (render : String × String → String) (d e : SafetyMapDocument)
    → make_document render d ≡ ok e
    → (document_error e e.regions ≡ none) × (without_conflicts render e ≡ ok e)
unfolding make_document
make_document-step render d e h =
    let rs : List SafetyRegion = canonical_regions d.regions in
    elim (Option-cases (document_error d rs)) [
      | inr (x, k) ↦ absurd (raise-ne-ok (rw (make_document, k) at h))
      | inl k ↦
          let passed : without_conflicts render (with_regions d rs) ≡ ok e =
            rw (make_document, k) at h in
          let same : with_regions d rs ≡ e =
            (without_conflicts-step render (with_regions d rs) e passed).0 in
          (rw (← same) (document_error-with d rs ∙ k), rw same at passed)
    ]

reviewed_map-step :
    (e : SafetyMapDocument) (rs : List SafetyRegion) (m : SafetyMap)
    → map_regions e ≡ ok rs
    → reviewed_map e ≡ ok m
    → make_map rs ≡ ok m
unfolding reviewed_map
reviewed_map-step e rs m made r = rw made at r

-- In the map of a reviewed document that was accepted, no region of an application, bootloader or
-- memory kind shares an address with a prohibited region.
pub make_document-clear :
    (render : String × String → String) (d e : SafetyMapDocument) (m : SafetyMap)
    (g b : SafetyRegion)
    → make_document render d ≡ ok e
    → reviewed_map e ≡ ok m
    → Member g m.regions
    → Member b m.regions
    → is_in g.kind partition_kinds ≡ true
    → b.kind ≡ prohibited
    → overlaps g.address_range b.address_range ≡ false
make_document-clear render d e m g b h r i j k p =
    let (_, passed) = make_document-step render d e h in
    let (_, (rs, made, (cs, found, none_found))) = without_conflicts-step render e e passed in
    let of_map : make_map rs ≡ ok m = reviewed_map-step e rs m made r in
    conflicts-clear m g b (region_conflicts-nil render rs cs m found none_found of_map).0 i j k p

document_error-none :
    (d : SafetyMapDocument) (rs : List SafetyRegion)
    → document_error d rs ≡ none
    → (ranges_with physical_flash rs ≡ d.geometry.physical_flash ∷ [])
      × (ranges_with physical_ram rs ≡ d.geometry.physical_ram ∷ [])
      × (is_outside d.geometry.physical_flash d.partitions.application ≡ false)
      × (is_outside d.geometry.physical_flash d.partitions.bootloader ≡ false)
unfolding document_error
document_error-none d rs h = ground (
  arith,
  list_beq_iff (ranges_with physical_flash rs) (d.geometry.physical_flash ∷ []),
  list_beq_iff (ranges_with physical_ram rs) (d.geometry.physical_ram ∷ []),
)

is_outside-some :
    (flash partition : AddressRange) (o : Option AddressRange)
    → is_outside flash o ≡ false
    → o ≡ some partition
    → contains flash partition ≡ true
is_outside-some flash partition o h e = ground arith

-- A reviewed document that was accepted has one region of physical flash and one of physical
-- memory, those of its geometry, and both partitions, where it has them, lie in that flash.
pub make_document-partitions :
    (render : String × String → String) (d e : SafetyMapDocument)
    → make_document render d ≡ ok e
    → (ranges_with physical_flash e.regions ≡ e.geometry.physical_flash ∷ [])
      × (ranges_with physical_ram e.regions ≡ e.geometry.physical_ram ∷ [])
      × ((r : AddressRange)
          → (e.partitions.application ≡ some r) ⊎ (e.partitions.bootloader ≡ some r)
          → contains e.geometry.physical_flash r ≡ true)
make_document-partitions render d e h =
    let (flash, memory, app, boot) =
      document_error-none e e.regions (make_document-step render d e h).0 in
    (
      flash,
      memory,
      λ r q. elim q [
        | inl k ↦ is_outside-some e.geometry.physical_flash r e.partitions.application app k
        | inr k ↦ is_outside-some e.geometry.physical_flash r e.partitions.bootloader boot k
      ],
    )
