-- ===== src/Safety/Map/Check.antt =====
-- What an answer of `SafetyMap.check` means, address by address.
use byo_firmware_mcp.Prelude.{
  String, ◌≡◌, refl, sym, ◌∙◌, ◌≢◌, ◌↔◌, inl, inr, Bool, true, false, none, some, List, [], ◌∷◌,
  map, arith, is_nil, Any, All, ap, Member, Member-All, Any-Member, All-Member, All-map, Bool-cases,
  Option-cases,
}
use byo_firmware_mcp.Prelude.Result.{Result, ok, raise}
use byo_firmware_mcp.Prelude.Sorting.{
  sorted, dedup, contains, All-sorted, sorted-All, All-dedup, dedup-All,
}
use byo_firmware_mcp.Safety.Ranges.{AddressRange, RegionError, range_eq, compare_ranges}
use byo_firmware_mcp.Safety.Regions.{
  RegionKind, kind_eq, ActionCategory, memory_read, breakpoint, action_eq, allowed_kinds,
}
use byo_firmware_mcp.Safety.Map.{
  SafetyMap, classify, executable_contains, CheckResult, allowed, refusal, refusal_code, judge,
  check_from, requested_ranges, check,
}

-- The loop passes exactly when every range does.
check_from-none :
    (m : SafetyMap) (action : ActionCategory) (rs : List AddressRange)
    → check_from m action rs ≡ none
    → All (λ r. judge m action r ≡ none) rs
unfolding check_from
check_from-none m action [] h = tt
check_from-none m action (r ∷ rs) h = elim (Option-cases (judge m action r)) [
  | inl e ↦ (e, check_from-none m action rs (ground arith))
  | inr (c, e) ↦ ground arith
]

none-check_from :
    (m : SafetyMap) (action : ActionCategory) (rs : List AddressRange)
    → All (λ r. judge m action r ≡ none) rs
    → check_from m action rs ≡ none
unfolding check_from
none-check_from m action [] h = refl
none-check_from m action (r ∷ rs) h = ground (arith, none-check_from m action rs h.1)

-- A refusal of the loop is that of one of the ranges.
abbrev IsRefusal : SafetyMap → ActionCategory → CheckResult → AddressRange → Type 0
IsRefusal m action c r =
    (code : String) × (judge m action r ≡ some code) × (c ≡ refusal action code r (classify m r))

check_from-some :
    (m : SafetyMap) (action : ActionCategory) (rs : List AddressRange) (c : CheckResult)
    → check_from m action rs ≡ some c
    → Any (IsRefusal m action c) rs
unfolding check_from
check_from-some m action [] c h = ground arith
check_from-some m action (r ∷ rs) c h = elim (Option-cases (judge m action r)) [
  | inl e ↦ inr (check_from-some m action rs c (ground arith))
  | inr (code, e) ↦ inl (code, e, ground arith)
]

abbrev pub IsAllowed : Result RegionError CheckResult → Type 0
IsAllowed (ok (allowed _ _ _)) = Unit
IsAllowed (ok (refusal _ _ _ _)) = ⊥
IsAllowed (raise e) = ⊥

-- The table alone decides: what a category allows is never unknown, and PROHIBITED only for reads.
abbrev pub Permits : SafetyMap → ActionCategory → AddressRange → Type 0
Permits m action r =
    (contains (classify m r) (allowed_kinds action) ≡ true)
    × (action ≡ breakpoint → executable_contains m r ≡ true)

refusal_code-none :
    (action : ActionCategory) (k : RegionKind) (x : Bool)
    → refusal_code action k x ≡ none
    → (contains k (allowed_kinds action) ≡ true) × (action ≡ breakpoint → x ≡ true)
unfolding refusal_code contains
refusal_code-none memory_read k x h = ground arith
refusal_code-none _ k x h = ground arith

none-refusal_code :
    (action : ActionCategory) (k : RegionKind) (x : Bool)
    → contains k (allowed_kinds action) ≡ true
    → (action ≡ breakpoint → x ≡ true)
    → refusal_code action k x ≡ none
unfolding refusal_code contains
none-refusal_code memory_read k x h b = ground arith
none-refusal_code breakpoint k x h b = ground (arith, b refl)
none-refusal_code _ k x h b = ground arith

judge-none_iff :
    (m : SafetyMap) (action : ActionCategory) (r : AddressRange)
    → (judge m action r ≡ none) ↔ Permits m action r
unfolding judge
judge-none_iff m action r = (
  refusal_code-none action (classify m r) (executable_contains m r),
  λ h. none-refusal_code action (classify m r) (executable_contains m r) h.0 h.1,
)

-- The request that is checked has the same ranges, each once and in order.
All-requested :
    (P : AddressRange → Type 0) (rs : List AddressRange) → All P rs → All P (requested_ranges rs)
unfolding requested_ranges
All-requested P rs h = All-sorted compare_ranges P (dedup rs) (All-dedup P rs h)

requested-All :
    (P : AddressRange → Type 0) (rs : List AddressRange) → All P (requested_ranges rs) → All P rs
unfolding requested_ranges
requested-All P rs h = dedup-All P rs (sorted-All compare_ranges P (dedup rs) h)

-- A request of at least one range stays one.
requested-nonempty : (rs : List AddressRange) → rs ≢ [] → is_nil (requested_ranges rs) ≡ false
requested-nonempty [] h = absurd (h refl)
requested-nonempty (r ∷ rs) h = go (requested_ranges (r ∷ rs)) refl
  where
    go : (xs : List AddressRange) → requested_ranges (r ∷ rs) ≡ xs → is_nil xs ≡ false
    go [] e = absurd ((requested-All (λ _. ⊥) (r ∷ rs) (rw e tt)).0)
    go (x ∷ xs) e = refl

check_nonempty :
    (m : SafetyMap) (action : ActionCategory) (ranges : List AddressRange)
    → IsAllowed (check m action ranges)
    → is_nil (requested_ranges ranges) ≡ false
unfolding check
check_nonempty m action ranges h = elim (Bool-cases (is_nil (requested_ranges ranges))) [
  | inl e ↦ absurd (rw e at h)
  | inr e ↦ e
]

check-passes :
    (m : SafetyMap) (action : ActionCategory) (ranges : List AddressRange)
    → IsAllowed (check m action ranges)
    → check_from m action (requested_ranges ranges) ≡ none
unfolding check
check-passes m action ranges h =
    elim (Option-cases (check_from m action (requested_ranges ranges))) [
      | inl e ↦ e
      | inr (c, e) ↦
          let (r, _, (code, _, is)) =
            Any-Member (IsRefusal m action c) (requested_ranges ranges)
              (check_from-some m action (requested_ranges ranges) c e) in
          absurd (rw (check_nonempty m action ranges h, e, is) at h)
    ]

requested-nil : requested_ranges [] ≡ []
unfolding requested_ranges sorted dedup
requested-nil = refl

named :
    (m : SafetyMap) (action : ActionCategory) (ranges : List AddressRange)
    → IsAllowed (check m action ranges)
    → ranges ≢ []
named m action ranges h e =
    let n : is_nil (requested_ranges ranges) ≡ false = check_nonempty m action ranges h in
    cc (e, n, requested-nil)

-- A request is allowed exactly when it names a range, the table allows the classification of each
-- of its ranges, and for a breakpoint each range is executable.
pub check-IsAllowed_iff :
    (m : SafetyMap) (action : ActionCategory) (ranges : List AddressRange)
    → IsAllowed (check m action ranges) ↔ ((ranges ≢ []) × All (Permits m action) ranges)
check-IsAllowed_iff m action ranges = (forth, back)
  where
    back : (ranges ≢ []) × All (Permits m action) ranges → IsAllowed (check m action ranges)
    back h =
        let passed : check_from m action (requested_ranges ranges) ≡ none =
          none-check_from m action (requested_ranges ranges) (
            All-map (requested_ranges ranges) (λ r. (judge-none_iff m action r).1)
              (All-requested (Permits m action) ranges h.1)) in
        unfold check in rw (requested-nonempty ranges h.0, passed) tt

    forth : IsAllowed (check m action ranges) → (ranges ≢ []) × All (Permits m action) ranges
    forth h = (
      named m action ranges h,
      All-map ranges (λ r. (judge-none_iff m action r).0)
          (requested-All (λ r. judge m action r ≡ none) ranges
            (check_from-none m action (requested_ranges ranges) (check-passes m action ranges h))),
    )

check-some :
    (m : SafetyMap) (action : ActionCategory) (ranges : List AddressRange) (c : CheckResult)
    → check m action ranges ≡ ok c
    → ¬ IsAllowed (ok c)
    → check_from m action (requested_ranges ranges) ≡ some c
unfolding check
check-some m action ranges c h n = elim (Bool-cases (is_nil (requested_ranges ranges))) [
  | inl e ↦ ground arith
  | inr e ↦ elim (Option-cases (check_from m action (requested_ranges ranges))) [
    | inl f ↦ absurd (n (rw (allowed_is e f) tt))
    | inr (d, f) ↦ ground arith
  ]
]
  where
    allowed_is :
        is_nil (requested_ranges ranges) ≡ false
        → check_from m action (requested_ranges ranges) ≡ none
        → c ≡ allowed action (requested_ranges ranges) (map (classify m) (requested_ranges ranges))
    allowed_is e f = ground arith

refusal_fields :
    (a b : ActionCategory) (c d : String) (r s : AddressRange) (k l : RegionKind)
    → refusal a c r k ≡ refusal b d s l
    → (a ≡ b) × (c ≡ d) × (r ≡ s) × (k ≡ l)
refusal_fields a b c d r s k l h = ground arith

requested-Member :
    (ranges : List AddressRange) (r : AddressRange)
    → Member r (requested_ranges ranges)
    → Member r ranges
requested-Member ranges r =
    All-Member (λ x. Member x ranges) r (requested_ranges ranges)
      (All-requested (λ x. Member x ranges) ranges (Member-All _ ranges (λ x i. i)))

-- A refusal names a range of the request with its classification, and that range is not
-- permitted.
pub check-refusal_names :
    (m : SafetyMap) (action other : ActionCategory) (ranges : List AddressRange) (code : String)
    (r : AddressRange) (k : RegionKind)
    → check m action ranges ≡ ok (refusal other code r k)
    → Member r ranges × (other ≡ action) × (k ≡ classify m r) × (¬ Permits m action r)
check-refusal_names m action other ranges code r k h =
    let c : CheckResult = refusal other code r k in
    let (x, i, (code', judged, is)) = Any-Member (IsRefusal m action c) (requested_ranges ranges) (
      check_from-some m action (requested_ranges ranges) c
        (check-some m action ranges c h (λ q. q))) in
    let (ea, ec, er, ek) = refusal_fields other action code code' r x k (classify m x) is in
    (
      rw er (requested-Member ranges x i),
      ea,
      ek ∙ ap (classify m) (sym er),
      λ p. some≢none (sym judged ∙ (judge-none_iff m action x).1 (rw er at p)),
    )
  where
    some≢none : {c : String} → some c ≡ none → ⊥
    some≢none e = cc
