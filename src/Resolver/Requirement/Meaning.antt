-- ===== src/Resolver/Requirement/Meaning.antt =====
-- The ranges that the resolver builds hold the versions that `semver` documents.
use lar.Base.{
  String, ◌==◌, eq_iff, ℕ, ◌+◌, ◌^◌, ◌<◌, Bool, true, not, ◌&&◌, ◌||◌, Option, none, some, List, [],
  ◌∷◌, ◌≡◌, ◌≢◌, refl, ◌∙◌, ap, arith, ltb, ok, >>=-eq-ok, All, Bool-cases, inl, inr, subst,
}
use lar.Semver.{
  Semver, IsSemver, Comparator, Op, exact, greater, greater_eq, less, less_eq, tilde, caret,
  wildcard, other, triple_lt,
}
use lar.Resolver.Requirement.{
  RangeLib, IsRangeLib, next, or_zero, version_from_parts, exact_range, tilde_range, caret_range,
  ranges_by_op, comparator_to_ranges, intersect_all, version_req_to_ranges,
}
use lar.Resolver.Requirement.Documented.{
  IsBounded, IsFaithful, IsRegular, IsWritten, above, caret_match, exact_match, satisfies,
  satisfies_all, tilde_match, IsRegularAt,
}

module _ (sv : Semver) (is_sv : IsSemver sv) (lib : RangeLib sv) (is_lib : IsRangeLib sv lib) where
  open sv use {new}
  open lib use {Ranges, contains}

  -- A range that a release version is in by a test.
  abbrev Holds : Ranges → (ℕ → ℕ → ℕ → Bool) → Type 0
  Holds r test = (x y z : ℕ) → contains r (new x y z) ≡ test x y z

  between-Holds :
      (a b c d e f x y z : ℕ)
      → contains (lib.between (new a b c) (new d e f)) (new x y z)
        ≡ (not (triple_lt x y z a b c) && triple_lt x y z d e f)
  between-Holds a b c d e f x y z =
      is_lib.contains-between (new a b c) (new d e f) (new x y z)
      ∙ rw (is_sv.lt-new x y z a b c, is_sv.lt-new x y z d e f)

  exact_range_lem :
      (major : ℕ) (minor patch : Option ℕ) (pre : String)
      → major + 1 < 2 ^ 64
      → IsBounded minor
      → IsWritten minor patch pre
      → pre ≡ ""
      → (x y z : ℕ)
      → contains (exact_range sv lib major minor patch) (new x y z)
        ≡ exact_match major minor patch pre x y z
  unfolding exact_range
  exact_range_lem major none none pre b _ _ released x y z =
      between-Holds major 0 0 (next major) 0 0 x y z ∙ ground arith
  exact_range_lem major none (some pa) pre b _ w released x y z = absurd w
  exact_range_lem major (some mi) none pre b c _ released x y z =
      between-Holds major mi 0 major (next mi) 0 x y z ∙ ground arith
  exact_range_lem major (some mi) (some pa) pre b c _ released x y z =
      let empty = (eq_iff pre "").1 released in
      is_lib.contains-singleton (new major mi pa) (new x y z)
      ∙ rw (is_sv.lt-new x y z major mi pa, is_sv.lt-new major mi pa x y z) (ground arith)

  tilde_range_lem :
      (major : ℕ) (minor patch : Option ℕ) (pre : String)
      → major + 1 < 2 ^ 64
      → IsBounded minor
      → IsWritten minor patch pre
      → (x y z : ℕ)
      → contains (tilde_range sv lib major minor patch) (new x y z)
        ≡ tilde_match major minor patch x y z
  unfolding tilde_range
  tilde_range_lem major none none pre b _ _ x y z =
      between-Holds major 0 0 (next major) 0 0 x y z ∙ ground arith
  tilde_range_lem major none (some pa) pre b _ w x y z = absurd w
  tilde_range_lem major (some mi) none pre b c _ x y z =
      between-Holds major mi 0 major (next mi) 0 x y z ∙ ground arith
  tilde_range_lem major (some mi) (some pa) pre b c _ x y z =
      between-Holds major mi pa major (next mi) 0 x y z ∙ ground arith

  caret_range_lem :
      (major : ℕ) (minor patch : Option ℕ) (pre : String)
      → major + 1 < 2 ^ 64
      → IsBounded minor
      → IsBounded patch
      → IsWritten minor patch pre
      → IsFaithful caret major minor patch pre
      → (x y z : ℕ)
      → contains (caret_range sv lib major minor patch) (new x y z)
        ≡ caret_match major minor patch x y z
  unfolding caret_range
  caret_range_lem major none none pre b _ _ _ f x y z = elim (Bool-cases (ltb 0 major)) [
    | inl t ↦ rw (caret_range, t) (between-Holds major 0 0 (next major) 0 0 x y z ∙ ground arith)
    | inr t ↦ rw (caret_range, t) (between-Holds major 0 0 1 0 0 x y z ∙ ground arith)
  ]
  caret_range_lem major none (some pa) pre b _ _ w f x y z = absurd w
  caret_range_lem major (some mi) none pre b c _ _ f x y z = elim (Bool-cases (ltb 0 major)) [
    | inl t ↦ rw (caret_range, t) (between-Holds major mi 0 (next major) 0 0 x y z ∙ ground arith)
    | inr t ↦
        let minor_set : ltb 0 mi ≡ true = ground arith in
        rw (caret_range, t, minor_set) (between-Holds major mi 0 0 (next mi) 0 x y z ∙ ground arith)
  ]
  caret_range_lem major (some mi) (some pa) pre b c d _ f x y z = elim (Bool-cases (ltb 0 major)) [
    | inl t ↦ rw (caret_range, t) (between-Holds major mi pa (next major) 0 0 x y z ∙ ground arith)
    | inr t ↦ elim (Bool-cases (ltb 0 mi)) [
      | inl u ↦
          rw (caret_range, t, u) (between-Holds major mi pa 0 (next mi) 0 x y z ∙ ground arith)
      | inr u ↦
          rw (caret_range, t, u) (between-Holds major mi pa 0 0 (next pa) x y z ∙ ground arith)
    ]
  ]

  -- Not below the lowest version of a comparator is above its series or in it.
  floor_lem :
      (major : ℕ) (minor patch : Option ℕ) (pre : String) (x y z : ℕ)
      → IsWritten minor patch pre
      → not (triple_lt x y z major (or_zero minor) (or_zero patch))
        ≡ (above major minor patch pre x y z || exact_match major minor patch pre x y z)
  floor_lem major none none pre x y z w = ground arith
  floor_lem major none (some pa) pre x y z w = absurd w
  floor_lem major (some mi) none pre x y z w = ground arith
  floor_lem major (some mi) (some pa) pre x y z w = elim (Bool-cases (pre == "")) [
    | inl e ↦ rw e (ground arith)
    | inr e ↦ rw e (ground arith)
  ]

  -- Above a comparator without a pre-release is above its version.
  released_lem :
      (major mi pa : ℕ) (pre : String) (x y z : ℕ)
      → pre ≡ ""
      → triple_lt major mi pa x y z ≡ above major (some mi) (some pa) pre x y z
  released_lem major mi pa pre x y z released =
      let empty = (eq_iff pre "").1 released in ground arith

  -- One comparator: the range holds the release versions that meet it.
  ranges_by_op_lem :
      (op : Op) (major : ℕ) (minor patch : Option ℕ) (pre : String) (r : Ranges)
      → ranges_by_op sv lib op major minor patch ≡ ok r
      → IsRegularAt op major minor patch pre
      → Holds r (satisfies op major minor patch pre)
  unfolding ranges_by_op version_from_parts
  ranges_by_op_lem exact major minor patch pre r h v x y z =
      subst (λ s. contains s (new x y z) ≡ exact_match major minor patch pre x y z) (cc)
        (exact_range_lem major minor patch pre v.bounded_major v.bounded_minor v.written v.faithful
          x y z)
  ranges_by_op_lem wildcard major minor patch pre r h v x y z =
      subst (λ s. contains s (new x y z) ≡ exact_match major minor patch pre x y z) (cc)
        (exact_range_lem major minor patch pre v.bounded_major v.bounded_minor v.written v.faithful
          x y z)
  ranges_by_op_lem tilde major minor patch pre r h v x y z =
      subst (λ s. contains s (new x y z) ≡ tilde_match major minor patch x y z) (cc)
        (tilde_range_lem major minor patch pre v.bounded_major v.bounded_minor v.written x y z)
  ranges_by_op_lem caret major minor patch pre r h v x y z =
      subst (λ s. contains s (new x y z) ≡ caret_match major minor patch x y z) (cc)
        (caret_range_lem major minor patch pre v.bounded_major v.bounded_minor v.bounded_patch
          v.written v.faithful x y z)
  ranges_by_op_lem greater major minor none pre r h v x y z = absurd v.faithful
  ranges_by_op_lem greater major none (some pa) pre r h v x y z = absurd v.written
  ranges_by_op_lem greater major (some mi) (some pa) pre r h v x y z =
      subst (λ s. contains s (new x y z) ≡ above major (some mi) (some pa) pre x y z) (cc)
        (is_lib.contains-strictly_higher_than (new major mi pa) (new x y z)
          ∙ is_sv.lt-new major mi pa x y z
          ∙ released_lem major mi pa pre x y z v.faithful)
  ranges_by_op_lem greater_eq major minor patch pre r h v x y z =
      subst
        (λ s.
          contains s (new x y z)
          ≡ (above major minor patch pre x y z || exact_match major minor patch pre x y z))
        (cc)
        (is_lib.contains-higher_than (new major (or_zero minor) (or_zero patch)) (new x y z)
          ∙ ap not (is_sv.lt-new x y z major (or_zero minor) (or_zero patch))
          ∙ floor_lem major minor patch pre x y z v.written)
  ranges_by_op_lem less major minor patch pre r h v x y z =
      subst
        (λ s. contains s (new x y z) ≡ (
          not (above major minor patch pre x y z) && not (exact_match major minor patch pre x y z)))
        (cc)
        (is_lib.contains-strictly_lower_than (new major (or_zero minor) (or_zero patch)) (new x y z)
          ∙ is_sv.lt-new x y z major (or_zero minor) (or_zero patch)
          ∙ ground (arith, floor_lem major minor patch pre x y z v.written))
  ranges_by_op_lem less_eq major minor none pre r h v x y z = absurd v.faithful
  ranges_by_op_lem less_eq major none (some pa) pre r h v x y z = absurd v.written
  ranges_by_op_lem less_eq major (some mi) (some pa) pre r h v x y z =
      subst (λ s. contains s (new x y z) ≡ not (above major (some mi) (some pa) pre x y z)) (cc)
        (is_lib.contains-lower_than (new major mi pa) (new x y z)
          ∙ ap not (is_sv.lt-new major mi pa x y z ∙ released_lem major mi pa pre x y z v.faithful))
  ranges_by_op_lem other major minor patch pre r h v x y z = cc

  intersect_all_lem :
      (start : Ranges) (cs : List Comparator) (r : Ranges)
      → intersect_all sv lib start cs ≡ ok r
      → All IsRegular cs
      → (x y z : ℕ)
      → contains r (new x y z) ≡ (contains start (new x y z) && satisfies_all cs x y z)
  unfolding intersect_all comparator_to_ranges
  intersect_all_lem start [] r h v x y z = ground arith
  intersect_all_lem start (c ∷ cs) r h (v, vs) x y z =
      let (one, a, b) = >>=-eq-ok (ranges_by_op sv lib c.op c.major c.minor c.patch) _ h in
      ground (
        arith,
        intersect_all_lem (lib.intersection start one) cs r b vs x y z,
        is_lib.contains-intersection start one (new x y z),
        ranges_by_op_lem c.op c.major c.minor c.patch c.pre one a v x y z,
      )

  ranges_by_op_total :
      (op : Op) (major : ℕ) (minor patch : Option ℕ) (pre : String)
      → IsFaithful op major minor patch pre
      → (r : Ranges) × (ranges_by_op sv lib op major minor patch ≡ ok r)
  unfolding ranges_by_op
  ranges_by_op_total exact major minor patch pre f = (_, refl)
  ranges_by_op_total greater major minor patch pre f = (_, refl)
  ranges_by_op_total greater_eq major minor patch pre f = (_, refl)
  ranges_by_op_total less major minor patch pre f = (_, refl)
  ranges_by_op_total less_eq major minor patch pre f = (_, refl)
  ranges_by_op_total tilde major minor patch pre f = (_, refl)
  ranges_by_op_total caret major minor patch pre f = (_, refl)
  ranges_by_op_total wildcard major minor patch pre f = (_, refl)
  ranges_by_op_total other major minor patch pre f = absurd f

  intersect_all_total :
      (start : Ranges) (cs : List Comparator)
      → All IsRegular cs
      → (r : Ranges) × (intersect_all sv lib start cs ≡ ok r)
  unfolding intersect_all comparator_to_ranges
  intersect_all_total start [] v = (start, refl)
  intersect_all_total start (c ∷ cs) (v, vs) =
      let (one, e) = ranges_by_op_total c.op c.major c.minor c.patch c.pre v.faithful in
      let (r, k) = intersect_all_total (lib.intersection start one) cs vs in (r, rw e k)

  -- A requirement with comparators, all of them regular (parts below 2^64 - 1, no patch without a
  -- minor, no pre-release without a patch, `=`, `>`, `<=` and wildcards without a pre-release, `>`
  -- and `<=` with all three parts, no `^0.0`), becomes a range, and the range holds exactly the
  -- release versions that meet every comparator as `semver` documents it.
  pub version_req_to_ranges_meaning :
      (req : List Comparator)
      → req ≢ []
      → All IsRegular req
      → (r : Ranges) × (version_req_to_ranges sv lib req ≡ ok r)
        × ((x y z : ℕ) → contains r (new x y z) ≡ satisfies_all req x y z)
  unfolding version_req_to_ranges
  version_req_to_ranges_meaning [] given v = absurd (given refl)
  version_req_to_ranges_meaning (c ∷ cs) given v =
      let (r, e) = intersect_all_total lib.full (c ∷ cs) v in
      (
        r,
        e,
        λ x y z.
            intersect_all_lem lib.full (c ∷ cs) r e v x y z ∙ rw (is_lib.contains-full (new x y z)),
      )
