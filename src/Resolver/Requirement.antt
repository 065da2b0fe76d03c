-- ===== src/Resolver/Requirement.antt =====
-- crates/lar-resolver/src/resolve.rs: version requirements as ranges for the solver
-- (`deps_to_constraints` and below). `pubgrub::Ranges` is a parameter.
pub mod Documented
pub mod Meaning
pub mod Partial
use lar.Base.{
  ℕ, ◌+◌, ◌%◌, ◌^◌, String, Bool, true, false, not, ◌&&◌, Option, none, some, List, [], ◌∷◌, ◌≡◌,
  ltb, codes, Result, ok, err, ok_or, ◌>>=◌, if◌then◌else◌,
}
use lar.Base.Map.{Map, insert}
use lar.Semver.{
  Semver, Comparator, Op, exact, greater, greater_eq, less, less_eq, tilde, caret, wildcard, other,
}

-- `ProviderError::Other`, by its message.
pub data Fault : Type 0 where
  invalid_requirement : String → String → Fault
  wildcard_requirement unsupported_operator : Fault

-- `pubgrub::Ranges<Version>`
pub record RangeLib (sv : Semver) : Type 1 where
  pub Ranges : Type 0
  pub full : Ranges
  pub singleton : sv.Version → Ranges
  pub strictly_higher_than : sv.Version → Ranges
  pub higher_than : sv.Version → Ranges
  pub strictly_lower_than : sv.Version → Ranges
  pub lower_than : sv.Version → Ranges
  pub between : sv.Version → sv.Version → Ranges
  pub intersection : Ranges → Ranges → Ranges
  pub contains : Ranges → sv.Version → Bool

-- Its documented meaning: `between` holds its lower end and not its upper one.
pub record IsRangeLib (sv : Semver) (lib : RangeLib sv) : Type 0 where
  pub contains-full : (v : sv.Version) → lib.contains lib.full v ≡ true
  pub contains-singleton :
      (a v : sv.Version) → lib.contains (lib.singleton a) v ≡ (not (sv.lt v a) && not (sv.lt a v))
  pub contains-strictly_higher_than :
      (a v : sv.Version) → lib.contains (lib.strictly_higher_than a) v ≡ sv.lt a v
  pub contains-higher_than :
      (a v : sv.Version) → lib.contains (lib.higher_than a) v ≡ not (sv.lt v a)
  pub contains-strictly_lower_than :
      (a v : sv.Version) → lib.contains (lib.strictly_lower_than a) v ≡ sv.lt v a
  pub contains-lower_than : (a v : sv.Version) → lib.contains (lib.lower_than a) v ≡ not (sv.lt a v)
  pub contains-between :
      (a b v : sv.Version) → lib.contains (lib.between a b) v ≡ (not (sv.lt v a) && sv.lt v b)
  pub contains-intersection :
      (r s : lib.Ranges) (v : sv.Version)
      → lib.contains (lib.intersection r s) v ≡ (lib.contains r v && lib.contains s v)

-- `n + 1` on `u64`, which wraps in a release build.
abbrev pub next : ℕ → ℕ
next n = (n + 1) % 2 ^ 64

abbrev pub or_zero : Option ℕ → ℕ
or_zero none = 0
or_zero (some n) = n

module _ (sv : Semver) (lib : RangeLib sv) where
  open sv use {new}
  open lib use {
    Ranges, full, singleton, strictly_higher_than, higher_than, strictly_lower_than, lower_than,
    between, intersection,
  }

  unfoldable pub version_from_parts : ℕ → Option ℕ → Option ℕ → sv.Version
  version_from_parts major minor patch = new major (or_zero minor) (or_zero patch)

  unfoldable pub exact_range : ℕ → Option ℕ → Option ℕ → Ranges
  exact_range major (some mi) (some pa) = singleton (new major mi pa)
  exact_range major (some mi) none = between (new major mi 0) (new major (next mi) 0)
  exact_range major none _ = between (new major 0 0) (new (next major) 0 0)

  unfoldable pub tilde_range : ℕ → Option ℕ → Option ℕ → Ranges
  tilde_range major (some mi) (some pa) = between (new major mi pa) (new major (next mi) 0)
  tilde_range major (some mi) none = between (new major mi 0) (new major (next mi) 0)
  tilde_range major none _ = between (new major 0 0) (new (next major) 0 0)

  abbrev pub is_none : Option ℕ → Bool
  is_none none = true
  is_none (some _) = false

  unfoldable pub caret_range : ℕ → Option ℕ → Option ℕ → Ranges
  caret_range major minor patch =
      let mi = or_zero minor in
      let pa = or_zero patch in
      between (new major mi pa) (
        if ltb 0 major
        then new (next major) 0 0
        else if ltb 0 mi
        then new 0 (next mi) 0
        else if is_none minor
        then new 1 0 0
        else new 0 0 (next pa))

  -- The match on the operator.
  unfoldable pub ranges_by_op : Op → ℕ → Option ℕ → Option ℕ → Result Fault Ranges
  unfolding version_from_parts exact_range tilde_range caret_range
  ranges_by_op exact major minor patch = ok (exact_range major minor patch)
  ranges_by_op greater major minor patch =
      ok (strictly_higher_than (version_from_parts major minor patch))
  ranges_by_op greater_eq major minor patch =
      ok (higher_than (version_from_parts major minor patch))
  ranges_by_op less major minor patch =
      ok (strictly_lower_than (version_from_parts major minor patch))
  ranges_by_op less_eq major minor patch = ok (lower_than (version_from_parts major minor patch))
  ranges_by_op tilde major minor patch = ok (tilde_range major minor patch)
  ranges_by_op caret major minor patch = ok (caret_range major minor patch)
  ranges_by_op wildcard major minor patch = ok (exact_range major minor patch)
  ranges_by_op other major minor patch = err unsupported_operator

  -- The field `pre` is not read.
  unfoldable pub comparator_to_ranges : Comparator → Result Fault Ranges
  unfolding ranges_by_op
  comparator_to_ranges c = ranges_by_op c.op c.major c.minor c.patch

  unfoldable pub intersect_all : Ranges → List Comparator → Result Fault Ranges
  unfolding comparator_to_ranges
  intersect_all ranges [] = ok ranges
  intersect_all ranges (c ∷ cs) = do
    r ← comparator_to_ranges c
    intersect_all (intersection ranges r) cs

  unfoldable pub version_req_to_ranges : List Comparator → Result Fault Ranges
  unfolding intersect_all
  version_req_to_ranges [] = err wildcard_requirement
  version_req_to_ranges (c ∷ cs) = intersect_all full (c ∷ cs)

  unfoldable pub constraints_onto : Map Ranges → Map String → Result Fault (Map Ranges)
  unfolding version_req_to_ranges insert
  constraints_onto out [] = ok out
  constraints_onto out ((id, req_str) ∷ deps) = do
    req ← ok_or (sv.parse_req (codes req_str)) (invalid_requirement req_str id)
    r ← version_req_to_ranges req
    constraints_onto (insert out id r) deps

  unfoldable pub deps_to_constraints : Map String → Result Fault (Map Ranges)
  unfolding constraints_onto
  deps_to_constraints = constraints_onto []
