-- ===== src/Resolver/Requirement/Partial.antt =====
-- Where the ranges differ from what `semver` documents: `>I.J`, `<=I.J`, `^0.0`, and pre-releases.
use lar.Base.{String, ◌==◌, ℕ, ◌<◌, true, false, none, some, ◌≡◌, refl, arith, ok}
use lar.Semver.{Semver, IsSemver, exact, greater, less_eq, caret}
use lar.Resolver.Requirement.{
  RangeLib, IsRangeLib, version_from_parts, exact_range, caret_range, ranges_by_op, next,
}
use lar.Resolver.Requirement.Documented.{satisfies}

module _ (sv : Semver) (is_sv : IsSemver sv) (lib : RangeLib sv) (is_lib : IsRangeLib sv lib) where
  open sv use {new}
  open lib use {Ranges, contains}

  -- A patch release I.J.z with z > 0 is in the range of `>I.J`, which `semver` reads as
  -- `>=I.(J+1).0`; it is not in the range of `<=I.J`, which `semver` reads as `<I.(J+1).0`; and
  -- 0.0.z is not in the range of `^0.0`, which `semver` reads as `=0.0`.
  pub partial_requirements_differ :
      (major mi z : ℕ)
      → 0 < z
      → (gt le zero_series : Ranges) → ranges_by_op sv lib greater major (some mi) none ≡ ok gt
      → ranges_by_op sv lib less_eq major (some mi) none ≡ ok le
      → ranges_by_op sv lib caret 0 (some 0) none ≡ ok zero_series
      → ((contains gt (new major mi z) ≡ true)
          × (satisfies greater major (some mi) none "" major mi z ≡ false))
        × ((contains le (new major mi z) ≡ false)
            × (satisfies less_eq major (some mi) none "" major mi z ≡ true))
        × ((contains zero_series (new 0 0 z) ≡ false)
            × (satisfies caret 0 (some 0) none "" 0 0 z ≡ true))
  unfolding ranges_by_op version_from_parts caret_range
  partial_requirements_differ major mi z pos gt le zero_series a b c = (
    (
      ground (
        arith,
        is_lib.contains-strictly_higher_than (new major mi 0) (new major mi z),
        is_sv.lt-new major mi 0 major mi z,
      ),
      ground arith,
    ),
    (
      ground (
        arith,
        is_lib.contains-lower_than (new major mi 0) (new major mi z),
        is_sv.lt-new major mi 0 major mi z,
      ),
      ground arith,
    ),
    (
      ground (
        arith,
        is_lib.contains-between (new 0 0 0) (new 0 0 (next 0)) (new 0 0 z),
        is_sv.lt-new 0 0 z 0 0 0,
        is_sv.lt-new 0 0 z 0 0 (next 0),
      ),
      refl,
    ),
  )

  -- Where a comparator names a pre-release of I.J.K, its range is that of I.J.K: the release I.J.K is
  -- in the ranges of `=I.J.K-pre` and `<=I.J.K-pre` and not in that of `>I.J.K-pre`, where `semver`
  -- has it the other way round.
  prerelease_requirements_differ :
      (major mi pa : ℕ) (pre : String)
      → (pre == "") ≡ false
      → (eq gt le : Ranges) → ranges_by_op sv lib exact major (some mi) (some pa) ≡ ok eq
      → ranges_by_op sv lib greater major (some mi) (some pa) ≡ ok gt
      → ranges_by_op sv lib less_eq major (some mi) (some pa) ≡ ok le
      → ((contains eq (new major mi pa) ≡ true)
          × (satisfies exact major (some mi) (some pa) pre major mi pa ≡ false))
        × ((contains gt (new major mi pa) ≡ false)
            × (satisfies greater major (some mi) (some pa) pre major mi pa ≡ true))
        × ((contains le (new major mi pa) ≡ true)
            × (satisfies less_eq major (some mi) (some pa) pre major mi pa ≡ false))
  unfolding ranges_by_op version_from_parts exact_range
  prerelease_requirements_differ major mi pa pre named eq gt le a b c = (
    (
      ground (
        arith,
        is_lib.contains-singleton (new major mi pa) (new major mi pa),
        is_sv.lt-new major mi pa major mi pa,
      ),
      ground arith,
    ),
    (
      ground (
        arith,
        is_lib.contains-strictly_higher_than (new major mi pa) (new major mi pa),
        is_sv.lt-new major mi pa major mi pa,
      ),
      ground arith,
    ),
    (
      ground (
        arith,
        is_lib.contains-lower_than (new major mi pa) (new major mi pa),
        is_sv.lt-new major mi pa major mi pa,
      ),
      ground arith,
    ),
  )
