-- ===== src/Resolver/Tests.antt =====
-- The theorems on crates/lar-resolver at concrete inputs.
pub mod Chosen
pub mod Resolved
use lar.Base.{
  ℕ, String, Bool, true, false, not, ◌&&◌, none, some, List, [], ◌∷◌, ◌≡◌, refl, ◌≢◌, ◌↔◌, ◌==◌,
  is_empty, contains, if◌then◌else◌, arith, Memᴰ, ok, All,
}
use lar.Semver.{Semver, IsSemver, Comparator, caret, less, greater, less_eq, triple_lt}
use lar.Base.Map.{Map, keys, insert, lookup, contains_key}
use lar.Store.World.{PackageDir, toml}
use lar.Resolver.Locked.{LockedPackage, Lockfile}
use lar.Resolver.Cycle.{clear, cycle, out_of_fuel, detect_dependency_cycle}
use lar.Resolver.Cycle.Correct.{Reaches, detect-clear_iff, detect-cycle, detect-ne-out_of_fuel}
use lar.Resolver.Requirement.{
  RangeLib, IsRangeLib, ranges_by_op, version_req_to_ranges, version_from_parts, caret_range,
}
use lar.Resolver.Requirement.Documented.{IsRegular, satisfies, satisfies_all}
use lar.Resolver.Requirement.Meaning.{version_req_to_ranges_meaning}
use lar.Resolver.Requirement.Partial.{partial_requirements_differ}
use lar.Resolver.Lock.{validate, verify_lockfile_inner}
use lar.Resolver.Lock.Valid.{IsLockfile, validate_iff}
use lar.Resolver.Lock.Verified.{IsVerified, verify_lockfile_inner_iff}

-- An application on a library, which depends on the application again in `loop`.
abbrev app : LockedPackage
app = record {
  id = "org.app";
  version = "1.0.0";
  content_hash = some "blake3:aa";
  dependencies = ("org.lib", "^1.2") ∷ [];
}

abbrev library : Map String → LockedPackage
library deps = record {
  id = "org.lib";
  version = "1.2.0";
  content_hash = some "blake3:bb";
  dependencies = deps;
}

abbrev chain : List LockedPackage
chain = app ∷ library [] ∷ []

abbrev loop : List LockedPackage
loop = app ∷ library (("org.app", "^1.0") ∷ []) ∷ []

detect-clear_iff_example :
    (detect_dependency_cycle chain ≡ clear) ↔ ((u : String) → ¬ Reaches chain u u)
detect-clear_iff_example = detect-clear_iff chain

chain_is_clear : detect_dependency_cycle chain ≡ clear
unfolding detect_dependency_cycle keys insert contains lookup contains_key
chain_is_clear = refl

loop_is_found : detect_dependency_cycle loop ≡ cycle "org.app" "1.0.0"
unfolding detect_dependency_cycle keys insert contains lookup contains_key
loop_is_found = refl

detect-cycle_example :
    (p : LockedPackage) × Memᴰ p loop
    × (p.id ≡ "org.app")
    × (p.version ≡ "1.0.0")
    × Reaches loop "org.app" "org.app"
detect-cycle_example = detect-cycle loop "org.app" "1.0.0" loop_is_found

detect-ne-out_of_fuel_example : detect_dependency_cycle loop ≢ out_of_fuel
detect-ne-out_of_fuel_example = detect-ne-out_of_fuel loop

abbrev lock : Lockfile
lock = record { format = 1; root = record { id = "org.app"; version = "1.0.0" }; packages = chain }

validate_iff_example : (validate lock ≡ ok tt) ↔ IsLockfile lock
validate_iff_example = validate_iff lock

abbrev stored_library : PackageDir
stored_library = record {
  id = "org.lib";
  version = "1.2.0";
  content = toml (
      ok (record {
        meta = record {
          format = 1;
          id = "org.lib";
          name = "Library";
          version = "1.2.0";
          description = none;
          content_hash = some "blake3:bb";
        };
        dependencies = [];
        entry = none;
        desktop = none;
        platform = none;
      }));
}

verify_lockfile_inner_iff_example :
    (verify_lockfile_inner lock (stored_library ∷ []) false ≡ ok tt)
    ↔ (IsLockfile lock × All (IsVerified (stored_library ∷ []) false lock.root) lock.packages)
verify_lockfile_inner_iff_example = verify_lockfile_inner_iff lock (stored_library ∷ []) false

-- Release versions alone, as their three numbers.
record Release : Type 0 where
  major : ℕ
  minor : ℕ
  patch : ℕ

abbrev release_lt : Release → Release → Bool
release_lt v w = triple_lt v.major v.minor v.patch w.major w.minor w.patch

abbrev releases : Semver
releases = record {
  Version = Release;
  new = λ a b c. record { major = a; minor = b; patch = c };
  parse = λ s. if s == "1.0.0" then some (record { major = 1; minor = 0; patch = 0 }) else none;
  show = λ v. "1.0.0";
  lt = release_lt;
  parse_req = λ s.
      if is_empty s
      then none
      else some (record { op = caret; major = 1; minor = none; patch = none; pre = "" } ∷ []);
}

releases-IsSemver : IsSemver releases
releases-IsSemver = record { lt-new = λ a b c x y z. refl }

-- A range is the test of its members.
abbrev tests : RangeLib releases
tests = record {
  Ranges = Release → Bool;
  full = λ v. true;
  singleton = λ a v. not (release_lt v a) && not (release_lt a v);
  strictly_higher_than = λ a v. release_lt a v;
  higher_than = λ a v. not (release_lt v a);
  strictly_lower_than = λ a v. release_lt v a;
  lower_than = λ a v. not (release_lt a v);
  between = λ a b v. not (release_lt v a) && release_lt v b;
  intersection = λ r s v. r v && s v;
  contains = λ r v. r v;
}

tests-IsRangeLib : IsRangeLib releases tests
tests-IsRangeLib = record {
  contains-full = λ v. refl;
  contains-singleton = λ a v. refl;
  contains-strictly_higher_than = λ a v. refl;
  contains-higher_than = λ a v. refl;
  contains-strictly_lower_than = λ a v. refl;
  contains-lower_than = λ a v. refl;
  contains-between = λ a b v. refl;
  contains-intersection = λ r s v. refl;
}

-- `^1.2.3-rc.1, <2`
abbrev requirement : List Comparator
requirement =
    record { op = caret; major = 1; minor = some 2; patch = some 3; pre = "rc.1" }
    ∷ record { op = less; major = 2; minor = none; patch = none; pre = "" }
    ∷ []

requirement-ne-nil : requirement ≢ []
requirement-ne-nil e = cc

requirement-IsRegular : All IsRegular requirement
requirement-IsRegular = (
  record {
    bounded_major = omega arith;
    bounded_minor = omega arith;
    bounded_patch = omega arith;
    written = tt;
    faithful = tt;
  },
  (
    record {
      bounded_major = omega arith;
      bounded_minor = tt;
      bounded_patch = tt;
      written = refl;
      faithful = tt;
    },
    tt,
  ),
)

version_req_to_ranges_meaning_example :
    (r : Release → Bool) × (version_req_to_ranges releases tests requirement ≡ ok r)
    × ((x y z : ℕ)
        → r (record { major = x; minor = y; patch = z }) ≡ satisfies_all requirement x y z)
version_req_to_ranges_meaning_example =
    version_req_to_ranges_meaning releases releases-IsSemver tests tests-IsRangeLib requirement
      requirement-ne-nil requirement-IsRegular

partial_requirements_differ_example :
    ((true ≡ true) × (satisfies greater 1 (some 2) none "" 1 2 3 ≡ false))
    × ((false ≡ false) × (satisfies less_eq 1 (some 2) none "" 1 2 3 ≡ true))
    × ((false ≡ false) × (satisfies caret 0 (some 0) none "" 0 0 3 ≡ true))
unfolding ranges_by_op version_from_parts caret_range
partial_requirements_differ_example =
    partial_requirements_differ releases releases-IsSemver tests tests-IsRangeLib 1 2 3
      (omega arith) _ _ _ refl refl refl
