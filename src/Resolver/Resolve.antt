-- ===== src/Resolver/Resolve.antt =====
-- `resolve_manifest` of crates/lar-resolver/src/resolve.rs: from a root manifest to a lockfile, with
-- the packages of it in the store. The solver `pubgrub` is a parameter.
pub mod Held
pub mod Stored
use lar.Base.{
  ℕ, String, Bool, true, false, ◌&&◌, ◌||◌, Option, none, some, List, [], ◌∷◌, ◌==◌, str_lt, Result,
  Done, ok, err, guard, map_err, ◌>>=◌, ◌>>◌, if◌then◌else◌,
}
use lar.Base.Map.{same_map}
use lar.Package.Manifest.{PackageManifest}
use lar.Repo.Advisories.{Digest}
use lar.Repo.Error as Repo
use lar.Repo.Fetch.{Network, collect_warnings_for_pin}
use lar.Repo.Fetch.Into.{fetch_into_store}
use lar.Repo.Fetch.Peek.{ResolvePackage}
use lar.Repo.Sources.{SourcesFile}
use lar.Repo.Trust.{Crypto, TrustFile}
use lar.Resolver.Cycle.{Outcome, detect_dependency_cycle}
use lar.Resolver.Lock.{
  Fault, unresolvable, no_solution, only_yanked, undiscovered, cycle, repo_fault, other,
  root_not_semver, choosing_failed, solver_failed, missing_metadata, missing, dependency_mismatch,
  hash_mismatch, store_fault, package_fault, lockfile_format, is_package, validate,
}
use lar.Resolver.Locked.{LockedPackage, Lockfile}
use lar.Resolver.Provider as Provider
use lar.Resolver.Provider.{
  ProviderError, Dependencies, Caches, find_package, choose_version, get_dependencies, prioritize,
}
use lar.Resolver.Requirement.{RangeLib}
use lar.Semver.{Semver}
use lar.Store.World as Store
use lar.Store.World.{PackageDir, StoredPackage, World}
use lar.Store.Read.{get, load_at}

-- `pubgrub::DependencyProvider`, with the caches as its state.
pub record DependencyProvider (V R : Type 0) : Type 0 where
  pub choose_version : String → R → Caches V → Result ProviderError (Option V) × Caches V
  pub get_dependencies : String → V → Caches V → Result ProviderError (Dependencies R) × Caches V
  pub prioritize : String → R → ℕ → Caches V → (ℕ × ℕ) × Caches V

-- `pubgrub::PubGrubError`, with the report of a failed search as its text.
pub data SolveError : Type 0 where
  unsolvable failed : String → SolveError
  choosing_version : String → ProviderError → SolveError

-- `pubgrub::resolve`, and the caches that it leaves.
abbrev pub Solver : Type 0 → Type 0 → Type 0
Solver V R =
    DependencyProvider V R
    → String
    → V
    → Caches V
    → Result SolveError (List (String × V)) × Caches V

unfoldable pub map_choose_version_error : String → ProviderError → Fault
map_choose_version_error name (Provider.yanked id version advisory) =
    repo_fault (Repo.yanked id version advisory)
map_choose_version_error name (Provider.only_yanked id pins) = unresolvable (only_yanked id pins)
map_choose_version_error name (Provider.discovery id probes) = unresolvable (undiscovered id probes)
map_choose_version_error name (Provider.other_repo e) =
    other (choosing_failed name (Provider.other_repo e))
map_choose_version_error name (Provider.other_requirement e) =
    other (choosing_failed name (Provider.other_requirement e))

unfoldable pub solve_fault : SolveError → Fault
unfolding map_choose_version_error
solve_fault (unsolvable report) = unresolvable (no_solution report)
solve_fault (choosing_version name e) = map_choose_version_error name e
solve_fault (failed text) = other (solver_failed text)

-- The order of the keys `(id, version)`.
abbrev pub locked_lt : LockedPackage → LockedPackage → Bool
locked_lt p q = str_lt p.id q.id || (p.id == q.id && str_lt p.version q.version)

-- `packages.insert((id, version), package)`; the values stay in the order of their keys.
unfoldable pub insert_locked : LockedPackage → List LockedPackage → List LockedPackage
insert_locked p [] = p ∷ []
insert_locked p (q ∷ qs) =
    let rest = insert_locked p qs in
    if is_package p.id p.version q then p ∷ qs else if locked_lt q p then q ∷ rest else p ∷ q ∷ qs

-- `Error::Missing` for a package that no source has.
unfoldable pub fetch_fault : Repo.Error → Fault
fetch_fault (Repo.package_not_found id version) = missing id version
fetch_fault e = repo_fault e

-- What `materialize` demands of the stored package.
unfoldable pub check_pin :
    List PackageDir → LockedPackage → String → StoredPackage → Result Fault Done
unfolding load_at
check_pin dirs p expected_hash stored = do
  guard (stored.content_hash == expected_hash)
      (hash_mismatch p.id p.version expected_hash stored.content_hash)
  m ← map_err package_fault (load_at dirs stored.path)
  guard (same_map m.dependencies p.dependencies) (dependency_mismatch p.id p.version)

abbrev pub lock_of : PackageManifest → List LockedPackage → Lockfile
lock_of root packages = record {
  format = lockfile_format;
  root = record { id = root.meta.id; version = root.meta.version };
  packages = packages;
}

module _ (crypto : Crypto) (digest : Digest) (net : Network) (sources_toml : Option SourcesFile)
    (trust_toml : Option TrustFile) where
  unfoldable pub obtain : World → String → String → Result Fault StoredPackage × World
  unfolding get collect_warnings_for_pin fetch_into_store fetch_fault
  obtain w id version = elim (get w.dirs id version) [
    | err e ↦ (err (store_fault e), w)
    | ok (some existing) ↦ (
      (do
        warnings ← map_err repo_fault (
            collect_warnings_for_pin crypto digest net sources_toml trust_toml id version
              (some existing.content_hash))
        ok existing),
      w,
    )
    | ok none ↦
        let (r, w') = fetch_into_store crypto digest net w sources_toml trust_toml id version in
        (map_err fetch_fault r, w')
  ]

  unfoldable pub materialize_pin : World → LockedPackage → Result Fault Done × World
  unfolding obtain check_pin
  materialize_pin w p = elim p.content_hash [
    | none ↦ (ok tt, w)
    | some expected_hash ↦
        let (r, w') = obtain w p.id p.version in
        ((do stored ← r; check_pin w'.dirs p expected_hash stored), w')
  ]

  unfoldable pub materialize : World → List LockedPackage → Result Fault Done × World
  unfolding materialize_pin
  materialize w [] = (ok tt, w)
  materialize w (p ∷ ps) =
      let (r, w') = materialize_pin w p in
      let rest = materialize w' ps in elim r [ ok _ ↦ rest | err e ↦ (err e, w') ]

  -- The end of the fuel, which is not reached, is a fault of the model.
  unfoldable pub lock_packages :
      World → PackageManifest → List LockedPackage → Result Fault Lockfile × World
  unfolding detect_dependency_cycle materialize validate
  lock_packages w root packages = elim (detect_dependency_cycle packages) [
    | Outcome.out_of_fuel ↦ (err (store_fault Store.exhausted), w)
    | Outcome.cycle id version ↦ (err (cycle id version), w)
    | Outcome.clear ↦
        let (r, w') = materialize w packages in
        ((do r; validate (lock_of root packages); ok (lock_of root packages)), w')
  ]

  module _ (sv : Semver) (lib : RangeLib sv) (solve : Solver sv.Version lib.Ranges) where
    unfoldable pub lock_package :
        PackageManifest
        → List ((String × String) × ResolvePackage)
        → String
        → sv.Version
        → Result Fault LockedPackage
    unfolding find_package
    lock_package root cache id version =
        if id == root.meta.id && sv.show version == root.meta.version
        then ok (record {
          id = id;
          version = sv.show version;
          content_hash = root.meta.content_hash;
          dependencies = root.dependencies;
        })
        else elim (find_package cache id (sv.show version)) [
          | none ↦ err (other (missing_metadata id (sv.show version)))
          | some pkg ↦ ok (record {
            id = id;
            version = sv.show version;
            content_hash = some pkg.content_hash;
            dependencies = pkg.dependencies;
          })
        ]

    -- The loop over the solution.
    unfoldable pub lock_solution :
        PackageManifest
        → List ((String × String) × ResolvePackage)
        → List LockedPackage
        → List (String × sv.Version)
        → Result Fault (List LockedPackage)
    unfolding lock_package insert_locked
    lock_solution root cache packages [] = ok packages
    lock_solution root cache packages ((id, version) ∷ rest) = do
      p ← lock_package root cache id version
      lock_solution root cache (insert_locked p packages) rest

    -- `LarProvider` for a root.
    abbrev pub provider :
        World → PackageManifest → sv.Version → DependencyProvider sv.Version lib.Ranges
    provider w root root_version = record {
      choose_version =
          choose_version sv lib crypto digest net w sources_toml trust_toml root.meta.id
            root_version root.dependencies;
      get_dependencies =
          get_dependencies sv lib crypto digest net w sources_toml trust_toml root.meta.id
            root_version root.dependencies;
      prioritize = prioritize sv lib crypto digest net w sources_toml trust_toml;
    }

    -- The packages that the solver selects.
    unfoldable pub select : World → PackageManifest → sv.Version → Result Fault (List LockedPackage)
    unfolding solve_fault lock_solution
    select w root root_version =
        let (r, c) =
          solve (provider w root root_version) root.meta.id root_version
            (record { cache = []; versions = []; source_probes = [] }) in
        (do solution ← map_err solve_fault r; lock_solution root c.cache [] solution)

    unfoldable pub resolve_manifest : World → PackageManifest → Result Fault Lockfile × World
    unfolding select lock_packages
    resolve_manifest w root = elim (sv.parse root.meta.version) [
      | none ↦ (err (other (root_not_semver root.meta.version)), w)
      | some root_version ↦ elim (select w root root_version) [
        | err e ↦ (err e, w)
        | ok packages ↦ lock_packages w root packages
      ]
    ]
