-- ===== src/Resolver/Lock.antt =====
-- `Lockfile::validate` of crates/lar-resolver/src/lockfile.rs, and crates/lar-resolver/src/verify.rs.
pub mod Valid
pub mod Verified
use lar.Base.{
  ℕ, String, Bool, true, false, not, ◌&&◌, ◌||◌, Option, none, some, List, [], ◌∷◌, ◌==◌, nat_eq,
  any, Result, Done, ok, err, guard, map_err, ◌>>=◌, ◌>>◌, if◌then◌else◌,
}
use lar.Base.Map.{Map, same_map}
use lar.Base.Hash.{is_content_hash}
use lar.Package.Error
use lar.Store.World.{World, PackageDir, StoredPackage}
use lar.Store.World as Store
use lar.Store.Read.{get, load_at}
use lar.Repo.Error as Repo
use lar.Repo.Versions.{SourceProbe}
use lar.Resolver.Provider.{ProviderError}
use lar.Resolver.Locked.{LockRoot, LockedPackage, Lockfile}

abbrev pub lockfile_format : ℕ
lockfile_format = 1

-- The messages of `InvalidLockfile`.
pub data Reason : Type 0 where
  unsupported_format : ℕ → Reason
  root_empty package_empty : Reason
  hash_shape hash_missing duplicate root_missing : String → String → Reason

-- The messages of `Unresolvable`: of the solver, and of `map_choose_version_error`.
pub data Unresolved : Type 0 where
  no_solution : String → Unresolved
  only_yanked : String → List (String × String) → Unresolved
  undiscovered : String → List SourceProbe → Unresolved

-- The messages of `Other`.
pub data Other : Type 0 where
  root_not_semver : String → Other
  choosing_failed : String → ProviderError → Other
  solver_failed : String → Other
  missing_metadata : String → String → Other

pub data Fault : Type 0 where
  unresolvable : Unresolved → Fault
  cycle : String → String → Fault
  repo_fault : Repo.Error → Fault
  other : Other → Fault
  invalid_lockfile : Reason → Fault
  missing dependency_mismatch : String → String → Fault
  hash_mismatch : String → String → String → String → Fault
  store_fault : Store.Fault → Fault
  package_fault : Error.Error → Fault

abbrev pub is_package : String → String → LockedPackage → Bool
is_package id version p = p.id == id && p.version == version

abbrev pub is_root : LockRoot → LockedPackage → Bool
is_root root p = p.id == root.id && p.version == root.version

unfoldable pub check_hash : LockedPackage → Result Fault Done
check_hash p = elim p.content_hash [
  | some hash ↦ guard (is_content_hash hash) (invalid_lockfile (hash_shape p.id p.version))
  | none ↦ err (invalid_lockfile (hash_missing p.id p.version))
]

-- The loop of `validate`; `seen` holds the packages before.
unfoldable pub validate_packages :
    LockRoot → List LockedPackage → List LockedPackage → Result Fault Done
unfolding check_hash any
validate_packages root seen [] = ok tt
validate_packages root seen (p ∷ ps) = do
  guard (not (p.id == "" || p.version == "")) (invalid_lockfile package_empty)
  if is_root root p then ok tt else check_hash p
  guard (not (any (is_package p.id p.version) seen)) (invalid_lockfile (duplicate p.id p.version))
  validate_packages root (p ∷ seen) ps

unfoldable pub validate : Lockfile → Result Fault Done
unfolding validate_packages
validate lock = do
  guard (nat_eq lock.format lockfile_format) (invalid_lockfile (unsupported_format lock.format))
  guard (not (lock.root.id == "" || lock.root.version == "")) (invalid_lockfile root_empty)
  validate_packages lock.root [] lock.packages
  guard (any (is_root lock.root) lock.packages)
      (invalid_lockfile (root_missing lock.root.id lock.root.version))

-- The part of the loop of `verify_lockfile_inner` behind `let Some(expected_hash)`.
unfoldable pub verify_stored : List PackageDir → LockedPackage → String → Result Fault Done
unfolding get load_at
verify_stored dirs p expected_hash = do
  found ← map_err store_fault (get dirs p.id p.version)
  stored ← elim found [ none ↦ err (missing p.id p.version) | some stored ↦ ok stored ]
  guard (stored.content_hash == expected_hash)
      (hash_mismatch p.id p.version expected_hash stored.content_hash)
  m ← map_err package_fault (load_at dirs stored.path)
  guard (same_map m.dependencies p.dependencies) (dependency_mismatch p.id p.version)

unfoldable pub verify_package :
    List PackageDir → Bool → LockRoot → LockedPackage → Result Fault Done
unfolding verify_stored
verify_package dirs require_root root p = elim p.content_hash [
  | some expected_hash ↦ verify_stored dirs p expected_hash
  | none ↦
      if is_root root p && not require_root
      then ok tt
      else err (invalid_lockfile (hash_missing p.id p.version))
]

unfoldable pub verify_packages :
    List PackageDir → Bool → LockRoot → List LockedPackage → Result Fault Done
unfolding verify_package
verify_packages dirs require_root root [] = ok tt
verify_packages dirs require_root root (p ∷ ps) = do
  verify_package dirs require_root root p
  verify_packages dirs require_root root ps

-- `verify_lockfile` (without the flag) and `verify_lockfile_ready` (with it).
unfoldable pub verify_lockfile_inner : Lockfile → List PackageDir → Bool → Result Fault Done
unfolding validate verify_packages
verify_lockfile_inner lock dirs require_root = do
  validate lock
  verify_packages dirs require_root lock.root lock.packages
