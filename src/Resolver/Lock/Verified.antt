-- ===== src/Resolver/Lock/Verified.antt =====
-- What a lockfile that is verified says of the store.
use lar.Base.{
  String, Bool, true, false, Option, none, some, List, [], ◌∷◌, ◌==◌, ◌≡◌, ◌⊎◌, ◌↔◌, refl, ap, ◌∙◌,
  arith, Result, ok, err, guard-eq-ok, >>=-eq-ok, map_err-ok, map_err, All, Option-cases, inl, inr,
  eq_iff,
}
use lar.Base.Map.{same_map_iff}
use lar.Package.Manifest.{PackageManifest}
use lar.Store.World.{PackageDir, StoredPackage}
use lar.Store.Read.{get, load_at}
use lar.Resolver.Locked.{LockRoot, LockedPackage, Lockfile}
use lar.Resolver.Lock.{
  Fault, missing, store_fault, package_fault, is_root, verify_stored, verify_package,
  verify_packages, verify_lockfile_inner, validate,
}
use lar.Resolver.Lock.Valid.{IsLockfile, validate_iff}

-- The store holds the package under its id and version, with the locked hash, and the manifest
-- there declares the locked dependencies.
pub record IsStored (dirs : List PackageDir) (p : LockedPackage) (hash : String) : Type 0 where
  pub stored : StoredPackage
  pub found : get dirs p.id p.version ≡ ok (some stored)
  pub same_hash : stored.content_hash ≡ hash
  pub manifest : PackageManifest
  pub loaded : load_at dirs stored.path ≡ ok manifest
  pub same_dependencies : manifest.dependencies ≡ p.dependencies

abbrev pub IsVerified : List PackageDir → Bool → LockRoot → LockedPackage → Type 0
IsVerified dirs require_root root p =
    ((hash : String) × (p.content_hash ≡ some hash) × IsStored dirs p hash)
    ⊎ ((p.content_hash ≡ none) × (is_root root p ≡ true) × (require_root ≡ false))

abbrev present : LockedPackage → Option StoredPackage → Result Fault StoredPackage
present p found = elim found [ none ↦ err (missing p.id p.version) | some stored ↦ ok stored ]

present-ok :
    (p : LockedPackage) (o : Option StoredPackage) {s : StoredPackage}
    → present p o ≡ ok s
    → o ≡ some s
present-ok p none h = cc
present-ok p (some t) h = cc

IsStored-sound :
    (dirs : List PackageDir) (p : LockedPackage) (hash : String)
    → verify_stored dirs p hash ≡ ok tt
    → IsStored dirs p hash
unfolding verify_stored
IsStored-sound dirs p hash h =
    let (found, a, h1) = >>=-eq-ok (map_err store_fault (get dirs p.id p.version)) _ h in
    let (stored, b, h2) = >>=-eq-ok (present p found) _ h1 in
    let (c, h3) = guard-eq-ok (stored.content_hash == hash) _ _ h2 in
    let (m, d, h4) = >>=-eq-ok (map_err package_fault (load_at dirs stored.path)) _ h3 in
    record {
      stored = stored;
      found = map_err-ok store_fault (get dirs p.id p.version) a ∙ ap ok (present-ok p found b);
      same_hash = (eq_iff stored.content_hash hash).0 c;
      manifest = m;
      loaded = map_err-ok package_fault (load_at dirs stored.path) d;
      same_dependencies = (same_map_iff m.dependencies p.dependencies).0 (ground arith);
    }

stored_complete :
    (dirs : List PackageDir) (p : LockedPackage) (hash : String)
    → IsStored dirs p hash
    → verify_stored dirs p hash ≡ ok tt
unfolding verify_stored
stored_complete dirs p hash v = rw (
  verify_stored,
  v.found,
  (eq_iff v.stored.content_hash hash).1 v.same_hash,
  v.loaded,
  (same_map_iff v.manifest.dependencies p.dependencies).1 v.same_dependencies,
)

package_sound :
    (dirs : List PackageDir) (require_root : Bool) (root : LockRoot) (p : LockedPackage)
    → verify_package dirs require_root root p ≡ ok tt
    → IsVerified dirs require_root root p
unfolding verify_package
package_sound dirs require_root root p h = elim (Option-cases p.content_hash) [
  | inr (hash, e) ↦
      let inside : verify_stored dirs p hash ≡ ok tt = ground arith in
      inl (hash, e, IsStored-sound dirs p hash inside)
  | inl e ↦ inr (e, ground arith, ground arith)
]

package_complete :
    (dirs : List PackageDir) (require_root : Bool) (root : LockRoot) (p : LockedPackage)
    → IsVerified dirs require_root root p
    → verify_package dirs require_root root p ≡ ok tt
unfolding verify_package
package_complete dirs require_root root p (inl (hash, e, v)) =
    let done = stored_complete dirs p hash v in ground arith
package_complete dirs require_root root p (inr (e, at_root, free)) = ground arith

packages_iff :
    (dirs : List PackageDir) (require_root : Bool) (root : LockRoot) (ps : List LockedPackage)
    → (verify_packages dirs require_root root ps ≡ ok tt)
      ↔ All (IsVerified dirs require_root root) ps
unfolding verify_packages
packages_iff dirs require_root root [] = (λ _. tt, λ _. refl)
packages_iff dirs require_root root (p ∷ ps) =
    let rest = packages_iff dirs require_root root ps in
    (
      λ h.
          let (_, a, k) = >>=-eq-ok (verify_package dirs require_root root p) _ h in
          (package_sound dirs require_root root p a, rest.0 k),
      λ (a, k). rw (package_complete dirs require_root root p a) (rest.1 k),
    )

-- A lockfile is verified against a store exactly when it is a valid lockfile and each of its
-- packages either is stored with the locked hash and dependencies, or is a root without a hash where
-- the root need not be stored.
pub verify_lockfile_inner_iff :
    (lock : Lockfile) (dirs : List PackageDir) (require_root : Bool)
    → (verify_lockfile_inner lock dirs require_root ≡ ok tt)
      ↔ (IsLockfile lock × All (IsVerified dirs require_root lock.root) lock.packages)
unfolding verify_lockfile_inner
verify_lockfile_inner_iff lock dirs require_root =
    let valid = validate_iff lock in
    let inside = packages_iff dirs require_root lock.root lock.packages in
    (
      λ h. let (_, a, k) = >>=-eq-ok (validate lock) _ h in (valid.0 a, inside.0 k),
      λ (a, k). rw (valid.1 a) (inside.1 k),
    )
