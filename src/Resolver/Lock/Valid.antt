-- ===== src/Resolver/Lock/Valid.antt =====
-- The lockfiles that `validate` accepts.
use lar.Base.{
  String, Bool, true, false, not, ◌||◌, some, List, [], ◌∷◌, ◌==◌, ◌≡◌, ◌↔◌, refl, arith, nat_eq,
  any, any_of_mem, any_witness, not_any_of_mem, Result, Done, ok, guard-eq-ok, >>=-eq-ok,
  if◌then◌else◌, All, Memᴰ, Bool-cases, inl, inr,
}
use lar.Base.Hash.{is_content_hash, is_content_hash_iff, IsContentHash}
use lar.Resolver.Locked.{LockRoot, LockedPackage, Lockfile}
use lar.Resolver.Lock.{
  lockfile_format, Fault, is_package, is_root, check_hash, validate_packages, validate,
}

-- A package of a lockfile: named, and with a content hash unless it is the root.
pub record IsLocked (root : LockRoot) (p : LockedPackage) : Type 0 where
  pub has_id : (p.id == "") ≡ false
  pub has_version : (p.version == "") ≡ false
  pub hash :
      is_root root p ≡ false → (hash : String) × (p.content_hash ≡ some hash) × IsContentHash hash

-- No two packages of one id and version.
abbrev pub AreUnique : List LockedPackage → List LockedPackage → Type 0
AreUnique seen [] = Unit
AreUnique seen (p ∷ ps) =
    ((q : LockedPackage) → Memᴰ q seen → is_package p.id p.version q ≡ false)
    × AreUnique (p ∷ seen) ps

pub record IsLockfile (lock : Lockfile) : Type 0 where
  pub format : lock.format ≡ 1
  pub root_id : (lock.root.id == "") ≡ false
  pub root_version : (lock.root.version == "") ≡ false
  pub packages : All (IsLocked lock.root) lock.packages
  pub unique : AreUnique [] lock.packages
  pub root : (p : LockedPackage) × Memᴰ p lock.packages × (is_root lock.root p ≡ true)

hash_sound :
    (p : LockedPackage)
    → check_hash p ≡ ok tt
    → (hash : String) × (p.content_hash ≡ some hash) × IsContentHash hash
unfolding check_hash
hash_sound p h = let (hash, e, t) = found in (hash, e, (is_content_hash_iff hash).0 t)
  where
    found : (hash : String) × (p.content_hash ≡ some hash) × (is_content_hash hash ≡ true)
    found = ground arith

hash_complete :
    (p : LockedPackage) (hash : String)
    → p.content_hash ≡ some hash
    → IsContentHash hash
    → check_hash p ≡ ok tt
unfolding check_hash
hash_complete p hash e v = ground (arith, (is_content_hash_iff hash).1 v)

-- No element passes the test.
none_passes :
    {A : Type 0} (p : A → Bool) (xs : List A)
    → ((x : A) → Memᴰ x xs → p x ≡ false)
    → any p xs ≡ false
none_passes p xs h = elim (Bool-cases (any p xs)) [
  | inr e ↦ e
  | inl e ↦ let (x, m, t) = any_witness p xs e in cc (t, h x m)
]

packages_iff :
    (root : LockRoot) (seen ps : List LockedPackage)
    → (validate_packages root seen ps ≡ ok tt) ↔ (All (IsLocked root) ps × AreUnique seen ps)
unfolding validate_packages
packages_iff root seen [] = (λ _. (tt, tt), λ _. refl)
packages_iff root seen (p ∷ ps) =
    let rest = packages_iff root (p ∷ seen) ps in
    let hash_step : Result Fault Done = if is_root root p then ok tt else check_hash p in
    (
      λ h.
          let (named, h1) = guard-eq-ok (not (p.id == "" || p.version == "")) _ _ h in
          let (u, hashed, h2) = >>=-eq-ok hash_step _ h1 in
          let (new, h3) = guard-eq-ok (not (any (is_package p.id p.version) seen)) _ _ h2 in
          let (later, unique) = rest.0 h3 in
          let fresh : any (is_package p.id p.version) seen ≡ false = ground arith in
          (
            (
              record {
                has_id = ground arith;
                has_version = ground arith;
                hash = λ other. hash_sound p (rw other at hashed);
              },
              later,
            ),
            (λ q m. not_any_of_mem (is_package p.id p.version) seen q fresh m, unique),
          ),
      λ ((v, vs), (new, unique)).
          let hashed : hash_step ≡ ok tt = step p v in
          rw (v.has_id, v.has_version, hashed, none_passes (is_package p.id p.version) seen new)
            (rest.1 (vs, unique)),
    )
  where
    step :
        (p : LockedPackage)
        → IsLocked root p
        → (if is_root root p then ok tt else check_hash p) ≡ ok tt
    step p v = elim (Bool-cases (is_root root p)) [
      | inl e ↦ rw e
      | inr e ↦ let (hash, a, b) = v.hash e in rw e (hash_complete p hash a b)
    ]

-- A lockfile passes exactly when its format is 1, its root is named and is among its packages, every
-- package is named and has a content hash unless it is the root, and no id and version occur twice.
pub validate_iff : (lock : Lockfile) → (validate lock ≡ ok tt) ↔ IsLockfile lock
unfolding validate
validate_iff lock =
    let inside = packages_iff lock.root [] lock.packages in
    (
      λ h.
          let (a, h1) = guard-eq-ok (nat_eq lock.format lockfile_format) _ _ h in
          let (b, h2) = guard-eq-ok (not (lock.root.id == "" || lock.root.version == "")) _ _ h1 in
          let (_, c, h3) = >>=-eq-ok (validate_packages lock.root [] lock.packages) _ h2 in
          let (ps, unique) = inside.0 c in
          record {
            format = ground arith;
            root_id = ground arith;
            root_version = ground arith;
            packages = ps;
            unique = unique;
            root = any_witness (is_root lock.root) lock.packages (ground arith);
          },
      λ v.
          let supported : nat_eq lock.format lockfile_format ≡ true = ground (arith, v.format) in
          let (p, m, e) = v.root in
          rw (
            supported,
            v.root_id,
            v.root_version,
            inside.1 (v.packages, v.unique),
            any_of_mem (is_root lock.root) lock.packages p m e,
          ),
    )
