-- ===== src/Resolver/Resolve/Stored.antt =====
-- The packages of a resolved lockfile in the store.
use lar.Base.{
  String, Option, some, List, [], ◌∷◌, ◌≡◌, refl, sym, ◌∙◌, subst, ok, ok-eq, >>=-eq-ok, ◌>>◌,
  Option-cases, Result-cases, inl, inr,
}
use lar.Package.Manifest.{PackageManifest}
use lar.Repo.Advisories.{Digest}
use lar.Repo.Fetch.{Network}
use lar.Repo.Sources.{SourcesFile}
use lar.Repo.Trust.{Crypto, TrustFile}
use lar.Resolver.Cycle.{Outcome, detect_dependency_cycle}
use lar.Resolver.Cycle.Correct.{Reaches, detect-clear_iff}
use lar.Resolver.Lock.{validate}
use lar.Resolver.Lock.Valid.{IsLockfile, validate_iff}
use lar.Resolver.Locked.{LockedPackage, Lockfile}
use lar.Resolver.Requirement.{RangeLib}
use lar.Resolver.Resolve.{
  Solver, check_pin, lock_of, obtain, materialize_pin, materialize, lock_packages, select,
  resolve_manifest,
}
use lar.Semver.{Semver}
use lar.Store.World.{World}
use lar.Resolver.Resolve.Held.{
  some-eq, Grows, IsHeld, AreHeld, IsHeld-Grows, check_pin-IsHeld, obtain-Grows,
}

module _ (crypto : Crypto) (digest : Digest) (net : Network) (sources_toml : Option SourcesFile)
    (trust_toml : Option TrustFile) where
  abbrev Kept : World → LockedPackage → World → Type 0
  Kept w p w' =
      Grows w.dirs w'.dirs × ((hash : String) → p.content_hash ≡ some hash → IsHeld w'.dirs p hash)

  materialize_pin-IsHeld :
      (w : World) (p : LockedPackage)
      → (materialize_pin crypto digest net sources_toml trust_toml w p).0 ≡ ok tt
      → Kept w p (materialize_pin crypto digest net sources_toml trust_toml w p).1
  unfolding materialize_pin
  materialize_pin-IsHeld w p h = elim (Option-cases p.content_hash) [
    | inl e ↦
        let same : (materialize_pin crypto digest net sources_toml trust_toml w p).1 ≡ w =
          rw (materialize_pin, e) refl in
        subst (Kept w p) (sym same) (λ i v d f. f, λ hash f. cc)
    | inr (hash, e) ↦
        let r = obtain crypto digest net sources_toml trust_toml w p.id p.version in
        let (stored, a, k) =
          >>=-eq-ok r.0 (λ s. check_pin r.1.dirs p hash s) (rw (materialize_pin, e) at h) in
        let (grows, found) =
          obtain-Grows crypto digest net sources_toml trust_toml w p.id p.version stored a in
        let same : (materialize_pin crypto digest net sources_toml trust_toml w p).1 ≡ r.1 =
          rw (materialize_pin, e) refl in
        subst (Kept w p) (sym same) (
          grows,
          λ hash' f.
              subst (IsHeld r.1.dirs p) (some-eq (sym e ∙ f))
                (check_pin-IsHeld r.1.dirs p hash stored found k),
        )
  ]

  materialize-AreHeld :
      (w : World) (ps : List LockedPackage)
      → (materialize crypto digest net sources_toml trust_toml w ps).0 ≡ ok tt
      → (let w' = (materialize crypto digest net sources_toml trust_toml w ps).1 in
          Grows w.dirs w'.dirs × AreHeld w'.dirs ps)
  unfolding materialize
  materialize-AreHeld w [] h = (λ i v d e. e, tt)
  materialize-AreHeld w (p ∷ ps) h =
      let here = materialize_pin crypto digest net sources_toml trust_toml w p in
      elim (Result-cases here.0) [
        | inr (e, bad) ↦ cc (rw (materialize, bad) at h)
        | inl (_, good) ↦
            let (grows, held) = materialize_pin-IsHeld w p good in
            let (later, rest) = materialize-AreHeld here.1 ps (rw (materialize, good) at h) in
            let same : (materialize crypto digest net sources_toml trust_toml w (p ∷ ps)).1
                ≡ (materialize crypto digest net sources_toml trust_toml here.1 ps).1 =
              rw (materialize, good) refl in
            subst (λ z. Grows w.dirs z.dirs × AreHeld z.dirs (p ∷ ps)) (sym same)
              (
                λ i v d e. later i v d (grows i v d e),
                (
                  λ hash e.
                      IsHeld-Grows here.1.dirs
                        (materialize crypto digest net sources_toml trust_toml here.1 ps).1.dirs p
                        hash later (held hash e),
                  rest,
                ),
              )
      ]

  -- What a successful resolution returns and leaves.
  pub record IsResolved (w : World) (root : PackageManifest) (lock : Lockfile) (w' : World)
      : Type 0 where
    pub valid : IsLockfile lock
    pub root_id : lock.root.id ≡ root.meta.id
    pub root_version : lock.root.version ≡ root.meta.version
    pub acyclic : (u : String) → ¬ Reaches lock.packages u u
    pub held : AreHeld w'.dirs lock.packages
    pub grows : Grows w.dirs w'.dirs

  lock_packages-IsResolved :
      (w : World) (root : PackageManifest) (packages : List LockedPackage) (lock : Lockfile)
      → (lock_packages crypto digest net sources_toml trust_toml w root packages).0 ≡ ok lock
      → IsResolved w root lock
          (lock_packages crypto digest net sources_toml trust_toml w root packages).1
  unfolding lock_packages
  lock_packages-IsResolved w root packages lock h =
      by_outcome (detect_dependency_cycle packages) refl
    where
      by_outcome :
          (o : Outcome)
          → detect_dependency_cycle packages ≡ o
          → IsResolved w root lock
              (lock_packages crypto digest net sources_toml trust_toml w root packages).1
      by_outcome Outcome.out_of_fuel e = cc (rw (lock_packages, e) at h)
      by_outcome (Outcome.cycle id version) e = cc (rw (lock_packages, e) at h)
      by_outcome Outcome.clear e =
          let r = materialize crypto digest net sources_toml trust_toml w packages in
          let (_, a, k) =
            >>=-eq-ok r.0 (λ _. do validate (lock_of root packages); ok (lock_of root packages))
              (rw (lock_packages, e) at h) in
          let (_, b, last) = >>=-eq-ok (validate (lock_of root packages)) _ k in
          let (grows, held) = materialize-AreHeld w packages a in
          rw (lock_packages, e)
            (subst (λ l. IsResolved w root l r.1) (ok-eq last)
              (record {
                valid = (validate_iff (lock_of root packages)).0 b;
                root_id = refl;
                root_version = refl;
                acyclic = (detect-clear_iff packages).0 e;
                held = held;
                grows = grows;
              }))

  module _ (sv : Semver) (lib : RangeLib sv) (solve : Solver sv.Version lib.Ranges) where
    -- Whatever the solver answers, a resolution that succeeds returns a valid lockfile for the id
    -- and the version of the root, in which no chain of dependencies leads from an id back to
    -- itself. In the store that it leaves, every locked content hash is the hash of a stored
    -- package whose manifest declares the locked dependencies, and every directory of the store
    -- before is there unchanged.
    pub resolve_manifest-IsResolved :
        (w : World) (root : PackageManifest) (lock : Lockfile)
        → (resolve_manifest crypto digest net sources_toml trust_toml sv lib solve w root).0
          ≡ ok lock
        → IsResolved w root lock
            (resolve_manifest crypto digest net sources_toml trust_toml sv lib solve w root).1
    unfolding resolve_manifest
    resolve_manifest-IsResolved w root lock h = elim (Option-cases (sv.parse root.meta.version)) [
      | inl e ↦ cc (rw (resolve_manifest, e) at h)
      | inr (root_version, e) ↦
          elim (Result-cases
            (select crypto digest net sources_toml trust_toml sv lib solve w root root_version)) [
              | inr (f, bad) ↦ cc (rw (resolve_manifest, e, bad) at h)
              | inl (packages, good) ↦
                  rw (resolve_manifest, e, good)
                    (lock_packages-IsResolved w root packages lock
                      (rw (resolve_manifest, e, good) at h))
            ]
    ]
