-- ===== src/Repo/Fetch/Delivered.antt =====
-- What `fetch_from_source` does to the store.
use lar.Base.{
  ap₂, Result-cases, ◌≡◌, refl, ap, ◌∙◌, sym, subst, eq_iff, >>=-eq-ok, guard-eq-ok, ok_or-eq-ok,
  map_err-ok, ◌⊎◌, inl, inr, Bool-cases, String, Bool, true, false, Option, none, some, ◌==◌,
  Result, ok, err, ok_or, map_err,
}
use lar.Store.World as Store
use lar.Store.World.{Content, World, StoredPackage, already_exists}
use lar.Store.Read.{get}
use lar.Store.Change.{add}
use lar.Repo.Error.{Error, store_fault, disappeared, other}
use lar.Repo.Sources.{SourceEntry}
use lar.Repo.Trust.{Crypto, TrustFile}
use lar.Repo.Index.{IndexPackage}
use lar.Repo.Advisories.{Digest}
use lar.Repo.Fetch.{Network, locate_verified_pin}
use lar.Repo.Fetch.{Archive, fetch_blob}
use lar.Repo.Fetch.Trusted.{IsTrustedPin, locate_verified_pin-IsTrustedPin}
use lar.Repo.Fetch.Into.{is_miss, settle, store_archive, fetch_from_source}

abbrev pub Fetched : Type 0
Fetched = Result Error StoredPackage × World

-- The store took the archive, or had a package of the archive's own id and version with the hash
-- of the pin.
abbrev pub IsSettled : World → IndexPackage → Archive → StoredPackage → World → Type 0
IsSettled w pkg archive stored w' =
    (add w archive.extracted ≡ (ok stored, w'))
    ⊎ ((id : String) × (version : String) × (get w'.dirs id version ≡ ok (some stored))
        × (stored.content_hash ≡ pkg.content_hash)
        × (w' ≡ (add w archive.extracted).1))

pub ok-stored : {p q : StoredPackage} → ◌≡◌ {A = Result Error StoredPackage} (ok p) (ok q) → p ≡ q
ok-stored h = cc

settle-IsSettled :
    (pkg : IndexPackage) (id version : String) (r : Result Store.Fault StoredPackage × World)
    (stored : StoredPackage) (w' : World)
    → settle pkg id version r ≡ (ok stored, w')
    → (r ≡ (ok stored, w'))
      ⊎ ((i : String) × (v : String) × (get w'.dirs i v ≡ ok (some stored))
          × (stored.content_hash ≡ pkg.content_hash)
          × (w' ≡ r.1))
unfolding settle
settle-IsSettled pkg id version (ok p, w) stored w' h = inl (
    ap₂ (λ (q : StoredPackage) (z : World). (ok q, z)) (ok-stored (ap (λ (r : Fetched). r.0) h))
      (ap (λ (r : Fetched). r.1) h))
settle-IsSettled pkg id version (err (already_exists i v), w) stored w' h =
    let world = ap (λ (r : Fetched). r.1) h in
    let (found, a, h1) =
      >>=-eq-ok (map_err store_fault (get w.dirs i v)) _ (ap (λ (r : Fetched). r.0) h) in
    let (s, b, h2) = >>=-eq-ok (ok_or found (other (disappeared i v))) _ h1 in
    let (c, h3) = guard-eq-ok (s.content_hash == pkg.content_hash) _ _ h2 in
    let same = ok-stored h3 in
    let got : get w.dirs i v ≡ ok (some s) =
      map_err-ok store_fault (get w.dirs i v) a ∙ ap ok (ok_or-eq-ok found _ b) in
    let hash : s.content_hash ≡ pkg.content_hash = (eq_iff s.content_hash pkg.content_hash).0 c in
    inr (
      i,
      v,
      subst (λ z. get z.dirs i v ≡ ok (some stored)) world
          (subst (λ z. get w.dirs i v ≡ ok (some z)) same got),
      subst (λ z. z.content_hash ≡ pkg.content_hash) same hash,
      sym world,
    )
settle-IsSettled pkg id version (err (Store.not_found i v), w) stored w' h =
    cc (ap (λ (r : Fetched). r.0) h)
settle-IsSettled pkg id version (err (Store.in_use i v ds), w) stored w' h =
    cc (ap (λ (r : Fetched). r.0) h)
settle-IsSettled pkg id version (err (Store.package_fault e), w) stored w' h =
    cc (ap (λ (r : Fetched). r.0) h)
settle-IsSettled pkg id version (err (Store.missing_hash i v), w) stored w' h =
    cc (ap (λ (r : Fetched). r.0) h)
settle-IsSettled pkg id version (err Store.exhausted, w) stored w' h =
    cc (ap (λ (r : Fetched). r.0) h)

pub fetched_cases :
    (r : Fetched) → ((p : StoredPackage) × (r ≡ (ok p, r.1))) ⊎ ((e : Error) × (r ≡ (err e, r.1)))
fetched_cases (ok p, w) = inl (p, refl)
fetched_cases (err e, w) = inr (e, refl)

abbrev pub missed : Fetched → Bool
missed (ok p, w) = false
missed (err e, w) = is_miss e

-- What the store answers is never that a package is not found in the sources.
settle-missed :
    (pkg : IndexPackage) (id version : String) (r : Result Store.Fault StoredPackage × World)
    → missed (settle pkg id version r) ≡ false
unfolding settle is_miss
settle-missed pkg id version (ok p, w) = refl
settle-missed pkg id version (err (Store.not_found i v), w) = refl
settle-missed pkg id version (err (Store.in_use i v ds), w) = refl
settle-missed pkg id version (err (Store.package_fault e), w) = refl
settle-missed pkg id version (err (Store.missing_hash i v), w) = refl
settle-missed pkg id version (err Store.exhausted, w) = refl
settle-missed pkg id version (err (already_exists i v), w) = elim (Result-cases (get w.dirs i v)) [
  | inr (e, bad) ↦ rw bad refl
  | inl (none, good) ↦ rw good refl
  | inl (some s, good) ↦ elim (Bool-cases (s.content_hash == pkg.content_hash)) [
    | inl same ↦ rw (good, same) refl
    | inr differs ↦ rw (good, differs) refl
  ]
]

module _ (crypto : Crypto) (digest : Digest) (net : Network) where
  -- A package that a source delivered: its pin is trusted, and the archive has the hash of the pin.
  pub record IsFetchedFrom (w : World) (trust_toml : Option TrustFile) (src : SourceEntry)
      (id version : String) (stored : StoredPackage) (w' : World) : Type 0 where
    pub base : net.SourceBase
    pub pkg : IndexPackage
    pub pin : IsTrustedPin crypto digest net trust_toml src id version base pkg
    pub archive : Archive
    pub archive_is : fetch_blob crypto digest net base pkg.file ≡ ok archive
    pub same_hash : archive.inspected ≡ ok pkg.content_hash
    pub settled : IsSettled w pkg archive stored w'

  store_archive-IsSettled :
      (w : World) (pkg : IndexPackage) (id version : String) (archive : Archive)
      (stored : StoredPackage) (w' : World)
      → store_archive w pkg id version archive ≡ (ok stored, w')
      → (archive.inspected ≡ ok pkg.content_hash) × IsSettled w pkg archive stored w'
  unfolding store_archive
  store_archive-IsSettled w pkg id version archive stored w' h =
      elim (Result-cases archive.inspected) [
        | inr (e, bad) ↦ cc (ap (λ (r : Fetched). r.0) (rw (store_archive, bad) at h))
        | inl (hash, good) ↦ elim (Bool-cases (hash == pkg.content_hash)) [
          | inr differs ↦ cc (ap (λ (r : Fetched). r.0) (rw (store_archive, good, differs) at h))
          | inl same ↦ (
            good ∙ ap ok ((eq_iff hash pkg.content_hash).0 same),
            settle-IsSettled pkg id version (add w archive.extracted) stored w'
                (rw (store_archive, good, same) at h),
          )
        ]
      ]

  pub fetch_from_source-IsFetchedFrom :
      (w : World) (trust_toml : Option TrustFile) (src : SourceEntry) (id version : String)
      (stored : StoredPackage) (w' : World)
      → fetch_from_source crypto digest net w trust_toml src id version ≡ (ok stored, w')
      → IsFetchedFrom w trust_toml src id version stored w'
  unfolding fetch_from_source
  fetch_from_source-IsFetchedFrom w trust_toml src id version stored w' h =
      elim (Result-cases (locate_verified_pin crypto digest net trust_toml src id version)) [
        | inr (e, bad) ↦ cc (ap (λ (r : Fetched). r.0) (rw (fetch_from_source, bad) at h))
        | inl ((base, pkg), located) ↦
            elim (Result-cases (fetch_blob crypto digest net base pkg.file)) [
              | inr (e, bad) ↦
                  cc (ap (λ (r : Fetched). r.0) (rw (fetch_from_source, located, bad) at h))
              | inl (archive, good) ↦
                  let (same, settled) =
                    store_archive-IsSettled w pkg id version archive stored w'
                      (rw (fetch_from_source, located, good) at h) in
                  record {
                    base = base;
                    pkg = pkg;
                    pin =
                        locate_verified_pin-IsTrustedPin crypto digest net trust_toml src id version
                          base pkg located;
                    archive = archive;
                    archive_is = good;
                    same_hash = same;
                    settled = settled;
                  }
            ]
      ]

  -- Where a source misses the package, the store is as before.
  store_archive-missed :
      (w : World) (pkg : IndexPackage) (id version : String) (archive : Archive)
      → missed (store_archive w pkg id version archive) ≡ false
  unfolding store_archive is_miss
  store_archive-missed w pkg id version archive = elim (Result-cases archive.inspected) [
    | inr (e, bad) ↦ rw (store_archive, bad) refl
    | inl (hash, good) ↦ elim (Bool-cases (hash == pkg.content_hash)) [
      | inr differs ↦ rw (store_archive, good, differs) refl
      | inl same ↦
          rw (store_archive, good, same) (settle-missed pkg id version (add w archive.extracted))
    ]
  ]

  pub fetch_from_source-missed :
      (w : World) (trust_toml : Option TrustFile) (src : SourceEntry) (id version : String)
      → missed (fetch_from_source crypto digest net w trust_toml src id version) ≡ true
      → (fetch_from_source crypto digest net w trust_toml src id version).1 ≡ w
  unfolding fetch_from_source
  fetch_from_source-missed w trust_toml src id version h =
      elim (Result-cases (locate_verified_pin crypto digest net trust_toml src id version)) [
        | inr (e, bad) ↦ rw (fetch_from_source, bad) refl
        | inl ((base, pkg), located) ↦
            elim (Result-cases (fetch_blob crypto digest net base pkg.file)) [
              | inr (e, bad) ↦ rw (fetch_from_source, located, bad) refl
              | inl (archive, good) ↦ cc (
                rw (fetch_from_source, located, good) at h,
                store_archive-missed w pkg id version archive,
              )
            ]
      ]
