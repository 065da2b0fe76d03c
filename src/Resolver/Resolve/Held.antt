-- ===== src/Resolver/Resolve/Held.antt =====
-- What a stored package keeps while the store grows, and what `materialize` demands of it.
use lar.Base.{
  String, ◌&&◌, Option, none, some, List, ◌==◌, ◌≡◌, &&-eq-true, arith, ap, sym, ◌∙◌, subst, Result,
  ok, ok-eq, map_err, map_err-ok, >>=-eq-ok, guard-eq-ok, All, Option-cases, Result-cases,
  Bool-cases, inl, inr, eq_iff,
}
use lar.Base.Map.{same_map_iff}
use lar.Package.Error
use lar.Package.Manifest.{PackageManifest}
use lar.Repo.Advisories.{Digest}
use lar.Repo.Error as Repo
use lar.Repo.Fetch.{Network, collect_warnings_for_pin}
use lar.Repo.Fetch.Into.{fetch_into_store}
use lar.Repo.Fetch.First.{fetch_into_store-IsFirst}
use lar.Repo.Sources.{SourcesFile}
use lar.Repo.Trust.{Crypto, TrustFile}
use lar.Resolver.Lock.{repo_fault, package_fault}
use lar.Resolver.Locked.{LockedPackage}
use lar.Resolver.Resolve.{fetch_fault, check_pin, obtain}
use lar.Store.Change.{add}
use lar.Store.Change.Added.{add-IsAdded, add_fails}
use lar.Store.Read.{get, load_at}
use lar.Store.World as Store
use lar.Store.World.{Content, PackageDir, StoredPackage, World, find_dir}

pub some-eq : {A : Type 0} {a b : A} → some a ≡ some b → a ≡ b
some-eq h = cc

-- Every directory of a package stays.
abbrev pub Grows : List PackageDir → List PackageDir → Type 0
Grows dirs dirs' =
    (i v : String) (d : PackageDir) → find_dir dirs i v ≡ some d → find_dir dirs' i v ≡ some d

add-Grows :
    (w : World) (extracted : Result Error.Error Content) → Grows w.dirs (add w extracted).1.dirs
add-Grows w extracted i v d h = elim (Result-cases (add w extracted).0) [
  | inr (e, bad) ↦ ap (λ ds. find_dir ds i v) (add_fails w extracted e bad) ∙ h
  | inl (p, good) ↦
      let added = add-IsAdded w extracted p good in
      elim (Bool-cases (p.id == i && p.version == v)) [
        | inr apart ↦ added.others i v apart ∙ h
        | inl same ↦
            let (a, b) = &&-eq-true (p.id == i) (p.version == v) same in
            let free =
              subst (λ z. find_dir w.dirs p.id z ≡ none) ((eq_iff p.version v).0 b)
                added.was_free in
            cc (h, subst (λ z. find_dir w.dirs z v ≡ none) ((eq_iff p.id i).0 a) free)
      ]
]

pub get-Grows :
    (dirs dirs' : List PackageDir) (i v : String) (p : StoredPackage)
    → Grows dirs dirs'
    → get dirs i v ≡ ok (some p)
    → get dirs' i v ≡ ok (some p)
unfolding get
get-Grows dirs dirs' i v p grows h = elim (Option-cases (find_dir dirs i v)) [
  | inl e ↦ cc (rw (get, e) at h)
  | inr (d, e) ↦ rw (get, grows i v d e) (rw (get, e) at h)
]

load_at-Grows :
    (dirs dirs' : List PackageDir) (path : String × String) (m : PackageManifest)
    → Grows dirs dirs'
    → load_at dirs path ≡ ok m
    → load_at dirs' path ≡ ok m
unfolding load_at
load_at-Grows dirs dirs' (i, v) m grows h = elim (Option-cases (find_dir dirs i v)) [
  | inl e ↦ cc (rw (load_at, e) at h)
  | inr (d, e) ↦ rw (load_at, grows i v d e) (rw (load_at, e) at h)
]

-- A stored package has the locked hash, and its manifest there declares the locked dependencies.
pub record IsHeld (dirs : List PackageDir) (p : LockedPackage) (hash : String) : Type 0 where
  pub id : String
  pub version : String
  pub stored : StoredPackage
  pub found : get dirs id version ≡ ok (some stored)
  pub same_hash : stored.content_hash ≡ hash
  pub manifest : PackageManifest
  pub loaded : load_at dirs stored.path ≡ ok manifest
  pub same_dependencies : manifest.dependencies ≡ p.dependencies

abbrev pub AreHeld : List PackageDir → List LockedPackage → Type 0
AreHeld dirs = All (λ p. (hash : String) → p.content_hash ≡ some hash → IsHeld dirs p hash)

pub IsHeld-Grows :
    (dirs dirs' : List PackageDir) (p : LockedPackage) (hash : String)
    → Grows dirs dirs'
    → IsHeld dirs p hash
    → IsHeld dirs' p hash
IsHeld-Grows dirs dirs' p hash grows held = record {
  id = held.id;
  version = held.version;
  stored = held.stored;
  same_hash = held.same_hash;
  manifest = held.manifest;
  same_dependencies = held.same_dependencies;
  found = get-Grows dirs dirs' held.id held.version held.stored grows held.found;
  loaded = load_at-Grows dirs dirs' held.stored.path held.manifest grows held.loaded;
}

abbrev Added : Type 0
Added = Result Store.Fault StoredPackage × World

abbrev Fetched : Type 0
Fetched = Result Repo.Error StoredPackage × World

-- The package is somewhere in the store.
abbrev pub IsFound : List PackageDir → StoredPackage → Type 0
IsFound dirs stored = (i : String) × (v : String) × (get dirs i v ≡ ok (some stored))

pub check_pin-IsHeld :
    (dirs : List PackageDir) (p : LockedPackage) (hash : String) (stored : StoredPackage)
    → IsFound dirs stored
    → check_pin dirs p hash stored ≡ ok tt
    → IsHeld dirs p hash
unfolding check_pin
check_pin-IsHeld dirs p hash stored (i, v, found) h =
    let (a, h1) = guard-eq-ok (stored.content_hash == hash) _ _ h in
    let (m, b, h2) = >>=-eq-ok (map_err package_fault (load_at dirs stored.path)) _ h1 in
    record {
      id = i;
      version = v;
      stored = stored;
      found = found;
      same_hash = (eq_iff stored.content_hash hash).0 a;
      manifest = m;
      loaded = map_err-ok package_fault (load_at dirs stored.path) b;
      same_dependencies = (same_map_iff m.dependencies p.dependencies).0 (ground (arith, h2));
    }

module _ (crypto : Crypto) (digest : Digest) (net : Network) (sources_toml : Option SourcesFile)
    (trust_toml : Option TrustFile) where
  fetch_into_store-Grows :
      (w : World) (id version : String) (stored : StoredPackage) (w' : World)
      → fetch_into_store crypto digest net w sources_toml trust_toml id version ≡ (ok stored, w')
      → Grows w.dirs w'.dirs × IsFound w'.dirs stored
  fetch_into_store-Grows w id version stored w' h =
      elim (fetch_into_store-IsFirst crypto digest net w sources_toml trust_toml id version stored
        w' h) [
          | inl (there, same) ↦
              subst (λ z. Grows w.dirs z.dirs × IsFound z.dirs stored) (sym same)
                (λ i v d e. e, (id, version, there))
          | inr (_, (_, _, first)) ↦ elim first.fetched.settled [
            | inl e ↦
                subst (λ r. Grows w.dirs (r.1).dirs × IsFound (r.1).dirs stored) e
                  (
                    add-Grows w first.fetched.archive.extracted,
                    let added =
                          add-IsAdded w first.fetched.archive.extracted stored
                            (ap (λ (r : Added). r.0) e) in
                        (stored.id, stored.version, added.stored),
                  )
            | inr (i, v, found, _, same) ↦ (
              subst (λ z. Grows w.dirs z.dirs) (sym same)
                  (add-Grows w first.fetched.archive.extracted),
              (i, v, found),
            )
          ]
        ]

  pub obtain-Grows :
      (w : World) (id version : String) (stored : StoredPackage)
      → (obtain crypto digest net sources_toml trust_toml w id version).0 ≡ ok stored
      → (let w' = (obtain crypto digest net sources_toml trust_toml w id version).1 in
          Grows w.dirs w'.dirs × IsFound w'.dirs stored)
  unfolding obtain
  obtain-Grows w id version stored h = elim (Result-cases (get w.dirs id version)) [
    | inr (e, bad) ↦ cc (rw (obtain, bad) at h)
    | inl (some existing, there) ↦
        let (_, _, last) =
          >>=-eq-ok
            (map_err repo_fault (
              collect_warnings_for_pin crypto digest net sources_toml trust_toml id version
                (some existing.content_hash)))
            _ (rw (obtain, there) at h) in
        rw (obtain, there) (λ i v d e. e, (id, version, there ∙ ap (λ z. ok (some z)) (ok-eq last)))
    | inl (none, absent) ↦
        let r = fetch_into_store crypto digest net w sources_toml trust_toml id version in
        let good : r.0 ≡ ok stored = map_err-ok fetch_fault r.0 (rw (obtain, absent) at h) in
        rw (obtain, absent)
          (fetch_into_store-Grows w id version stored r.1 (ap (λ z. (z, r.1)) good))
  ]
