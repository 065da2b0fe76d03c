-- ===== src/Manager/Root.antt =====
-- The application root of crates/lar-manager/src/ops.rs: `ensure_root` and what it looks up.
pub mod Laws
use lar.Base.{
  String, Bool, true, false, Option, none, some, List, [], ◌∷◌, ◌++◌, ◌==◌, filter, map, Result,
  Done, ok, err, guard, ok_or, map_err, ◌>>=◌, ◌>>◌, if◌then◌else◌,
}
use lar.Store.World as Store
use lar.Store.World.{PackageDir, World, StoredPackage, already_exists}
use lar.Store.Pins.{sort_dedup}
use lar.Store.Read as Read
use lar.Store.Read.{get}
use lar.Store.Change.{add}
use lar.Repo.Error as Repo
use lar.Repo.Sources.{SourceEntry, SourcesFile, load_sources, ordered_sources}
use lar.Repo.Trust.{Crypto}
use lar.Repo.Index.{IndexPackage}
use lar.Repo.Advisories.{Digest}
use lar.Repo.Fetch.{Archive, Network, read_index, collect_warnings_for_pin}
use lar.Repo.Fetch.Into.{fetch_into_store}
use lar.Manager.Source.{InstallSource, archive, store}
use lar.Manager.Home.{
  Fault, not_in_store, ambiguous_version, hash_mismatch, package_fault, store_fault, repo_fault,
  Home, world, with_world,
}
use lar.Manager.Action.{Action}
use lar.Manager.Parts.{Parts}

-- The error of a fetch.
unfoldable pub fetch_fault : Repo.Error → Fault
fetch_fault (Repo.package_not_found id version) = not_in_store id version
fetch_fault e = repo_fault e

abbrev pub has_id : String → StoredPackage → Bool
has_id id p = p.id == id

abbrev pub index_versions : String → List IndexPackage → List String
index_versions id pkgs = map (λ p. p.version) (filter (λ p. p.id == id) pkgs)

-- What `store.add` answers, with the case of a package that is there already.
unfoldable pub settle_root :
    Result Store.Fault StoredPackage → List PackageDir → Archive → Result Fault StoredPackage
unfolding get
settle_root (ok stored) dirs a = ok stored
settle_root (err (already_exists id version)) dirs a = do
  archived ← map_err package_fault a.inspected
  found ← map_err store_fault (get dirs id version)
  stored ← ok_or found (not_in_store id version)
  guard (archived == stored.content_hash) (hash_mismatch id version archived stored.content_hash)
  ok stored
settle_root (err e) dirs a = err (store_fault e)

module _ (crypto : Crypto) (digest : Digest) (net : Network) where
  -- The loop over the sources: one that cannot be read is left out.
  unfoldable pub versions_from : String → List SourceEntry → List String
  unfolding read_index filter
  versions_from id [] = []
  versions_from id (src ∷ srcs) =
      let rest = versions_from id srcs in
      elim (net.parse_uri src.uri) [
        | err e ↦ rest
        | ok base ↦ elim (read_index crypto digest net base) [
          | err e ↦ rest
          | ok index ↦ index_versions id index.packages ++ rest
        ]
      ]

  -- The versions of a package in the sources, each once, in order.
  unfoldable pub apps_versions_for : Option SourcesFile → String → Result Fault (List String)
  unfolding versions_from load_sources ordered_sources sort_dedup
  apps_versions_for sources_toml id = do
    sources ← map_err (λ e. repo_fault (Repo.sources_fault e)) (load_sources sources_toml)
    ok (sort_dedup (versions_from id (ordered_sources sources)))

  module _ {Desk : Type 0} (parts : Parts Desk) where
    -- A package that is in the store, with the warnings of the sources for it.
    unfoldable pub store_hit : StoredPackage → Action Desk StoredPackage
    unfolding collect_warnings_for_pin
    store_hit stored h = (
      (do
        warnings ← map_err repo_fault (
            collect_warnings_for_pin crypto digest net h.sources_toml h.trust_toml stored.id
              stored.version (some stored.content_hash))
        ok stored),
      h,
    )

    -- `lookup_store_root` of a version.
    unfoldable pub lookup_version : String → String → Action Desk StoredPackage
    unfolding get collect_warnings_for_pin fetch_into_store fetch_fault world with_world
    lookup_version id version h = elim (map_err store_fault (get h.dirs id version)) [
      | err e ↦ (err e, h)
      | ok (some stored) ↦ (
        (do
          warnings ← map_err repo_fault (
              collect_warnings_for_pin crypto digest net h.sources_toml h.trust_toml id version
                (some stored.content_hash))
          ok stored),
        h,
      )
      | ok none ↦
          let (r, w) =
            fetch_into_store crypto digest net (world h) h.sources_toml h.trust_toml id version in
          (map_err fetch_fault r, with_world h w)
    ]

    -- What is done with the versions that the sources have.
    unfoldable pub choose_found : String → List String → Action Desk StoredPackage
    unfolding lookup_version
    choose_found id [] h = (err (not_in_store id "*"), h)
    choose_found id (v ∷ []) h = lookup_version id v h
    choose_found id (v ∷ w ∷ vs) h = (err (ambiguous_version id (v ∷ w ∷ vs)), h)

    -- What is done with the versions that the store has.
    unfoldable pub choose_stored : String → List StoredPackage → Action Desk StoredPackage
    unfolding apps_versions_for choose_found store_hit
    choose_stored id [] h = elim (apps_versions_for h.sources_toml id) [
      | err e ↦ (err e, h)
      | ok versions ↦ choose_found id versions h
    ]
    choose_stored id (p ∷ []) h = store_hit p h
    choose_stored id (p ∷ q ∷ ps) h =
        (err (ambiguous_version id (map (λ r. r.version) (p ∷ q ∷ ps))), h)

    unfoldable pub lookup_store_root : String → Option String → Action Desk StoredPackage
    unfolding lookup_version choose_stored filter
    lookup_store_root id (some version) h = lookup_version id version h
    lookup_store_root id none h = elim (map_err store_fault (Read.list h.dirs)) [
      | err e ↦ (err e, h)
      | ok packages ↦ choose_stored id (filter (has_id id) packages) h
    ]

    unfoldable pub ensure_root : InstallSource → Action Desk StoredPackage
    unfolding add settle_root lookup_store_root world with_world
    ensure_root (archive path) h =
        let a = parts.archive_at path in
        let (r, w) = add (world h) a.extracted in (settle_root r w.dirs a, with_world h w)
    ensure_root (store id version) h = lookup_store_root id version h
