-- ===== src/Repo/Fetch/Into.antt =====
-- The store's side of crates/lar-repo/src/fetch.rs: `fetch_from_source` and `fetch_into_store`.
use lar.Base.{
  String, Bool, true, false, Option, none, some, List, [], ◌∷◌, ◌==◌, Result, ok, err, guard, ok_or,
  map_err, ◌>>=◌, ◌>>◌, if◌then◌else◌,
}
use lar.Store.World as Store
use lar.Store.World.{Content, World, StoredPackage, already_exists}
use lar.Store.Read.{get}
use lar.Store.Change.{add}
use lar.Repo.Error.{
  Error, package_not_found, hash_mismatch, sources_fault, package_fault, store_fault, disappeared,
  other,
}
use lar.Repo.Sources.{SourceEntry, SourcesFile, load_sources, ordered_sources}
use lar.Repo.Trust.{Crypto, TrustFile}
use lar.Repo.Index.{IndexPackage}
use lar.Repo.Advisories.{Digest}
use lar.Repo.Fetch.{Archive, Network, locate_verified_pin, fetch_blob, collect_warnings_for_pin}

-- What `store.add` answers, with the case of a package that is there already.
unfoldable pub settle :
    IndexPackage
    → String
    → String
    → Result Store.Fault StoredPackage × World
    → Result Error StoredPackage × World
unfolding get
settle pkg id version (ok stored, w) = (ok stored, w)
settle pkg id version (err (already_exists eid ever), w) = (
  (do
    found ← map_err store_fault (get w.dirs eid ever)
    stored ← ok_or found (other (disappeared eid ever))
    guard (stored.content_hash == pkg.content_hash)
        (hash_mismatch id version pkg.content_hash stored.content_hash)
    ok stored),
  w,
)
settle pkg id version (err e, w) = (err (store_fault e), w)

unfoldable pub store_archive :
    World → IndexPackage → String → String → Archive → Result Error StoredPackage × World
unfolding settle add
store_archive w pkg id version archive = elim archive.inspected [
  | err e ↦ (err (package_fault e), w)
  | ok archive_hash ↦
      if archive_hash == pkg.content_hash
      then settle pkg id version (add w archive.extracted)
      else (err (hash_mismatch id version pkg.content_hash archive_hash), w)
]

-- A source and its outcome: the next one is asked only where the package is not found.
unfoldable pub is_miss : Error → Bool
is_miss (package_not_found id version) = true
is_miss _ = false

module _ (crypto : Crypto) (digest : Digest) (net : Network) where
  unfoldable pub fetch_from_source :
      World → Option TrustFile → SourceEntry → String → String → Result Error StoredPackage × World
  unfolding locate_verified_pin fetch_blob store_archive
  fetch_from_source w trust_toml src id version =
      elim (locate_verified_pin crypto digest net trust_toml src id version) [
        | err e ↦ (err e, w)
        | ok (base, pkg) ↦ elim (fetch_blob crypto digest net base pkg.file) [
          | err e ↦ (err e, w)
          | ok archive ↦ store_archive w pkg id version archive
        ]
      ]

  -- The loop over the sources.
  unfoldable pub fetch_from_sources :
      World
      → Option TrustFile
      → List SourceEntry
      → String
      → String
      → Result Error StoredPackage × World
  unfolding fetch_from_source is_miss
  fetch_from_sources w trust_toml [] id version = (err (package_not_found id version), w)
  fetch_from_sources w trust_toml (src ∷ srcs) id version =
      let (r, w') = fetch_from_source w trust_toml src id version in
      let rest = fetch_from_sources w' trust_toml srcs id version in
      elim r [ ok stored ↦ (ok stored, w') | err e ↦ if is_miss e then rest else (err e, w') ]

  unfoldable pub fetch_into_store :
      World
      → Option SourcesFile
      → Option TrustFile
      → String
      → String
      → Result Error StoredPackage × World
  unfolding get collect_warnings_for_pin load_sources ordered_sources fetch_from_sources
  fetch_into_store w sources_toml trust_toml id version =
      elim (map_err store_fault (get w.dirs id version)) [
        | err e ↦ (err e, w)
        | ok (some existing) ↦ (
          (do
            warnings ←
                collect_warnings_for_pin crypto digest net sources_toml trust_toml id version
                  (some existing.content_hash)
            ok existing),
          w,
        )
        | ok none ↦ elim (map_err sources_fault (load_sources sources_toml)) [
          | err e ↦ (err e, w)
          | ok sources ↦ fetch_from_sources w trust_toml (ordered_sources sources) id version
        ]
      ]
