-- ===== src/Repo/Fetch/Peek.antt =====
-- `load_package_for_resolve` of crates/lar-repo/src/fetch.rs: what the resolver reads of a package.
use lar.Base.{
  ◌&&◌, String, Option, none, some, List, [], ◌∷◌, ◌==◌, Result, ok, err, guard, map_err, ◌>>=◌,
  ◌>>◌, if◌then◌else◌,
}
use lar.Store.World.{World, StoredPackage}
use lar.Store.Read.{get}
use lar.Repo.Error.{
  Error, package_not_found, sources_fault, package_fault, store_fault, metadata_mismatch, other,
}
use lar.Repo.Sources.{SourceEntry, SourcesFile, load_sources, ordered_sources}
use lar.Repo.Trust.{Crypto, TrustFile}
use lar.Repo.Advisories.{Digest}
use lar.Base.Map.{Map}
use lar.Package.Manifest.{PackageManifest}
use lar.Store.Read.{load_at}
use lar.Repo.Fetch.{Network, locate_verified_pin, collect_warnings_for_pin}
use lar.Repo.Fetch.Into.{is_miss}

pub record ResolvePackage : Type 0 where
  pub id : String
  pub version : String
  pub content_hash : String
  pub dependencies : Map String

unfoldable pub resolve_package_from_manifest :
    String → String → String → PackageManifest → Result Error ResolvePackage
resolve_package_from_manifest id version content_hash m = do
  guard (m.meta.id == id && m.meta.version == version)
      (other (metadata_mismatch m.meta.id m.meta.version))
  ok (record {
    id = id;
    version = version;
    content_hash = content_hash;
    dependencies = m.dependencies;
  })

module _ (crypto : Crypto) (digest : Digest) (net : Network) where
  unfoldable pub peek_from_source :
      Option TrustFile → SourceEntry → String → String → Result Error ResolvePackage
  unfolding locate_verified_pin
  peek_from_source trust_toml src id version = do
    located ← locate_verified_pin crypto digest net trust_toml src id version
    let pkg = located.1
    ok (record {
      id = id;
      version = version;
      content_hash = pkg.content_hash;
      dependencies = pkg.dependencies;
    })

  -- The loop over the sources.
  unfoldable pub peek_from_sources :
      Option TrustFile → List SourceEntry → String → String → Result Error ResolvePackage
  unfolding peek_from_source is_miss
  peek_from_sources trust_toml [] id version = err (package_not_found id version)
  peek_from_sources trust_toml (src ∷ srcs) id version =
      let rest = peek_from_sources trust_toml srcs id version in
      elim (peek_from_source trust_toml src id version) [
        | ok pkg ↦ ok pkg
        | err e ↦ if is_miss e then rest else err e
      ]

  -- A package of the store is read in place, after its warnings.
  unfoldable pub resolve_stored :
      World
      → Option SourcesFile
      → Option TrustFile
      → StoredPackage
      → String
      → String
      → Result Error ResolvePackage
  unfolding collect_warnings_for_pin load_at resolve_package_from_manifest
  resolve_stored w sources_toml trust_toml existing id version = do
    warnings ←
        collect_warnings_for_pin crypto digest net sources_toml trust_toml id version
          (some existing.content_hash)
    m ← map_err package_fault (load_at w.dirs existing.path)
    resolve_package_from_manifest id version existing.content_hash m

  unfoldable pub load_package_for_resolve :
      World → Option SourcesFile → Option TrustFile → String → String → Result Error ResolvePackage
  unfolding get resolve_stored load_sources ordered_sources peek_from_sources
  load_package_for_resolve w sources_toml trust_toml id version = do
    found ← map_err store_fault (get w.dirs id version)
    elim found [
      | some existing ↦ resolve_stored w sources_toml trust_toml existing id version
      | none ↦ (do
        sources ← map_err sources_fault (load_sources sources_toml)
        peek_from_sources trust_toml (ordered_sources sources) id version)
    ]
