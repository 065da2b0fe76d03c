-- ===== src/Repo/Fetch.antt =====
-- crates/lar-repo/src/fetch.rs: from the configured sources into the store. What is written to
-- `warn_out` is not modelled; what can fail on the way to it is.
pub mod Trusted
pub mod Into
pub mod Delivered
pub mod First
pub mod Peek
use lar.Base.{
  ℕ, String, Bool, true, false, Option, none, some, List, [], ◌∷◌, ◌++◌, ◌==◌, map, Result, Done,
  ok, err, guard, ok_or, map_err, ◌>>=◌, ◌>>◌, if◌then◌else◌,
}
use lar.Package.Error as Package
use lar.Store.World as Store
use lar.Store.World.{Content, World, StoredPackage, already_exists}
use lar.Store.Read.{get}
use lar.Store.Change.{add}
use lar.Repo.Error.{
  Error, package_not_found, yanked, untrusted_key, hash_mismatch, sources_fault, package_fault,
  store_fault, disappeared, other,
}
use lar.Repo.Sources.{SourceEntry, SourcesFile, load_sources, ordered_sources}
use lar.Repo.Trust.{Crypto, TrustFile, TrustedKey, load_trust, find_trusted_key}
use lar.Repo.Index.{
  IndexPackage, PackageIndex, parse_index, find_pin, verify_index_package, validate_relative_file,
}
use lar.Repo.Advisories.{
  Advisory, AdvisoriesFile, Digest, Severity, matches, verify_advisories, parse_advisories,
  require_signature_fields, empty_advisories,
}

-- A fetched archive: what `inspect` says of its content hash, and what `extract` makes of it.
pub record Archive : Type 0 where
  pub inspected : Result Package.Error String
  pub extracted : Result Package.Error Content

-- What files and HTTP deliver: the parsed texts below a base. `none` is a missing advisories.toml.
pub record Network : Type 1 where
  pub SourceBase : Type 0
  pub parse_uri : String → Result Error SourceBase
  pub index_toml : SourceBase → Result Error PackageIndex
  pub advisories_toml : SourceBase → Result Error (Option AdvisoriesFile)
  pub blob : SourceBase → String → Result Error Archive

pub record AdvisoryWarning : Type 0 where
  pub source : String
  pub advisory_id : String
  pub package_id : String
  pub version : String
  pub severity : Severity
  pub summary : String
  pub url : String
  pub yanked : Bool

abbrev pub warning : SourceEntry → String → String → Advisory → AdvisoryWarning
warning src id version adv = record {
  source = src.name;
  advisory_id = adv.id;
  package_id = id;
  version = version;
  severity = adv.severity;
  summary = adv.summary;
  url = adv.url;
  yanked = adv.yanked;
}

-- The loop of `check_advisories_for_fetch` over the matches.
unfoldable pub check_matches : String → String → List Advisory → Result Error Done
check_matches id version [] = ok tt
check_matches id version (adv ∷ advisories) =
    let rest = check_matches id version advisories in
    if adv.yanked then err (yanked id version adv.id) else rest

unfoldable pub check_advisories_for_fetch :
    AdvisoriesFile → String → String → Option String → Result Error Done
unfolding check_matches matches
check_advisories_for_fetch advisories id version content_hash =
    check_matches id version (matches advisories id version content_hash)

module _ (crypto : Crypto) (digest : Digest) (net : Network) where
  unfoldable pub read_index : net.SourceBase → Result Error PackageIndex
  unfolding parse_index
  read_index base = do index ← net.index_toml base; parse_index index

  unfoldable pub read_present : Option AdvisoriesFile → Result Error AdvisoriesFile
  unfolding parse_advisories require_signature_fields
  read_present none = ok empty_advisories
  read_present (some text) = do file ← parse_advisories text; require_signature_fields file; ok file

  unfoldable pub read_advisories : net.SourceBase → Result Error AdvisoriesFile
  unfolding read_present
  read_advisories base = do found ← net.advisories_toml base; read_present found

  unfoldable pub fetch_blob : net.SourceBase → String → Result Error Archive
  unfolding validate_relative_file
  fetch_blob base file = do validate_relative_file file; net.blob base file

  unfoldable pub locate_verified_pin :
      Option TrustFile
      → SourceEntry
      → String
      → String
      → Result Error (net.SourceBase × IndexPackage)
  unfolding read_index read_advisories load_trust verify_advisories find_pin
      check_advisories_for_fetch find_trusted_key verify_index_package
  locate_verified_pin trust_toml src id version = do
    base ← net.parse_uri src.uri
    index ← read_index base
    trust ← load_trust crypto trust_toml
    advisories ← read_advisories base
    verify_advisories crypto digest advisories trust
    pkg ← ok_or (find_pin index id version) (package_not_found id version)
    check_advisories_for_fetch advisories id version (some pkg.content_hash)
    key ← ok_or (find_trusted_key trust pkg.key_id) (untrusted_key pkg.key_id)
    verify_index_package crypto key.public_key pkg
    ok (base, pkg)

  -- The loop of `collect_warnings_for_pin`.
  unfoldable pub collect_from :
      TrustFile
      → String
      → String
      → Option String
      → List SourceEntry
      → Result Error (List AdvisoryWarning)
  unfolding read_advisories verify_advisories matches
  collect_from trust id version content_hash [] = ok []
  collect_from trust id version content_hash (src ∷ srcs) =
      let rest = collect_from trust id version content_hash srcs in
      elim (net.parse_uri src.uri) [
        | err e ↦ rest
        | ok base ↦ (do
          advisories ← read_advisories base
          verify_advisories crypto digest advisories trust
          later ← rest
          ok (map (warning src id version) (matches advisories id version content_hash) ++ later))
      ]

  unfoldable pub collect_warnings_for_pin :
      Option SourcesFile
      → Option TrustFile
      → String
      → String
      → Option String
      → Result Error (List AdvisoryWarning)
  unfolding collect_from load_sources load_trust
  collect_warnings_for_pin sources_toml trust_toml id version content_hash = do
    sources ← map_err sources_fault (load_sources sources_toml)
    trust ← load_trust crypto trust_toml
    collect_from trust id version content_hash sources.sources
