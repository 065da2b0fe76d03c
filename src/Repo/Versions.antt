-- ===== src/Repo/Versions.antt =====
-- crates/lar-repo/src/versions.rs: the versions of a package over the store and all sources.
pub mod Offered
pub mod Listed
use lar.Base.{
  String, Bool, true, false, not, Option, none, some, List, [], ◌∷◌, ◌++◌, ◌==◌, str_lt, any,
  filter, find, map, Result, Done, ok, err, map_err, ◌>>=◌, ◌>>◌, if◌then◌else◌,
}
use lar.Store.World.{PackageDir, StoredPackage}
use lar.Store.Pins.{sort_dedup}
use lar.Store.Read.{list}
use lar.Repo.Error.{Error, sources_fault, store_fault}
use lar.Repo.Sources.{SourceEntry, SourcesFile, load_sources, ordered_sources}
use lar.Repo.Trust.{Crypto, TrustFile, load_trust}
use lar.Repo.Index.{IndexPackage, PackageIndex}
use lar.Repo.Advisories.{Advisory, AdvisoriesFile, Digest, matches, verify_advisories}
use lar.Repo.Fetch.{Network, read_index, read_advisories}

-- The detail of a source that is not available is its error, which the code shortens to a text.
pub record SourceProbe : Type 0 where
  pub name : String
  pub available : Bool
  pub detail : Option Error

pub record DepVersionList : Type 0 where
  pub versions : List String
  pub sources : List SourceProbe

pub record YankedDepVersion : Type 0 where
  pub version : String
  pub advisory : String
  pub source : String

unfoldable pub any_source_unavailable : DepVersionList → Bool
unfolding any
any_source_unavailable listed = any (λ s. not s.available) listed.sources

abbrev pub unavailable : SourceEntry → Error → SourceProbe
unavailable src e = record { name = src.name; available = false; detail = some e }

abbrev pub available : String → SourceProbe
available name = record { name = name; available = true; detail = none }

-- The advisories on a pin of an index.
abbrev pub on_pin : AdvisoriesFile → IndexPackage → List Advisory
on_pin advisories pkg = matches advisories pkg.id pkg.version (some pkg.content_hash)

unfoldable pub is_yanked : AdvisoriesFile → IndexPackage → Bool
unfolding matches any
is_yanked advisories pkg = any (λ a. a.yanked) (on_pin advisories pkg)

-- The loop over the packages of an index.
unfoldable pub offered : AdvisoriesFile → String → List IndexPackage → List String
unfolding is_yanked
offered advisories id [] = []
offered advisories id (pkg ∷ pkgs) =
    let rest = offered advisories id pkgs in
    if pkg.id == id then (if is_yanked advisories pkg then rest else pkg.version ∷ rest) else rest

abbrev pub stored_versions : String → List StoredPackage → List String
stored_versions id packages = map (λ p. p.version) (filter (λ p. p.id == id) packages)

-- `by_version.entry(…).or_insert_with(…)` of a map that is sorted by version.
unfoldable pub or_insert : YankedDepVersion → List YankedDepVersion → List YankedDepVersion
or_insert y [] = y ∷ []
or_insert y (z ∷ zs) =
    let rest = or_insert y zs in
    if y.version == z.version
    then z ∷ zs
    else if str_lt y.version z.version
    then y ∷ z ∷ zs
    else z ∷ rest

abbrev pub yanked_version : String → IndexPackage → Advisory → YankedDepVersion
yanked_version source pkg adv = record { version = pkg.version; advisory = adv.id; source = source }

-- The loop over the packages of an index, in `list_yanked_dep_versions`.
unfoldable pub add_yanked :
    AdvisoriesFile
    → String
    → String
    → List YankedDepVersion
    → List IndexPackage
    → List YankedDepVersion
unfolding matches find or_insert
add_yanked advisories source id out [] = out
add_yanked advisories source id out (pkg ∷ pkgs) =
    let out' : List YankedDepVersion = elim (find (λ a. a.yanked) (on_pin advisories pkg)) [
      | none ↦ out
      | some adv ↦ or_insert (yanked_version source pkg adv) out
    ] in
    add_yanked advisories source id (if pkg.id == id then out' else out) pkgs

module _ (crypto : Crypto) (digest : Digest) (net : Network) (trust : TrustFile) (id : String) where
  -- The part of the body of the loop behind the index.
  unfoldable pub probe_index :
      SourceEntry → net.SourceBase → PackageIndex → Result Error (SourceProbe × List String)
  unfolding read_advisories verify_advisories offered
  probe_index src base index = do
    advisories ← read_advisories crypto digest net base
    verify_advisories crypto digest advisories trust
    ok (available src.name, offered advisories id index.packages)

  unfoldable pub probe_base :
      SourceEntry → net.SourceBase → Result Error (SourceProbe × List String)
  unfolding read_index probe_index
  probe_base src base = elim (read_index crypto digest net base) [
    | err e ↦ ok (unavailable src e, [])
    | ok index ↦ probe_index src base index
  ]

  -- A source that cannot be read is noted; one whose advisories fail is an error.
  unfoldable pub probe_source : SourceEntry → Result Error (SourceProbe × List String)
  unfolding probe_base
  probe_source src = elim (net.parse_uri src.uri) [
    | err e ↦ ok (unavailable src e, [])
    | ok base ↦ probe_base src base
  ]

  unfoldable pub probe_sources : List SourceEntry → Result Error (List SourceProbe × List String)
  unfolding probe_source
  probe_sources [] = ok ([], [])
  probe_sources (src ∷ srcs) = do
    found ← probe_source src
    rest ← probe_sources srcs
    ok (found.0 ∷ rest.0, found.1 ++ rest.1)

  unfoldable pub yanked_of :
      List YankedDepVersion → List SourceEntry → Result Error (List YankedDepVersion)
  unfolding read_index read_advisories verify_advisories add_yanked
  yanked_of out [] = ok out
  yanked_of out (src ∷ srcs) = elim (net.parse_uri src.uri) [
    | err e ↦ yanked_of out srcs
    | ok base ↦ elim (read_index crypto digest net base) [
      | err e ↦ yanked_of out srcs
      | ok index ↦ (do
        advisories ← read_advisories crypto digest net base
        verify_advisories crypto digest advisories trust
        yanked_of (add_yanked advisories src.name id out index.packages) srcs)
    ]
  ]

module _ (crypto : Crypto) (digest : Digest) (net : Network) where
  unfoldable pub list_dep_versions :
      List PackageDir → Option SourcesFile → Option TrustFile → String → Result Error DepVersionList
  unfolding list load_sources load_trust ordered_sources probe_sources sort_dedup filter
  list_dep_versions dirs sources_toml trust_toml id = do
    packages ← map_err store_fault (list dirs)
    file ← map_err sources_fault (load_sources sources_toml)
    trust ← load_trust crypto trust_toml
    found ← probe_sources crypto digest net trust id (ordered_sources file)
    ok (record {
      versions = sort_dedup (stored_versions id packages ++ found.1);
      sources = available "(store)" ∷ found.0;
    })

  unfoldable pub list_yanked_dep_versions :
      Option SourcesFile → Option TrustFile → String → Result Error (List YankedDepVersion)
  unfolding load_sources load_trust ordered_sources yanked_of
  list_yanked_dep_versions sources_toml trust_toml id = do
    file ← map_err sources_fault (load_sources sources_toml)
    trust ← load_trust crypto trust_toml
    yanked_of crypto digest net trust id [] (ordered_sources file)
