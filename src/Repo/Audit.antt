-- ===== src/Repo/Audit.antt =====
-- crates/lar-repo/src/audit.rs: the advisories on what is installed, or on the whole store. The
-- lines that are written are not modelled.
pub mod Scope
pub mod Alerts
pub mod Findings
use lar.Base.{
  String, Bool, ◌&&◌, ◌||◌, Option, some, List, [], ◌∷◌, ◌++◌, ◌==◌, str_lt, any, map, Result, ok,
  map_err, ◌>>=◌, if◌then◌else◌,
}
use lar.Store.World.{PackageDir, StoredPackage}
use lar.Store.Read.{list}
use lar.Repo.Error.{Error, sources_fault, store_fault}
use lar.Repo.Sources.{SourcesFile, load_sources}
use lar.Repo.Trust.{Crypto, TrustFile}
use lar.Repo.Advisories.{Digest, as_str, high, critical}
use lar.Repo.Fetch.{Network, AdvisoryWarning, collect_warnings_for_pin}

pub record Pin : Type 0 where
  pub id : String
  pub version : String
  pub content_hash : String

-- The `install.toml` of an entry of the install directory: no file, a text that is not parsed, or
-- its packages.
pub data InstallToml : Type 0 where
  missing unparsed : InstallToml
  parsed : List Pin → InstallToml

pub data AuditScope : Type 0 where
  installed store : AuditScope

pub record AuditFinding : Type 0 where
  pub package_id : String
  pub version : String
  pub content_hash : String
  pub advisory_id : String
  pub severity : String
  pub yanked : Bool
  pub summary : String
  pub url : String
  pub source : String

abbrev pub pin_of : StoredPackage → Pin
pin_of p = record { id = p.id; version = p.version; content_hash = p.content_hash }

abbrev pub same_pin : Pin → Pin → Bool
same_pin a b = a.id == b.id && a.version == b.version && a.content_hash == b.content_hash

-- The order of triples.
abbrev pub pin_lt : Pin → Pin → Bool
pin_lt a b =
    str_lt a.id b.id
    || (a.id == b.id
        && (str_lt a.version b.version
            || (a.version == b.version && str_lt a.content_hash b.content_hash)))

unfoldable pub insert_pin : Pin → List Pin → List Pin
insert_pin p [] = p ∷ []
insert_pin p (q ∷ qs) =
    let rest = insert_pin p qs in
    if same_pin p q then q ∷ qs else if pin_lt p q then p ∷ q ∷ qs else q ∷ rest

-- `pins.sort(); pins.dedup()`
unfoldable pub sort_pins : List Pin → List Pin
unfolding insert_pin
sort_pins [] = []
sort_pins (p ∷ ps) = insert_pin p (sort_pins ps)

abbrev pub finding : Pin → AdvisoryWarning → AuditFinding
finding p w = record {
  package_id = p.id;
  version = p.version;
  content_hash = p.content_hash;
  advisory_id = w.advisory_id;
  severity = as_str w.severity;
  yanked = w.yanked;
  summary = w.summary;
  url = w.url;
  source = w.source;
}

-- The loop over the entries of the install directory.
unfoldable pub installed_pins : List InstallToml → List Pin
installed_pins [] = []
installed_pins (missing ∷ rest) = installed_pins rest
installed_pins (unparsed ∷ rest) = installed_pins rest
installed_pins (parsed ps ∷ rest) = ps ++ installed_pins rest

unfoldable pub pins_for : List PackageDir → List InstallToml → AuditScope → Result Error (List Pin)
unfolding list installed_pins
pins_for dirs installs store = do
  packages ← map_err store_fault (list dirs)
  ok (map pin_of packages)
pins_for dirs installs installed = ok (installed_pins installs)

module _ (crypto : Crypto) (digest : Digest) (net : Network) (sources_toml : Option SourcesFile)
    (trust_toml : Option TrustFile) where
  -- The loop over the pins.
  unfoldable pub audit_pins : List Pin → Result Error (List AuditFinding)
  unfolding collect_warnings_for_pin
  audit_pins [] = ok []
  audit_pins (p ∷ ps) = do
    warnings ←
        collect_warnings_for_pin crypto digest net sources_toml trust_toml p.id p.version
          (some p.content_hash)
    rest ← audit_pins ps
    ok (map (finding p) warnings ++ rest)

  unfoldable pub audit :
      List PackageDir → List InstallToml → AuditScope → Result Error (List AuditFinding)
  unfolding load_sources pins_for sort_pins audit_pins
  audit dirs installs scope = do
    sources ← map_err sources_fault (load_sources sources_toml)
    pins ← pins_for dirs installs scope
    audit_pins (sort_pins pins)

abbrev pub fails : AuditFinding → Bool
fails f =
    f.yanked
    || (f.severity == "high" || f.severity == "critical")
    || f.severity == as_str high
    || f.severity == as_str critical

unfoldable pub audit_should_fail : List AuditFinding → Bool
unfolding any
audit_should_fail findings = any fails findings
