-- ===== src/Repo/Tests.antt =====
-- The theorems on crates/lar-repo at concrete inputs.
use lar.Base.{
  ok, ◌≡◌, true, not, none, ◌++◌, ◌==◌, ◌↔◌, ◌⊎◌, Memᴰ, if◌then◌else◌, ℕ, suc, String, Option, some,
  List, [], ◌∷◌, refl,
}
use lar.Repo.Sources.{SourceEntry, SourcesFile, move_source, move_source_before, move_source_after}
use lar.Repo.Sources.Moves.{IsAtPosition, move_source-IsAtPosition}
use lar.Repo.Sources.Beside.{IsBeside, move_source_before-IsBeside, move_source_after-IsBeside}
use lar.Store.World.{Content, toml, World, StoredPackage}
use lar.Repo.Sources.{load_sources}
use lar.Repo.Versions.{DepVersionList, list_dep_versions}
use lar.Repo.Versions.Listed.{IsOffered, list_dep_versions_iff}
use lar.Store.Read.{list}
use lar.Repo.Audit.{
  Pin, AuditFinding, InstallToml, missing, unparsed, parsed, store, installed, audit,
  audit_should_fail,
}
use lar.Repo.Audit.Scope.{IsInScope}
use lar.Repo.Audit.Alerts.{IsAlarming}
use lar.Repo.Audit.Findings.{audit_should_fail_iff}
use lar.Repo.Trust.{Crypto, TrustFile, load_trust}
use lar.Repo.Index.{verify_index_package}
use lar.Repo.Index.Message.{moved_line, verify_index_package-moved_line}
use lar.Repo.Index.{IndexPackage}
use lar.Repo.Advisories.{Advisory, AdvisoriesFile, Digest, high, matches}
use lar.Repo.Advisories.Matches.{Names, matches_iff}
use lar.Repo.Fetch.{Network, locate_verified_pin}
use lar.Repo.Fetch.Trusted.{IsTrustedPin, locate_verified_pin-IsTrustedPin}

abbrev source : String → SourceEntry
source name = record { name = name; uri = "file:///repo"; policy = none; is_main = none }

abbrev file_of : List SourceEntry → SourcesFile
file_of sources = record { format = 1; sources = sources; fetch_priority = none }

abbrev disk : Option SourcesFile
disk = some (file_of (source "one" ∷ source "two" ∷ source "three" ∷ []))

move_source-IsAtPosition_example :
    IsAtPosition disk "one" 2
      (source "one")
      (file_of (source "two" ∷ source "one" ∷ source "three" ∷ []))
unfolding move_source
move_source-IsAtPosition_example =
    move_source-IsAtPosition disk "one" 2 (source "one")
      (file_of (source "two" ∷ source "one" ∷ source "three" ∷ [])) refl

move_source_before-IsBeside_example :
    (place : ℕ) × IsBeside disk "one" "three" place
      (suc place)
      (source "one")
      (file_of (source "two" ∷ source "one" ∷ source "three" ∷ []))
unfolding move_source_before
move_source_before-IsBeside_example =
    move_source_before-IsBeside disk "one" "three" (source "one")
      (file_of (source "two" ∷ source "one" ∷ source "three" ∷ [])) refl

move_source_after-IsBeside_example :
    (place : ℕ) × IsBeside disk "three" "one"
      (suc place)
      place
      (source "three")
      (file_of (source "one" ∷ source "three" ∷ source "two" ∷ []))
unfolding move_source_after
move_source_after-IsBeside_example =
    move_source_after-IsBeside disk "three" "one" (source "three")
      (file_of (source "one" ∷ source "three" ∷ source "two" ∷ [])) refl

abbrev advisory : Advisory
advisory = record {
  id = "LAR-1";
  package_id = "org.lib";
  versions = "1.0.0" ∷ "1.1.0" ∷ [];
  content_hashes = "blake3:aa" ∷ [];
  severity = high;
  yanked = true;
  summary = "";
  url = "";
}

abbrev advisories : AdvisoriesFile
advisories = record {
  format = 1;
  content_hash = "";
  key_id = "";
  signature = "";
  advisories = advisory ∷ [];
}

matches_iff_example :
    Memᴰ advisory (matches advisories "org.lib" "1.0.0" (some "blake3:aa"))
    ↔ (Memᴰ advisory (advisory ∷ []) × Names advisory "org.lib" "1.0.0" (some "blake3:aa"))
matches_iff_example = matches_iff advisories "org.lib" "1.0.0" (some "blake3:aa") advisory

abbrev eight : List ℕ
eight = 0 ∷ 0 ∷ 0 ∷ 0 ∷ 0 ∷ 0 ∷ 0 ∷ 0 ∷ []

abbrev thirty_two : List ℕ
thirty_two = eight ++ eight ++ eight ++ eight

-- One key, whose signatures are good on every message.
abbrev one_key : Crypto
one_key = record {
  VerifyingKey = Unit;
  decode = λ s.
      if s == "key"
      then some thirty_two
      else if s == "sig"
      then some (thirty_two ++ thirty_two)
      else none;
  encode = λ bytes. "key";
  from_bytes = λ bytes. some tt;
  as_bytes = λ key. [];
  verify = λ key message sig. not (message == "");
}

abbrev no_digest : Digest
no_digest = record { payload = λ format advs. none; blake3 = λ text. text }

abbrev trust_toml : Option TrustFile
trust_toml = some (record {
  format = 1;
  keys = record { id = "ed25519:"; public_key = "base64:key"; comment = "" } ∷ [];
})

abbrev pin : IndexPackage
pin = record {
  id = "org.lib";
  version = "1.0.0";
  content_hash = "blake3:aa";
  file = "packages/lib.lar";
  key_id = "ed25519:";
  signature = "base64:sig";
  dependencies = [];
}

abbrev content : Content
content = toml (
    ok (record {
      meta = record {
        format = 1;
        id = "org.lib";
        name = "Library";
        version = "1.0.0";
        description = none;
        content_hash = some "blake3:aa";
      };
      dependencies = [];
      entry = none;
      desktop = none;
      platform = none;
    }))

-- The source `empty` has no packages, and the others have the one pin.
abbrev network : Network
network = record {
  SourceBase = String;
  parse_uri = λ uri. ok uri;
  index_toml =
      λ base. ok (record { format = 1; packages = if base == "empty" then [] else pin ∷ [] });
  advisories_toml = λ base. ok none;
  blob = λ base file. ok (record { inspected = ok "blake3:aa"; extracted = ok content });
}

abbrev far : SourceEntry
far = record { name = "far"; uri = "far"; policy = none; is_main = none }

abbrev far_base : String
far_base = "far"

abbrev near : SourceEntry
near = record { name = "near"; uri = "empty"; policy = none; is_main = none }

locate_verified_pin-IsTrustedPin_example :
    IsTrustedPin one_key no_digest network trust_toml far "org.lib" "1.0.0" far_base pin
unfolding locate_verified_pin
locate_verified_pin-IsTrustedPin_example =
    locate_verified_pin-IsTrustedPin one_key no_digest network trust_toml far "org.lib" "1.0.0"
      far_base pin refl

abbrev empty_world : World
empty_world = record { dirs = []; tmp_adds = []; installs = [] }

abbrev full_world : World
full_world = record {
  dirs = record { id = "org.lib"; version = "1.0.0"; content = content } ∷ [];
  tmp_adds = [];
  installs = [];
}

abbrev library : StoredPackage
library = record {
  id = "org.lib";
  version = "1.0.0";
  name = "Library";
  content_hash = "blake3:aa";
  path = ("org.lib", "1.0.0");
}

verify_index_package-moved_line_example :
    verify_index_package one_key "base64:key" (record pin { dependencies = ("org.dep", "^1") ∷ [] })
    ≡ verify_index_package one_key "base64:key" (moved_line pin "org.dep" "^1" [])
verify_index_package-moved_line_example =
    verify_index_package-moved_line one_key "base64:key" pin "org.dep" "^1" []

abbrev listed : DepVersionList
listed = record {
  versions = "1.0.0" ∷ [];
  sources =
      record { name = "(store)"; available = true; detail = none }
      ∷ record { name = "near"; available = true; detail = none }
      ∷ record { name = "far"; available = true; detail = none }
      ∷ [];
}

-- The version that the source `far` offers.
list_dep_versions_iff_example :
    (packages : List StoredPackage) × (file : SourcesFile) × (trust : TrustFile) × (list []
      ≡ ok packages)
    × (load_sources (some (file_of (near ∷ far ∷ []))) ≡ ok file)
    × (load_trust one_key trust_toml ≡ ok trust)
    × (Memᴰ "1.0.0" listed.versions ↔ (
        ((p : StoredPackage) × Memᴰ p packages × (p.id ≡ "org.lib") × (p.version ≡ "1.0.0"))
        ⊎ ((src : SourceEntry) × Memᴰ src file.sources
            × IsOffered "1.0.0" one_key no_digest network trust "org.lib" src)))
unfolding list_dep_versions
list_dep_versions_iff_example =
    list_dep_versions_iff "1.0.0" one_key no_digest network [] (some (file_of (near ∷ far ∷ [])))
      trust_toml "org.lib" listed refl

abbrev audited : AuditFinding
audited = record {
  package_id = "org.lib";
  version = "1.0.0";
  content_hash = "blake3:aa";
  advisory_id = "LAR-1";
  severity = "high";
  yanked = true;
  summary = "";
  url = "";
  source = "far";
}

-- The sources publish one advisory.
abbrev warning_network : Network
warning_network = record network {
  advisories_toml = λ base. ok (
      some (record advisories {
        content_hash = "blake3:x";
        key_id = "ed25519:";
        signature = "base64:sig";
      }));
}

abbrev some_digest : Digest
some_digest = record { payload = λ format advs. some "payload"; blake3 = λ text. "x" }

-- The second record that is parsed lists the package that the advisory names.
abbrev records : List InstallToml
records =
    missing
    ∷ parsed (record { id = "org.other"; version = "1.0.0"; content_hash = "blake3:bb" } ∷ [])
    ∷ unparsed
    ∷ parsed (record { id = "org.lib"; version = "1.0.0"; content_hash = "blake3:aa" } ∷ [])
    ∷ []

audit_should_fail_iff_example :
    (file : SourcesFile) × (load_sources (some (file_of (far ∷ []))) ≡ ok file)
    × ((audit_should_fail (audited ∷ []) ≡ true) ↔ (
        (p : Pin) × IsInScope [] records installed p
        × IsAlarming one_key some_digest warning_network trust_toml file p))
unfolding audit
audit_should_fail_iff_example =
    audit_should_fail_iff one_key some_digest warning_network (some (file_of (far ∷ []))) trust_toml
      [] records installed (audited ∷ []) refl

store_is_audited :
    audit one_key some_digest warning_network
      (some (file_of (far ∷ [])))
      trust_toml
      full_world.dirs
      records
      store
    ≡ ok (audited ∷ [])
unfolding audit
store_is_audited = refl
