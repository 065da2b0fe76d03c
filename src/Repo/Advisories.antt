-- ===== src/Repo/Advisories.antt =====
-- crates/lar-repo/src/advisories.rs: the published advisories, which pins they name, and their
-- signature. `toml` has read the file; it and `blake3` are a parameter where they make its hash.
pub mod Matches
use lar.Base.{
  ℕ, String, Bool, true, false, not, ◌&&◌, ◌||◌, Option, none, some, List, [], ◌∷◌, ◌==◌, ◌<>◌,
  nat_eq, any, filter, contains, is_empty, Result, Done, ok, err, guard, ok_or, map_err, ◌>>=◌,
  ◌>>◌, if◌then◌else◌,
}
use lar.Base.Hash.{is_content_hash}
use lar.Repo.Error.{
  Error, invalid_advisories, untrusted_key, bad_advisories_signature, other, unsupported_format,
  advisory_id_empty, advisory_lists_nothing, signature_fields, hash_shape, advisories_hash,
  serialize_advisories,
}
use lar.Repo.Trust.{Crypto, TrustFile, find_trusted_key, verify_content_hash}

abbrev pub advisories_format : ℕ
advisories_format = 1

pub data Severity : Type 0 where
  low medium high critical : Severity

abbrev pub as_str : Severity → String
as_str low = "low"
as_str medium = "medium"
as_str high = "high"
as_str critical = "critical"

abbrev pub is_elevated : Severity → Bool
is_elevated low = false
is_elevated medium = false
is_elevated high = true
is_elevated critical = true

pub record Advisory : Type 0 where
  pub id : String
  pub package_id : String
  pub versions : List String
  pub content_hashes : List String
  pub severity : Severity
  pub yanked : Bool
  pub summary : String
  pub url : String

pub record AdvisoriesFile : Type 0 where
  pub format : ℕ
  pub content_hash : String
  pub key_id : String
  pub signature : String
  pub advisories : List Advisory

-- `toml::to_string` of the format and the advisories, and `blake3::hash` in hexadecimal.
pub record Digest : Type 0 where
  pub payload : ℕ → List Advisory → Option String
  pub blake3 : String → String

unfoldable pub validate_advisories : List Advisory → Result Error Done
validate_advisories [] = ok tt
validate_advisories (adv ∷ advisories) = do
  guard (not (adv.id == "" || adv.package_id == "")) (invalid_advisories advisory_id_empty)
  guard (not (is_empty adv.versions && is_empty adv.content_hashes))
      (invalid_advisories (advisory_lists_nothing adv.id))
  validate_advisories advisories

unfoldable pub validate : AdvisoriesFile → Result Error Done
unfolding validate_advisories
validate file = do
  guard (nat_eq file.format advisories_format) (invalid_advisories (unsupported_format file.format))
  validate_advisories file.advisories

unfoldable pub require_signature_fields : AdvisoriesFile → Result Error Done
unfolding is_content_hash
require_signature_fields file = do
  guard (not (file.content_hash == "" || file.key_id == "" || file.signature == ""))
      (invalid_advisories signature_fields)
  guard (is_content_hash file.content_hash) (invalid_advisories hash_shape)

unfoldable pub is_absent_placeholder : AdvisoriesFile → Bool
is_absent_placeholder file =
    file.content_hash == "" && file.key_id == "" && file.signature == "" && is_empty file.advisories

-- `content_hash.map(…).unwrap_or(false)`
abbrev pub lists_hash : Advisory → Option String → Bool
lists_hash a none = false
lists_hash a (some h) = contains a.content_hashes h

-- The closure of `matches`.
unfoldable pub applies : String → String → Option String → Advisory → Bool
unfolding contains
applies package_id version content_hash a =
    let ver_ok = is_empty a.versions || contains a.versions version in
    let hash_ok = is_empty a.content_hashes || lists_hash a content_hash in
    let listed =
      if not (is_empty a.versions)
      then (if not (is_empty a.content_hashes) then ver_ok && hash_ok else ver_ok)
      else (if not (is_empty a.content_hashes) then hash_ok else false) in
    if not (a.package_id == package_id) then false else listed

unfoldable pub matches : AdvisoriesFile → String → String → Option String → List Advisory
unfolding filter applies
matches file package_id version content_hash =
    filter (applies package_id version content_hash) file.advisories

-- What follows the reading of the TOML text.
unfoldable pub parse_advisories : AdvisoriesFile → Result Error AdvisoriesFile
unfolding validate
parse_advisories file = do validate file; ok file

abbrev pub empty_advisories : AdvisoriesFile
empty_advisories = record {
  format = advisories_format;
  content_hash = "";
  key_id = "";
  signature = "";
  advisories = [];
}

unfoldable pub compute_advisories_content_hash : Digest → AdvisoriesFile → Result Error String
compute_advisories_content_hash digest file = do
  text ← ok_or (digest.payload file.format file.advisories) (other serialize_advisories)
  ok ("blake3:" <> digest.blake3 text)

-- The part of `verify_advisories` behind the check for the placeholder.
unfoldable pub verify_published : Crypto → Digest → AdvisoriesFile → TrustFile → Result Error Done
unfolding require_signature_fields compute_advisories_content_hash find_trusted_key
    verify_content_hash
verify_published crypto digest file trust = do
  require_signature_fields file
  expected ← compute_advisories_content_hash digest file
  guard (expected == file.content_hash)
      (invalid_advisories (advisories_hash file.content_hash expected))
  key ← ok_or (find_trusted_key trust file.key_id) (untrusted_key file.key_id)
  map_err (λ _. bad_advisories_signature file.key_id)
      (verify_content_hash crypto key.public_key file.content_hash file.signature)

unfoldable pub verify_advisories : Crypto → Digest → AdvisoriesFile → TrustFile → Result Error Done
unfolding is_absent_placeholder verify_published
verify_advisories crypto digest file trust =
    if is_absent_placeholder file then ok tt else verify_published crypto digest file trust
