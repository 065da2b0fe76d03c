-- ===== src/Repo/Error.antt =====
-- crates/lar-repo/src/error.rs. A message is modelled by its reason and the values in it.
use lar.Base.{ℕ, String}
use lar.Package.Error as Package
use lar.Store.World as Store
use lar.Repo.Sources as Sources

-- The messages of `InvalidTrust`, `InvalidIndex`, `InvalidAdvisories`, `InvalidKey` and `Other`.
pub data Reason : Type 0 where
  unsupported_format : ℕ → Reason
  duplicate_key_id key_id_mismatch : String → Reason
  not_base64 base64_prefix wrong_length bad_key : Reason
  id_or_version_empty advisory_id_empty : Reason
  bad_content_hash key_missing : String → String → Reason
  advisory_lists_nothing : String → Reason
  signature_fields hash_shape : Reason
  advisories_hash : String → String → Reason
  serialize_advisories : Reason
  disappeared metadata_mismatch : String → String → Reason

pub data Error : Type 0 where
  package_not_found : String → String → Error
  yanked : String → String → String → Error
  untrusted_key : String → Error
  bad_signature : String → String → Error
  bad_advisories_signature : String → Error
  hash_mismatch : String → String → String → String → Error
  invalid_relative_path : String → Error
  key_exists key_not_found : String → Error
  invalid_key invalid_index invalid_advisories invalid_trust other : Reason → Error
  sources_fault : Sources.Fault → Error
  package_fault : Package.Error → Error
  store_fault : Store.Fault → Error
  -- `Io`, `Http` and what else a read of a source returns
  transport : String → Error
