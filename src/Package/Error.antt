-- ===== src/Package/Error.antt =====
-- crates/lar-package/src/error.rs. A message is modelled by its reason and the values in it.
use lar.Base.{ℕ, String}

-- The reasons of `InvalidPackageId`.
pub data IdReason : Type 0 where
  id_empty few_labels label_empty label_start label_chars label_hyphen : IdReason

-- The messages of `Validation`.
pub data Invalid : Type 0 where
  unsupported_format : ℕ → Invalid
  name_empty bad_content_hash binaries_empty : Invalid
  dependency_id : String → IdReason → Invalid
  path_empty : String → Invalid
  path_absolute path_escapes : String → String → Invalid
  payload_path_invalid payload_path_empty : Invalid
  default_not_listed : String → Invalid
  capability_empty : String → Invalid
  capability_unknown : String → Invalid
  capability_duplicate : String → String → Invalid
  capability_both : String → Invalid

-- The reasons of `InvalidVersion`; the text of a parse error is the library's own.
pub data VersionReason : Type 0 where
  version_syntax requirement_empty requirement_syntax requirement_wildcard : VersionReason

pub data Error : Type 0 where
  invalid_package_id : String → IdReason → Error
  validation : Invalid → Error
  invalid_version : String → String → VersionReason → Error
  io : String → Error
  toml : Error
