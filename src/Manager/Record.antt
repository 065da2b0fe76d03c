-- ===== src/Manager/Record.antt =====
-- crates/lar-manager/src/record.rs: what `install.toml` and `previous.toml` record.
use lar.Base.{
  ℕ, String, not, ◌||◌, List, ◌==◌, nat_eq, starts_with, is_empty, Result, Done, guard, ◌>>◌,
}
use lar.Runtime.Compose.{ComposeMode}

abbrev pub install_format : ℕ
install_format = 1

pub record InstallPackage : Type 0 where
  pub id : String
  pub version : String
  pub content_hash : String

pub record InstallRecord : Type 0 where
  pub format : ℕ
  pub id : String
  pub version : String
  pub content_hash : String
  pub runtime_id : String
  pub compose : ComposeMode
  pub packages : List InstallPackage

-- The messages of `InvalidRecord`.
pub data Reason : Type 0 where
  unsupported_format : ℕ → Reason
  id_or_version_empty runtime_id_empty hash_shape packages_empty not_toml : Reason
  missing_hash : String → String → Reason
  id_mismatch : String → String → Reason

unfoldable pub validate : InstallRecord → Result Reason Done
validate r = do
  guard (nat_eq r.format install_format) (unsupported_format r.format)
  guard (not (r.id == "" || r.version == "")) id_or_version_empty
  guard (not (r.runtime_id == "")) runtime_id_empty
  guard (starts_with r.content_hash "blake3:") hash_shape
  guard (not (is_empty r.packages)) packages_empty
