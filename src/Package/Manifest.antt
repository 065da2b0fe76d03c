-- ===== src/Package/Manifest.antt =====
-- crates/lar-package/src/manifest.rs: the data of `package.toml`.
pub mod Path
pub mod Platform
pub mod Validate
pub mod Valid
use lar.Base.{ℕ, String, Bool, Option, List, is_empty, ◌&&◌}
use lar.Base.Map.{Map}

abbrev pub format_version : ℕ
format_version = 1

pub record PlatformRequirements : Type 0 where
  pub requires : List String
  pub optional : List String

pub record PackageMeta : Type 0 where
  pub format : ℕ
  pub id : String
  pub name : String
  pub version : String
  pub description : Option String
  pub content_hash : Option String

pub record Entry : Type 0 where
  pub default : Option String
  pub binaries : List String

pub record Desktop : Type 0 where
  pub name : Option String
  pub icon : Option String
  pub categories : Option (List String)

-- The field `package` of the source is `meta` here.
pub record PackageManifest : Type 0 where
  pub meta : PackageMeta
  pub dependencies : Map String
  pub entry : Option Entry
  pub desktop : Option Desktop
  pub platform : Option PlatformRequirements
