-- ===== src/Store/World.antt =====
-- The directories of a store as crates/lar-store/src/store.rs reads them. Reads and writes of the
-- file system succeed; what a `package.toml` yields is kept as the result of `load_manifest`.
pub mod Laws
use lar.Base.{
  ℕ, String, Bool, true, false, ◌&&◌, ◌||◌, Option, List, [], ◌∷◌, ◌==◌, starts_with, Result, ok,
  err, find, not, filter,
}
use lar.Package.Error
use lar.Package.Manifest.{PackageManifest}

-- `{packages}/{id}/{version}`, with its `package.toml` if there is one.
pub data Content : Type 0 where
  no_toml : Content
  toml : Result Error.Error PackageManifest → Content

pub record PackageDir : Type 0 where
  pub id : String
  pub version : String
  pub content : Content

pub record InstallPinPackage : Type 0 where
  pub id : String
  pub version : String

pub record InstallPinFile : Type 0 where
  pub format : ℕ
  pub id : String
  pub packages : List InstallPinPackage

-- A record file of an install: absent, not readable as TOML, or read.
pub data PinText : Type 0 where
  absent unreadable : PinText
  read : InstallPinFile → PinText

pub record InstallDir : Type 0 where
  pub name : String
  pub install_toml : PinText
  pub previous_toml : PinText

-- `tmp_adds` are the entries `.tmp-add-*` of the package directory.
pub record World : Type 0 where
  pub dirs : List PackageDir
  pub tmp_adds : List String
  pub installs : List InstallDir

pub record StoredPackage : Type 0 where
  pub id : String
  pub version : String
  pub name : String
  pub content_hash : String
  -- the directory names of the source's `path`
  pub path : String × String

pub data Fault : Type 0 where
  already_exists not_found : String → String → Fault
  in_use : String → String → List String → Fault
  package_fault : Error.Error → Fault
  missing_hash : String → String → Fault
  -- no error of the source: the end of the model's fuel, which is not reached
  exhausted : Fault

-- `name.starts_with('.')`
abbrev pub is_hidden : String → Bool
is_hidden name = starts_with name "."

-- Whether a directory is that of a package version.
abbrev pub is_at : String → String → PackageDir → Bool
is_at id version d = d.id == id && d.version == version

unfoldable pub find_dir : List PackageDir → String → String → Option PackageDir
unfolding find
find_dir dirs id version = find (is_at id version) dirs

-- `fs::remove_dir_all` on a package version
unfoldable pub without_dir : List PackageDir → String → String → List PackageDir
unfolding filter
without_dir dirs id version = filter (λ d. not (is_at id version d)) dirs
