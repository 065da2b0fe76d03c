-- ===== src/Manager/Home.antt =====
-- What crates/lar-manager reads and changes: the store's directories, the installs, the runtimes
-- and the configuration. Reads and writes of the file system succeed; a record file keeps its value.
pub mod Pinned
use lar.Base.{
  ℕ, String, Bool, true, false, not, ◌&&◌, ◌||◌, Option, none, some, List, [], ◌∷◌, ◌==◌, map,
  Result, Done, ok, err,
}
use lar.Package.Error as Package
use lar.Store.World as Store
use lar.Store.World.{PackageDir, World, InstallPinPackage, InstallPinFile, PinText, InstallDir}
use lar.Repo.Error as Repo
use lar.Repo.Sources as Sources
use lar.Repo.Sources.{SourcesFile}
use lar.Repo.Trust.{TrustFile}
use lar.Resolver.Lock as Resolver
use lar.Platform as Platform
use lar.Manager.Record.{InstallPackage, InstallRecord, Reason}

-- crates/lar-manager/src/error.rs; `io` and `other` by their messages.
pub data Fault : Type 0 where
  already_installed not_installed no_previous no_entry : String → Fault
  runtime_missing unknown_binary not_in_store : String → String → Fault
  ambiguous_version : String → List String → Fault
  hash_mismatch : String → String → String → String → Fault
  invalid_record : Reason → Fault
  platform : Platform.Fault → Fault
  package_fault : Package.Error → Fault
  resolver_fault : Resolver.Fault → Fault
  store_fault : Store.Fault → Fault
  repo_fault : Repo.Error → Fault
  sources_fault : Sources.Fault → Fault
  io runtime_fault other : String → Fault

-- A record file: absent, not a record, or read.
pub data RecordFile : Type 0 where
  absent unreadable : RecordFile
  holds : InstallRecord → RecordFile

-- A directory of `installs/`.
pub record AppDir : Type 0 where
  pub name : String
  pub install_toml : RecordFile
  pub previous_toml : RecordFile

-- `runtimes` are the names of the composed runtimes; `desk` is what exports and desktop entries are.
pub record Home (Desk : Type 0) : Type 0 where
  pub dirs : List PackageDir
  pub tmp_adds : List String
  pub apps : List AppDir
  pub runtimes : List String
  pub sources_toml : Option SourcesFile
  pub trust_toml : Option TrustFile
  pub desk : Desk

-- What crates/lar-store reads of a record file.
abbrev pub pin_package : InstallPackage → InstallPinPackage
pin_package p = record { id = p.id; version = p.version }

abbrev pub pin_text : RecordFile → PinText
pin_text absent = PinText.absent
pin_text unreadable = PinText.unreadable
pin_text (holds r) =
    PinText.read (record { format = r.format; id = r.id; packages = map pin_package r.packages })

abbrev pub pin_dir : AppDir → InstallDir
pin_dir a = record {
  name = a.name;
  install_toml = pin_text a.install_toml;
  previous_toml = pin_text a.previous_toml;
}

module _ {Desk : Type 0} where
  -- The home as crates/lar-store sees it, and what its operations leave of it.
  unfoldable pub world : Home Desk → World
  world h = record { dirs = h.dirs; tmp_adds = h.tmp_adds; installs = map pin_dir h.apps }

  unfoldable pub with_world : Home Desk → World → Home Desk
  with_world h w = record h { dirs = w.dirs; tmp_adds = w.tmp_adds }
