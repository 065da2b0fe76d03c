-- ===== src/Runtime/Tests.antt =====
-- The theorems on crates/lar-runtime at concrete inputs.
use lar.Base.{
  String, Option, none, some, List, [], ◌∷◌, ◌==◌, ◌≡◌, ◌↔◌, refl, ok, err, if◌then◌else◌,
}
use lar.Base.Map.{Map, lookup, insert}
use lar.Package.Manifest.{PackageManifest}
use lar.Resolver.Locked.{LockedPackage, Lockfile}
use lar.Runtime.Build.{Listing, done, file_entry, dir_entry, Placed, path_conflict, compose_files}
use lar.Runtime.Build.Merged.{IsOfOne, compose_files_iff}
use lar.Runtime.Compose.{symlink, hardlink, as_str, from_str}
use lar.Runtime.Compose.{from_str_iff}
use lar.Store.World.{PackageDir, toml}

from_str_iff_example : (from_str "hardlink" ≡ ok hardlink) ↔ (as_str hardlink ≡ "hardlink")
from_str_iff_example = from_str_iff "hardlink" hardlink

abbrev manifest : String → PackageManifest
manifest id = record {
  meta = record {
    format = 1;
    id = id;
    name = "Name";
    version = "1";
    description = none;
    content_hash = some "blake3:aa";
  };
  dependencies = [];
  entry = none;
  desktop = none;
  platform = none;
}

abbrev locked : String → LockedPackage
locked id = record { id = id; version = "1"; content_hash = some "blake3:aa"; dependencies = [] }

abbrev stored : String → PackageDir
stored id = record { id = id; version = "1"; content = toml (ok (manifest id)) }

-- The library stands in front of the application, behind which it is sorted.
abbrev lock : Lockfile
lock = record {
  format = 1;
  root = record { id = "org.app"; version = "1" };
  packages = locked "org.lib" ∷ locked "org.app" ∷ [];
}

abbrev dirs : List PackageDir
dirs = stored "org.app" ∷ stored "org.lib" ∷ []

abbrev files_at : Listing → String × String → Option Listing
files_at library (id, version) =
    if id == "org.app" then some (dir_entry "bin" (file_entry "app" done) done) else some library

abbrev placed : String → String → String → Placed
placed label id path = record { label = label; compose = symlink; src = ((id, "1"), path) }

abbrev out : Map Placed
out =
    ("bin/app", placed "org.app 1" "org.app" "bin/app")
    ∷ ("bin/tool", placed "org.lib 1" "org.lib" "bin/tool")
    ∷ []

is_composed :
    compose_files dirs (files_at (dir_entry "bin" (file_entry "tool" done) done)) symlink lock
    ≡ ok out
unfolding compose_files insert
is_composed = refl

compose_files_iff_example :
    (lookup out "bin/tool" ≡ some (placed "org.lib 1" "org.lib" "bin/tool"))
    ↔ IsOfOne dirs
        (files_at (dir_entry "bin" (file_entry "tool" done) done))
        symlink
        lock.packages
        "bin/tool"
        (placed "org.lib 1" "org.lib" "bin/tool")
compose_files_iff_example =
    compose_files_iff dirs (files_at (dir_entry "bin" (file_entry "tool" done) done)) symlink lock
      out is_composed "bin/tool" (placed "org.lib 1" "org.lib" "bin/tool")

-- Two packages with a file at one path.
conflict_is_found :
    compose_files dirs (files_at (dir_entry "bin" (file_entry "app" done) done)) symlink lock
    ≡ err (path_conflict "bin/app" "org.app 1" "org.lib 1")
unfolding compose_files insert
conflict_is_found = refl
