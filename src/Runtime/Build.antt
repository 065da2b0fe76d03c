-- ===== src/Runtime/Build.antt =====
-- `compose_files` and `link_tree` of crates/lar-runtime/src/build.rs: the files of a runtime from
-- those of its packages.
pub mod Linked
pub mod Merged
use lar.Base.{
  String, Bool, true, false, ◌||◌, Option, none, some, List, [], ◌∷◌, ◌==◌, ◌<>◌, any, starts_with,
  Result, ok, err, ok_or, map_err, ◌>>=◌, if◌then◌else◌,
}
use lar.Base.Map.{Map, lookup, insert, keys}
use lar.Resolver.Locked.{LockedPackage, Lockfile}
use lar.Resolver.Resolve.{locked_lt}
use lar.Runtime.Compose.{ComposeMode}
use lar.Store.Read.{get}
use lar.Store.World as Store
use lar.Store.World.{PackageDir, StoredPackage}

-- What `read_dir` lists, in its order: files, directories, and entries of another type.
pub data Listing : Type 0 where
  done : Listing
  file_entry other_entry : String → Listing → Listing
  dir_entry : String → Listing → Listing → Listing

pub data Fault : Type 0 where
  path_conflict : String → String → String → Fault
  unsupported : String → Fault
  io : String → Fault
  store_fault : Store.Fault → Fault

-- A file of the runtime: the label of its package, and what `place_file` was given.
pub record Placed : Type 0 where
  pub label : String
  pub compose : ComposeMode
  pub src : (String × String) × String

-- `normalize_rel` of the path of an entry in a directory, whose parts are names.
abbrev pub rel_path : String → String → String
rel_path dir name = if dir == "" then name else dir <> ("/" <> name)

-- A file is in the way: `create_dir_all` or `place_file` fails where one of the two paths is a
-- directory of the other.
abbrev pub in_the_way : String → String → Bool
in_the_way path q = starts_with path (q <> "/") || starts_with q (path <> "/")

-- `claimed` and the files of the runtime: the keys are their paths.
unfoldable pub place : String → Placed → Map Placed → Result Fault (Map Placed)
unfolding lookup insert keys any
place path file claimed = elim (lookup claimed path) [
  | some first ↦ err (path_conflict path first.label file.label)
  | none ↦
      if any (in_the_way path) (keys claimed) then err (io path) else ok (insert claimed path file)
]

module _ (compose : ComposeMode) (label : String) (root : String × String) where
  abbrev pub placed : String → Placed
  placed path = record { label = label; compose = compose; src = (root, path) }

  unfoldable pub link_tree : String → Listing → Map Placed → Result Fault (Map Placed)
  unfolding place
  link_tree dir done claimed = ok claimed
  link_tree dir (file_entry name rest) claimed = do
    claimed' ← place (rel_path dir name) (placed (rel_path dir name)) claimed
    link_tree dir rest claimed'
  link_tree dir (other_entry name rest) claimed = err (unsupported (rel_path dir name))
  link_tree dir (dir_entry name inside rest) claimed = do
    claimed' ← link_tree (rel_path dir name) inside claimed
    link_tree dir rest claimed'

-- `packages.sort_by(…)`, which is stable.
unfoldable pub insert_package : LockedPackage → List LockedPackage → List LockedPackage
insert_package p [] = p ∷ []
insert_package p (q ∷ qs) =
    let rest = insert_package p qs in if locked_lt q p then q ∷ rest else p ∷ q ∷ qs

unfoldable pub sort_packages : List LockedPackage → List LockedPackage
unfolding insert_package
sort_packages [] = []
sort_packages (p ∷ ps) = insert_package p (sort_packages ps)

-- The name of a package in messages.
abbrev pub label_of : LockedPackage → String
label_of p = p.id <> (" " <> p.version)

-- `files_at` is what the file system has at `files` in the directory of a stored package.
module _ (dirs : List PackageDir) (files_at : String × String → Option Listing)
    (compose : ComposeMode) where
  abbrev pub link_files : LockedPackage → StoredPackage → Map Placed → Result Fault (Map Placed)
  link_files p stored claimed = elim (files_at stored.path) [
    | none ↦ ok claimed
    | some listing ↦ link_tree compose (label_of p) stored.path "" listing claimed
  ]

  unfoldable pub link_packages : List LockedPackage → Map Placed → Result Fault (Map Placed)
  unfolding get link_tree
  link_packages [] claimed = ok claimed
  link_packages (p ∷ ps) claimed = do
    found ← map_err store_fault (get dirs p.id p.version)
    stored ← ok_or found (store_fault (Store.not_found p.id p.version))
    claimed' ← link_files p stored claimed
    link_packages ps claimed'

  unfoldable pub compose_files : Lockfile → Result Fault (Map Placed)
  unfolding sort_packages link_packages
  compose_files lock = link_packages (sort_packages lock.packages) []
