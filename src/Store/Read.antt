-- ===== src/Store/Read.antt =====
-- The reading operations of crates/lar-store/src/store.rs: `get`, `list`, `referrers`.
use lar.Base.{
  String, Bool, true, false, not, ◌&&◌, ◌||◌, Option, none, some, List, [], ◌∷◌, ◌==◌, str_lt,
  Result, ok, err, ok_or, map_err, ◌>>=◌, if◌then◌else◌,
}
use lar.Base.Map.{lookup}
use lar.Package.Error
use lar.Package.Error.{io}
use lar.Package.Manifest.{PackageManifest}
use lar.Store.World.{
  Content, no_toml, toml, PackageDir, StoredPackage, Fault, package_fault, missing_hash, is_hidden,
  find_dir,
}

-- `load_manifest` of the directory's `package.toml`.
unfoldable pub load_content : Content → Result Error.Error PackageManifest
load_content no_toml = err (io "package.toml")
load_content (toml r) = r

unfoldable pub read_stored_package : PackageDir → Result Fault StoredPackage
unfolding load_content
read_stored_package d = do
  m ← map_err package_fault (load_content d.content)
  hash ← ok_or m.meta.content_hash (missing_hash d.id d.version)
  ok (record {
    id = m.meta.id;
    version = m.meta.version;
    name = m.meta.name;
    content_hash = hash;
    path = (d.id, d.version);
  })

unfoldable pub get : List PackageDir → String → String → Result Fault (Option StoredPackage)
unfolding find_dir read_stored_package
get dirs id version = elim (find_dir dirs id version) [
  | none ↦ ok none
  | some d ↦ (do p ← read_stored_package d; ok (some p))
]

abbrev pub has_toml : Content → Bool
has_toml no_toml = false
has_toml (toml r) = true

-- What the two loops of `list` visit.
abbrev pub is_listed : PackageDir → Bool
is_listed d = not (is_hidden d.id) && not (is_hidden d.version) && has_toml d.content

unfoldable pub list_dirs : List PackageDir → Result Fault (List StoredPackage)
unfolding read_stored_package
list_dirs [] = ok []
list_dirs (d ∷ ds) =
    let rest = list_dirs ds in
    if is_listed d then (do p ← read_stored_package d; ps ← rest; ok (p ∷ ps)) else rest

-- The order of ids, then of versions.
abbrev pub package_lt : StoredPackage → StoredPackage → Bool
package_lt a b = str_lt a.id b.id || (a.id == b.id && str_lt a.version b.version)

unfoldable pub insert_package : StoredPackage → List StoredPackage → List StoredPackage
insert_package p [] = p ∷ []
insert_package p (q ∷ qs) =
    let rest = insert_package p qs in if package_lt q p then q ∷ rest else p ∷ q ∷ qs

-- `packages.sort_by(…)`, which is stable.
unfoldable pub sort_packages : List StoredPackage → List StoredPackage
unfolding insert_package
sort_packages [] = []
sort_packages (p ∷ ps) = insert_package p (sort_packages ps)

unfoldable pub list : List PackageDir → Result Fault (List StoredPackage)
unfolding list_dirs sort_packages
list dirs = do packages ← list_dirs dirs; ok (sort_packages packages)

-- `load_manifest(&pkg.path.join("package.toml"))`
unfoldable pub load_at : List PackageDir → String × String → Result Error.Error PackageManifest
unfolding find_dir load_content
load_at dirs (id, version) = elim (find_dir dirs id version) [
  | none ↦ err (io "package.toml")
  | some d ↦ load_content d.content
]

-- `manifest.dependencies.get(id).map(String::as_str) == Some(version)`
unfoldable pub depends_on : PackageManifest → String → String → Bool
unfolding lookup
depends_on m id version = elim (lookup m.dependencies id) [
  | none ↦ false
  | some req ↦ req == version
]

unfoldable pub dependents :
    List PackageDir → String → String → List StoredPackage → Result Fault (List StoredPackage)
unfolding load_at depends_on
dependents dirs id version [] = ok []
dependents dirs id version (p ∷ ps) =
    let rest = dependents dirs id version ps in
    if p.id == id && p.version == version then rest else do
      m ← map_err package_fault (load_at dirs p.path)
      found ← rest
      ok (if depends_on m id version then p ∷ found else found)

unfoldable pub referrers : List PackageDir → String → String → Result Fault (List StoredPackage)
unfolding list dependents
referrers dirs id version = do packages ← list dirs; dependents dirs id version packages
