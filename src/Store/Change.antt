-- ===== src/Store/Change.antt =====
-- The changing operations of crates/lar-store/src/store.rs: `add`, `remove`, `cascade_remove`. An
-- operation returns its result and the directories that it leaves, also where it fails.
pub mod Added
pub mod Pinned
pub mod Removed
pub mod Ends
use lar.Base.{
  ℕ, zero, suc, String, Bool, true, false, not, ◌&&◌, ◌||◌, Option, none, some, List, [], ◌∷◌, ◌++◌,
  ◌==◌, starts_with, Result, Done, ok, err, map_err, ◌>>=◌, if◌then◌else◌, any, filter, is_empty,
  length, map, ◌<>◌,
}
use lar.Package.Error
use lar.Package.Manifest.{PackageManifest}
use lar.Store.World.{
  Content, toml, PackageDir, InstallDir, World, StoredPackage, Fault, already_exists, not_found,
  in_use, package_fault, exhausted, is_at, find_dir, without_dir,
}
use lar.Store.Pins.{install_referrers, cleanup_tmp_installs}
use lar.Store.Read.{read_stored_package, get, referrers}

unfoldable pub cleanup_tmp_adds : World → World
unfolding filter
cleanup_tmp_adds w = record w {
  tmp_adds = filter (λ name. not (starts_with name ".tmp-add-")) w.tmp_adds;
}

-- `fs::rename` of the extracted package to its place; `extracted` is what `extract` of the archive
-- returns: an error, or the content of the new directory.
unfoldable pub place : List PackageDir → Content → Result Fault StoredPackage × List PackageDir
unfolding read_stored_package find_dir
place dirs content =
    elim (read_stored_package (record { id = ""; version = ""; content = content })) [
      | err e ↦ (err e, dirs)
      | ok staged ↦
          let d : PackageDir = record {
            id = staged.id;
            version = staged.version;
            content = content;
          } in
          elim (find_dir dirs staged.id staged.version) [
            | some _ ↦ (err (already_exists staged.id staged.version), dirs)
            | none ↦ (read_stored_package d, d ∷ dirs)
          ]
    ]

unfoldable pub add : World → Result Error.Error Content → Result Fault StoredPackage × World
unfolding cleanup_tmp_adds place
add w extracted =
    let w' = cleanup_tmp_adds w in
    elim extracted [
      | err e ↦ (err (package_fault e), w')
      | ok content ↦ let (r, dirs) = place w'.dirs content in (r, record w' { dirs = dirs })
    ]

unfoldable pub refuse_if_install_pinned : List InstallDir → String → String → Result Fault Done
unfolding install_referrers
refuse_if_install_pinned installs id version =
    let apps = install_referrers installs id version in
    if is_empty apps then ok tt else err (in_use id version (map (λ app. "install:" <> app) apps))

unfoldable pub remove_one :
    List PackageDir → String → String → Result Fault StoredPackage × List PackageDir
unfolding find_dir read_stored_package without_dir
remove_one dirs id version = elim (find_dir dirs id version) [
  | none ↦ (err (not_found id version), dirs)
  | some d ↦ elim (read_stored_package d) [
    | err e ↦ (err e, dirs)
    | ok stored ↦ (ok stored, without_dir dirs id version)
  ]
]

-- `visiting` holds the keys `(id, version)`.
pub record Cascade : Type 0 where
  pub dirs : List PackageDir
  pub visiting : List (String × String)
  pub removed : List StoredPackage

pub data Step : Type 0 where
  going : Step
  failed : Fault → Step
  out_of_fuel : Step

abbrev pub and_then : Step × Cascade → (Cascade → Step × Cascade) → Step × Cascade
and_then (going, s) k = k s
and_then (failed e, s) k = (failed e, s)
and_then (out_of_fuel, s) k = (out_of_fuel, s)

-- `let a = r?; …`
abbrev pub with_ok {ℓ} :
    {A : Type ℓ} → Result Fault A → Cascade → (A → Step × Cascade) → Step × Cascade
with_ok (ok a) s k = k a
with_ok (err e) s k = (failed e, s)

-- `if let Some(p) = found { … }`
abbrev pub if_present :
    Option StoredPackage → Cascade → (StoredPackage → Step × Cascade) → Step × Cascade
if_present none s k = (going, s)
if_present (some p) s k = k p

unfoldable pub visits : List (String × String) → String → String → Bool
unfolding any
visits visiting id version = any (λ (i, v). i == id && v == version) visiting

unfoldable pub each :
    (StoredPackage → Cascade → Step × Cascade) → List StoredPackage → Cascade → Step × Cascade
each f [] s = (going, s)
each f (p ∷ ps) s = and_then (f p s) (each f ps)

-- `if self.get(id, version)?.is_some() { removed.push(self.remove_one(id, version)?) }`
unfoldable pub drop_package : String → String → Cascade → Step × Cascade
unfolding get remove_one
drop_package id version s = with_ok (get s.dirs id version) s λ found. if_present found s λ _.
    let (r, dirs) = remove_one s.dirs id version in
    with_ok r s λ stored. (going, record s { dirs = dirs; removed = s.removed ++ stored ∷ [] })

module _ (installs : List InstallDir) where
  unfoldable pub cascade_remove : ℕ → String → String → Cascade → Step × Cascade
  unfolding visits each drop_package get referrers refuse_if_install_pinned
  cascade_remove zero id version s = (out_of_fuel, s)
  cascade_remove (suc fuel) id version s =
      let step = λ (p : StoredPackage). cascade_remove fuel p.id p.version in
      let entered = record s { visiting = (id, version) ∷ s.visiting } in
      let enter = λ (p : StoredPackage).
        with_ok (refuse_if_install_pinned installs id version) entered λ _.
          with_ok (referrers s.dirs id version) entered
            λ rs. and_then (each step rs entered) (drop_package id version) in
      if visits s.visiting id version
      then (going, s)
      else with_ok (get s.dirs id version) s λ found. if_present found s enter

-- The result of the forced branch of `remove`.
abbrev pub finish_cascade :
    String → String → Step × Cascade → Result Fault (List StoredPackage) × List PackageDir
finish_cascade id version (going, s) =
    (if is_empty s.removed then err (not_found id version) else ok s.removed, s.dirs)
finish_cascade id version (failed e, s) = (err e, s.dirs)
finish_cascade id version (out_of_fuel, s) = (err exhausted, s.dirs)

-- The keys that `InUse` lists.
abbrev pub describe : StoredPackage → String
describe p = p.id <> (" " <> p.version)

-- The other branch: nothing may depend on the package.
unfoldable pub remove_unused :
    List PackageDir → String → String → Result Fault (List StoredPackage) × List PackageDir
unfolding find_dir referrers remove_one
remove_unused dirs id version = elim (find_dir dirs id version) [
  | none ↦ (err (not_found id version), dirs)
  | some _ ↦ elim (referrers dirs id version) [
    | err e ↦ (err e, dirs)
    | ok (p ∷ ps) ↦ (err (in_use id version (map describe (p ∷ ps))), dirs)
    | ok [] ↦
        let (r, dirs') = remove_one dirs id version in ((do stored ← r; ok (stored ∷ [])), dirs')
  ]
]

abbrev pub start : List PackageDir → Cascade
start dirs = record { dirs = dirs; visiting = []; removed = [] }

-- One call more deep than there are packages.
unfoldable pub remove_forced :
    List InstallDir
    → List PackageDir
    → String
    → String
    → Result Fault (List StoredPackage) × List PackageDir
unfolding cascade_remove
remove_forced installs dirs id version =
    finish_cascade id version (cascade_remove installs (suc (length dirs)) id version (start dirs))

unfoldable pub remove_dirs :
    List InstallDir
    → List PackageDir
    → String
    → String
    → Bool
    → Result Fault (List StoredPackage) × List PackageDir
unfolding refuse_if_install_pinned remove_unused remove_forced
remove_dirs installs dirs id version force = elim (refuse_if_install_pinned installs id version) [
  | err e ↦ (err e, dirs)
  | ok _ ↦ if force then remove_forced installs dirs id version else remove_unused dirs id version
]

-- The two clean-ups find nothing when they are called again further down.
unfoldable pub remove : World → String → String → Bool → Result Fault (List StoredPackage) × World
unfolding remove_dirs cleanup_tmp_adds cleanup_tmp_installs
remove w id version force =
    let w' = cleanup_tmp_installs (cleanup_tmp_adds w) in
    let (r, dirs) = remove_dirs w'.installs w'.dirs id version force in
    (r, record w' { dirs = dirs })
