-- ===== src/Store/Pins.antt =====
-- crates/lar-store/src/install_pins.rs: the applications whose install records pin a package.
pub mod Recorded
use lar.Base.{
  ℕ, String, Bool, not, ◌&&◌, Option, none, some, List, [], ◌∷◌, ◌++◌, ◌==◌, nat_eq, str_lt,
  starts_with, any, filter, if◌then◌else◌,
}
use lar.Store.World.{
  InstallPinPackage, InstallPinFile, PinText, absent, unreadable, read, InstallDir, World,
  is_hidden,
}

abbrev pub install_format : ℕ
install_format = 1

-- `load_pin_file`, of which the caller drops the error.
unfoldable pub load_pin_file : PinText → Option InstallPinFile
load_pin_file absent = none
load_pin_file unreadable = none
load_pin_file (read pin) =
    if not (nat_eq pin.format 0) && not (nat_eq pin.format install_format)
    then none
    else if pin.id == ""
    then none
    else some pin

abbrev pub pins : String → String → InstallPinPackage → Bool
pins id version p = p.id == id && p.version == version

-- The application of a record that pins the package.
unfoldable pub pin_app : String → String → PinText → List String
unfolding load_pin_file any
pin_app id version text = elim (load_pin_file text) [
  | none ↦ []
  | some pin ↦ if any (pins id version) pin.packages then pin.id ∷ [] else []
]

unfoldable pub pin_apps : String → String → List InstallDir → List String
unfolding pin_app
pin_apps id version [] = []
pin_apps id version (d ∷ ds) =
    let rest = pin_apps id version ds in
    if is_hidden d.name
    then rest
    else pin_app id version d.install_toml ++ pin_app id version d.previous_toml ++ rest

-- A name put in its place of a sorted list without duplicates.
unfoldable pub insert_sorted : String → List String → List String
insert_sorted x [] = x ∷ []
insert_sorted x (y ∷ ys) =
    let rest = insert_sorted x ys in
    if x == y then y ∷ ys else if str_lt x y then x ∷ y ∷ ys else y ∷ rest

-- `apps.sort(); apps.dedup()`
unfoldable pub sort_dedup : List String → List String
unfolding insert_sorted
sort_dedup [] = []
sort_dedup (x ∷ xs) = insert_sorted x (sort_dedup xs)

unfoldable pub install_referrers : List InstallDir → String → String → List String
unfolding pin_apps sort_dedup
install_referrers installs id version = sort_dedup (pin_apps id version installs)

unfoldable pub cleanup_tmp_installs : World → World
unfolding filter
cleanup_tmp_installs w = record w {
  installs = filter (λ d. not (starts_with d.name ".tmp-install-")) w.installs;
}
