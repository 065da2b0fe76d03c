-- ===== src/Store/Change/Pinned.antt =====
-- A package that an install record pins stays, whatever is removed.
use lar.Base.{String, false, List, ◌≡◌, is_empty}
use lar.Store.World.{PackageDir, InstallDir, World, find_dir}
use lar.Store.Pins.{install_referrers}

-- An application refers to the package.
abbrev IsReferred : List InstallDir → String → String → Type 0
IsReferred installs id version = is_empty (install_referrers installs id version) ≡ false

module _ (i v : String) where
  -- The directory of the package i, v is the same.
  abbrev Same : List PackageDir → List PackageDir → Type 0
  Same dirs dirs' = find_dir dirs' i v ≡ find_dir dirs i v
