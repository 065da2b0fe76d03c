-- ===== src/Store/Tests.antt =====
-- The theorems on crates/lar-store at concrete inputs.
use lar.Base.{suc, String, false, none, some, [], ◌∷◌, ◌≡◌, ◌≢◌, refl, ok, length}
use lar.Base.Map.{Map}
use lar.Store.World.{
  Content, toml, PackageDir, InstallDir, InstallPinFile, absent, read, World, StoredPackage,
  already_exists, in_use,
}
use lar.Store.Change.{add, remove, cascade_remove, start, out_of_fuel}
use lar.Store.Change.Added.{IsAdded, add-IsAdded, add_fails}
use lar.Store.Change.Removed.{remove_fails}
use lar.Store.Change.Ends.{cascade_remove-ne-out_of_fuel}

abbrev content : String → Map String → Content
content id deps = toml (
    ok (record {
      meta = record {
        format = 1;
        id = id;
        name = "Name";
        version = "1.0.0";
        description = none;
        content_hash = some "blake3:aa";
      };
      dependencies = deps;
      entry = none;
      desktop = none;
      platform = none;
    }))

abbrev stored : String → StoredPackage
stored id = record {
  id = id;
  version = "1.0.0";
  name = "Name";
  content_hash = "blake3:aa";
  path = (id, "1.0.0");
}

abbrev dir : String → Map String → PackageDir
dir id deps = record { id = id; version = "1.0.0"; content = content id deps }

-- `app` depends on `library`, and an install record pins `app`.
abbrev world : World
world = record {
  dirs = dir "app" (("library", "1.0.0") ∷ []) ∷ dir "library" [] ∷ dir "spare" [] ∷ [];
  tmp_adds = ".tmp-add-7" ∷ [];
  installs =
      record {
        name = "app";
        install_toml = read (record {
          format = 1;
          id = "app";
          packages = record { id = "app"; version = "1.0.0" } ∷ [];
        });
        previous_toml = absent;
      }
      ∷ [];
}

add-IsAdded_example : IsAdded world.dirs (add world (ok (content "new" []))).1.dirs (stored "new")
unfolding add
add-IsAdded_example = add-IsAdded world (ok (content "new" [])) (stored "new") refl

add_fails_example : (add world (ok (content "spare" []))).1.dirs ≡ world.dirs
unfolding add
add_fails_example = add_fails world (ok (content "spare" [])) (already_exists "spare" "1.0.0") refl

remove_fails_example : (remove world "library" "1.0.0" false).1.dirs ≡ world.dirs
unfolding remove
remove_fails_example =
    remove_fails world "library" "1.0.0" (in_use "library" "1.0.0" ("app 1.0.0" ∷ [])) refl

abbrev app_record : InstallPinFile
app_record = record {
  format = 1;
  id = "app";
  packages = record { id = "app"; version = "1.0.0" } ∷ [];
}

abbrev before : InstallDir
before = record { name = "app"; install_toml = absent; previous_toml = read app_record }

-- The record that pins `app` is the previous one.
abbrev rolled_back : World
rolled_back = record world { installs = before ∷ [] }

cascade_remove-ne-out_of_fuel_example :
    (cascade_remove world.installs (suc (length world.dirs)) "library" "1.0.0" (start world.dirs)).0
    ≢ out_of_fuel
cascade_remove-ne-out_of_fuel_example =
    cascade_remove-ne-out_of_fuel world.installs world.dirs "library" "1.0.0"
