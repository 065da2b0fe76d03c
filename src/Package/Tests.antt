-- ===== src/Package/Tests.antt =====
-- The theorems on crates/lar-package at concrete inputs.
use lar.Base.{
  ℕ, none, some, List, [], ◌∷◌, ◌==◌, ◌≡◌, ◌≢◌, ◌↔◌, false, refl, codes, split, is_empty,
  if◌then◌else◌, ok, All, all, ends_with, is_blank, trim, contains,
}
use lar.Base.Hash.{is_content_hash}
use lar.Semver.{Semver, caret, triple_lt}
use lar.Package.Id.{validate_package_id}
use lar.Package.Id.Grammar.{IsPackageId, validate_package_id_iff}
use lar.Package.Manifest.{PackageManifest, PlatformRequirements}
use lar.Package.Manifest.Path.{
  slash, is_absolute, validate_relative_payload_path, normalize_payload_rel_path,
}
use lar.Package.Manifest.Path.Laws.{
  IsPlain, validate_relative_payload_path_iff, normalize_payload_rel_path_lem,
}
use lar.Package.Manifest.Platform.{validate_platform}
use lar.Package.Manifest.Platform.Laws.{IsPlatform, validate_platform_iff}
use lar.Package.Manifest.Validate.{validate_manifest, validate_entry, validate_dependencies}
use lar.Package.Manifest.Valid.{IsManifest, validate_manifest_iff}

validate_package_id_iff_example :
    (validate_package_id "org.example.app" ≡ ok tt) ↔ IsPackageId "org.example.app"
validate_package_id_iff_example = validate_package_id_iff "org.example.app"

validate_relative_payload_path_iff_example :
    (validate_relative_payload_path "bin/../app" "entry.default" ≡ ok tt) ↔ (
      (("bin/../app" == "") ≡ false)
      × (is_absolute (codes "bin/../app") ≡ false)
      × All (λ part. part ≢ b'.' ∷ b'.' ∷ []) (split slash (codes "bin/../app")))
validate_relative_payload_path_iff_example =
    validate_relative_payload_path_iff "bin/../app" "entry.default"

-- `./a//b`
abbrev loose_path : List ℕ
loose_path = b'.' ∷ b'/' ∷ b'a' ∷ b'/' ∷ b'/' ∷ b'b' ∷ []

normalize_payload_rel_path_lem_example :
    All IsPlain (split slash (b'a' ∷ b'/' ∷ b'b' ∷ []))
    × (normalize_payload_rel_path (b'a' ∷ b'/' ∷ b'b' ∷ []) ≡ ok (b'a' ∷ b'/' ∷ b'b' ∷ []))
unfolding normalize_payload_rel_path
normalize_payload_rel_path_lem_example =
    normalize_payload_rel_path_lem loose_path (b'a' ∷ b'/' ∷ b'b' ∷ []) refl

abbrev display : PlatformRequirements
display = record { requires = "wayland" ∷ []; optional = "vulkan" ∷ "dbus" ∷ [] }

validate_platform_iff_example : (validate_platform display ≡ ok tt) ↔ IsPlatform display
validate_platform_iff_example = validate_platform_iff display

-- A stand-in of the crate `semver` that knows one version and one requirement.
abbrev one_version : Semver
one_version = record {
  Version = ℕ;
  new = λ a b c. a;
  parse = λ s. if s == "1.0.0" then some 1 else none;
  show = λ v. "1.0.0";
  lt = λ v w. triple_lt v 0 0 w 0 0;
  parse_req = λ s.
      if is_empty s
      then none
      else some (record { op = caret; major = 1; minor = none; patch = none; pre = "" } ∷ []);
}

abbrev app : PackageManifest
app = record {
  meta = record {
    format = 1;
    id = "org.example.app";
    name = "App";
    version = "1.0.0";
    description = none;
    content_hash = some "blake3:aa";
  };
  dependencies = ("org.example.lib", "^1") ∷ [];
  entry = some (record { default = some "bin/app"; binaries = "bin/app" ∷ [] });
  desktop = none;
  platform = some display;
}

validate_manifest_iff_example :
    (validate_manifest one_version app ≡ ok tt) ↔ IsManifest one_version app
validate_manifest_iff_example = validate_manifest_iff one_version app

app_passes : validate_manifest one_version app ≡ ok tt
unfolding validate_manifest validate_package_id validate_entry validate_platform all ends_with
    is_blank is_content_hash validate_dependencies trim validate_relative_payload_path contains
app_passes = refl
