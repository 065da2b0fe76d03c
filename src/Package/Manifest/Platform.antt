-- ===== src/Package/Manifest/Platform.antt =====
-- The `[platform]` table: `validate_platform` and `validate_platform_list`.
pub mod Laws
use lar.Base.{
  String, Bool, true, false, not, ◌&&◌, List, [], ◌∷◌, contains, codes, is_blank, is_empty, Result,
  Done, ok, err, guard, ◌>>=◌, ◌>>◌,
}
use lar.Package.Error.{
  Error, validation, capability_empty, capability_unknown, capability_duplicate, capability_both,
}
use lar.Package.Manifest.{PlatformRequirements}

abbrev pub platform_capabilities : List String
platform_capabilities =
    "wayland" ∷ "x11" ∷ "vulkan" ∷ "opengl" ∷ "dbus" ∷ "dri" ∷ "systemd-user" ∷ []

unfoldable pub is_empty_platform : PlatformRequirements → Bool
is_empty_platform p = is_empty p.requires && is_empty p.optional

-- The loop of `validate_platform_list`; `seen` is the set of the capabilities before.
unfoldable pub validate_from : String → List String → List String → Result Error Done
validate_from label seen [] = ok tt
validate_from label seen (cap ∷ list) = do
  guard (not (is_blank (codes cap))) (validation (capability_empty label))
  guard (contains platform_capabilities cap) (validation (capability_unknown cap))
  guard (not (contains seen cap)) (validation (capability_duplicate cap label))
  validate_from label (cap ∷ seen) list

unfoldable pub validate_platform_list : List String → String → Result Error Done
unfolding validate_from
validate_platform_list list label = validate_from label [] list

unfoldable pub validate_disjoint : List String → List String → Result Error Done
validate_disjoint requires [] = ok tt
validate_disjoint requires (cap ∷ optional) = do
  guard (not (contains requires cap)) (validation (capability_both cap))
  validate_disjoint requires optional

unfoldable pub validate_platform : PlatformRequirements → Result Error Done
unfolding validate_platform_list validate_disjoint
validate_platform p = do
  validate_platform_list p.requires "platform.requires"
  validate_platform_list p.optional "platform.optional"
  validate_disjoint p.requires p.optional
