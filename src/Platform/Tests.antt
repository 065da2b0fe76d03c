-- ===== src/Platform/Tests.antt =====
-- The theorems on crates/lar-platform at concrete inputs.
use lar.Base.{true, none, some, List, [], ◌∷◌, ◌≡◌, ◌↔◌, refl, ok, all}
use lar.Package.Manifest.{PackageManifest, PlatformRequirements}
use lar.Platform.{
  Capability, wayland, vulkan, dbus, ProbeResult, PlatformNeed, CheckReport, collect_from_manifests,
  ensure_host,
}
use lar.Platform.Needs.{AreApart, collect_from_manifests-AreApart}
use lar.Platform.Report.{ensure_host_iff}

abbrev manifest : PlatformRequirements → PackageManifest
manifest platform = record {
  meta = record {
    format = 1;
    id = "org.app";
    name = "App";
    version = "1.0.0";
    description = none;
    content_hash = none;
  };
  dependencies = [];
  entry = none;
  desktop = none;
  platform = some platform;
}

-- What is optional for the first is required by the second.
abbrev manifests : List PackageManifest
manifests =
    manifest (record { requires = "wayland" ∷ []; optional = "vulkan" ∷ [] })
    ∷ manifest (record { requires = "vulkan" ∷ []; optional = "dbus" ∷ [] })
    ∷ []

abbrev need : PlatformNeed
need = record { requires = wayland ∷ vulkan ∷ []; optional = dbus ∷ [] }

collect_from_manifests-AreApart_example : AreApart need
unfolding collect_from_manifests
collect_from_manifests-AreApart_example = collect_from_manifests-AreApart manifests need refl

abbrev all_present : Capability → ProbeResult
all_present cap = record { capability = cap; present = true; detail = "" }

ensure_host_iff_example :
    ((report : CheckReport) × (ensure_host all_present need ≡ ok report))
    ↔ (all (λ cap. (all_present cap).present) need.requires ≡ true)
ensure_host_iff_example = ensure_host_iff all_present need
