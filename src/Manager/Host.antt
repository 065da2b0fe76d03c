-- ===== src/Manager/Host.antt =====
-- crates/lar-manager/src/platform.rs: what the packages of an application need of the host.
use lar.Base.{String, List, [], ◌∷◌, map, Result, ok, err, map_err, ok_or, ◌>>=◌, if◌then◌else◌}
use lar.Package.Manifest.{PackageManifest}
use lar.Platform.{
  Capability, capability_as_str, ProbeResult, PlatformNeed, CheckReport, is_empty_need,
  collect_from_manifests, check_host_with, report_ok, requirements_not_met,
}
use lar.Resolver.Locked.{LockedPackage}
use lar.Store.World.{PackageDir}
use lar.Store.Read.{get, load_at}
use lar.Manager.Record.{InstallPackage, InstallRecord}
use lar.Manager.Home.{Fault, not_in_store, platform, package_fault, store_fault}

unfoldable pub manifests_for_packages :
    List PackageDir → List (String × String) → Result Fault (List PackageManifest)
unfolding get load_at
manifests_for_packages dirs [] = ok []
manifests_for_packages dirs ((id, version) ∷ packages) = do
  found ← map_err store_fault (get dirs id version)
  stored ← ok_or found (not_in_store id version)
  m ← map_err package_fault (load_at dirs stored.path)
  ms ← manifests_for_packages dirs packages
  ok (m ∷ ms)

unfoldable pub need_for_pairs : List PackageDir → List (String × String) → Result Fault PlatformNeed
unfolding manifests_for_packages collect_from_manifests
need_for_pairs dirs pairs = do
  manifests ← manifests_for_packages dirs pairs
  map_err platform (collect_from_manifests manifests)

unfoldable pub need_for_record : List PackageDir → InstallRecord → Result Fault PlatformNeed
unfolding need_for_pairs
need_for_record dirs record' =
    need_for_pairs dirs (map (λ (p : InstallPackage). (p.id, p.version)) record'.packages)

unfoldable pub need_for_lock_packages :
    List PackageDir → List LockedPackage → Result Fault PlatformNeed
unfolding need_for_pairs
need_for_lock_packages dirs packages =
    need_for_pairs dirs (map (λ (p : LockedPackage). (p.id, p.version)) packages)

-- The names of the capabilities.
unfoldable pub need_to_export_lists : PlatformNeed → List String × List String
need_to_export_lists need =
    (map capability_as_str need.requires, map capability_as_str need.optional)

module _ (probe : Capability → ProbeResult) where
  -- The error's text lists the missing requirements.
  unfoldable pub enforce_platform : PlatformNeed → Result Fault CheckReport
  unfolding check_host_with
  enforce_platform need =
      let report = check_host_with probe need in
      if report_ok report
      then ok report
      else err (platform (requirements_not_met report.missing_required))

  unfoldable pub enforce_for_record : List PackageDir → InstallRecord → Result Fault CheckReport
  unfolding need_for_record is_empty_need enforce_platform
  enforce_for_record dirs record' = do
    need ← need_for_record dirs record'
    (if is_empty_need need
        then ok (record { satisfied = []; missing_required = []; missing_optional = [] })
        else enforce_platform need)
