-- ===== src/Manager/Compose.antt =====
-- `compose_install` of crates/lar-manager/src/ops.rs: from the application's root to its record.
pub mod Laws
use lar.Base.{String, ◌<>◌, Option, true, List, Result, Done, ok, err, map_err}
use lar.Package.Manifest.{PackageManifest}
use lar.Resolver.Locked.{Lockfile}
use lar.Resolver.Lock as Lock
use lar.Resolver.Lock.{verify_lockfile_inner}
use lar.Runtime.Compose.{ComposeMode}
use lar.Store.World.{StoredPackage}
use lar.Store.Read.{load_at}
use lar.Manager.Record.{InstallPackage, InstallRecord, install_format, validate}
use lar.Manager.Home.{
  Fault, invalid_record, package_fault, resolver_fault, absent, Home, with_world,
}
use lar.Manager.Action.{Action, ◌>>=◌, ◌>>◌, return, reads, change, lift}
use lar.Manager.Host.{need_for_lock_packages, enforce_platform}
use lar.Manager.Installs.{without_app}
use lar.Manager.Pins.{packages_from_lock}
use lar.Manager.Replace.{set_app, dir}
use lar.Manager.Parts.{Parts}

-- The record of an application.
abbrev pub new_record : StoredPackage → ComposeMode → String → List InstallPackage → InstallRecord
new_record root compose runtime_id packages = record {
  format = install_format;
  id = root.id;
  version = root.version;
  content_hash = root.content_hash;
  runtime_id = runtime_id;
  compose = compose;
  packages = packages;
}

module _ {Desk : Type 0} (parts : Parts Desk) where
  -- The calls of `resolve_manifest` and `build`.
  unfoldable pub resolve : PackageManifest → Action Desk Lockfile
  unfolding with_world
  resolve manifest h = let (r, w) = parts.resolve_manifest h manifest in (r, with_world h w)

  unfoldable pub build_runtime : Lockfile → ComposeMode → Action Desk String
  build_runtime lock compose h =
      let (r, names) = parts.build h lock compose in (r, record h { runtimes = names })

  abbrev pub drop_app : String → Home Desk → Home Desk
  drop_app name h = record h { apps = without_app h.apps name }

  unfoldable pub compose_install : String → StoredPackage → ComposeMode → Action Desk InstallRecord
  unfolding load_at resolve verify_lockfile_inner need_for_lock_packages enforce_platform set_app
      Lock.validate build_runtime without_app packages_from_lock validate
  compose_install nanos root compose =
      let tmp = ".tmp-build-" <> nanos in
      (do
        manifest ← reads λ h. map_err package_fault (load_at h.dirs root.path)
        lock ← resolve manifest
        reads λ h. map_err resolver_fault (verify_lockfile_inner lock h.dirs true)
        need ← reads λ h. need_for_lock_packages h.dirs lock.packages
        report ← lift (enforce_platform parts.probe need)
        change (set_app (dir tmp absent absent))
        lift (map_err resolver_fault (Lock.validate lock))
        runtime_id ← build_runtime lock compose
        change (drop_app tmp)
        packages ← lift (packages_from_lock lock)
        lift (map_err invalid_record (validate (new_record root compose runtime_id packages)))
        return (new_record root compose runtime_id packages))
