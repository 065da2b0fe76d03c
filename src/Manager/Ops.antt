-- ===== src/Manager/Ops.antt =====
-- crates/lar-manager/src/ops.rs: install, update, rollback, launch and uninstall. `nanos` is the
-- clock's reading in the names of temporary directories.
pub mod Displaced
pub mod Installed
pub mod Newest
pub mod Rollback
use lar.Base.{
  ℕ, String, Bool, true, false, not, ◌&&◌, ◌||◌, Option, none, some, List, [], ◌∷◌, ◌==◌, any,
  contains, Result, Done, ok, err, map_err, ok_or, if◌then◌else◌,
}
use lar.Semver.{Semver}
use lar.Package.Manifest.{PackageManifest, Entry}
use lar.Repo.Trust.{Crypto}
use lar.Repo.Advisories.{Digest}
use lar.Repo.Fetch.{Network}
use lar.Runtime.Compose.{ComposeMode}
use lar.Store.World.{PackageDir, StoredPackage}
use lar.Store.Read.{get, load_at}
use lar.Manager.Record.{InstallRecord}
use lar.Manager.Source.{InstallSource, store}
use lar.Manager.Home.{
  Fault, already_installed, no_previous, no_entry, runtime_missing, unknown_binary, not_in_store,
  package_fault, store_fault, other, Home,
}
use lar.Manager.Action.{Action, ◌>>=◌, ◌>>◌, return, fail, reads, change, lift, check}
use lar.Manager.Compose.{compose_install}
use lar.Manager.Host.{enforce_for_record}
use lar.Manager.Installs.{find_app, install_file, is_present, load, load_previous, without_app}
use lar.Manager.Replace.{cleanup_tmp_installs, remove_runtime_dir, replace_install}
use lar.Manager.Parts.{Parts}
use lar.Manager.Root.{apps_versions_for, ensure_root}

pub record InstallOutcome : Type 0 where
  pub installed : InstallRecord
  pub replaced : Bool
  pub path_shadows : List String

pub data UpdateOutcome : Type 0 where
  up_to_date : InstallRecord → UpdateOutcome
  -- from, to, and the shadowed commands
  updated : InstallRecord → InstallRecord → List String → UpdateOutcome

pub record RollbackOutcome : Type 0 where
  pub active : InstallRecord
  pub previous : InstallRecord
  pub path_shadows : List String

-- The loop of `update` over the candidates, from the best one so far.
module _ (sv : Semver) where
  abbrev pub Best : Type 0
  Best = Option (sv.Version × String)

  unfoldable pub consider : sv.Version → String → Best → Best
  consider ver ver_str none = some (ver, ver_str)
  consider ver ver_str (some (prev, prev_str)) =
      if sv.lt prev ver then some (ver, ver_str) else some (prev, prev_str)

  -- The body of the loop: a version that is not newer than the current one is passed over.
  unfoldable pub consider_text : sv.Version → Best → String → Best
  unfolding consider
  consider_text current best ver_str = elim (sv.parse ver_str) [
    | none ↦ best
    | some ver ↦ if not (sv.lt current ver) then best else consider ver ver_str best
  ]

  unfoldable pub newest : sv.Version → Best → List String → Best
  unfolding consider_text
  newest current best [] = best
  newest current best (ver_str ∷ candidates) =
      newest current (consider_text current best ver_str) candidates

  unfoldable pub parse_semver : String → Result Fault sv.Version
  parse_semver version = ok_or (sv.parse version) (other version)

-- The ids of the runtimes that the new records do not use any more.
abbrev pub is_kept : InstallRecord → Option InstallRecord → InstallRecord → Bool
is_kept older none active = older.runtime_id == active.runtime_id
is_kept older (some displaced) active =
    older.runtime_id == active.runtime_id || displaced.runtime_id == older.runtime_id

abbrev pub is_replaced : Option InstallRecord → Bool
is_replaced none = false
is_replaced (some prev) = true

module _ {Desk : Type 0} where
  -- The record that an install displaces, and whether that is allowed.
  unfoldable pub displaced_install : String → Bool → Action Desk (Option InstallRecord)
  unfolding load find_app
  displaced_install id force h =
      if is_present (install_file (find_app h.apps id))
      then (elim (load h.apps id) [
        | err e ↦ (err e, h)
        | ok prev ↦ if force then (ok (some prev), h) else (err (already_installed id), h)
      ])
      else (ok none, h)

  -- `if replaced { load_previous(…)? } else { None }`
  unfoldable pub older_install : String → Option InstallRecord → Action Desk (Option InstallRecord)
  unfolding load_previous
  older_install id none = return none
  older_install id (some prev) = reads λ h. load_previous h.apps id

  -- The runtime of the record that is displaced twice.
  unfoldable pub drop_older :
      Option InstallRecord → Option InstallRecord → InstallRecord → Home Desk → Home Desk
  unfolding remove_runtime_dir
  drop_older none displaced active h = h
  drop_older (some older) displaced active h =
      if is_kept older displaced active then h else remove_runtime_dir older.runtime_id h

  -- Both runtimes of an install.
  unfoldable pub drop_runtimes : InstallRecord → Option InstallRecord → Home Desk → Home Desk
  unfolding remove_runtime_dir
  drop_runtimes active none h = remove_runtime_dir active.runtime_id h
  drop_runtimes active (some prev) h =
      let h' = remove_runtime_dir active.runtime_id h in
      if prev.runtime_id == active.runtime_id then h' else remove_runtime_dir prev.runtime_id h'

module _ {Desk : Type 0} (parts : Parts Desk) where
  -- The calls of `exports::publish` and `desktop::publish`, and of what removes them.
  unfoldable pub publish_exports : InstallRecord → Action Desk (List String)
  publish_exports r h =
      let (out, desk) = parts.publish_exports h r in (out, record h { desk = desk })

  unfoldable pub publish_desktop : InstallRecord → Action Desk Done
  publish_desktop r h =
      let (out, desk) = parts.publish_desktop h r in (out, record h { desk = desk })

  unfoldable pub remove_desktop : String → Action Desk Done
  remove_desktop app_id h =
      let (out, desk) = parts.remove_desktop h app_id in (out, record h { desk = desk })

  unfoldable pub remove_exports : String → Action Desk Done
  remove_exports app_id h =
      let (out, desk) = parts.remove_exports h app_id in (out, record h { desk = desk })

  unfoldable pub publish : InstallRecord → Action Desk (List String)
  unfolding publish_exports publish_desktop
  publish r = do shadows ← publish_exports r; publish_desktop r; return shadows

  unfoldable pub rollback : String → String → Action Desk RollbackOutcome
  unfolding cleanup_tmp_installs load load_previous replace_install publish
  rollback nanos app_id = do
    change cleanup_tmp_installs
    active ← reads λ h. load h.apps app_id
    found ← reads λ h. load_previous h.apps app_id
    previous ← lift (ok_or found (no_previous app_id))
    replace_install nanos app_id previous (some active)
    shadows ← publish previous
    return (record { active = previous; previous = active; path_shadows = shadows })

  unfoldable pub uninstall : String → Action Desk InstallRecord
  unfolding cleanup_tmp_installs load load_previous remove_desktop remove_exports drop_runtimes
  uninstall app_id = do
    change cleanup_tmp_installs
    active ← reads λ h. load h.apps app_id
    previous ← reads λ h. load_previous h.apps app_id
    remove_desktop app_id
    remove_exports app_id
    change (drop_runtimes active previous)
    change λ h. record h { apps = without_app h.apps app_id }
    return active

  abbrev pub binary_name : Option String → String
  binary_name none = ""
  binary_name (some rel) = rel

  -- `entry.binaries` has the binary that is asked for.
  abbrev pub has_binary : Entry → Option String → Bool
  has_binary entry none = true
  has_binary entry (some rel) = any (λ b. b == rel) entry.binaries

  unfoldable pub launch : String → Option String → List String → Action Desk ℕ
  unfolding cleanup_tmp_installs load get load_at enforce_for_record any contains
  launch app_id binary args = do
    change cleanup_tmp_installs
    reads parts.ensure_libexec_lar_exec
    active ← reads λ h. load h.apps app_id
    runtimes ← reads λ h. ok h.runtimes
    check (contains runtimes active.runtime_id) (runtime_missing app_id active.runtime_id)
    found ← reads λ h. map_err store_fault (get h.dirs active.id active.version)
    root ← lift (ok_or found (not_in_store active.id active.version))
    manifest ← reads λ h. map_err package_fault (load_at h.dirs root.path)
    entry ← lift (ok_or manifest.entry (no_entry app_id))
    check (has_binary entry binary) (unknown_binary app_id (binary_name binary))
    report ← reads λ h. enforce_for_record parts.probe h.dirs active
    reads λ h. parts.run_runtime_entry h active binary args

  module _ (crypto : Crypto) (digest : Digest) (net : Network) where
    unfoldable pub install :
        String → InstallSource → ComposeMode → Bool → Action Desk InstallOutcome
    unfolding cleanup_tmp_installs ensure_root displaced_install older_install compose_install
        replace_install publish drop_older
    install nanos source compose force = do
      change cleanup_tmp_installs
      root ← ensure_root crypto digest net parts source
      displaced ← displaced_install root.id force
      older ← older_install root.id displaced
      active ← compose_install parts nanos root compose
      replace_install nanos active.id active displaced
      shadows ← publish active
      change (drop_older older displaced active)
      return
          (record { installed = active; replaced = is_replaced displaced; path_shadows = shadows })

    module _ (sv : Semver) where
      -- The part of `update` behind the choice of a newer version.
      unfoldable pub update_to :
          String → String → InstallRecord → String → Action Desk UpdateOutcome
      unfolding load_previous ensure_root compose_install replace_install publish drop_older
      update_to nanos app_id current newer = do
        older ← reads λ h. load_previous h.apps app_id
        root ← ensure_root crypto digest net parts (store app_id (some newer))
        active ← compose_install parts nanos root current.compose
        replace_install nanos active.id active (some current)
        shadows ← publish active
        change (drop_older older (some current) active)
        return (updated current active shadows)

      unfoldable pub update_if_newer :
          String → String → InstallRecord → Best sv → Action Desk UpdateOutcome
      unfolding update_to
      update_if_newer nanos app_id current none = return (up_to_date current)
      update_if_newer nanos app_id current (some (ver, newer)) =
          update_to nanos app_id current newer

      unfoldable pub update : String → String → Action Desk UpdateOutcome
      unfolding cleanup_tmp_installs load apps_versions_for newest parse_semver update_if_newer
      update nanos app_id = do
        change cleanup_tmp_installs
        current ← reads λ h. load h.apps app_id
        current_ver ← lift (parse_semver sv current.version)
        candidates ← reads λ h. apps_versions_for crypto digest net h.sources_toml app_id
        update_if_newer nanos app_id current (newest sv current_ver none candidates)
