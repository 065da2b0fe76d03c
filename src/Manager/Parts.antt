-- ===== src/Manager/Parts.antt =====
-- What crates/lar-manager calls and the model of it keeps as a parameter: the resolver, the
-- runtimes, exports, desktop entries, archives, the host and the process that runs.
use lar.Base.{ℕ, String, Result, Done, Option, List}
use lar.Package.Manifest.{PackageManifest}
use lar.Platform.{Capability, ProbeResult}
use lar.Repo.Fetch.{Archive}
use lar.Resolver.Locked.{Lockfile}
use lar.Runtime.Compose.{ComposeMode}
use lar.Store.World.{World}
use lar.Manager.Record.{InstallRecord}
use lar.Manager.Home.{Home, Fault}

-- An operation answers with the part of the home that it changes.
pub record Parts (Desk : Type 0) : Type 0 where
  -- the archive at a path
  pub archive_at : String → Archive
  -- `lar_resolver::resolve_manifest`, which fetches into the store
  pub resolve_manifest : Home Desk → PackageManifest → Result Fault Lockfile × World
  -- `lar_runtime::build`: the runtime id, and the names of the runtimes
  pub build : Home Desk → Lockfile → ComposeMode → Result Fault String × List String
  -- `exports::publish` with the shadowed commands, and `desktop::publish`
  pub publish_exports : Home Desk → InstallRecord → Result Fault (List String) × Desk
  pub publish_desktop : Home Desk → InstallRecord → Result Fault Done × Desk
  -- `exports::remove` and `desktop::remove`
  pub remove_exports : Home Desk → String → Result Fault Done × Desk
  pub remove_desktop : Home Desk → String → Result Fault Done × Desk
  -- the probes of `lar_platform::check_host`
  pub probe : Capability → ProbeResult
  -- `ensure_libexec_lar_exec`
  pub ensure_libexec_lar_exec : Home Desk → Result Fault Done
  -- `run_runtime_entry` of a record, with binary and arguments, to the exit status
  pub run_runtime_entry : Home Desk → InstallRecord → Option String → List String → Result Fault ℕ
