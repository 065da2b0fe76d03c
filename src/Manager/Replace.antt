-- ===== src/Manager/Replace.antt =====
-- The changes of crates/lar-manager/src/ops.rs to `installs/` and to `runtimes/`.
pub mod Laws
pub mod Outcome
pub mod Accepted
use lar.Base.{
  String, Bool, true, false, not, ◌&&◌, ◌||◌, Option, none, some, List, [], ◌∷◌, ◌==◌, ◌<>◌, find,
  filter, starts_with, Result, Done, ok, err, if◌then◌else◌, map_err,
}
use lar.Manager.Record.{InstallRecord, validate}
use lar.Manager.Home.{Fault, invalid_record, RecordFile, absent, unreadable, holds, AppDir, Home}
use lar.Manager.Action.{Action, ◌>>=◌, ◌>>◌, return, change, lift}
use lar.Manager.Installs.{without_app, put_app, list_records, sort_records}

abbrev pub is_tmp_install : String → Bool
is_tmp_install name = starts_with name ".tmp-install-" || starts_with name ".tmp-build-"

-- The file of `previous.toml`, where one is written.
abbrev pub stash : Option InstallRecord → RecordFile
stash none = absent
stash (some prev) = holds prev

abbrev pub dir : String → RecordFile → RecordFile → AppDir
dir name installed stashed = record {
  name = name;
  install_toml = installed;
  previous_toml = stashed;
}

module _ {Desk : Type 0} where
  unfoldable pub cleanup_tmp_installs : Home Desk → Home Desk
  unfolding filter
  cleanup_tmp_installs h = record h { apps = filter (λ a. not (is_tmp_install a.name)) h.apps }

  unfoldable pub list : Home Desk → List InstallRecord × Home Desk
  unfolding cleanup_tmp_installs list_records sort_records
  list h = let h' = cleanup_tmp_installs h in (sort_records (list_records h'.apps h'.apps), h')

  unfoldable pub remove_runtime_dir : String → Home Desk → Home Desk
  unfolding filter
  remove_runtime_dir runtime_id h =
      if runtime_id == ""
      then h
      else record h { runtimes = filter (λ name. not (name == runtime_id)) h.runtimes }

  unfoldable pub set_app : AppDir → Home Desk → Home Desk
  unfolding put_app
  set_app a h = record h { apps = put_app a h.apps }

  -- `write_record` of the file that a directory holds next; the text written is the record.
  unfoldable pub write_record : AppDir → InstallRecord → Action Desk Done
  unfolding validate set_app
  write_record a r = do lift (map_err invalid_record (validate r)); change (set_app a)

  -- `fs::rename` of the directory `tmp` to its place, from which a directory was removed.
  unfoldable pub rename : String → AppDir → Home Desk → Home Desk
  unfolding put_app without_app
  rename tmp a h = record h { apps = put_app a (without_app h.apps tmp) }

  unfoldable pub write_stash : AppDir → Option InstallRecord → Action Desk Done
  unfolding write_record
  write_stash a none = return tt
  write_stash a (some prev) = write_record a prev

  -- The directory `.tmp-install-{nanos}` is made, filled, and takes the place of the install.
  unfoldable pub replace_install :
      String → String → InstallRecord → Option InstallRecord → Action Desk Done
  unfolding set_app write_record write_stash rename
  replace_install nanos app_id active previous =
      let tmp = ".tmp-install-" <> nanos in
      (do
        change (set_app (dir tmp absent absent))
        write_record (dir tmp (holds active) absent) active
        write_stash (dir tmp (holds active) (stash previous)) previous
        change (rename tmp (dir app_id (holds active) (stash previous))))
