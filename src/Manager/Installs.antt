-- ===== src/Manager/Installs.antt =====
-- The install records of crates/lar-manager/src/ops.rs: reading them and listing them.
pub mod Loaded
use lar.Base.{
  String, Bool, true, false, not, ◌&&◌, ◌||◌, Option, none, some, List, [], ◌∷◌, ◌==◌, ◌<>◌, find,
  filter, starts_with, str_lt, Result, Done, ok, err, if◌then◌else◌, guard, map_err, ◌>>=◌, ◌>>◌,
}
use lar.Store.World.{is_hidden}
use lar.Manager.Record.{InstallRecord, id_mismatch, not_toml, validate}
use lar.Manager.Home.{
  Fault, not_installed, invalid_record, RecordFile, absent, unreadable, holds, AppDir,
}

abbrev pub is_app : String → AppDir → Bool
is_app name a = a.name == name

unfoldable pub find_app : List AppDir → String → Option AppDir
unfolding find
find_app apps name = find (is_app name) apps

-- `fs::remove_dir_all` on an install directory
unfoldable pub without_app : List AppDir → String → List AppDir
unfolding filter
without_app apps name = filter (λ a. not (is_app name a)) apps

-- A directory in the place of what had its name.
unfoldable pub put_app : AppDir → List AppDir → List AppDir
unfolding without_app
put_app a apps = a ∷ without_app apps a.name

-- `read_record` of a file that is there.
unfoldable pub read_record : RecordFile → String → Result Fault InstallRecord
unfolding validate
read_record absent app_id = err (invalid_record not_toml)
read_record unreadable app_id = err (invalid_record not_toml)
read_record (holds r) app_id = do
  map_err invalid_record (validate r)
  guard (r.id == app_id) (invalid_record (id_mismatch r.id app_id))
  ok r

abbrev pub install_file : Option AppDir → RecordFile
install_file none = absent
install_file (some a) = a.install_toml

abbrev pub previous_file : Option AppDir → RecordFile
previous_file none = absent
previous_file (some a) = a.previous_toml

-- `if !path.is_file() { … }` in front of `read_record`
unfoldable pub load_file : RecordFile → String → Result Fault InstallRecord
unfolding read_record
load_file absent app_id = err (not_installed app_id)
load_file unreadable app_id = read_record unreadable app_id
load_file (holds r) app_id = read_record (holds r) app_id

unfoldable pub load_previous_file : RecordFile → String → Result Fault (Option InstallRecord)
unfolding read_record
load_previous_file absent app_id = ok none
load_previous_file unreadable app_id = do r ← read_record unreadable app_id; ok (some r)
load_previous_file (holds r) app_id = do found ← read_record (holds r) app_id; ok (some found)

unfoldable pub load : List AppDir → String → Result Fault InstallRecord
unfolding find_app load_file
load apps app_id = load_file (install_file (find_app apps app_id)) app_id

unfoldable pub load_previous : List AppDir → String → Result Fault (Option InstallRecord)
unfolding find_app load_previous_file
load_previous apps app_id = load_previous_file (previous_file (find_app apps app_id)) app_id

abbrev pub is_present : RecordFile → Bool
is_present absent = false
is_present unreadable = true
is_present (holds r) = true

-- The loop of `list`.
unfoldable pub list_records : List AppDir → List AppDir → List InstallRecord
unfolding load
list_records apps [] = []
list_records apps (a ∷ rest) =
    let records = list_records apps rest in
    if is_hidden a.name || not (is_present a.install_toml)
    then records
    else elim (load apps a.name) [ ok r ↦ r ∷ records | err e ↦ records ]

unfoldable pub insert_record : InstallRecord → List InstallRecord → List InstallRecord
insert_record r [] = r ∷ []
insert_record r (s ∷ records) =
    let rest = insert_record r records in if str_lt s.id r.id then s ∷ rest else r ∷ s ∷ records

-- `out.sort_by(…)`, which is stable.
unfoldable pub sort_records : List InstallRecord → List InstallRecord
unfolding insert_record
sort_records [] = []
sort_records (r ∷ records) = insert_record r (sort_records records)
