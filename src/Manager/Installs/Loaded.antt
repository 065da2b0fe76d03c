-- ===== src/Manager/Installs/Loaded.antt =====
-- What a record that was loaded says of the directory, and the other way round.
use lar.Base.{
  String, true, Option, none, some, List, ◌==◌, ◌≡◌, ◌≢◌, refl, sym, ap, ◌∙◌, subst, eq_iff,
  find-some, Option-cases, inl, inr, ok, guard-eq-ok, >>=-eq-ok, map_err, map_err-ok,
}
use lar.Manager.Record.{InstallRecord, validate}
use lar.Manager.Home.{RecordFile, absent, unreadable, holds, AppDir, invalid_record}
use lar.Manager.Installs.{
  is_app, find_app, install_file, previous_file, read_record, load_file, load_previous_file, load,
  load_previous,
}
use lar.Manager.Replace.{stash, dir}
use lar.Manager.Replace.Outcome.{IsValid}

-- A record that belongs in the directory of the application.
abbrev pub IsRecord : String → InstallRecord → Type 0
IsRecord app_id r = IsValid r × (r.id ≡ app_id)

pub read_record-IsRecord :
    (r : InstallRecord) (app_id : String) → IsRecord app_id r → read_record (holds r) app_id ≡ ok r
unfolding read_record
read_record-IsRecord r app_id (v, e) =
    let same : (r.id == app_id) ≡ true = (eq_iff r.id app_id).1 e in rw (v, same) refl

read_record-eq-ok :
    (r s : InstallRecord) (app_id : String)
    → read_record (holds r) app_id ≡ ok s
    → (r ≡ s) × IsRecord app_id s
unfolding read_record
read_record-eq-ok r s app_id h =
    let (u, v, h') = >>=-eq-ok (map_err invalid_record (validate r)) _ h in
    let (e, k) = guard-eq-ok (r.id == app_id) _ _ h' in
    let same : r ≡ s = cc k in
    (
      same,
      subst (IsRecord app_id) same
          (map_err-ok invalid_record (validate r) v, (eq_iff r.id app_id).0 e),
    )

unreadable-not-ok : (app_id : String) (r : InstallRecord) → read_record unreadable app_id ≢ ok r
unfolding read_record
unreadable-not-ok app_id r h = cc

load_file-eq-ok :
    (f : RecordFile) (app_id : String) (r : InstallRecord)
    → load_file f app_id ≡ ok r
    → (f ≡ holds r) × IsRecord app_id r
unfolding load_file
load_file-eq-ok absent app_id r h = cc
load_file-eq-ok unreadable app_id r h = absurd (unreadable-not-ok app_id r h)
load_file-eq-ok (holds s) app_id r h =
    let (e, v) = read_record-eq-ok s r app_id h in (ap holds e, v)

abbrev pub IsStash : String → Option InstallRecord → Type 0
IsStash app_id none = Unit
IsStash app_id (some r) = IsRecord app_id r

load_previous_file-eq-ok :
    (f : RecordFile) (app_id : String) (o : Option InstallRecord)
    → load_previous_file f app_id ≡ ok o
    → (f ≡ stash o) × IsStash app_id o
unfolding load_previous_file
load_previous_file-eq-ok absent app_id none h = (refl, tt)
load_previous_file-eq-ok absent app_id (some r) h = cc
load_previous_file-eq-ok unreadable app_id o h =
    let (r, e, k) = >>=-eq-ok (read_record unreadable app_id) (λ found. ok (some found)) h in
    absurd (unreadable-not-ok app_id r e)
load_previous_file-eq-ok (holds s) app_id o h =
    let (r, e, k) = >>=-eq-ok (read_record (holds s) app_id) _ h in
    let (same, v) = read_record-eq-ok s r app_id e in
    let out : some r ≡ o = cc k in
    subst (λ p. (holds s ≡ stash p) × IsStash app_id p) out (ap holds same, v)

-- The file of an install that was loaded.
pub load-eq-ok :
    (apps : List AppDir) (app_id : String) (r : InstallRecord)
    → load apps app_id ≡ ok r
    → (install_file (find_app apps app_id) ≡ holds r) × IsRecord app_id r
unfolding load
load-eq-ok apps app_id r h = load_file-eq-ok (install_file (find_app apps app_id)) app_id r h

pub load_previous-eq-ok :
    (apps : List AppDir) (app_id : String) (o : Option InstallRecord)
    → load_previous apps app_id ≡ ok o
    → (previous_file (find_app apps app_id) ≡ stash o) × IsStash app_id o
unfolding load_previous
load_previous-eq-ok apps app_id o h =
    load_previous_file-eq-ok (previous_file (find_app apps app_id)) app_id o h

-- A directory with these records loads them.
pub load-dir :
    (apps : List AppDir) (app_id : String) (r : InstallRecord) (o : Option InstallRecord)
    → find_app apps app_id ≡ some (dir app_id (holds r) (stash o))
    → IsRecord app_id r
    → load apps app_id ≡ ok r
unfolding load load_file
load-dir apps app_id r o e v = rw e (read_record-IsRecord r app_id v)

pub load_previous-dir :
    (apps : List AppDir) (app_id : String) (r : InstallRecord) (o : Option InstallRecord)
    → find_app apps app_id ≡ some (dir app_id (holds r) (stash o))
    → IsStash app_id o
    → load_previous apps app_id ≡ ok o
unfolding load_previous load_previous_file
load_previous-dir apps app_id r none e v = rw e refl
load_previous-dir apps app_id r (some prev) e v = rw (e, read_record-IsRecord prev app_id v) refl

find_app-name :
    (apps : List AppDir) (name : String) (a : AppDir) → find_app apps name ≡ some a → a.name ≡ name
unfolding find_app
find_app-name apps name a h = (eq_iff a.name name).0 (find-some (is_app name) apps h).1

-- Where both records are loaded, the directory is known.
pub find_app-loaded :
    (apps : List AppDir) (app_id : String) (r : InstallRecord) (o : Option InstallRecord)
    → load apps app_id ≡ ok r
    → load_previous apps app_id ≡ ok o
    → find_app apps app_id ≡ some (dir app_id (holds r) (stash o))
find_app-loaded apps app_id r o h k = elim (Option-cases (find_app apps app_id)) [
  | inl e ↦ cc (rw e at ((load-eq-ok apps app_id r h).0))
  | inr (a, e) ↦
      let i : a.install_toml ≡ holds r = rw e at ((load-eq-ok apps app_id r h).0) in
      let p : a.previous_toml ≡ stash o = rw e at ((load_previous-eq-ok apps app_id o k).0) in
      e ∙ ap some (rw (sym (find_app-name apps app_id a e), sym i, sym p) refl)
]
