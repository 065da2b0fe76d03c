-- ===== src/Manager/Replace/Outcome.antt =====
-- `replace_install` of valid records: it succeeds, and leaves the other applications alone.
use lar.Base.{
  String, ◌<>◌, false, Option, none, some, List, ◌==◌, ◌≡◌, refl, ap, ◌∙◌, ok, if◌then◌else◌,
}
use lar.Store.World.{is_hidden}
use lar.Manager.Record.{InstallRecord, validate}
use lar.Manager.Home.{absent, holds, AppDir, Home}
use lar.Manager.Action.{and_then}
use lar.Manager.Installs.{find_app, without_app, put_app}
use lar.Manager.Replace.{stash, dir, set_app, write_record, write_stash, rename, replace_install}
use lar.Manager.Replace.Laws.{find_app-put, find_app-without, tmp-IsShown}

abbrev pub IsValid : InstallRecord → Type 0
IsValid r = validate r ≡ ok tt

abbrev pub IsStashValid : Option InstallRecord → Type 0
IsStashValid none = Unit
IsStashValid (some prev) = IsValid prev

-- The directories where the temporary one has been filled.
abbrev pub begun : String → InstallRecord → List AppDir → List AppDir
begun tmp active apps =
    put_app (dir tmp (holds active) absent) (put_app (dir tmp absent absent) apps)

abbrev pub filled : String → InstallRecord → Option InstallRecord → List AppDir → List AppDir
filled tmp active none apps = begun tmp active apps
filled tmp active (some prev) apps =
    put_app (dir tmp (holds active) (holds prev)) (begun tmp active apps)

abbrev pub replaced :
    String → String → InstallRecord → Option InstallRecord → List AppDir → List AppDir
replaced nanos app_id active previous apps =
    let tmp = ".tmp-install-" <> nanos in
    put_app (dir app_id (holds active) (stash previous))
      (without_app (filled tmp active previous apps) tmp)

module _ (tmp name : String) (active : InstallRecord) (d : (tmp == name) ≡ false) where
  find_app-begun : (apps : List AppDir) → find_app (begun tmp active apps) name ≡ find_app apps name
  find_app-begun apps =
      (find_app-put (dir tmp (holds active) absent) _ name ∙ rw d)
      ∙ (find_app-put (dir tmp absent absent) apps name ∙ rw d)

  find_app-filled :
      (previous : Option InstallRecord) (apps : List AppDir)
      → find_app (filled tmp active previous apps) name ≡ find_app apps name
  find_app-filled none apps = find_app-begun apps
  find_app-filled (some prev) apps =
      (find_app-put (dir tmp (holds active) (holds prev)) _ name ∙ rw d) ∙ find_app-begun apps

pub find_app-replaced :
    (nanos app_id : String) (active : InstallRecord) (previous : Option InstallRecord)
    (apps : List AppDir) (name : String)
    → is_hidden name ≡ false
    → find_app (replaced nanos app_id active previous apps) name ≡ (
        if app_id == name
        then some (dir app_id (holds active) (stash previous))
        else find_app apps name)
find_app-replaced nanos app_id active previous apps name shown =
    let tmp = ".tmp-install-" <> nanos in
    let d = tmp-IsShown nanos name shown in
    find_app-put _ (without_app (filled tmp active previous apps) tmp) name
    ∙ ap (λ o. if app_id == name then some (dir app_id (holds active) (stash previous)) else o)
        ((find_app-without (filled tmp active previous apps) tmp name ∙ rw d)
          ∙ find_app-filled tmp name active d previous apps)

module _ {Desk : Type 0} (nanos app_id : String) (active : InstallRecord) where
  pub replace_install-IsValid :
      (previous : Option InstallRecord) (h : Home Desk)
      → IsValid active
      → IsStashValid previous
      → replace_install nanos app_id active previous h
        ≡ (ok tt, record h { apps = replaced nanos app_id active previous h.apps })
  unfolding and_then replace_install set_app write_record write_stash rename
  replace_install-IsValid none h v u = rw v refl
  replace_install-IsValid (some prev) h v u = rw (v, u) refl
