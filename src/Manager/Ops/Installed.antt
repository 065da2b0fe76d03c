-- ===== src/Manager/Ops/Installed.antt =====
-- What an install that succeeds leaves behind.
use lar.Base.{
  String, Bool, false, Option, some, List, ◌==◌, ◌≡◌, refl, sym, ap, ◌∙◌, subst, eq_iff, ok,
  if◌then◌else◌, ok-eq,
}
use lar.Repo.Trust.{Crypto}
use lar.Repo.Advisories.{Digest}
use lar.Repo.Fetch.{Network}
use lar.Runtime.Compose.{ComposeMode}
use lar.Store.World.{StoredPackage, is_hidden}
use lar.Manager.Record.{InstallRecord}
use lar.Manager.Source.{InstallSource}
use lar.Manager.Home.{holds, AppDir, Home, with_world}
use lar.Manager.Action.{change}
use lar.Manager.Action.Keeps.{and_then-Ensures}
use lar.Manager.Compose.{compose_install}
use lar.Manager.Compose.Laws.{compose_install-id, compose_install-Keeps-app}
use lar.Manager.Replace.Laws.{find_app-cleanup, is_tmp_install-IsShown}
use lar.Manager.Root.Laws.{ensure_root-Keeps}
use lar.Manager.Installs.{find_app}
use lar.Manager.Ops.{
  InstallOutcome, publish, install, displaced_install, older_install, drop_older, is_replaced,
}
use lar.Manager.Ops.Rollback.{publish-Keeps}
use lar.Manager.Parts.{Parts}
use lar.Manager.Ops.Displaced.{
  IsDisplaced, IsDisplaced-find, displaced_install-eq-ok, displaced_install-home,
  older_install-home, drop_older-apps,
}
use lar.Manager.Replace.Accepted.{replace_install-eq-ok}
use lar.Manager.Replace.{cleanup_tmp_installs, stash, dir, replace_install}
use lar.Manager.Replace.Outcome.{
  IsValid, IsStashValid, replaced, find_app-replaced, replace_install-IsValid,
}
use lar.Manager.Root.{ensure_root}

if_same : {A : Type 0} (id : String) (x y : A) → (if id == id then x else y) ≡ x
if_same id x y = rw ((eq_iff id id).1 refl) refl

if_other :
    {A : Type 0} (id name : String) (x y : A)
    → (id == name) ≡ false
    → (if id == name then x else y) ≡ y
if_other id name x y d = rw d refl

module _ {Desk : Type 0} where
  -- The directory of the application holds the new record, and the displaced one where there was
  -- an active one; the directories of the other applications are the same.
  pub record IsInstalled (h h' : Home Desk) (force : Bool) (out : InstallOutcome) : Type 0 where
    pub displaced : Option InstallRecord
    pub was : IsDisplaced h out.installed.id force displaced
    pub replaced : out.replaced ≡ is_replaced displaced
    pub valid : IsValid out.installed
    pub found :
        find_app h'.apps out.installed.id
        ≡ some (dir out.installed.id (holds out.installed) (stash displaced))
    pub others :
        (name : String)
        → is_hidden name ≡ false
        → (out.installed.id == name) ≡ false
        → find_app h'.apps name ≡ find_app h.apps name

module _ {Desk : Type 0} (parts : Parts Desk) (crypto : Crypto) (digest : Digest)
    (net : Network) where
  module _ (nanos : String) (source : InstallSource) (compose : ComposeMode) (force : Bool)
      (h : Home Desk) where
    module _ (h1 h2 h3 h4 h5 : Home Desk) (root : StoredPackage)
        (displaced older : Option InstallRecord) (active : InstallRecord)
        (c1 : change cleanup_tmp_installs h ≡ (ok tt, h1))
        (c2 : ensure_root crypto digest net parts source h1 ≡ (ok root, h2))
        (c3 : displaced_install root.id force h2 ≡ (ok displaced, h3))
        (c4 : older_install root.id displaced h3 ≡ (ok older, h4))
        (c5 : compose_install parts nanos root compose h4 ≡ (ok active, h5)) where
      module _ (name : String) (shown : is_hidden name ≡ false) where
        abbrev at : Home Desk → Option AppDir
        at w = find_app w.apps name

        rooted : at h2 ≡ at h
        unfolding cleanup_tmp_installs with_world
        rooted =
            sym (ap (λ r. at r.1) c2)
            ∙ ensure_root-Keeps crypto digest net parts source (Option AppDir) at (λ w w'. refl) h1
            ∙ sym (ap (λ r. at r.1) c1)
            ∙ find_app-cleanup h.apps name (is_tmp_install-IsShown name shown)

        composed : at h5 ≡ at h
        composed =
            sym (ap (λ r. at r.1) c5)
            ∙ compose_install-Keeps-app parts nanos root compose name shown h4
            ∙ sym (ap (λ r. at r.1) c4)
            ∙ ap at (older_install-home root.id displaced h3)
            ∙ sym (ap (λ r. at r.1) c3)
            ∙ ap at (displaced_install-home root.id force h2)
            ∙ rooted

      same_id : active.id ≡ root.id
      same_id = compose_install-id parts nanos root compose h4 active (ap (λ r. r.0) c5)

      was_displaced : is_hidden active.id ≡ false → IsDisplaced h active.id force displaced
      was_displaced shown =
          IsDisplaced-find h2 h active.id force displaced (rooted active.id shown) (
            subst (λ id. IsDisplaced h2 id force displaced) (sym same_id)
              (displaced_install-eq-ok root.id force h2 displaced (ap (λ r. r.0) c3)))

    module _ (h5 h6 h7 h8 : Home Desk) (displaced older : Option InstallRecord)
        (active : InstallRecord) (shadows : List String)
        (c6 : replace_install nanos active.id active displaced h5 ≡ (ok tt, h6))
        (c7 : publish parts active h6 ≡ (ok shadows, h7))
        (c8 : change (drop_older older displaced active) h7 ≡ (ok tt, h8)) where
      accepted : IsValid active × IsStashValid displaced
      accepted = replace_install-eq-ok nanos active.id active displaced h5 (ap (λ r. r.0) c6)

      last_apps : h8.apps ≡ replaced nanos active.id active displaced h5.apps
      last_apps =
          sym (ap (λ r. r.1.apps) c8)
          ∙ drop_older-apps older displaced active h7
          ∙ sym (ap (λ r. r.1.apps) c7)
          ∙ publish-Keeps parts (λ w. w.apps) (λ w d. refl) active h6
          ∙ sym (ap (λ r. r.1.apps) c6)
          ∙ ap (λ r. r.1.apps)
              (replace_install-IsValid nanos active.id active displaced h5 accepted.0 accepted.1)

      last_app :
          (name : String)
          → is_hidden name ≡ false
          → find_app h8.apps name ≡ (
              if active.id == name
              then some (dir active.id (holds active) (stash displaced))
              else find_app h5.apps name)
      last_app name shown =
          ap (λ apps. find_app apps name) last_apps
          ∙ find_app-replaced nanos active.id active displaced h5.apps name shown

    -- Where an install succeeds with a record whose id is not hidden: the record is valid; the
    -- application's directory holds it, and as the previous record the active one from before, which
    -- is displaced only by force; `replaced` says whether there was one; and the directories of the
    -- other applications hold the same files.
    pub install-IsInstalled :
        (out : InstallOutcome)
        → (install parts crypto digest net nanos source compose force h).0 ≡ ok out
        → is_hidden out.installed.id ≡ false
        → IsInstalled h (install parts crypto digest net nanos source compose force h).1 force out
    unfolding install
    install-IsInstalled =
        let Q = λ (out : InstallOutcome) (h' : Home Desk).
          is_hidden out.installed.id ≡ false → IsInstalled h h' force out in
        and_then-Ensures Q _ _ λ u h1 c1. and_then-Ensures Q _ _ λ root h2 c2.
          and_then-Ensures Q _ _ λ displaced h3 c3. and_then-Ensures Q _ _ λ older h4 c4.
            and_then-Ensures Q _ _ λ active h5 c5. and_then-Ensures Q _ _ λ u6 h6 c6.
              and_then-Ensures Q _ _ λ shadows h7 c7. and_then-Ensures Q _ _ λ u8 h8 c8 out e.
                subst (λ z. Q z h8) (ok-eq e)
                  λ shown.
                    let last = last_app h5 h6 h7 h8 displaced older active shadows c6 c7 c8 in
                    record {
                      displaced = displaced;
                      was =
                          was_displaced h1 h2 h3 h4 h5 root displaced older active c1 c2 c3 c4 c5
                            shown;
                      replaced = refl;
                      valid = (accepted h5 h6 h7 h8 displaced older active shadows c6 c7 c8).0;
                      found = last active.id shown ∙ if_same active.id _ _;
                      others = λ name s d.
                          (last name s ∙ if_other active.id name _ _ d)
                          ∙ composed h1 h2 h3 h4 h5 root displaced older active c1 c2 c3 c4 c5 name
                              s;
                    }
