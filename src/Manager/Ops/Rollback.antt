-- ===== src/Manager/Ops/Rollback.antt =====
-- What `rollback` does to the record files.
use lar.Base.{
  String, false, some, ◌==◌, ◌≡◌, refl, sym, ap, ◌∙◌, eq_iff, ok, if◌then◌else◌, Bool-cases, inl,
  inr,
}
use lar.Store.World.{is_hidden}
use lar.Manager.Record.{InstallRecord}
use lar.Manager.Home.{holds, Home}
use lar.Manager.Action.{and_then}
use lar.Manager.Action.Keeps.{Keeps, and_then-Keeps}
use lar.Manager.Installs.{find_app, load, load_previous}
use lar.Manager.Installs.Loaded.{
  load-eq-ok, load_previous-eq-ok, load-dir, load_previous-dir, find_app-loaded,
}
use lar.Manager.Ops.{publish_exports, publish_desktop, publish, rollback}
use lar.Manager.Parts.{Parts}
use lar.Manager.Replace.{cleanup_tmp_installs, dir}
use lar.Manager.Replace.Laws.{find_app-cleanup, is_tmp_install-IsShown}
use lar.Manager.Replace.Outcome.{replaced, find_app-replaced, replace_install-IsValid}

module _ {Desk : Type 0} (parts : Parts Desk) where
  pub publish-Keeps :
      {C : Type 0} (part : Home Desk → C)
      → ((h : Home Desk) (desk : Desk) → part (record h { desk = desk }) ≡ part h)
      → (r : InstallRecord) → Keeps part (publish parts r)
  unfolding publish publish_exports publish_desktop
  publish-Keeps part same r h =
      and_then-Keeps part _ _ _ (same h _)
        λ shadows h'. and_then-Keeps part _ _ _ (same h' _) λ u h''. refl

  module _ (nanos app_id : String) (h : Home Desk) where
    load-cleanup :
        is_hidden app_id ≡ false → load (cleanup_tmp_installs h).apps app_id ≡ load h.apps app_id
    unfolding load cleanup_tmp_installs
    load-cleanup shown =
        rw (find_app-cleanup h.apps app_id (is_tmp_install-IsShown app_id shown)) refl

    load_previous-cleanup :
        is_hidden app_id ≡ false
        → load_previous (cleanup_tmp_installs h).apps app_id ≡ load_previous h.apps app_id
    unfolding load_previous cleanup_tmp_installs
    load_previous-cleanup shown =
        rw (find_app-cleanup h.apps app_id (is_tmp_install-IsShown app_id shown)) refl

    module _ (active prev : InstallRecord) (shown : is_hidden app_id ≡ false)
        (a : load h.apps app_id ≡ ok active)
        (p : load_previous h.apps app_id ≡ ok (some prev)) where
      rollback-apps :
          (rollback parts nanos app_id h).1.apps
          ≡ replaced nanos app_id prev (some active) (cleanup_tmp_installs h).apps
      unfolding rollback and_then
      rollback-apps =
          let w = cleanup_tmp_installs h in
          let e = load-cleanup shown ∙ a in
          let f = load_previous-cleanup shown ∙ p in
          let g =
            replace_install-IsValid nanos app_id prev (some active) w
              (load_previous-eq-ok h.apps app_id (some prev) p).1.0
              (load-eq-ok h.apps app_id active a).1.0 in
          rw (e, f, g)
            (and_then-Keeps (λ w'. w'.apps) _ _ _
              (publish-Keeps (λ w'. w'.apps) (λ w' d. refl) prev _) λ s w'. refl)

      -- The directory of the application holds the two records the other way round, and the
      -- directory of another application is the same.
      pub find_app-rollback :
          (name : String)
          → is_hidden name ≡ false
          → find_app (rollback parts nanos app_id h).1.apps name ≡ (
              if app_id == name
              then some (dir app_id (holds prev) (holds active))
              else find_app h.apps name)
      unfolding cleanup_tmp_installs
      find_app-rollback name other =
          ap (λ apps. find_app apps name) rollback-apps
          ∙ find_app-replaced nanos app_id prev (some active) (cleanup_tmp_installs h).apps name
              other
          ∙ rw (find_app-cleanup h.apps name (is_tmp_install-IsShown name other)) refl

  -- Two rollbacks of an application that has a previous install, whatever publishing answers, leave
  -- the record files of every install directory as they were, temporary directories aside.
  pub rollback-rollback :
      (nanos again app_id : String) (h : Home Desk) (active prev : InstallRecord)
      → is_hidden app_id ≡ false
      → load h.apps app_id ≡ ok active
      → load_previous h.apps app_id ≡ ok (some prev)
      → (name : String) → is_hidden name ≡ false
      → find_app (rollback parts again app_id (rollback parts nanos app_id h).1).1.apps name
        ≡ find_app h.apps name
  rollback-rollback nanos again app_id h active prev shown a p name other =
      let h1 = (rollback parts nanos app_id h).1 in
      let once = find_app-rollback nanos app_id h active prev shown a p in
      let self = (eq_iff app_id app_id).1 refl in
      let found : find_app h1.apps app_id ≡ some (dir app_id (holds prev) (holds active)) =
        once app_id shown ∙ rw self refl in
      let a1 =
        load-dir h1.apps app_id prev (some active) found
          (load_previous-eq-ok h.apps app_id (some prev) p).1 in
      let p1 =
        load_previous-dir h1.apps app_id prev (some active) found
          (load-eq-ok h.apps app_id active a).1 in
      find_app-rollback again app_id h1 prev active shown a1 p1 name other
      ∙ elim (Bool-cases (app_id == name)) [
        | inl e ↦ rw e (
            sym (find_app-loaded h.apps app_id active (some prev) a p)
            ∙ ap (find_app h.apps) ((eq_iff app_id name).0 e))
        | inr e ↦ rw e (once name other ∙ rw e refl)
      ]
