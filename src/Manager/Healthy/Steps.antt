-- ===== src/Manager/Healthy/Steps.antt =====
-- The operations of crates/lar-manager as steps of a home, and what every reachable home satisfies.
use lar.Base.{
  String, true, false, Bool, Option, none, some, List, ◌==◌, ◌≡◌, refl, sym, ap, ◌∙◌, subst,
  Bool-cases, inl, inr, Result, ok, ok_or, ok_or-eq-ok,
}
use lar.Semver.{Semver}
use lar.Repo.Advisories.{Digest}
use lar.Repo.Fetch.{Network}
use lar.Repo.Trust.{Crypto}
use lar.Runtime.Compose.{ComposeMode}
use lar.Store.World.{StoredPackage}
use lar.Manager.Record.{InstallRecord}
use lar.Manager.Source.{InstallSource, store}
use lar.Manager.Home.{AppDir, Home, Fault, no_previous, with_world}
use lar.Manager.Action.{check}
use lar.Manager.Action.Keeps.{and_then-Preserves, and_then-Keeps}
use lar.Manager.Compose.Laws.{compose_install-Keeps-app}
use lar.Manager.Compose.{compose_install}
use lar.Manager.Healthy.{IsHealthy, IsHealthyDir, IsHealthy-frame}
use lar.Manager.Healthy.Replaced.{replace_install-IsHealthy}
use lar.Manager.Installs.{find_app, load_previous, without_app}
use lar.Manager.Installs.Loaded.{load_previous-eq-ok}
use lar.Manager.Ops.{
  install, update, update_to, update_if_newer, rollback, uninstall, launch, publish, drop_older,
  drop_runtimes, remove_desktop, remove_exports, Best, newest,
}
use lar.Manager.Ops.Displaced.{displaced_install-home, older_install-home, drop_older-apps}
use lar.Manager.Ops.Rollback.{publish-Keeps}
use lar.Manager.Parts.{Parts}
use lar.Manager.Replace.{cleanup_tmp_installs, list, remove_runtime_dir}
use lar.Manager.Replace.Laws.{find_app-cleanup, find_app-without, is_tmp_install-IsShown}
use lar.Manager.Root.{ensure_root}
use lar.Manager.Root.Laws.{ensure_root-Keeps}

module _ {Desk : Type 0} where
  same_apps-IsHealthy : (h h' : Home Desk) → h'.apps ≡ h.apps → IsHealthy h → IsHealthy h'
  same_apps-IsHealthy h h' e = IsHealthy-frame h h' λ name shown. ap (λ apps. find_app apps name) e

  cleanup-IsHealthy : (h : Home Desk) → IsHealthy h → IsHealthy (cleanup_tmp_installs h)
  unfolding cleanup_tmp_installs
  cleanup-IsHealthy h =
      IsHealthy-frame h (cleanup_tmp_installs h)
        λ name shown. find_app-cleanup h.apps name (is_tmp_install-IsShown name shown)

  remove_runtime_dir-apps : (id : String) (h : Home Desk) → (remove_runtime_dir id h).apps ≡ h.apps
  unfolding remove_runtime_dir
  remove_runtime_dir-apps id h = elim (Bool-cases (id == "")) [
    | inl e ↦ rw (remove_runtime_dir, e) refl
    | inr e ↦ rw (remove_runtime_dir, e) refl
  ]

  drop_runtimes-apps :
      (r : InstallRecord) (o : Option InstallRecord) (h : Home Desk)
      → (drop_runtimes r o h).apps ≡ h.apps
  unfolding drop_runtimes
  drop_runtimes-apps r none h = remove_runtime_dir-apps r.runtime_id h
  drop_runtimes-apps r (some prev) h = elim (Bool-cases (prev.runtime_id == r.runtime_id)) [
    | inl e ↦ rw (drop_runtimes, e) (remove_runtime_dir-apps r.runtime_id h)
    | inr e ↦
        rw (drop_runtimes, e)
          (remove_runtime_dir-apps prev.runtime_id (remove_runtime_dir r.runtime_id h)
            ∙ remove_runtime_dir-apps r.runtime_id h)
  ]

  check-apps : (b : Bool) (e : Fault) (h : Home Desk) → (check b e h).1.apps ≡ h.apps
  check-apps true e h = refl
  check-apps false e h = refl

  module _ (parts : Parts Desk) where
    publish-IsHealthy :
        (r : InstallRecord) (h : Home Desk) → IsHealthy h → IsHealthy (publish parts r h).1
    publish-IsHealthy r h =
        same_apps-IsHealthy h (publish parts r h).1
          (publish-Keeps parts (λ w. w.apps) (λ w desk. refl) r h)

    rollback-IsHealthy :
        (nanos app_id : String) (h : Home Desk)
        → IsHealthy h
        → IsHealthy (rollback parts nanos app_id h).1
    unfolding rollback
    rollback-IsHealthy nanos app_id h p =
        and_then-Preserves IsHealthy _ _ (cleanup-IsHealthy h p) λ u1 h1 c1 p1.
          and_then-Preserves IsHealthy _ _ p1 λ active h2 c2 p2.
            and_then-Preserves IsHealthy _ _ p2 λ found h3 c3 p3.
              and_then-Preserves IsHealthy _ _ p3 λ previous h4 c4 p4.
                and_then-Preserves IsHealthy _ _
                  (replace_install-IsHealthy nanos app_id previous
                    (same_id h2 found h3 previous h4 c3 c4) (some active) h4 p4)
                  λ u5 h5 c5 p5.
                    and_then-Preserves IsHealthy _ _ (publish-IsHealthy previous h5 p5)
                      λ shadows h6 c6 p6. p6
      where
        same_id :
            (h2 : Home Desk) (found : Option InstallRecord) (h3 : Home Desk)
            (previous : InstallRecord) (h4 : Home Desk)
            → ◌≡◌ {A = Result Fault (Option InstallRecord) × Home Desk}
                (load_previous h2.apps app_id, h2)
                (ok found, h3)
            → ◌≡◌ {A = Result Fault InstallRecord × Home Desk}
                (ok_or found (no_previous app_id), h3)
                (ok previous, h4)
            → previous.id ≡ app_id
        same_id h2 found h3 previous h4 c3 c4 =
            let e = ok_or-eq-ok found (no_previous app_id) (ap (λ r. r.0) c4) in
            (load_previous-eq-ok h2.apps app_id (some previous) (ap (λ r. r.0) c3 ∙ ap ok e)).1.1

    uninstall-IsHealthy :
        (app_id : String) (h : Home Desk) → IsHealthy h → IsHealthy (uninstall parts app_id h).1
    unfolding uninstall remove_desktop remove_exports
    uninstall-IsHealthy app_id h p =
        and_then-Preserves IsHealthy _ _ (cleanup-IsHealthy h p) λ u1 h1 c1 p1.
          and_then-Preserves IsHealthy _ _ p1 λ active h2 c2 p2.
            and_then-Preserves IsHealthy _ _ p2 λ previous h3 c3 p3.
              and_then-Preserves IsHealthy _ _ p3 λ u4 h4 c4 p4.
                and_then-Preserves IsHealthy _ _ p4 λ u5 h5 c5 p5.
                  and_then-Preserves IsHealthy _ _
                    (same_apps-IsHealthy h5 (drop_runtimes active previous h5)
                      (drop_runtimes-apps active previous h5) p5)
                    λ u6 h6 c6 p6.
                      and_then-Preserves IsHealthy _ _ (dropped h6 p6) λ u7 h7 c7 p7. p7
      where
        dropped :
            (w : Home Desk)
            → IsHealthy w
            → IsHealthy (record w { apps = without_app w.apps app_id })
        dropped w q name shown = elim (Bool-cases (app_id == name)) [
          | inl e ↦
              let gone : find_app (without_app w.apps app_id) name ≡ none =
                find_app-without w.apps app_id name ∙ rw e refl in
              subst (IsHealthyDir name) (sym gone) tt
          | inr e ↦
              let kept : find_app (without_app w.apps app_id) name ≡ find_app w.apps name =
                find_app-without w.apps app_id name ∙ rw e refl in
              subst (IsHealthyDir name) (sym kept) (q name shown)
        ]

    launch-home :
        (app_id : String) (binary : Option String) (args : List String) (h : Home Desk)
        → (launch parts app_id binary args h).1.apps ≡ (cleanup_tmp_installs h).apps
    unfolding launch
    launch-home app_id binary args h =
        let at = λ (w : Home Desk). w.apps in
        and_then-Keeps at _ _ _ refl λ u1 h1. and_then-Keeps at _ _ _ refl λ u2 h2.
          and_then-Keeps at _ _ _ refl λ active h3. and_then-Keeps at _ _ _ refl λ runtimes h4.
            and_then-Keeps at _ _ _ (check-apps _ _ h4) λ u5 h5.
              and_then-Keeps at _ _ _ refl λ found h6. and_then-Keeps at _ _ _ refl λ root h7.
                and_then-Keeps at _ _ _ refl λ manifest h8. and_then-Keeps at _ _ _ refl λ entry h9.
                  and_then-Keeps at _ _ _ (check-apps _ _ h9)
                    λ u10 h10. and_then-Keeps at _ _ _ refl λ report h11. refl

    module _ (crypto : Crypto) (digest : Digest) (net : Network) where
      root-IsHealthy :
          (source : InstallSource) (h : Home Desk)
          → IsHealthy h
          → IsHealthy (ensure_root crypto digest net parts source h).1
      unfolding with_world
      root-IsHealthy source h =
          same_apps-IsHealthy h (ensure_root crypto digest net parts source h).1 (
            ensure_root-Keeps crypto digest net parts source (List AppDir) (λ w. w.apps)
              (λ w w'. refl) h)

      compose-IsHealthy :
          (nanos : String) (root : StoredPackage) (compose : ComposeMode) (h : Home Desk)
          → IsHealthy h
          → IsHealthy (compose_install parts nanos root compose h).1
      compose-IsHealthy nanos root compose h =
          IsHealthy-frame h (compose_install parts nanos root compose h).1
            λ name shown. compose_install-Keeps-app parts nanos root compose name shown h

      install-IsHealthy :
          (nanos : String) (source : InstallSource) (compose : ComposeMode) (force : Bool)
          (h : Home Desk)
          → IsHealthy h
          → IsHealthy (install parts crypto digest net nanos source compose force h).1
      unfolding install
      install-IsHealthy nanos source compose force h p =
          and_then-Preserves IsHealthy _ _ (cleanup-IsHealthy h p) λ u1 h1 c1 p1.
            and_then-Preserves IsHealthy _ _ (root-IsHealthy source h1 p1) λ root h2 c2 p2.
              and_then-Preserves IsHealthy _ _
                (subst IsHealthy (sym (displaced_install-home root.id force h2)) p2)
                λ displaced h3 c3 p3.
                  and_then-Preserves IsHealthy _ _
                    (subst IsHealthy (sym (older_install-home root.id displaced h3)) p3)
                    λ older h4 c4 p4.
                      and_then-Preserves IsHealthy _ _ (compose-IsHealthy nanos root compose h4 p4)
                        λ active h5 c5 p5.
                          and_then-Preserves IsHealthy _ _
                            (replace_install-IsHealthy nanos active.id active refl displaced h5 p5)
                            λ u6 h6 c6 p6.
                              and_then-Preserves IsHealthy _ _ (publish-IsHealthy active h6 p6)
                                λ shadows h7 c7 p7.
                                  and_then-Preserves IsHealthy _ _
                                    (same_apps-IsHealthy h7 (drop_older older displaced active h7)
                                      (drop_older-apps older displaced active h7) p7)
                                    λ u8 h8 c8 p8. p8

      module _ (sv : Semver) where
        update_to-IsHealthy :
            (nanos app_id : String) (current : InstallRecord) (newer : String) (h : Home Desk)
            → IsHealthy h
            → IsHealthy (update_to parts crypto digest net sv nanos app_id current newer h).1
        unfolding update_to
        update_to-IsHealthy nanos app_id current newer h p =
            and_then-Preserves IsHealthy _ _ p λ older h1 c1 p1.
              and_then-Preserves IsHealthy _ _ (root-IsHealthy (store app_id (some newer)) h1 p1)
                λ root h2 c2 p2.
                  and_then-Preserves IsHealthy _ _
                    (compose-IsHealthy nanos root current.compose h2 p2)
                    λ active h3 c3 p3.
                      and_then-Preserves IsHealthy _ _
                        (replace_install-IsHealthy nanos active.id active refl (some current) h3 p3)
                        λ u4 h4 c4 p4.
                          and_then-Preserves IsHealthy _ _ (publish-IsHealthy active h4 p4)
                            λ shadows h5 c5 p5.
                              and_then-Preserves IsHealthy _ _
                                (same_apps-IsHealthy h5 (drop_older older (some current) active h5)
                                  (drop_older-apps older (some current) active h5) p5)
                                λ u6 h6 c6 p6. p6

        update_if_newer-IsHealthy :
            (nanos app_id : String) (current : InstallRecord) (best : Best sv) (h : Home Desk)
            → IsHealthy h
            → IsHealthy (update_if_newer parts crypto digest net sv nanos app_id current best h).1
        unfolding update_if_newer
        update_if_newer-IsHealthy nanos app_id current none h p = p
        update_if_newer-IsHealthy nanos app_id current (some (v, newer)) h p =
            update_to-IsHealthy nanos app_id current newer h p

        update-IsHealthy :
            (nanos app_id : String) (h : Home Desk)
            → IsHealthy h
            → IsHealthy (update parts crypto digest net sv nanos app_id h).1
        unfolding update
        update-IsHealthy nanos app_id h p =
            and_then-Preserves IsHealthy _ _ (cleanup-IsHealthy h p) λ u1 h1 c1 p1.
              and_then-Preserves IsHealthy _ _ p1 λ current h2 c2 p2.
                and_then-Preserves IsHealthy _ _ p2 λ ver h3 c3 p3.
                  and_then-Preserves IsHealthy _ _ p3 λ candidates h4 c4 p4.
                    update_if_newer-IsHealthy nanos app_id current (newest sv ver none candidates)
                      h4 p4

        -- One operation, with whatever answer.
        pub data Step : Home Desk → Home Desk → Type 0 where
          installs :
              (nanos : String) (source : InstallSource) (compose : ComposeMode) (force : Bool)
              (h : Home Desk)
              → Step h (install parts crypto digest net nanos source compose force h).1
          updates :
              (nanos app_id : String) (h : Home Desk)
              → Step h (update parts crypto digest net sv nanos app_id h).1
          rolls_back :
              (nanos app_id : String) (h : Home Desk) → Step h (rollback parts nanos app_id h).1
          uninstalls : (app_id : String) (h : Home Desk) → Step h (uninstall parts app_id h).1
          launches :
              (app_id : String) (binary : Option String) (args : List String) (h : Home Desk)
              → Step h (launch parts app_id binary args h).1
          lists : (h : Home Desk) → Step h (list h).1

        pub data Reach (s : Home Desk) : Home Desk → Type 0 where
          here : Reach s s
          next : {h h' : Home Desk} → Reach s h → Step h h' → Reach s h'

        Step-IsHealthy : {h h' : Home Desk} → Step h h' → IsHealthy h → IsHealthy h'
        unfolding list
        Step-IsHealthy (installs nanos source compose force h) p =
            install-IsHealthy nanos source compose force h p
        Step-IsHealthy (updates nanos app_id h) p = update-IsHealthy nanos app_id h p
        Step-IsHealthy (rolls_back nanos app_id h) p = rollback-IsHealthy nanos app_id h p
        Step-IsHealthy (uninstalls app_id h) p = uninstall-IsHealthy app_id h p
        Step-IsHealthy (launches app_id binary args h) p =
            same_apps-IsHealthy (cleanup_tmp_installs h) (launch parts app_id binary args h).1
              (launch-home app_id binary args h) (cleanup-IsHealthy h p)
        Step-IsHealthy (lists h) p = cleanup-IsHealthy h p

        -- From a home whose record files are in order, every sequence of installs, updates, rollbacks,
        -- removals, launches and listings, successful or not, leads to a home where they are: each
        -- directory that is not hidden holds an active record that is valid and has the name of the
        -- directory, and no other previous record than a valid one.
        pub Reach-IsHealthy : {s h : Home Desk} → IsHealthy s → Reach s h → IsHealthy h
        Reach-IsHealthy p here = p
        Reach-IsHealthy p (next reach step) = Step-IsHealthy step (Reach-IsHealthy p reach)
