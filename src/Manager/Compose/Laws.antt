-- ===== src/Manager/Compose/Laws.antt =====
-- What `compose_install` keeps and answers.
use lar.Base.{String, ◌<>◌, false, Option, ◌≡◌, refl, sym, ap, ◌∙◌, ok-eq}
use lar.Store.World.{StoredPackage, is_hidden}
use lar.Runtime.Compose.{ComposeMode}
use lar.Manager.Record.{InstallRecord}
use lar.Manager.Home.{absent, AppDir, Home}
use lar.Manager.Action.Keeps.{Keeps, and_then-Keeps, Ensures, and_then-Ensures}
use lar.Manager.Installs.{find_app}
use lar.Manager.Compose.{compose_install, resolve, build_runtime, drop_app}
use lar.Manager.Parts.{Parts}
use lar.Manager.Replace.{set_app, dir}
use lar.Manager.Replace.Laws.{find_app-put, find_app-without, build-IsShown}

module _ {Desk : Type 0} (parts : Parts Desk) (nanos : String) (root : StoredPackage)
    (compose : ComposeMode) where
  -- The record is of the root.
  pub compose_install-id :
      (h : Home Desk)
      → Ensures (λ r h'. r.id ≡ root.id) (compose_install parts nanos root compose h)
  unfolding compose_install
  compose_install-id h =
      let Q = λ (r : InstallRecord) (h' : Home Desk). r.id ≡ root.id in
      and_then-Ensures Q _ _ λ manifest h1 c1. and_then-Ensures Q _ _ λ lock h2 c2.
        and_then-Ensures Q _ _ λ u3 h3 c3. and_then-Ensures Q _ _ λ need h4 c4.
          and_then-Ensures Q _ _ λ report h5 c5. and_then-Ensures Q _ _ λ u6 h6 c6.
            and_then-Ensures Q _ _ λ u7 h7 c7. and_then-Ensures Q _ _ λ runtime_id h8 c8.
              and_then-Ensures Q _ _ λ u9 h9 c9. and_then-Ensures Q _ _ λ packages h10 c10.
                and_then-Ensures Q _ _ λ u11 h11 c11 r e. ap (λ z. z.id) (sym (ok-eq e))

  module _ (name : String) (shown : is_hidden name ≡ false) where
    abbrev at_name : Home Desk → Option AppDir
    at_name h = find_app h.apps name

    set-tmp :
        (h : Home Desk)
        → at_name (set_app (dir (".tmp-build-" <> nanos) absent absent) h) ≡ at_name h
    unfolding set_app
    set-tmp h = find_app-put _ h.apps name ∙ rw (build-IsShown nanos name shown) refl

    drop-tmp : (h : Home Desk) → at_name (drop_app parts (".tmp-build-" <> nanos) h) ≡ at_name h
    drop-tmp h = find_app-without h.apps _ name ∙ rw (build-IsShown nanos name shown) refl

    pub compose_install-Keeps-app : Keeps at_name (compose_install parts nanos root compose)
    unfolding compose_install resolve build_runtime
    compose_install-Keeps-app h = and_then-Keeps at_name _ _ _ refl λ manifest h1.
        and_then-Keeps at_name _ _ _ refl λ lock h2. and_then-Keeps at_name _ _ _ refl λ u3 h3.
          and_then-Keeps at_name _ _ _ refl λ need h4.
            and_then-Keeps at_name _ _ _ refl λ report h5.
              and_then-Keeps at_name _ _ _ (set-tmp h5) λ u6 h6.
                and_then-Keeps at_name _ _ _ refl λ u7 h7.
                  and_then-Keeps at_name _ _ _ refl λ runtime_id h8.
                    and_then-Keeps at_name _ _ _ (drop-tmp h8) λ u9 h9.
                      and_then-Keeps at_name _ _ _ refl
                        λ packages h10. and_then-Keeps at_name _ _ _ refl λ u11 h11. refl
