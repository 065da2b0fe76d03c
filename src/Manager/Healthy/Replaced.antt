-- ===== src/Manager/Healthy/Replaced.antt =====
-- The replacement of an install keeps a home healthy, also where it is refused.
use lar.Base.{
  String, ◌<>◌, false, Option, none, some, ◌==◌, ◌≡◌, refl, sym, ap, ◌∙◌, subst, eq_iff,
  Result-cases, Bool-cases, inl, inr, ok,
}
use lar.Manager.Record.{InstallRecord, validate}
use lar.Manager.Home.{absent, holds, AppDir, Home}
use lar.Manager.Action.{and_then}
use lar.Manager.Healthy.{IsHealthy, IsHealthyDir, IsHealthy-frame}
use lar.Manager.Replace.{dir, set_app, write_record, write_stash, replace_install}
use lar.Manager.Replace.Laws.{find_app-put, tmp-IsShown}
use lar.Manager.Replace.Outcome.{
  IsValid, IsStashValid, replaced, find_app-replaced, replace_install-IsValid,
}

abbrev tmp : String → String
tmp nanos = ".tmp-install-" <> nanos

module _ {Desk : Type 0} (nanos app_id : String) (active : InstallRecord)
    (same_id : active.id ≡ app_id) where
  set_app-IsHealthy :
      (a : AppDir) (h : Home Desk) → a.name ≡ tmp nanos → IsHealthy h → IsHealthy (set_app a h)
  unfolding set_app
  set_app-IsHealthy a h e = IsHealthy-frame h (set_app a h) λ name shown.
      let differs : (a.name == name) ≡ false = rw (e, tmp-IsShown nanos name shown) in
      find_app-put a h.apps name ∙ rw differs refl

  replaced-IsHealthy :
      (previous : Option InstallRecord) (h : Home Desk)
      → IsValid active
      → IsStashValid previous
      → IsHealthy h
      → IsHealthy (record h { apps = replaced nanos app_id active previous h.apps })
  replaced-IsHealthy previous h v u p name shown =
      let e = find_app-replaced nanos app_id active previous h.apps name shown in
      subst (IsHealthyDir name) (sym e) (elim (Bool-cases (app_id == name)) [
        | inl t ↦ rw t (active, previous, refl, refl, (v, same_id ∙ (eq_iff app_id name).0 t), u)
        | inr t ↦ rw t (p name shown)
      ])

  -- A refusal leaves no more than the temporary directory behind.
  pub replace_install-IsHealthy :
      (previous : Option InstallRecord) (h : Home Desk)
      → IsHealthy h
      → IsHealthy (replace_install nanos app_id active previous h).1
  unfolding replace_install and_then write_record write_stash
  replace_install-IsHealthy previous h p =
      let p1 = set_app-IsHealthy (dir (tmp nanos) absent absent) h refl p in
      let h1 = set_app (dir (tmp nanos) absent absent) h in
      elim (Result-cases (validate active)) [
        | inr (e, v) ↦
            let stopped : (replace_install nanos app_id active previous h).1 ≡ h1 = rw v refl in
            subst IsHealthy (sym stopped) p1
        | inl (u, v) ↦ stashing v previous
      ]
    where
      stashing :
          validate active ≡ ok tt
          → (o : Option InstallRecord) → IsHealthy (replace_install nanos app_id active o h).1
      stashing v none =
          subst IsHealthy
            (sym (ap (λ r. r.1) (replace_install-IsValid nanos app_id active none h v tt)))
            (replaced-IsHealthy none h v tt p)
      stashing v (some prev) = elim (Result-cases (validate prev)) [
        | inl (u, w) ↦
            subst IsHealthy
              (sym (ap (λ r. r.1) (replace_install-IsValid nanos app_id active (some prev) h v w)))
              (replaced-IsHealthy (some prev) h v w p)
        | inr (e, w) ↦
            let h1 = set_app (dir (tmp nanos) absent absent) h in
            let stopped : (replace_install nanos app_id active (some prev) h).1
                ≡ set_app (dir (tmp nanos) (holds active) absent) h1 =
              rw (v, w) refl in
            subst IsHealthy (sym stopped) (
              set_app-IsHealthy (dir (tmp nanos) (holds active) absent) h1 refl
                (set_app-IsHealthy (dir (tmp nanos) absent absent) h refl p))
      ]
