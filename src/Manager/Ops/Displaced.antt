-- ===== src/Manager/Ops/Displaced.antt =====
-- The record that an install displaces, and the runtime that it drops.
use lar.Base.{
  String, Bool, true, false, Option, none, some, List, ◌==◌, ◌≡◌, refl, sym, ap, ◌∙◌, subst, ok,
  Bool-cases, Result-cases, inl, inr, ok-eq,
}
use lar.Manager.Record.{InstallRecord}
use lar.Manager.Home.{AppDir, Home}
use lar.Manager.Installs.{find_app, load, install_file, is_present}
use lar.Manager.Ops.{displaced_install, older_install, drop_older, is_kept}
use lar.Manager.Replace.{remove_runtime_dir}

load-find :
    (apps apps' : List AppDir) (id : String)
    → find_app apps id ≡ find_app apps' id
    → load apps' id ≡ load apps id
unfolding load
load-find apps apps' id e = rw e refl

module _ {Desk : Type 0} where
  -- The record that an install displaces is the active one, and it is displaced only by force.
  abbrev pub IsDisplaced : Home Desk → String → Bool → Option InstallRecord → Type 0
  IsDisplaced h id force none = is_present (install_file (find_app h.apps id)) ≡ false
  IsDisplaced h id force (some r) = (load h.apps id ≡ ok r) × (force ≡ true)

  pub IsDisplaced-find :
      (h h' : Home Desk) (id : String) (force : Bool) (o : Option InstallRecord)
      → find_app h.apps id ≡ find_app h'.apps id
      → IsDisplaced h id force o
      → IsDisplaced h' id force o
  IsDisplaced-find h h' id force none e d = sym (ap (λ o. is_present (install_file o)) e) ∙ d
  IsDisplaced-find h h' id force (some r) e (l, f) = (load-find h.apps h'.apps id e ∙ l, f)

  pub displaced_install-eq-ok :
      (id : String) (force : Bool) (h : Home Desk) (o : Option InstallRecord)
      → (displaced_install id force h).0 ≡ ok o
      → IsDisplaced h id force o
  unfolding displaced_install
  displaced_install-eq-ok id force h o e =
      elim (Bool-cases (is_present (install_file (find_app h.apps id)))) [
        | inr p ↦ (let same : none ≡ o = ok-eq (rw p at e) in subst (IsDisplaced h id force) same p)
        | inl p ↦ elim (Result-cases (load h.apps id)) [
          | inr (f, l) ↦ cc (rw (p, l) at e)
          | inl (r, l) ↦ elim (Bool-cases force) [
            | inr k ↦ cc (rw (p, l, k) at e)
            | inl k ↦
                (let same : some r ≡ o = ok-eq (rw (p, l, k) at e) in
                  subst (IsDisplaced h id force) same (l, k))
          ]
        ]
      ]

  pub displaced_install-home :
      (id : String) (force : Bool) (h : Home Desk) → (displaced_install id force h).1 ≡ h
  unfolding displaced_install
  displaced_install-home id force h =
      elim (Bool-cases (is_present (install_file (find_app h.apps id)))) [
        | inr p ↦ rw (displaced_install, p) refl
        | inl p ↦ elim (Result-cases (load h.apps id)) [
          | inr (f, l) ↦ rw (displaced_install, p, l) refl
          | inl (r, l) ↦ elim (Bool-cases force) [
            | inr k ↦ rw (displaced_install, p, l, k) refl
            | inl k ↦ rw (displaced_install, p, l, k) refl
          ]
        ]
      ]

  pub older_install-home :
      (id : String) (o : Option InstallRecord) (h : Home Desk) → (older_install id o h).1 ≡ h
  unfolding older_install
  older_install-home id none h = refl
  older_install-home id (some r) h = refl

  pub drop_older-apps :
      (o d : Option InstallRecord) (r : InstallRecord) (h : Home Desk)
      → (drop_older o d r h).apps ≡ h.apps
  unfolding drop_older remove_runtime_dir
  drop_older-apps none d r h = refl
  drop_older-apps (some older) d r h = elim (Bool-cases (is_kept older d r)) [
    | inl k ↦ rw (drop_older, k) refl
    | inr k ↦ elim (Bool-cases (older.runtime_id == "")) [
      | inl e ↦ rw (drop_older, k, e) refl
      | inr e ↦ rw (drop_older, k, e) refl
    ]
  ]
