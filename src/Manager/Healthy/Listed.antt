-- ===== src/Manager/Healthy/Listed.antt =====
-- Which records `list` returns.
use lar.Base.{
  String, Bool, true, false, not, ◌||◌, List, [], ◌∷◌, ◌≡◌, ◌↔◌, ◌⊎◌, refl, sym, ap, ◌∙◌, subst,
  Memᴰ, Memᴰ-cons, not-Memᴰ-nil, ⊎_elim, inl, inr, Bool-cases, Result-cases, Option-cases, ok,
  find-some, eq_iff, arith,
}
use lar.Store.World.{is_hidden}
use lar.Manager.Record.{InstallRecord}
use lar.Manager.Home.{AppDir, Home, holds}
use lar.Manager.Installs.{
  is_app, find_app, is_present, load, list_records, insert_record, sort_records,
}
use lar.Manager.Installs.Loaded.{load-eq-ok}
use lar.Manager.Replace.{list, cleanup_tmp_installs}
use lar.Manager.Replace.Laws.{find_app-cleanup, is_tmp_install-IsShown}

module _ (x : InstallRecord) where
  Memᴰ-insert_record :
      (r : InstallRecord) (rs : List InstallRecord)
      → Memᴰ x (insert_record r rs) ↔ ((x ≡ r) ⊎ Memᴰ x rs)
  unfolding insert_record
  Memᴰ-insert_record r [] = ground (arith, Memᴰ-cons x r [])
  Memᴰ-insert_record r (s ∷ rs) = ground (
    arith,
    Memᴰ-insert_record r rs,
    Memᴰ-cons x r (s ∷ rs),
    Memᴰ-cons x s rs,
    Memᴰ-cons x s (insert_record r rs),
  )

  Memᴰ-sort_records : (rs : List InstallRecord) → Memᴰ x (sort_records rs) ↔ Memᴰ x rs
  unfolding sort_records
  Memᴰ-sort_records [] = (λ m. m, λ m. m)
  Memᴰ-sort_records (r ∷ rs) =
      ground (arith, Memᴰ-sort_records rs, Memᴰ-insert_record r (sort_records rs), Memᴰ-cons x r rs)

  -- What the loop puts out for one directory.
  abbrev IsShownAs : List AppDir → AppDir → Type 0
  IsShownAs apps a =
      (is_hidden a.name ≡ false) × (is_present a.install_toml ≡ true) × (load apps a.name ≡ ok x)

  shown-parts : (h p : Bool) → (h || not p) ≡ false → (h ≡ false) × (p ≡ true)
  shown-parts true p e = cc
  shown-parts false true e = (refl, refl)
  shown-parts false false e = cc

  abbrev IsFrom : List AppDir → List AppDir → Type 0
  IsFrom apps rest = (a : AppDir) × Memᴰ a rest × IsShownAs apps a

  list_records-IsFrom :
      (apps rest : List AppDir) → Memᴰ x (list_records apps rest) → IsFrom apps rest
  unfolding list_records
  list_records-IsFrom apps [] m = absurd (not-Memᴰ-nil x m)
  list_records-IsFrom apps (a ∷ rest) m =
      elim (Bool-cases (is_hidden a.name || not (is_present a.install_toml))) [
        | inl e ↦ later (list_records-IsFrom apps rest (rw e at m))
        | inr e ↦
            let (h, p) = shown-parts (is_hidden a.name) (is_present a.install_toml) e in
            elim (Result-cases (load apps a.name)) [
              | inr (f, l) ↦ later (list_records-IsFrom apps rest (rw (e, l) at m))
              | inl (r, l) ↦
                  ⊎_elim (λ same. (a, Memᴰ.head refl, (h, p, l ∙ ap ok (sym same))))
                    (λ n. later (list_records-IsFrom apps rest n))
                    ((Memᴰ-cons x r (list_records apps rest)).0 (rw (e, l) at m))
            ]
      ]
    where
      later : IsFrom apps rest → IsFrom apps (a ∷ rest)
      later (b, n, s) = (b, Memᴰ.tail n, s)

  IsFrom-list_records :
      (apps rest : List AppDir) (a : AppDir)
      → Memᴰ a rest
      → IsShownAs apps a
      → Memᴰ x (list_records apps rest)
  unfolding list_records
  IsFrom-list_records apps [] a m s = absurd (not-Memᴰ-nil a m)
  IsFrom-list_records apps (b ∷ rest) a m s =
      ⊎_elim here (λ n. later (IsFrom-list_records apps rest a n s)) ((Memᴰ-cons a b rest).0 m)
    where
      here : a ≡ b → Memᴰ x (list_records apps (b ∷ rest))
      here e =
          let (h, p, l) = subst (IsShownAs apps) e s in rw (list_records, h, p, l) (Memᴰ.head refl)

      later : Memᴰ x (list_records apps rest) → Memᴰ x (list_records apps (b ∷ rest))
      later ih = elim (Bool-cases (is_hidden b.name || not (is_present b.install_toml))) [
        | inl e ↦ rw (list_records, e) ih
        | inr e ↦ elim (Result-cases (load apps b.name)) [
          | inr (f, l) ↦ rw (list_records, e, l) ih
          | inl (r, l) ↦ rw (list_records, e, l) (Memᴰ.tail ih)
        ]
      ]

  -- A directory whose active record is loaded is there, and its file holds the record.
  loaded-IsShownAs :
      (apps : List AppDir) (name : String)
      → is_hidden name ≡ false
      → load apps name ≡ ok x
      → IsFrom apps apps
  unfolding find_app
  loaded-IsShownAs apps name shown l = elim (Option-cases (find_app apps name)) [
    | inl e ↦ cc (rw e at ((load-eq-ok apps name x l).0))
    | inr (a, e) ↦
        let (m, n) = find-some (is_app name) apps e in
        let same : a.name ≡ name = (eq_iff a.name name).0 n in
        let file : a.install_toml ≡ holds x = rw e at ((load-eq-ok apps name x l).0) in
        (a, m, (rw same shown, rw file refl, rw same l))
  ]

module _ {Desk : Type 0} where
  load-cleanup :
      (h : Home Desk) (name : String)
      → is_hidden name ≡ false
      → load (cleanup_tmp_installs h).apps name ≡ load h.apps name
  unfolding load cleanup_tmp_installs
  load-cleanup h name shown =
      rw (find_app-cleanup h.apps name (is_tmp_install-IsShown name shown)) refl

  -- `list` returns a record exactly where its id is not hidden and `load` of its id returns it.
  pub list_iff :
      (h : Home Desk) (r : InstallRecord)
      → Memᴰ r (list h).0 ↔ ((is_hidden r.id ≡ false) × (load h.apps r.id ≡ ok r))
  unfolding list
  list_iff h r =
      let apps = (cleanup_tmp_installs h).apps in
      (
        λ m.
            let (a, n, (shown, p, l)) =
              list_records-IsFrom r apps apps ((Memᴰ-sort_records r _).0 m) in
            let same : r.id ≡ a.name = (load-eq-ok apps a.name r l).1.1 in
            (rw same shown, ap (load h.apps) same ∙ sym (load-cleanup h a.name shown) ∙ l),
        λ (shown, l).
            let (a, n, s) = loaded-IsShownAs r apps r.id shown (load-cleanup h r.id shown ∙ l) in
            (Memᴰ-sort_records r _).1 (IsFrom-list_records r apps apps a n s),
      )
