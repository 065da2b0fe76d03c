-- ===== src/Store/Pins/Recorded.antt =====
-- What an install record pins, and that `install_referrers` finds it.
use lar.Base.{
  String, true, false, List, [], ◌∷◌, ◌++◌, ◌==◌, ◌≡◌, ◌≢◌, ◌⊎◌, refl, subst, ap, ◌∙◌, any,
  any_of_mem, is_empty, Memᴰ, Memᴰ-cons, not-Memᴰ-nil, ⊎_elim, inl, inr, eq_iff, Bool-cases, arith,
  starts_with,
}
use lar.Store.World.{InstallPinPackage, InstallPinFile, InstallDir, PinText, is_hidden}
use lar.Store.Pins.{
  load_pin_file, pins, pin_app, pin_apps, insert_sorted, sort_dedup, install_referrers,
}

-- The record names the package: it has an application's id, a format that is known or none, and the
-- package of that id and version in its list.
pub record IsPinning (pin : InstallPinFile) (id version : String) : Type 0 where
  pub has_id : pin.id ≢ ""
  pub format : (pin.format ≡ 0) ⊎ (pin.format ≡ 1)
  pub pinned : InstallPinPackage
  pub listed : Memᴰ pinned pin.packages
  pub same_id : pinned.id ≡ id
  pub same_version : pinned.version ≡ version

-- A record that names the package is the active or the previous one of an application, in a
-- directory whose name does not start with a dot.
pub record IsPinned (installs : List InstallDir) (id version : String) : Type 0 where
  pub dir : InstallDir
  pub here : Memᴰ dir installs
  pub shown : starts_with dir.name "." ≡ false
  pub pin : InstallPinFile
  pub text : (dir.install_toml ≡ PinText.read pin) ⊎ (dir.previous_toml ≡ PinText.read pin)
  pub pinning : IsPinning pin id version

append-not-empty :
    {A : Type 0} (xs ys : List A)
    → (is_empty xs ≡ false) ⊎ (is_empty ys ≡ false)
    → is_empty (xs ++ ys) ≡ false
append-not-empty [] ys (inl h) = cc
append-not-empty [] ys (inr h) = h
append-not-empty (x ∷ xs) ys h = refl

insert_sorted-not-empty : (x : String) (ys : List String) → is_empty (insert_sorted x ys) ≡ false
unfolding insert_sorted
insert_sorted-not-empty x [] = refl
insert_sorted-not-empty x (y ∷ ys) = ground arith

sort_dedup-not-empty : (xs : List String) → is_empty xs ≡ false → is_empty (sort_dedup xs) ≡ false
unfolding sort_dedup
sort_dedup-not-empty [] h = h
sort_dedup-not-empty (x ∷ xs) h = insert_sorted-not-empty x (sort_dedup xs)

module _ (id version : String) where
  pin_app-IsPinning :
      (pin : InstallPinFile)
      → IsPinning pin id version
      → is_empty (pin_app id version (PinText.read pin)) ≡ false
  unfolding pin_app load_pin_file
  pin_app-IsPinning pin h =
      let named : any (pins id version) pin.packages ≡ true =
        any_of_mem (pins id version) pin.packages h.pinned h.listed (
          rw
            (
              (eq_iff h.pinned.id id).1 h.same_id,
              (eq_iff h.pinned.version version).1 h.same_version,
            )
            refl) in
      let no_empty : (pin.id == "") ≡ false = elim (Bool-cases (pin.id == "")) [
        | inl e ↦ absurd (h.has_id ((eq_iff pin.id "").0 e))
        | inr e ↦ e
      ] in
      let format = h.format in ground arith

  dir_apps-IsPinning :
      (d : InstallDir) (pin : InstallPinFile)
      → (d.install_toml ≡ PinText.read pin) ⊎ (d.previous_toml ≡ PinText.read pin)
      → IsPinning pin id version
      → (rest : List String)
      → is_empty (pin_app id version d.install_toml ++ pin_app id version d.previous_toml ++ rest)
        ≡ false
  dir_apps-IsPinning d pin text h rest =
      append-not-empty (pin_app id version d.install_toml ++ pin_app id version d.previous_toml)
        rest
        (inl (
          append-not-empty (pin_app id version d.install_toml) (pin_app id version d.previous_toml)
            (⊎_elim (λ e. inl (holds e)) (λ e. inr (holds e)) text)))
    where
      holds : {t : PinText} → t ≡ PinText.read pin → is_empty (pin_app id version t) ≡ false
      holds e = ap (λ t. is_empty (pin_app id version t)) e ∙ pin_app-IsPinning pin h

  later :
      (d : InstallDir) (ds : List InstallDir) (p : IsPinned (d ∷ ds) id version)
      → Memᴰ p.dir ds
      → IsPinned ds id version
  later d ds p n = record {
    dir = p.dir;
    here = n;
    shown = p.shown;
    pin = p.pin;
    text = p.text;
    pinning = p.pinning;
  }

  pin_apps-IsPinned :
      (installs : List InstallDir)
      → IsPinned installs id version
      → is_empty (pin_apps id version installs) ≡ false
  unfolding pin_apps
  pin_apps-IsPinned [] p = absurd (not-Memᴰ-nil p.dir p.here)
  pin_apps-IsPinned (d ∷ ds) p = elim (Bool-cases (is_hidden d.name)) [
    | inl k ↦ rw k (
        ⊎_elim (λ e. cc (k, subst (λ z. is_hidden z.name ≡ false) e p.shown))
          (λ n. pin_apps-IsPinned ds (later d ds p n)) ((Memᴰ-cons p.dir d ds).0 p.here))
    | inr k ↦ rw k (
        ⊎_elim
          (λ e.
            dir_apps-IsPinning d p.pin
              (subst
                (λ z.
                  (z.install_toml ≡ PinText.read p.pin) ⊎ (z.previous_toml ≡ PinText.read p.pin))
                e p.text)
              p.pinning (pin_apps id version ds))
          (λ n.
            append-not-empty
              (pin_app id version d.install_toml ++ pin_app id version d.previous_toml)
              (pin_apps id version ds) (inr (pin_apps-IsPinned ds (later d ds p n))))
          ((Memᴰ-cons p.dir d ds).0 p.here))
  ]

  -- A package that a record pins has an application that refers to it.
  pub install_referrers-IsPinned :
      (installs : List InstallDir)
      → IsPinned installs id version
      → is_empty (install_referrers installs id version) ≡ false
  unfolding install_referrers
  install_referrers-IsPinned installs p =
      sort_dedup-not-empty (pin_apps id version installs) (pin_apps-IsPinned installs p)
