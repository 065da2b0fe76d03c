-- ===== src/Repo/Audit/Scope.antt =====
-- Which packages an audit looks at.
use lar.Base.{
  String, true, List, [], ◌∷◌, ◌++◌, ◌≡◌, ◌↔◌, ◌⊎◌, refl, sym, ap, ◌∙◌, subst, Memᴰ, Memᴰ-cons,
  not-Memᴰ-nil, ⊎_elim, inl, inr, Memᴰ-map, ok, ok-eq, >>=-eq-ok, map_err, map_err-ok, &&-eq-true,
  ◌==◌, ◌&&◌, arith, eq_iff,
}
use lar.Store.World.{PackageDir, StoredPackage}
use lar.Store.Read.{list}
use lar.Repo.Error.{store_fault}
use lar.Repo.Audit.{
  Pin, InstallToml, missing, unparsed, parsed, AuditScope, store, installed, pin_of, insert_pin,
  sort_pins, same_pin, installed_pins, pins_for,
}

-- The package is stored, or is listed by the `install.toml` of an application.
abbrev pub IsInScope : List PackageDir → List InstallToml → AuditScope → Pin → Type 0
IsInScope dirs installs store p =
    (packages : List StoredPackage) × (list dirs ≡ ok packages)
    × ((q : StoredPackage) × Memᴰ q packages
        × (p.id ≡ q.id)
        × (p.version ≡ q.version)
        × (p.content_hash ≡ q.content_hash))
IsInScope dirs installs installed p = (ps : List Pin) × Memᴰ (parsed ps) installs × Memᴰ p ps

pin : String → String → String → Pin
pin i v c = record { id = i; version = v; content_hash = c }

pin-eq : (p q : Pin) → p.id ≡ q.id → p.version ≡ q.version → p.content_hash ≡ q.content_hash → p ≡ q
unfolding pin
pin-eq p q a b c =
    ap (λ i. pin i p.version p.content_hash) a
    ∙ ap (λ v. pin q.id v p.content_hash) b
    ∙ ap (λ d. pin q.id q.version d) c

same_pin-eq : (p q : Pin) → same_pin p q ≡ true → p ≡ q
same_pin-eq p q h =
    let (a, h1) =
      &&-eq-true (p.id == q.id && p.version == q.version) (p.content_hash == q.content_hash) h in
    let (b, c) = &&-eq-true (p.id == q.id) (p.version == q.version) a in
    pin-eq p q ((eq_iff p.id q.id).0 b) ((eq_iff p.version q.version).0 c)
      ((eq_iff p.content_hash q.content_hash).0 h1)

module _ (x : Pin) where
  Memᴰ-insert_pin : (p : Pin) (ps : List Pin) → Memᴰ x (insert_pin p ps) ↔ ((x ≡ p) ⊎ Memᴰ x ps)
  unfolding insert_pin
  Memᴰ-insert_pin p [] = ground (arith, Memᴰ-cons x p [])
  Memᴰ-insert_pin p (q ∷ ps) = ground (
    arith,
    Memᴰ-insert_pin p ps,
    Memᴰ-cons x p (q ∷ ps),
    Memᴰ-cons x q ps,
    Memᴰ-cons x q (insert_pin p ps),
    same_pin-eq p q,
  )

  pub Memᴰ-sort_pins : (ps : List Pin) → Memᴰ x (sort_pins ps) ↔ Memᴰ x ps
  unfolding sort_pins
  Memᴰ-sort_pins [] = (λ m. m, λ m. m)
  Memᴰ-sort_pins (p ∷ ps) =
      ground (arith, Memᴰ-sort_pins ps, Memᴰ-insert_pin p (sort_pins ps), Memᴰ-cons x p ps)

  Memᴰ-append : (ps qs : List Pin) → Memᴰ x (ps ++ qs) ↔ (Memᴰ x ps ⊎ Memᴰ x qs)
  Memᴰ-append [] qs = (inr, ⊎_elim (λ m. absurd (not-Memᴰ-nil x m)) (λ m. m))
  Memᴰ-append (p ∷ ps) qs =
      ground (arith, Memᴰ-append ps qs, Memᴰ-cons x p ps, Memᴰ-cons x p (ps ++ qs))

  Memᴰ-installed_pins :
      (installs : List InstallToml)
      → Memᴰ x (installed_pins installs) ↔ ((ps : List Pin) × Memᴰ (parsed ps) installs × Memᴰ x ps)
  unfolding installed_pins
  Memᴰ-installed_pins [] =
      (λ m. absurd (not-Memᴰ-nil x m), λ (ps, m, n). absurd (not-Memᴰ-nil (parsed ps) m))
  Memᴰ-installed_pins (missing ∷ rest) =
      let later = Memᴰ-installed_pins rest in
      (
        λ m. let (ps, n, k) = later.0 m in (ps, Memᴰ.tail n, k),
        λ (ps, n, k).
            ⊎_elim (λ e. cc) (λ t. later.1 (ps, t, k)) ((Memᴰ-cons (parsed ps) missing rest).0 n),
      )
  Memᴰ-installed_pins (unparsed ∷ rest) =
      let later = Memᴰ-installed_pins rest in
      (
        λ m. let (ps, n, k) = later.0 m in (ps, Memᴰ.tail n, k),
        λ (ps, n, k).
            ⊎_elim (λ e. cc) (λ t. later.1 (ps, t, k)) ((Memᴰ-cons (parsed ps) unparsed rest).0 n),
      )
  Memᴰ-installed_pins (parsed qs ∷ rest) =
      let later = Memᴰ-installed_pins rest in
      let both = Memᴰ-append qs (installed_pins rest) in
      (
        λ m.
            ⊎_elim (λ h. (qs, Memᴰ.head refl, h))
              (λ t. let (ps, n, k) = later.0 t in (ps, Memᴰ.tail n, k)) (both.0 m),
        λ (ps, n, k). both.1 (
            ⊎_elim (λ e. let same : ps ≡ qs = cc in inl (subst (Memᴰ x) same k))
              (λ t. inr (later.1 (ps, t, k))) ((Memᴰ-cons (parsed ps) (parsed qs) rest).0 n)),
      )

  -- The pins of the audit are the packages in its scope.
  pub pins_for-IsInScope :
      (dirs : List PackageDir) (installs : List InstallToml) (scope : AuditScope) (pins : List Pin)
      → pins_for dirs installs scope ≡ ok pins
      → Memᴰ x pins ↔ IsInScope dirs installs scope x
  unfolding pins_for
  pins_for-IsInScope dirs installs installed pins h =
      subst (λ ps. Memᴰ x ps ↔ IsInScope dirs installs installed x) (ok-eq h)
        (Memᴰ-installed_pins installs)
  pins_for-IsInScope dirs installs store pins h =
      let (packages, a, k) = >>=-eq-ok (map_err store_fault (list dirs)) _ h in
      let good = map_err-ok store_fault (list dirs) a in
      subst (λ ps. Memᴰ x ps ↔ IsInScope dirs installs store x) (ok-eq k)
        (
          λ m.
              let (q, n, e) = (Memᴰ-map pin_of packages x).0 m in
              (
                packages,
                good,
                (q, n, ap (λ p. p.id) e, ap (λ p. p.version) e, ap (λ p. p.content_hash) e),
              ),
          λ (ps, l, (q, n, e, f, g)).
              let same : ps ≡ packages = ok-eq (sym l ∙ good) in
              (Memᴰ-map pin_of packages x).1 (q, subst (Memᴰ q) same n, pin-eq x (pin_of q) e f g),
        )
