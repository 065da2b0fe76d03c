-- ===== src/Repo/Versions/Offered.antt =====
-- The versions that a store has and that an index offers.
use lar.Base.{
  String, Bool, true, false, not, List, [], ◌∷◌, ◌++◌, ◌==◌, ◌≡◌, ◌↔◌, ◌⊎◌, refl, sym, Memᴰ,
  Memᴰ-cons, not-Memᴰ-nil, ⊎_elim, inr, eq_iff, arith, filter, map, Memᴰ-map, Memᴰ-filter, ◌&&◌,
  &&-eq-true, some, Bool-cases, inl, any_witness, not_any_of_mem,
}
use lar.Store.World.{StoredPackage}
use lar.Store.Pins.{insert_sorted, sort_dedup}
use lar.Repo.Versions.{offered, is_yanked, on_pin, stored_versions}
use lar.Repo.Index.{IndexPackage}
use lar.Repo.Advisories.{Advisory, AdvisoriesFile}
use lar.Repo.Advisories.Matches.{Names, matches_iff}

abbrev is_good : AdvisoriesFile → String → IndexPackage → Bool
is_good advisories id q = q.id == id && not (is_yanked advisories q)

offered-filter :
    (advisories : AdvisoriesFile) (id : String) (qs : List IndexPackage)
    → offered advisories id qs ≡ map (λ q. q.version) (filter (is_good advisories id) qs)
unfolding offered filter
offered-filter advisories id [] = refl
offered-filter advisories id (q ∷ qs) = ground (arith, offered-filter advisories id qs)

-- No advisory that names the pin yanks it.
abbrev pub IsUnyanked : AdvisoriesFile → IndexPackage → Type 0
IsUnyanked advisories pkg =
    (a : Advisory)
    → Memᴰ a advisories.advisories
    → Names a pkg.id pkg.version (some pkg.content_hash)
    → a.yanked ≡ false

is_yanked-false_iff :
    (advisories : AdvisoriesFile) (pkg : IndexPackage)
    → (is_yanked advisories pkg ≡ false) ↔ IsUnyanked advisories pkg
unfolding is_yanked
is_yanked-false_iff advisories pkg = (
  λ e a m n. not_any_of_mem (λ z. z.yanked) (on_pin advisories pkg) a e ((inside a).1 (m, n)),
  λ free. elim (Bool-cases (is_yanked advisories pkg)) [
    | inr e ↦ e
    | inl e ↦
        let (a, m, t) = any_witness (λ z. z.yanked) (on_pin advisories pkg) e in
        let (n, named) = (inside a).0 m in cc (t, free a n named)
  ],
)
  where
    inside :
        (a : Advisory)
        → Memᴰ a (on_pin advisories pkg)
          ↔ (Memᴰ a advisories.advisories × Names a pkg.id pkg.version (some pkg.content_hash))
    inside = matches_iff advisories pkg.id pkg.version (some pkg.content_hash)

module _ (x : String) where
  pub Memᴰ-insert_sorted :
      (s : String) (ss : List String) → Memᴰ x (insert_sorted s ss) ↔ ((x ≡ s) ⊎ Memᴰ x ss)
  unfolding insert_sorted
  Memᴰ-insert_sorted s [] = ground (arith, Memᴰ-cons x s [])
  Memᴰ-insert_sorted s (t ∷ ss) = ground (
    arith,
    Memᴰ-insert_sorted s ss,
    Memᴰ-cons x s (t ∷ ss),
    Memᴰ-cons x t ss,
    Memᴰ-cons x t (insert_sorted s ss),
    eq_iff s t,
  )

  pub Memᴰ-sort_dedup : (ss : List String) → Memᴰ x (sort_dedup ss) ↔ Memᴰ x ss
  unfolding sort_dedup
  Memᴰ-sort_dedup [] = (λ m. m, λ m. m)
  Memᴰ-sort_dedup (s ∷ ss) =
      ground (arith, Memᴰ-sort_dedup ss, Memᴰ-insert_sorted s (sort_dedup ss), Memᴰ-cons x s ss)

  pub Memᴰ-append : (ss ts : List String) → Memᴰ x (ss ++ ts) ↔ (Memᴰ x ss ⊎ Memᴰ x ts)
  Memᴰ-append [] ts = (inr, ⊎_elim (λ m. absurd (not-Memᴰ-nil x m)) (λ m. m))
  Memᴰ-append (s ∷ ss) ts =
      ground (arith, Memᴰ-append ss ts, Memᴰ-cons x s ss, Memᴰ-cons x s (ss ++ ts))

  pub Memᴰ-stored_versions :
      (id : String) (ps : List StoredPackage)
      → Memᴰ x (stored_versions id ps)
        ↔ ((p : StoredPackage) × Memᴰ p ps × (p.id ≡ id) × (p.version ≡ x))
  Memᴰ-stored_versions id ps = (
    λ m.
        let (p, n, e) = (Memᴰ-map (λ p. p.version) (filter (λ p. p.id == id) ps) x).0 m in
        let (k, t) = (Memᴰ-filter (λ p. p.id == id) ps p).0 n in
        (p, k, (eq_iff p.id id).0 t, sym e),
    λ (p, m, a, b).
        (Memᴰ-map (λ p. p.version) (filter (λ p. p.id == id) ps) x).1
          (p, (Memᴰ-filter (λ p. p.id == id) ps p).1 (m, (eq_iff p.id id).1 a), sym b),
  )

  -- A pin of the package that no advisory of its source yanks.
  abbrev pub IsOfferedPin : AdvisoriesFile → String → IndexPackage → Type 0
  IsOfferedPin advisories id pkg = (pkg.id ≡ id) × (pkg.version ≡ x) × IsUnyanked advisories pkg

  pub Memᴰ-offered :
      (advisories : AdvisoriesFile) (id : String) (pkgs : List IndexPackage)
      → Memᴰ x (offered advisories id pkgs)
        ↔ ((pkg : IndexPackage) × Memᴰ pkg pkgs × IsOfferedPin advisories id pkg)
  Memᴰ-offered advisories id pkgs = (
    λ m.
        let (pkg, n, e) =
          (Memᴰ-map (λ q. q.version) (filter good pkgs) x).0
            (rw (offered-filter advisories id pkgs) at m) in
        let (k, t) = (Memᴰ-filter good pkgs pkg).0 n in
        let (a, b) = &&-eq-true (pkg.id == id) (not (is_yanked advisories pkg)) t in
        (
          pkg,
          k,
          (
            (eq_iff pkg.id id).0 a,
            sym e,
            (is_yanked-false_iff advisories pkg).0 (not-true (is_yanked advisories pkg) b),
          ),
        ),
    λ (pkg, m, (a, b, c)). rw (offered-filter advisories id pkgs) (
        (Memᴰ-map (λ q. q.version) (filter good pkgs) x).1 (
          pkg,
          (Memᴰ-filter good pkgs pkg).1
              (m, rw ((eq_iff pkg.id id).1 a, (is_yanked-false_iff advisories pkg).1 c) refl),
          sym b,
        )),
  )
    where
      good : IndexPackage → Bool
      good = is_good advisories id

      not-true : (b : Bool) → not b ≡ true → b ≡ false
      not-true true e = cc
      not-true false e = refl
