-- ===== src/Resolver/Provider/Sorted.antt =====
-- Sorting the candidates, and the last one that passes a test.
use lar.Base.{
  Bool, true, false, none, some, List, [], ◌∷◌, ◌≡◌, ◌↔◌, ◌⊎◌, sym, ap, ◌∙◌, subst, Memᴰ, Memᴰ-cons,
  not-Memᴰ-nil, ⊎_elim, inl, inr, Bool-cases, Option-cases, arith,
}
use lar.Semver.{Semver, IsOrdered}
use lar.Resolver.Provider.{find_last, insert_version, sort_versions}

pub find_last-none :
    {A : Type 0} (p : A → Bool) (xs : List A) (x : A)
    → find_last p xs ≡ none
    → Memᴰ x xs
    → p x ≡ false
unfolding find_last
find_last-none p [] x h m = absurd (not-Memᴰ-nil x m)
find_last-none p (y ∷ xs) x h m = elim (Option-cases (find_last p xs)) [
  | inr (z, e) ↦ cc (rw (find_last, e) at h)
  | inl e ↦ elim (Bool-cases (p y)) [
    | inl t ↦ cc (rw (find_last, e, t) at h)
    | inr t ↦
        ⊎_elim (λ same. ap p same ∙ t) (λ n. find_last-none p xs x e n) ((Memᴰ-cons x y xs).0 m)
  ]
]

module _ (sv : Semver) (ord : IsOrdered sv) where
  open sv use {lt}
  open ord use {lt-irrefl, lt-trans, lt-total}

  -- No version stands above a later one.
  abbrev pub IsSorted : List sv.Version → Type 0
  IsSorted [] = Unit
  IsSorted (v ∷ vs) = ((w : sv.Version) → Memᴰ w vs → lt w v ≡ false) × IsSorted vs

  lt-asym : (a b : sv.Version) → lt a b ≡ true → lt b a ≡ false
  lt-asym a b h = elim (Bool-cases (lt b a)) [
    | inl e ↦ cc (lt-irrefl a, lt-trans a b a h e)
    | inr e ↦ e
  ]

  Memᴰ-insert_version :
      (x v : sv.Version) (vs : List sv.Version)
      → Memᴰ x (insert_version sv v vs) ↔ ((x ≡ v) ⊎ Memᴰ x vs)
  unfolding insert_version
  Memᴰ-insert_version x v [] = ground (arith, Memᴰ-cons x v [])
  Memᴰ-insert_version x v (w ∷ vs) = ground (
    arith,
    Memᴰ-insert_version x v vs,
    Memᴰ-cons x v (w ∷ vs),
    Memᴰ-cons x w vs,
    Memᴰ-cons x w (insert_version sv v vs),
  )

  pub Memᴰ-sort_versions :
      (x : sv.Version) (vs : List sv.Version) → Memᴰ x (sort_versions sv vs) ↔ Memᴰ x vs
  unfolding sort_versions
  Memᴰ-sort_versions x [] = (λ m. m, λ m. m)
  Memᴰ-sort_versions x (v ∷ vs) = ground (
    arith,
    Memᴰ-sort_versions x vs,
    Memᴰ-insert_version x v (sort_versions sv vs),
    Memᴰ-cons x v vs,
  )

  insert_version-IsSorted :
      (v : sv.Version) (vs : List sv.Version) → IsSorted vs → IsSorted (insert_version sv v vs)
  unfolding insert_version
  insert_version-IsSorted v [] s = (λ w m. absurd (not-Memᴰ-nil w m), tt)
  insert_version-IsSorted v (w ∷ vs) (first, rest) = elim (Bool-cases (lt v w)) [
    | inl h ↦ rw h (
      λ x m.
          ⊎_elim (λ e. ap (λ z. lt z v) e ∙ lt-asym v w h)
            (λ n. elim (Bool-cases (lt x v)) [
              | inl k ↦ cc (first x n, lt-trans x v w k h)
              | inr k ↦ k
            ])
            ((Memᴰ-cons x w vs).0 m),
      (first, rest),
    )
    | inr h ↦ rw h (
      λ x m. ⊎_elim (λ e. ap (λ z. lt z w) e ∙ h) (first x) ((Memᴰ-insert_version x v vs).0 m),
      insert_version-IsSorted v vs rest,
    )
  ]

  pub sort_versions-IsSorted : (vs : List sv.Version) → IsSorted (sort_versions sv vs)
  unfolding sort_versions
  sort_versions-IsSorted [] = tt
  sort_versions-IsSorted (v ∷ vs) =
      insert_version-IsSorted v (sort_versions sv vs) (sort_versions-IsSorted vs)

  -- The last version that passes the test is the highest one.
  pub find_last-some :
      (p : sv.Version → Bool) (vs : List sv.Version) (v : sv.Version)
      → IsSorted vs
      → find_last p vs ≡ some v
      → Memᴰ v vs × (p v ≡ true) × ((w : sv.Version) → Memᴰ w vs → p w ≡ true → lt v w ≡ false)
  unfolding find_last
  find_last-some p [] v s h = cc
  find_last-some p (x ∷ vs) v (first, rest) h = elim (Option-cases (find_last p vs)) [
    | inr (y, e) ↦
        let same : y ≡ v = cc (rw (find_last, e) at h) in
        let (m, t, top) = find_last-some p vs v rest (e ∙ ap some same) in
        (
          Memᴰ.tail m,
          t,
          λ w n k.
              ⊎_elim (λ q. ap (lt v) q ∙ first v m) (λ n'. top w n' k) ((Memᴰ-cons w x vs).0 n),
        )
    | inl e ↦ elim (Bool-cases (p x)) [
      | inr t ↦ cc (rw (find_last, e, t) at h)
      | inl t ↦
          let same : x ≡ v = cc (rw (find_last, e, t) at h) in
          (
            Memᴰ.head (sym same),
            subst (λ z. p z ≡ true) same t,
            λ w n k.
                ⊎_elim (λ q. ap (lt v) (q ∙ same) ∙ lt-irrefl v)
                  (λ n'. cc (k, find_last-none p vs w e n')) ((Memᴰ-cons w x vs).0 n),
          )
    ]
  ]
