-- ===== src/Repo/Sources/Indices.antt =====
-- Removing from a list and inserting into it at an index.
use lar.Base.{
  ℕ, zero, suc, ◌≤◌, ◌<◌, Bool, true, Option, none, some, List, [], ◌∷◌, ◌≡◌, refl, ap, arith,
  length, get_elem?, Bool-cases, inl, inr, subst,
}
use lar.Repo.Sources.{position, remove_at, insert_at}

module _ {ℓ} {A : Type ℓ} where
  pub position-some :
      (p : A → Bool) (xs : List A) (i : ℕ)
      → position p xs ≡ some i
      → (x : A) × (get_elem? xs i ≡ some x) × (p x ≡ true) × (i < length xs)
  unfolding position
  position-some p [] i h = cc
  position-some p (x ∷ xs) i h = elim (Bool-cases (p x)) [
    | inl e ↦
        let first : 0 ≡ i = ground arith in
        subst
          (λ j. (y : A) × (get_elem? (x ∷ xs) j ≡ some y) × (p y ≡ true) × (j < suc (length xs)))
          first (x, refl, e, omega arith)
    | inr e ↦
        let (j, k, q) = later (position p xs) (ground arith) in
        let (y, a, b, c) = position-some p xs j k in
        subst
          (λ n. (y : A) × (get_elem? (x ∷ xs) n ≡ some y) × (p y ≡ true) × (n < suc (length xs))) q
          (y, a, b, omega arith)
  ]
    where
      later :
          (o : Option ℕ)
          → ◌≡◌ {A = Option ℕ} (elim o [ none ↦ none | some i ↦ some (suc i) ]) (some i)
          → (j : ℕ) × (o ≡ some j) × (suc j ≡ i)
      later none h = cc
      later (some j) h = (j, refl, cc)

  pub length-remove_at :
      (xs : List A) (i : ℕ) → i < length xs → suc (length (remove_at xs i)) ≡ length xs
  unfolding remove_at
  length-remove_at [] i h = absurd (omega arith)
  length-remove_at (x ∷ xs) zero h = refl
  length-remove_at (x ∷ xs) (suc i) h = omega (arith, length-remove_at xs i (omega arith))

  pub get_elem?-remove_before :
      (xs : List A) (i j : ℕ) → j < i → get_elem? (remove_at xs i) j ≡ get_elem? xs j
  unfolding remove_at
  get_elem?-remove_before [] i j h = refl
  get_elem?-remove_before (x ∷ xs) zero j h = absurd (omega arith)
  get_elem?-remove_before (x ∷ xs) (suc i) zero h = refl
  get_elem?-remove_before (x ∷ xs) (suc i) (suc j) h = get_elem?-remove_before xs i j (omega arith)

  pub get_elem?-remove_after :
      (xs : List A) (i j : ℕ) → i ≤ j → get_elem? (remove_at xs i) j ≡ get_elem? xs (suc j)
  unfolding remove_at
  get_elem?-remove_after [] i j h = refl
  get_elem?-remove_after (x ∷ xs) zero j h = refl
  get_elem?-remove_after (x ∷ xs) (suc i) zero h = absurd (omega arith)
  get_elem?-remove_after (x ∷ xs) (suc i) (suc j) h = get_elem?-remove_after xs i j (omega arith)

  pub get_elem?-insert_at :
      (xs : List A) (i : ℕ) (y : A) → i ≤ length xs → get_elem? (insert_at xs i y) i ≡ some y
  unfolding insert_at
  get_elem?-insert_at [] zero y h = refl
  get_elem?-insert_at (x ∷ xs) zero y h = refl
  get_elem?-insert_at [] (suc i) y h = absurd (omega arith)
  get_elem?-insert_at (x ∷ xs) (suc i) y h = get_elem?-insert_at xs i y (omega arith)

  pub get_elem?-insert_before :
      (xs : List A) (i j : ℕ) (y : A)
      → j < i
      → i ≤ length xs
      → get_elem? (insert_at xs i y) j ≡ get_elem? xs j
  unfolding insert_at
  get_elem?-insert_before xs zero j y h le = absurd (omega arith)
  get_elem?-insert_before [] (suc i) j y h le = absurd (omega arith)
  get_elem?-insert_before (x ∷ xs) (suc i) zero y h le = refl
  get_elem?-insert_before (x ∷ xs) (suc i) (suc j) y h le =
      get_elem?-insert_before xs i j y (omega arith) (omega arith)

  pub get_elem?-insert_after :
      (xs : List A) (i j : ℕ) (y : A)
      → i ≤ j
      → i ≤ length xs
      → get_elem? (insert_at xs i y) (suc j) ≡ get_elem? xs j
  unfolding insert_at
  get_elem?-insert_after [] zero j y h le = refl
  get_elem?-insert_after (x ∷ xs) zero j y h le = refl
  get_elem?-insert_after [] (suc i) j y h le = absurd (omega arith)
  get_elem?-insert_after (x ∷ xs) (suc i) zero y h le = absurd (omega arith)
  get_elem?-insert_after (x ∷ xs) (suc i) (suc j) y h le =
      get_elem?-insert_after xs i j y (omega arith) (omega arith)

  pub remove_at-insert_at :
      (xs : List A) (i : ℕ) (y : A) → i ≤ length xs → remove_at (insert_at xs i y) i ≡ xs
  unfolding remove_at insert_at
  remove_at-insert_at [] zero y h = refl
  remove_at-insert_at (x ∷ xs) zero y h = refl
  remove_at-insert_at [] (suc i) y h = absurd (omega arith)
  remove_at-insert_at (x ∷ xs) (suc i) y h =
      ap (λ z. x ∷ z) (remove_at-insert_at xs i y (omega arith))
