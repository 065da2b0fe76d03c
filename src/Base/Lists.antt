-- ===== src/Base/Lists.antt =====
-- Rust's iterator methods on lists, and membership.
use Prim.Native.Nat.{ℕ, zero, suc, ◌+◌, ◌≤◌, ◌<◌}
use Prim.Native.String.{String}
use mathlib.Core.Path.{◌≡◌, refl, sym, ap, ◌∙◌, subst}
use mathlib.Core.Logic.{◌↔◌, ◌⊎◌, inl, inr, ⊎_elim}
use mathlib.Core.Bool.{Bool, true, false, ◌&&◌, ◌||◌}
use mathlib.Core.Option.{Option, none, some}
use mathlib.Core.List.{List, [], ◌∷◌, ◌++◌, map, Memᴰ}
use mathlib.Core.List.Memᴰ
use native.Mathlib.Omega.{arith}
use text.Mathlib.Text.{◌==◌}
use text.Mathlib.TextEquality.{eq_iff}
use lar.Base.Tests.{if◌then◌else◌, Bool-cases}

module _ {ℓ} {A : Type ℓ} where
  abbrev pub length : List A → ℕ
  length [] = 0
  length (x ∷ xs) = suc (length xs)

  abbrev pub get_elem? : List A → ℕ → Option A
  get_elem? [] i = none
  get_elem? (x ∷ xs) zero = some x
  get_elem? (x ∷ xs) (suc i) = get_elem? xs i

  -- `iter().any(p)`, `iter().all(p)`, `iter().find(p)`, `iter().filter(p)`
  unfoldable pub any : (A → Bool) → List A → Bool
  any p [] = false
  any p (x ∷ xs) = p x || any p xs

  unfoldable pub all : (A → Bool) → List A → Bool
  all p [] = true
  all p (x ∷ xs) = p x && all p xs

  unfoldable pub find : (A → Bool) → List A → Option A
  find p [] = none
  find p (x ∷ xs) = if p x then some x else find p xs

  unfoldable pub filter : (A → Bool) → List A → List A
  filter p [] = []
  filter p (x ∷ xs) = let rest = filter p xs in if p x then x ∷ rest else rest

  abbrev pub is_empty : List A → Bool
  is_empty [] = true
  is_empty (x ∷ xs) = false

  -- A predicate on every element.
  abbrev pub All {κ} : (A → Type κ) → List A → Type κ
  All P [] = Unit
  All P (x ∷ xs) = P x × All P xs

  pub length-append : (xs ys : List A) → length (xs ++ ys) ≡ length xs + length ys
  length-append [] ys = omega arith
  length-append (x ∷ xs) ys = omega (arith, length-append xs ys)

  pub Memᴰ-cons : (a x : A) (xs : List A) → Memᴰ a (x ∷ xs) ↔ ((a ≡ x) ⊎ Memᴰ a xs)
  Memᴰ-cons a x xs = (Memᴰ.cases_cons, ⊎_elim Memᴰ.head Memᴰ.tail)

  pub not-Memᴰ-nil : (a : A) → ¬ Memᴰ a []
  not-Memᴰ-nil a m = Memᴰ.not-nil m

  pub any_of_mem : (p : A → Bool) (xs : List A) (x : A) → Memᴰ x xs → p x ≡ true → any p xs ≡ true
  unfolding any
  any_of_mem p [] x m e = absurd (Memᴰ.not-nil m)
  any_of_mem p (y ∷ xs) x m e = ground (arith, any_of_mem p xs x, Memᴰ-cons x y xs)

  pub any_witness :
      (p : A → Bool) (xs : List A) → any p xs ≡ true → (x : A) × Memᴰ x xs × (p x ≡ true)
  unfolding any
  any_witness p [] h = cc
  any_witness p (y ∷ xs) h = elim (Bool-cases (p y)) [
    | inl e ↦ (y, Memᴰ.head refl, e)
    | inr e ↦ let (x, m, t) = any_witness p xs (ground arith) in (x, Memᴰ.tail m, t)
  ]

  pub not_any_of_mem :
      (p : A → Bool) (xs : List A) (x : A) → any p xs ≡ false → Memᴰ x xs → p x ≡ false
  not_any_of_mem p xs x h m = elim (Bool-cases (p x)) [
    | inl e ↦ cc (any_of_mem p xs x m e)
    | inr e ↦ e
  ]

  pub all_of_mem : (p : A → Bool) (xs : List A) (x : A) → all p xs ≡ true → Memᴰ x xs → p x ≡ true
  unfolding all
  all_of_mem p [] x h m = absurd (Memᴰ.not-nil m)
  all_of_mem p (y ∷ xs) x h m = ground (arith, all_of_mem p xs x, Memᴰ-cons x y xs)

  pub find-some :
      (p : A → Bool) (xs : List A) {x : A} → find p xs ≡ some x → Memᴰ x xs × (p x ≡ true)
  unfolding find
  find-some p [] h = cc
  find-some p (y ∷ xs) {x} h = elim (Bool-cases (p y)) [
    | inl e ↦
        let same : y ≡ x = ground arith in (Memᴰ.head (sym same), subst (λ z. p z ≡ true) same e)
    | inr e ↦ let (m, t) = find-some p xs {x = x} (ground arith) in (Memᴰ.tail m, t)
  ]

  pub find-none : (p : A → Bool) (xs : List A) (x : A) → find p xs ≡ none → Memᴰ x xs → p x ≡ false
  unfolding find
  find-none p [] x h m = absurd (Memᴰ.not-nil m)
  find-none p (y ∷ xs) x h m = ground (arith, find-none p xs x, Memᴰ-cons x y xs)

  pub Memᴰ-filter :
      (p : A → Bool) (xs : List A) (x : A) → Memᴰ x (filter p xs) ↔ (Memᴰ x xs × (p x ≡ true))
  unfolding filter
  Memᴰ-filter p [] x = (λ m. absurd (Memᴰ.not-nil m), λ (m, _). m)
  Memᴰ-filter p (y ∷ xs) x =
      ground (arith, Memᴰ-filter p xs x, Memᴰ-cons x y xs, Memᴰ-cons x y (filter p xs))

pub Memᴰ-map {ℓ κ} :
    {A : Type ℓ} {B : Type κ} (f : A → B) (xs : List A) (b : B)
    → Memᴰ b (map f xs) ↔ ((a : A) × Memᴰ a xs × (b ≡ f a))
Memᴰ-map f [] b = (λ m. absurd (Memᴰ.not-nil m), λ (a, m, e). absurd (Memᴰ.not-nil m))
Memᴰ-map f (x ∷ xs) b = (
  λ m.
      ⊎_elim (λ e. (x, Memᴰ.head refl, e))
        (λ n. let (a, k, e) = (Memᴰ-map f xs b).0 n in (a, Memᴰ.tail k, e))
        ((Memᴰ-cons b (f x) (map f xs)).0 m),
  λ (a, m, e).
      ⊎_elim (λ same. Memᴰ.head (e ∙ ap f same)) (λ n. Memᴰ.tail ((Memᴰ-map f xs b).1 (a, n, e)))
        ((Memᴰ-cons a x xs).0 m),
)

module _ {ℓ} {A : Type ℓ} (p q : A → Bool) (imp : (y : A) → q y ≡ true → p y ≡ true) where
  pub length-filter-le : (xs : List A) → length (filter q xs) ≤ length (filter p xs)
  unfolding filter
  length-filter-le [] = omega arith
  length-filter-le (x ∷ xs) = ground (arith, imp x, length-filter-le xs)

  -- A filter that also drops an element that is there is shorter.
  pub length-filter-lt :
      (xs : List A) (x : A)
      → Memᴰ x xs
      → p x ≡ true
      → q x ≡ false
      → length (filter q xs) < length (filter p xs)
  unfolding filter
  length-filter-lt [] x m a b = absurd (Memᴰ.not-nil m)
  length-filter-lt (y ∷ xs) x m a b =
      ground (arith, imp y, length-filter-le xs, length-filter-lt xs x, Memᴰ-cons x y xs)

pub length-filter {ℓ} : {A : Type ℓ} (p : A → Bool) (xs : List A) → length (filter p xs) ≤ length xs
unfolding filter
length-filter p [] = omega arith
length-filter p (x ∷ xs) = ground (arith, length-filter p xs)

-- `slice.contains(&s)`, and `BTreeSet::contains` where only membership counts.
unfoldable pub contains : List String → String → Bool
contains [] s = false
contains (x ∷ xs) s = x == s || contains xs s

pub contains_iff : (xs : List String) (s : String) → (contains xs s ≡ true) ↔ Memᴰ s xs
unfolding contains
contains_iff [] s = (λ h. cc, λ m. absurd (Memᴰ.not-nil m))
contains_iff (x ∷ xs) s = ground (arith, contains_iff xs s, eq_iff x s, Memᴰ-cons s x xs)

pub not-Memᴰ-contains : (xs : List String) (s : String) → contains xs s ≡ false → ¬ Memᴰ s xs
not-Memᴰ-contains xs s h m = cc (h, (contains_iff xs s).1 m)

pub contains-not-Memᴰ : (xs : List String) (s : String) → ¬ Memᴰ s xs → contains xs s ≡ false
contains-not-Memᴰ xs s h = elim (Bool-cases (contains xs s)) [
  | inl e ↦ absurd (h ((contains_iff xs s).0 e))
  | inr e ↦ e
]
