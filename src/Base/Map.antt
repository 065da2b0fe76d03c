-- ===== src/Base/Map.antt =====
-- `BTreeMap<String, V>`: an association list in the order of its keys. The laws hold of any list.
use Prim.Native.String.{String}
use mathlib.Core.Path.{◌≡◌, refl}
use mathlib.Core.Logic.{◌↔◌}
use mathlib.Core.Bool.{Bool, true, false, ◌&&◌}
use mathlib.Core.Option.{Option, none, some}
use mathlib.Core.List.{List, [], ◌∷◌, Memᴰ}
use mathlib.Core.List.Memᴰ
use native.Mathlib.Omega.{arith}
use text.Mathlib.Text.{◌==◌}
use text.Mathlib.TextEquality.{eq_iff}
use lar.Base.Tests.{if◌then◌else◌, str_lt}
use lar.Base.Lists.{Memᴰ-cons}

abbrev pub Map {ℓ} : Type ℓ → Type ℓ
Map V = List (String × V)

module _ {ℓ} {V : Type ℓ} where
  -- `map.get(k)`
  unfoldable pub lookup : Map V → String → Option V
  lookup [] k = none
  lookup ((j, v) ∷ m) k = if j == k then some v else lookup m k

  -- `map.insert(k, v)`
  unfoldable pub insert : Map V → String → V → Map V
  insert [] k v = (k, v) ∷ []
  insert ((j, w) ∷ m) k v =
      let rest = insert m k v in
      if j == k then (k, v) ∷ m else if str_lt k j then (k, v) ∷ (j, w) ∷ m else (j, w) ∷ rest

  -- `map.keys()`
  unfoldable pub keys : Map V → List String
  keys [] = []
  keys ((j, _) ∷ m) = j ∷ keys m

  -- `map.contains_key(k)`
  unfoldable pub contains_key : Map V → String → Bool
  unfolding lookup
  contains_key m k = elim (lookup m k) [ none ↦ false | some _ ↦ true ]

  pub lookup-insert :
      (m : Map V) (k j : String) (v : V)
      → lookup (insert m k v) j ≡ (if k == j then some v else lookup m j)
  unfolding lookup insert
  lookup-insert [] k j v = refl
  lookup-insert ((i, w) ∷ m) k j v =
      ground (arith, lookup-insert m k j v, eq_iff i k, eq_iff i j, eq_iff k j)

  pub Memᴰ-keys : (m : Map V) (k : String) → (contains_key m k ≡ true) ↔ Memᴰ k (keys m)
  unfolding contains_key keys
  Memᴰ-keys [] k = (λ h. cc, λ h. absurd (Memᴰ.not-nil h))
  Memᴰ-keys ((j, v) ∷ m) k = ground (arith, Memᴰ-keys m k, eq_iff j k, Memᴰ-cons k j (keys m))

  pub contains_key-some :
      (m : Map V) (k : String) → contains_key m k ≡ true → (v : V) × (lookup m k ≡ some v)
  unfolding contains_key
  contains_key-some m k h = ground arith

-- `a == b` on maps of texts
unfoldable pub same_map : Map String → Map String → Bool
same_map [] [] = true
same_map [] ((_, _) ∷ n) = false
same_map ((_, _) ∷ m) [] = false
same_map ((j, v) ∷ m) ((k, w) ∷ n) = (j == k) && (v == w) && same_map m n

pub same_map_iff : (m n : Map String) → (same_map m n ≡ true) ↔ (m ≡ n)
unfolding same_map
same_map_iff [] [] = (λ _. refl, λ _. refl)
same_map_iff [] ((k, w) ∷ n) = (λ h. cc, λ h. cc)
same_map_iff ((j, v) ∷ m) [] = (λ h. cc, λ h. cc)
same_map_iff ((j, v) ∷ m) ((k, w) ∷ n) = ground (arith, eq_iff j k, eq_iff v w, same_map_iff m n)
