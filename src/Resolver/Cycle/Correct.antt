-- ===== src/Resolver/Cycle/Correct.antt =====
-- What `detect_dependency_cycle` decides.
use lar.Base.{
  ℕ, suc, String, some, List, [], ◌∷◌, ◌==◌, ◌≡◌, refl, ◌≢◌, ◌↔◌, arith, Memᴰ, eq_iff, Bool-cases,
  ◌⊎◌, inl, inr, sym, ap, ◌∙◌, subst, length,
}
use lar.Base.Map.{Map, lookup, insert, keys, lookup-insert}
use lar.Resolver.Locked.{LockedPackage}
use lar.Resolver.Cycle.{Outcome, clear, cycle, out_of_fuel, index_onto, detect_dependency_cycle}
use lar.Resolver.Cycle.Graph.{Walk}
use lar.Resolver.Cycle.Acyclic.{each-dfs_acyclic}
use lar.Resolver.Cycle.Found.{each-dfs-OnCycle}
use lar.Resolver.Cycle.Fuel.{each-dfs_ends}

-- An entry of the index was in it before, or is a listed package under its own id.
index_onto-entry :
    (m : Map LockedPackage) (ps : List LockedPackage) (k : String) (p : LockedPackage)
    → lookup (index_onto m ps) k ≡ some p
    → (lookup m k ≡ some p) ⊎ (Memᴰ p ps × (p.id ≡ k))
unfolding index_onto
index_onto-entry m [] k p h = inl h
index_onto-entry m (q ∷ ps) k p h = elim (index_onto-entry (insert m q.id q) ps k p h) [
  | inr (later, e) ↦ inr (Memᴰ.tail later, e)
  | inl here ↦ elim (Bool-cases (q.id == k)) [
    | inl e ↦
        let same : q ≡ p = ground (arith, lookup-insert m q.id k q) in
        inr
          (Memᴰ.head (sym same), ap (λ (z : LockedPackage). z.id) (sym same) ∙ (eq_iff q.id k).0 e)
    | inr e ↦ inl (ground (arith, lookup-insert m q.id k q))
  ]
]

-- The dependency graph of the selected packages, by id.
abbrev pub Reaches : List LockedPackage → String → String → Type 0
Reaches packages = Walk (index_onto [] packages)

abbrev enough : List LockedPackage → ℕ
enough packages = suc (length (keys (index_onto [] packages)))

-- The search ends with an answer, whatever the packages are.
pub detect-ne-out_of_fuel :
    (packages : List LockedPackage) → detect_dependency_cycle packages ≢ out_of_fuel
unfolding detect_dependency_cycle
detect-ne-out_of_fuel packages = each-dfs_ends (index_onto [] packages)

-- A reported id and version are those of a selected package whose dependencies lead back to it.
pub detect-cycle :
    (packages : List LockedPackage) (id version : String)
    → detect_dependency_cycle packages ≡ cycle id version
    → (p : LockedPackage) × Memᴰ p packages
      × (p.id ≡ id)
      × (p.version ≡ version)
      × Reaches packages id id
unfolding detect_dependency_cycle lookup
detect-cycle packages id version h =
    let c = each-dfs-OnCycle (index_onto [] packages) (enough packages) id version h in
    elim (index_onto-entry [] packages c.key c.pkg c.found) [
      | inl old ↦ cc
      | inr (m, e) ↦ (
        c.pkg,
        m,
        c.is_id,
        c.is_version,
        subst (λ z. Reaches packages z z) (sym e ∙ c.is_id) c.walk,
      )
    ]

clear-acyclic :
    (packages : List LockedPackage)
    → detect_dependency_cycle packages ≡ clear
    → (u : String) → ¬ Reaches packages u u
unfolding detect_dependency_cycle
clear-acyclic packages h = each-dfs_acyclic (index_onto [] packages) (enough packages) h

-- No cycle is reported exactly when no chain of dependencies leads from an id back to itself.
pub detect-clear_iff :
    (packages : List LockedPackage)
    → (detect_dependency_cycle packages ≡ clear) ↔ ((u : String) → ¬ Reaches packages u u)
detect-clear_iff packages =
    (clear-acyclic packages, λ acyclic. cases (detect_dependency_cycle packages) refl acyclic)
  where
    cases :
        (o : Outcome)
        → detect_dependency_cycle packages ≡ o
        → ((u : String) → ¬ Reaches packages u u)
        → detect_dependency_cycle packages ≡ clear
    cases clear e acyclic = e
    cases (cycle id version) e acyclic = absurd (acyclic id (detect-cycle packages id version e).4)
    cases out_of_fuel e acyclic = absurd (detect-ne-out_of_fuel packages e)
