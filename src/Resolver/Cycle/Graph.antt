-- ===== src/Resolver/Cycle/Graph.antt =====
-- The graph that `detect_dependency_cycle` searches, and how the search changes `visiting`.
use lar.Base.{
  ℕ, zero, suc, String, true, false, some, List, [], ◌∷◌, ◌≡◌, refl, arith, contains, Memᴰ, eq_iff,
  Bool-cases, inl, inr, sym, ap, ◌∙◌,
}
use lar.Base.Map.{Map, lookup, keys, contains_key}
use lar.Resolver.Locked.{LockedPackage}
use lar.Resolver.Cycle.{
  Sets, Outcome, clear, cycle, out_of_fuel, set_insert, set_remove, and_then, each, report,
  declared, visit_known, dfs,
}

module _ (by_id : Map LockedPackage) where
  -- `u` is a selected package that depends on the selected package `v`.
  pub record Edge (u v : String) : Type 0 where
    pub pkg : LockedPackage
    pub found : lookup by_id u ≡ some pkg
    pub depends : Memᴰ v (keys pkg.dependencies)
    pub selected : contains_key by_id v ≡ true

  -- A walk of one edge or more.
  pub data Walk : String → String → Type 0 where
    one : {u v : String} → Edge u v → Walk u v
    step : {u v w : String} → Edge u v → Walk v w → Walk u w

  pub snoc : {u v w : String} → Walk u v → Edge v w → Walk u w
  snoc (one e) f = step e (one f)
  snoc (step e p) f = step e (snoc p f)

pub and_then-eq-clear :
    (r : Outcome × Sets) (k : Sets → Outcome × Sets) {s' : Sets}
    → and_then r k ≡ (clear, s')
    → (t : Sets) × (r ≡ (clear, t)) × (k t ≡ (clear, s'))
and_then-eq-clear (clear, t) k h = (t, refl, h)
and_then-eq-clear (cycle i v, t) k h = cc (ap (λ (r : Outcome × Sets). r.0) h)
and_then-eq-clear (out_of_fuel, t) k h = cc (ap (λ (r : Outcome × Sets). r.0) h)

pub set_remove_fresh : (x : String) (s : List String) → contains s x ≡ false → set_remove x s ≡ s
unfolding set_remove contains
set_remove_fresh x [] h = refl
set_remove_fresh x (y ∷ s) h = ground (arith, set_remove_fresh x s)

pub set_remove-cons :
    (x : String) (s : List String) → contains s x ≡ false → set_remove x (x ∷ s) ≡ s
unfolding set_remove
set_remove-cons x s h = ground (arith, eq_iff x x, set_remove_fresh x s h)

-- What `dfs` does on its three branches.
pub data Branch (by_id : Map LockedPackage) (fuel : ℕ) (id : String) (s : Sets) : Type 0 where
  done :
      contains s.visited id ≡ true → dfs by_id (suc fuel) id s ≡ (clear, s) → Branch by_id fuel id s
  open_already :
      contains s.visiting id ≡ true
      → dfs by_id (suc fuel) id s ≡ (report (lookup by_id id), s)
      → Branch by_id fuel id s
  new :
      contains s.visiting id ≡ false
      → dfs by_id (suc fuel) id s
        ≡ and_then
            (each
              (visit_known by_id (dfs by_id fuel))
              (declared (lookup by_id id))
              (record s { visiting = id ∷ s.visiting }))
            (λ t. (
              clear,
              record t { visiting = set_remove id t.visiting; visited = set_insert id t.visited },
            ))
      → Branch by_id fuel id s

pub branch :
    (by_id : Map LockedPackage) (fuel : ℕ) (id : String) (s : Sets) → Branch by_id fuel id s
unfolding dfs
branch by_id fuel id s = elim (Bool-cases (contains s.visited id)) [
  | inl a ↦ done a (rw a)
  | inr a ↦ elim (Bool-cases (contains s.visiting id)) [
    | inl b ↦ open_already b (rw (a, b))
    | inr b ↦ new b (rw (a, b))
  ]
]

-- A search that finds no cycle leaves `visiting` as it was.
abbrev pub KeepsVisiting : (String → Sets → Outcome × Sets) → Type 0
KeepsVisiting visit =
    (x : String) (s s' : Sets) → visit x s ≡ (clear, s') → s'.visiting ≡ s.visiting

pub each-KeepsVisiting :
    (visit : String → Sets → Outcome × Sets)
    → KeepsVisiting visit
    → (xs : List String) (s s' : Sets) → each visit xs s ≡ (clear, s')
    → s'.visiting ≡ s.visiting
unfolding each
each-KeepsVisiting visit keep [] s s' h = ap (λ (r : Outcome × Sets). r.1.visiting) (sym h)
each-KeepsVisiting visit keep (x ∷ xs) s s' h =
    let (t, first, rest) = and_then-eq-clear (visit x s) (each visit xs) h in
    each-KeepsVisiting visit keep xs t s' rest ∙ keep x s t first

module _ (by_id : Map LockedPackage) where
  pub visit_known-KeepsVisiting :
      (visit : String → Sets → Outcome × Sets)
      → KeepsVisiting visit
      → KeepsVisiting (visit_known by_id visit)
  unfolding visit_known
  visit_known-KeepsVisiting visit keep x s s' h = elim (Bool-cases (contains_key by_id x)) [
    | inl e ↦ keep x s s' (rw e at h)
    | inr e ↦ ap (λ (r : Outcome × Sets). r.1.visiting) (sym (rw e at h))
  ]

  pub dfs-KeepsVisiting : (fuel : ℕ) → KeepsVisiting (dfs by_id fuel)
  unfolding dfs
  dfs-KeepsVisiting zero x s s' h = cc (ap (λ (r : Outcome × Sets). r.0) h)
  dfs-KeepsVisiting (suc fuel) x s s' h = elim (branch by_id fuel x s) [
    | done _ e ↦ ap (λ (r : Outcome × Sets). r.1.visiting) (sym h ∙ e)
    | open_already _ e ↦ ap (λ (r : Outcome × Sets). r.1.visiting) (sym h ∙ e)
    | new fresh e ↦
        let (t, deps, last) = and_then-eq-clear _ _ (sym e ∙ h) in
        sym (ap (λ (r : Outcome × Sets). r.1.visiting) last)
        ∙ ap (set_remove x) (
            each-KeepsVisiting (visit_known by_id (dfs by_id fuel))
              (visit_known-KeepsVisiting (dfs by_id fuel) (dfs-KeepsVisiting fuel))
              (declared (lookup by_id x)) _ t deps)
        ∙ set_remove-cons x s.visiting fresh
  ]
