-- ===== src/Resolver/Cycle/Acyclic.antt =====
-- When the search finds no cycle there is none: `visited` lists every package after the packages
-- that it depends on.
use mathlib.Core.List.Memᴰ
use lar.Base.{
  ℕ, zero, suc, String, true, List, [], ◌∷◌, ◌≡◌, refl, contains, contains_iff, Memᴰ, Bool-cases,
  inl, inr, sym, ap, ◌∙◌, subst, Option-cases,
}
use lar.Base.Map.{Map, lookup, keys, contains_key, Memᴰ-keys}
use lar.Resolver.Locked.{LockedPackage}
use lar.Resolver.Cycle.{Sets, Outcome, clear, set_insert, each, report, declared, visit_known, dfs}
use lar.Resolver.Cycle.Graph.{
  Edge, Walk, one, step, and_then-eq-clear, branch, done, open_already, new,
}

module _ (by_id : Map LockedPackage) where
  -- Each entry's edges lead to entries after it.
  abbrev pub Topo : List String → Type 0
  Topo [] = Unit
  Topo (u ∷ vs) = ((w : String) → Edge by_id u w → Memᴰ w vs) × Topo vs

  -- The edges of a listed package lead to listed packages.
  edge_stays : (vs : List String) {u w : String} → Topo vs → Memᴰ u vs → Edge by_id u w → Memᴰ w vs
  edge_stays [] t m e = absurd (Memᴰ.not-nil m)
  edge_stays (v ∷ vs) {u} {w} (out, t) m e = elim (Memᴰ.cases_cons m) [
    | inl same ↦ Memᴰ.tail (out w (subst (λ z. Edge by_id z w) same e))
    | inr later ↦ Memᴰ.tail (edge_stays vs t later e)
  ]

  walk_stays : (vs : List String) {u w : String} → Topo vs → Memᴰ u vs → Walk by_id u w → Memᴰ w vs
  walk_stays vs t m (one e) = edge_stays vs t m e
  walk_stays vs t m (step e p) = walk_stays vs t (edge_stays vs t m e) p

  walk_enters :
      (v : String) (vs : List String) {u w : String}
      → Topo (v ∷ vs)
      → u ≡ v
      → Walk by_id u w
      → Memᴰ w vs
  walk_enters v vs t same (one {v = w} e) = t.0 w (subst (λ z. Edge by_id z w) same e)
  walk_enters v vs t same (step {v = x} e p) =
      walk_stays vs t.1 (t.0 x (subst (λ z. Edge by_id z x) same e)) p

  -- No listed package lies on a cycle.
  pub no_cycle : (vs : List String) (u : String) → Topo vs → Memᴰ u vs → ¬ Walk by_id u u
  no_cycle [] u t m p = absurd (Memᴰ.not-nil m)
  no_cycle (v ∷ vs) u t m p = elim (Memᴰ.cases_cons m) [
    | inl same ↦ no_cycle vs u t.1 (walk_enters v vs t same p) p
    | inr later ↦ no_cycle vs u t.1 later p
  ]

  -- What a search without a cycle does to `visited`.
  record Grows (s s' : Sets) : Type 0 where
    topo : Topo s'.visited
    grows : (x : String) → Memᴰ x s.visited → Memᴰ x s'.visited

  abbrev Visits : (String → Sets → Outcome × Sets) → Type 0
  Visits visit =
      (x : String) (s s' : Sets)
      → visit x s ≡ (clear, s')
      → Topo s.visited
      → Grows s s' × (contains_key by_id x ≡ true → Memᴰ x s'.visited)

  each-Visits :
      (visit : String → Sets → Outcome × Sets)
      → Visits visit
      → (xs : List String) (s s' : Sets) → each visit xs s ≡ (clear, s')
      → Topo s.visited
      → Grows s s' × ((x : String) → Memᴰ x xs → contains_key by_id x ≡ true → Memᴰ x s'.visited)
  unfolding each
  each-Visits visit keep [] s s' h t =
      let same = ap (λ (r : Outcome × Sets). r.1) h in
      (
        subst (λ z. Grows s z) same (record { topo = t; grows = λ x m. m }),
        λ x m. absurd (Memᴰ.not-nil m),
      )
  each-Visits visit keep (y ∷ xs) s s' h t =
      let (r, first, rest) = and_then-eq-clear (visit y s) (each visit xs) h in
      let (g, seen) = keep y s r first t in
      let (k, later) = each-Visits visit keep xs r s' rest g.topo in
      (
        record { topo = k.topo; grows = λ x m. k.grows x (g.grows x m) },
        λ x m known. elim (Memᴰ.cases_cons m) [
          | inl same ↦ k.grows x (
              subst (λ z. Memᴰ z r.visited) (sym same)
                (seen (subst (λ z. contains_key by_id z ≡ true) same known)))
          | inr n ↦ later x n known
        ],
      )

  visit_known-Visits :
      (visit : String → Sets → Outcome × Sets) → Visits visit → Visits (visit_known by_id visit)
  unfolding visit_known
  visit_known-Visits visit keep x s s' h t = elim (Bool-cases (contains_key by_id x)) [
    | inl e ↦ keep x s s' (rw e at h) t
    | inr e ↦ (
      subst (λ z. Grows s z) (ap (λ (r : Outcome × Sets). r.1) (rw e at h))
          (record { topo = t; grows = λ y m. m }),
      λ known. cc,
    )
  ]

  set_insert-Topo :
      (x : String) (vs : List String)
      → Topo vs
      → ((w : String) → Edge by_id x w → Memᴰ w vs)
      → Topo (set_insert x vs)
  unfolding set_insert
  set_insert-Topo x vs t out = elim (Bool-cases (contains vs x)) [
    | inl e ↦ rw e t
    | inr e ↦ rw e (out, t)
  ]

  Memᴰ-set_insert : (x : String) (vs : List String) → Memᴰ x (set_insert x vs)
  unfolding set_insert
  Memᴰ-set_insert x vs = elim (Bool-cases (contains vs x)) [
    | inl e ↦ rw e ((contains_iff vs x).0 e)
    | inr e ↦ rw e (Memᴰ.head refl)
  ]

  set_insert_keeps : (x y : String) (vs : List String) → Memᴰ y vs → Memᴰ y (set_insert x vs)
  unfolding set_insert
  set_insert_keeps x y vs m = elim (Bool-cases (contains vs x)) [
    | inl e ↦ rw e m
    | inr e ↦ rw e (Memᴰ.tail m)
  ]

  -- A package that is still open is reported, unless it is not selected.
  report-Visits :
      (x : String) (s s' : Sets)
      → ◌≡◌ {A = Outcome × Sets} (report (lookup by_id x), s) (clear, s')
      → Topo s.visited
      → Grows s s' × (contains_key by_id x ≡ true → Memᴰ x s'.visited)
  unfolding contains_key
  report-Visits x s s' h t = elim (Option-cases (lookup by_id x)) [
    | inl e ↦ (
      subst (λ z. Grows s z) (ap (λ (r : Outcome × Sets). r.1) h)
          (record { topo = t; grows = λ y m. m }),
      λ known. cc (rw (e, contains_key) at known),
    )
    | inr (p, e) ↦ cc (ap (λ (r : Outcome × Sets). r.0) h, ap report e)
  ]

  -- The edges of a package are its declared dependencies that are selected.
  Edge-declared :
      {x w : String}
      → Edge by_id x w
      → Memᴰ w (declared (lookup by_id x)) × (contains_key by_id w ≡ true)
  Edge-declared {x} {w} e = (subst (λ o. Memᴰ w (declared o)) (sym e.found) e.depends, e.selected)

  dfs-Visits : (fuel : ℕ) → Visits (dfs by_id fuel)
  unfolding dfs
  dfs-Visits zero x s s' h t = cc (ap (λ (r : Outcome × Sets). r.0) h)
  dfs-Visits (suc fuel) x s s' h t = elim (branch by_id fuel x s) [
    | done seen e ↦
        let same = ap (λ (r : Outcome × Sets). r.1) (sym e ∙ h) in
        subst (λ z. Grows s z × (contains_key by_id x ≡ true → Memᴰ x z.visited)) same
          (record { topo = t; grows = λ y m. m }, λ _. (contains_iff s.visited x).0 seen)
    | open_already _ e ↦ report-Visits x s s' (sym e ∙ h) t
    | new fresh e ↦
        let (r, deps, last) = and_then-eq-clear _ _ (sym e ∙ h) in
        let (g, seen) =
          each-Visits (visit_known by_id (dfs by_id fuel))
            (visit_known-Visits (dfs by_id fuel) (dfs-Visits fuel)) (declared (lookup by_id x)) _ r
            deps t in
        subst (λ z. Grows s z × (contains_key by_id x ≡ true → Memᴰ x z.visited))
          (ap (λ (q : Outcome × Sets). q.1) last)
          (
            record {
              topo =
                  set_insert-Topo x r.visited g.topo
                    (λ w edge. let (m, known) = Edge-declared edge in seen w m known);
              grows = λ y m. set_insert_keeps x y r.visited (g.grows y m);
            },
            λ _. Memᴰ-set_insert x r.visited,
          )
  ]

  Walk-starts : {v w : String} → Walk by_id v w → contains_key by_id v ≡ true
  unfolding contains_key
  Walk-starts (one e) = rw (e.found, contains_key)
  Walk-starts (step e p) = rw (e.found, contains_key)

  -- A loop over the selected packages that ends without a cycle has seen that there is none.
  pub each-dfs_acyclic :
      (fuel : ℕ)
      → (each (dfs by_id fuel) (keys by_id) (record { visiting = []; visited = [] })).0 ≡ clear
      → (u : String) → ¬ Walk by_id u u
  each-dfs_acyclic fuel h u p =
      let empty : Sets = record { visiting = []; visited = [] } in
      let end = (each (dfs by_id fuel) (keys by_id) empty).1 in
      let (g, seen) =
        each-Visits (dfs by_id fuel) (dfs-Visits fuel) (keys by_id) empty end (λ i. (h i, end))
          tt in
      let known = Walk-starts p in
      no_cycle end.visited u g.topo (seen u ((Memᴰ-keys by_id u).0 known) known) p
