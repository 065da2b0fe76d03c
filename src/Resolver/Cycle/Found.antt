-- ===== src/Resolver/Cycle/Found.antt =====
-- A package that the search reports lies on a cycle.
use mathlib.Core.List.Memᴰ
use lar.Base.{
  ℕ, zero, suc, String, true, some, List, [], ◌∷◌, ◌≡◌, refl, contains_iff, Memᴰ, Bool-cases, inl,
  inr, sym, ap, ◌∙◌, subst, Option-cases,
}
use lar.Base.Map.{Map, lookup, keys, contains_key}
use lar.Resolver.Locked.{LockedPackage}
use lar.Resolver.Cycle.{
  Sets, Outcome, clear, cycle, out_of_fuel, and_then, each, report, declared, visit_known, dfs,
}
use lar.Resolver.Cycle.Graph.{
  Edge, Walk, one, snoc, branch, done, open_already, new, KeepsVisiting, visit_known-KeepsVisiting,
  dfs-KeepsVisiting,
}

module _ (by_id : Map LockedPackage) where
  -- A selected package of a version that lies on a cycle.
  pub record OnCycle (id version : String) : Type 0 where
    pub pkg : LockedPackage
    pub key : String
    pub found : lookup by_id key ≡ some pkg
    pub is_id : pkg.id ≡ id
    pub is_version : pkg.version ≡ version
    pub walk : Walk by_id key key

  -- The call in which a loop found its cycle.
  record Call (visit : String → Sets → Outcome × Sets) (xs : List String) (s : Sets) (o : Outcome)
      : Type 0 where
    target : String
    listed : Memᴰ target xs
    before : Sets
    same : before.visiting ≡ s.visiting
    outcome : (visit target before).0 ≡ o

  each-Call :
      (visit : String → Sets → Outcome × Sets)
      → KeepsVisiting visit
      → (xs : List String) (s : Sets) (id version : String) → (each visit xs s).0 ≡ cycle id version
      → Call visit xs s (cycle id version)
  unfolding each
  each-Call visit keep [] s id version h = cc
  each-Call visit keep (x ∷ xs) s id version h =
      go (λ t. each-Call visit keep xs t id version) (visit x s) refl h
    where
      go :
          ((t : Sets) → (each visit xs t).0 ≡ cycle id version → Call visit xs t (cycle id version))
          → (r : Outcome × Sets) → visit x s ≡ r
          → (and_then r (each visit xs)).0 ≡ cycle id version
          → Call visit (x ∷ xs) s (cycle id version)
      go later (clear, t) e k =
          let c = later t k in
          record {
            target = c.target;
            listed = Memᴰ.tail c.listed;
            before = c.before;
            same = c.same ∙ keep x s t e;
            outcome = c.outcome;
          }
      go later (cycle i v, t) e k = record {
        target = x;
        listed = Memᴰ.head refl;
        before = s;
        same = refl;
        outcome = ap (λ (r : Outcome × Sets). r.0) e ∙ k;
      }
      go later (out_of_fuel, t) e k = cc

  and_then_cycle :
      (r : Outcome × Sets) (f : Sets → Sets) (id version : String)
      → (and_then r (λ t. (clear, f t))).0 ≡ cycle id version
      → r.0 ≡ cycle id version
  and_then_cycle (clear, t) f id version h = cc
  and_then_cycle (cycle i v, t) f id version h = h
  and_then_cycle (out_of_fuel, t) f id version h = cc

  -- A reported package is open, so that it leads to the one that is visited.
  report-OnCycle :
      (x id version : String)
      → Walk by_id x x
      → report (lookup by_id x) ≡ cycle id version
      → OnCycle id version
  report-OnCycle x id version p h = elim (Option-cases (lookup by_id x)) [
    | inl e ↦ cc (h, ap report e)
    | inr (q, e) ↦
        let same = sym (ap report e) ∙ h in
        record { pkg = q; key = x; found = e; is_id = cc same; is_version = cc same; walk = p }
  ]

  declared-Edge :
      (x d : String)
      → Memᴰ d (declared (lookup by_id x))
      → contains_key by_id d ≡ true
      → Edge by_id x d
  declared-Edge x d m known = elim (Option-cases (lookup by_id x)) [
    | inl e ↦ absurd (Memᴰ.not-nil (subst (λ o. Memᴰ d (declared o)) e m))
    | inr (q, e) ↦ record {
      pkg = q;
      found = e;
      depends = subst (λ o. Memᴰ d (declared o)) e m;
      selected = known;
    }
  ]

  visit_known_cycle :
      (visit : String → Sets → Outcome × Sets) (x : String) (s : Sets) (id version : String)
      → (visit_known by_id visit x s).0 ≡ cycle id version
      → (contains_key by_id x ≡ true) × ((visit x s).0 ≡ cycle id version)
  unfolding visit_known
  visit_known_cycle visit x s id version h = elim (Bool-cases (contains_key by_id x)) [
    | inl e ↦ (e, rw e at h)
    | inr e ↦ cc (ap (λ (o : Outcome). o) (rw e at h))
  ]

  -- Every package on the stack leads to the one that is visited.
  abbrev Leads : String → Sets → Type 0
  Leads x s = (w : String) → Memᴰ w s.visiting → Walk by_id w x

  dfs-OnCycle :
      (fuel : ℕ) (x : String) (s : Sets) (id version : String)
      → Leads x s
      → (dfs by_id fuel x s).0 ≡ cycle id version
      → OnCycle id version
  unfolding dfs
  dfs-OnCycle zero x s id version leads h = cc
  dfs-OnCycle (suc fuel) x s id version leads h = elim (branch by_id fuel x s) [
    | done _ e ↦ cc (h, ap (λ (r : Outcome × Sets). r.0) e)
    | open_already here e ↦
        report-OnCycle x id version (leads x ((contains_iff s.visiting x).0 here))
          (sym (ap (λ (r : Outcome × Sets). r.0) e) ∙ h)
    | new fresh e ↦
        let inner = and_then_cycle _ _ id version (sym (ap (λ (r : Outcome × Sets). r.0) e) ∙ h) in
        let c =
          each-Call (visit_known by_id (dfs by_id fuel))
            (visit_known-KeepsVisiting by_id (dfs by_id fuel) (dfs-KeepsVisiting by_id fuel))
            (declared (lookup by_id x)) _ id version inner in
        let (known, below) =
          visit_known_cycle (dfs by_id fuel) c.target c.before id version c.outcome in
        let edge = declared-Edge x c.target c.listed known in
        dfs-OnCycle fuel c.target c.before id version
          (λ w m. elim (Memᴰ.cases_cons (subst (Memᴰ w) c.same m)) [
            | inl same ↦ subst (λ z. Walk by_id z c.target) (sym same) (one edge)
            | inr later ↦ snoc by_id (leads w later) edge
          ])
          below
  ]

  pub each-dfs-OnCycle :
      (fuel : ℕ) (id version : String)
      → (each (dfs by_id fuel) (keys by_id) (record { visiting = []; visited = [] })).0
        ≡ cycle id version
      → OnCycle id version
  each-dfs-OnCycle fuel id version h =
      let c =
        each-Call (dfs by_id fuel) (dfs-KeepsVisiting by_id fuel) (keys by_id) _ id version h in
      dfs-OnCycle fuel c.target c.before id version
        (λ w m. absurd (Memᴰ.not-nil (subst (Memᴰ w) c.same m))) c.outcome
