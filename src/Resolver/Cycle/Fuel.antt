-- ===== src/Resolver/Cycle/Fuel.antt =====
-- The search does not run out of its fuel: each nested call opens a selected package more.
use lar.Base.{
  ℕ, zero, suc, String, Bool, true, false, not, Option, none, some, List, [], ◌∷◌, ◌≡◌, refl, ◌≢◌,
  ◌<◌, arith, length, contains, filter, length-filter, length-filter-lt, Memᴰ, eq_iff, Bool-cases,
  inl, inr, sym, ap, ◌∙◌, subst,
}
use lar.Base.Map.{Map, lookup, keys, contains_key, Memᴰ-keys}
use lar.Resolver.Locked.{LockedPackage}
use lar.Resolver.Cycle.{
  Sets, Outcome, clear, cycle, out_of_fuel, and_then, each, report, declared, visit_known, dfs,
}
use lar.Resolver.Cycle.Graph.{
  branch, done, open_already, new, KeepsVisiting, visit_known-KeepsVisiting, dfs-KeepsVisiting,
}

module _ (by_id : Map LockedPackage) where
  abbrev unopened : List String → String → Bool
  unopened visiting k = not (contains visiting k)

  -- How many selected packages are not open.
  abbrev room : List String → ℕ
  room visiting = length (filter (unopened visiting) (keys by_id))

  room-cons :
      (x : String) (visiting : List String)
      → contains_key by_id x ≡ true
      → contains visiting x ≡ false
      → room (x ∷ visiting) < room visiting
  unfolding contains
  room-cons x visiting known fresh =
      length-filter-lt (unopened visiting) (unopened (x ∷ visiting)) (λ y h. ground arith)
        (keys by_id) x ((Memᴰ-keys by_id x).0 known) (ground arith) (ground (arith, eq_iff x x))

  abbrev Ends : (String → Sets → Outcome × Sets) → List String → Type 0
  Ends visit visiting =
      (x : String) (s : Sets)
      → contains_key by_id x ≡ true
      → s.visiting ≡ visiting
      → (visit x s).0 ≢ out_of_fuel

  and_then_ends :
      (r : Outcome × Sets) (k : Sets → Outcome × Sets)
      → r.0 ≢ out_of_fuel
      → ((t : Sets) → r ≡ (clear, t) → (k t).0 ≢ out_of_fuel)
      → (and_then r k).0 ≢ out_of_fuel
  and_then_ends (clear, t) k h g = g t refl
  and_then_ends (cycle i v, t) k h g = λ e. cc
  and_then_ends (out_of_fuel, t) k h g = h

  each_ends :
      (visit : String → Sets → Outcome × Sets)
      → KeepsVisiting visit
      → (xs : List String) (s : Sets)
      → ((x : String) (t : Sets)
          → Memᴰ x xs
          → t.visiting ≡ s.visiting
          → (visit x t).0 ≢ out_of_fuel)
      → (each visit xs s).0 ≢ out_of_fuel
  unfolding each
  each_ends visit keep [] s h = λ e. cc
  each_ends visit keep (x ∷ xs) s h =
      and_then_ends (visit x s) (each visit xs) (h x s (Memᴰ.head refl) refl)
        (λ t e. each_ends visit keep xs t (λ y u m same. h y u (Memᴰ.tail m) (same ∙ keep x s t e)))

  visit_known-Ends :
      (visit : String → Sets → Outcome × Sets) (visiting : List String)
      → Ends visit visiting
      → (x : String) (s : Sets) → s.visiting ≡ visiting
      → (visit_known by_id visit x s).0 ≢ out_of_fuel
  unfolding visit_known
  visit_known-Ends visit visiting h x s same = elim (Bool-cases (contains_key by_id x)) [
    | inl e ↦ rw e (h x s e same)
    | inr e ↦ rw e (λ k. cc)
  ]

  report-ne-out_of_fuel : (o : Option LockedPackage) → report o ≢ out_of_fuel
  report-ne-out_of_fuel none e = cc
  report-ne-out_of_fuel (some p) e = cc

  dfs_ends :
      (fuel : ℕ) (x : String) (s : Sets)
      → contains_key by_id x ≡ true
      → room s.visiting < fuel
      → (dfs by_id fuel x s).0 ≢ out_of_fuel
  dfs_ends zero x s known h = elim h [ ]
  dfs_ends (suc fuel) x s known h = elim (branch by_id fuel x s) [
    | done _ e ↦ λ k. cc (k, ap (λ (r : Outcome × Sets). r.0) e)
    | open_already _ e ↦
        λ k. report-ne-out_of_fuel (lookup by_id x) (sym (ap (λ (r : Outcome × Sets). r.0) e) ∙ k)
    | new fresh e ↦
        let less : room (x ∷ s.visiting) < fuel =
          omega (arith, room-cons x s.visiting known fresh) in
        λ k.
          and_then_ends _ _
            (each_ends (visit_known by_id (dfs by_id fuel))
              (visit_known-KeepsVisiting by_id (dfs by_id fuel) (dfs-KeepsVisiting by_id fuel))
              (declared (lookup by_id x)) _
              (λ d t m same.
                visit_known-Ends (dfs by_id fuel) (x ∷ s.visiting)
                  (λ y u q w. dfs_ends fuel y u q (subst (λ v. room v < fuel) (sym w) less)) d t
                  same))
            (λ t _ j. cc) (sym (ap (λ (r : Outcome × Sets). r.0) e) ∙ k)
  ]

  -- As much fuel as there are selected packages and one more is enough.
  pub each-dfs_ends :
      (each
        (dfs by_id (suc (length (keys by_id))))
        (keys by_id)
        (record { visiting = []; visited = [] })).0
      ≢ out_of_fuel
  each-dfs_ends =
      each_ends (dfs by_id (suc (length (keys by_id)))) (dfs-KeepsVisiting by_id _) (keys by_id) _
        (λ x t m same.
          dfs_ends (suc (length (keys by_id))) x t ((Memᴰ-keys by_id x).1 m)
            (rw same (omega (arith, length-filter (unopened []) (keys by_id)))))
