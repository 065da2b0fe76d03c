-- ===== src/Resolver/Cycle.antt =====
-- `detect_dependency_cycle` of crates/lar-resolver/src/resolve.rs: a depth-first search over the
-- selected packages.
pub mod Graph
pub mod Acyclic
pub mod Found
pub mod Fuel
pub mod Correct
use lar.Base.{
  ℕ, zero, suc, String, Bool, true, false, not, Option, none, some, List, [], ◌∷◌, ◌==◌, length,
  contains, filter, if◌then◌else◌,
}
use lar.Base.Map.{Map, lookup, insert, keys, contains_key}
use lar.Resolver.Locked.{LockedPackage}

-- The two `BTreeSet`s, of which only membership is read.
pub record Sets : Type 0 where
  pub visiting : List String
  pub visited : List String

-- The `Option` that `dfs` returns, and the end of the fuel.
pub data Outcome : Type 0 where
  clear : Outcome
  cycle : String → String → Outcome
  out_of_fuel : Outcome

-- `BTreeSet::insert`
unfoldable pub set_insert : String → List String → List String
set_insert x s = if contains s x then s else x ∷ s

-- `BTreeSet::remove`
unfoldable pub set_remove : String → List String → List String
unfolding filter
set_remove x = filter (λ y. not (y == x))

-- What the early returns of `dfs` skip.
abbrev pub and_then : Outcome × Sets → (Sets → Outcome × Sets) → Outcome × Sets
and_then (clear, s) k = k s
and_then (cycle id version, s) k = (cycle id version, s)
and_then (out_of_fuel, s) k = (out_of_fuel, s)

-- A `for` loop that returns the first cycle found.
unfoldable pub each : (String → Sets → Outcome × Sets) → List String → Sets → Outcome × Sets
each visit [] s = (clear, s)
each visit (id ∷ ids) s = and_then (visit id s) (each visit ids)

-- `let pkg = by_id.get(id)?; return Some((pkg.id, pkg.version))`
abbrev pub report : Option LockedPackage → Outcome
report none = clear
report (some p) = cycle p.id p.version

abbrev pub declared : Option LockedPackage → List String
declared none = []
declared (some p) = keys p.dependencies

-- `if by_id.contains_key(dep_id) { … }`
unfoldable pub visit_known :
    Map LockedPackage → (String → Sets → Outcome × Sets) → String → Sets → Outcome × Sets
visit_known by_id visit dep s = if contains_key by_id dep then visit dep s else (clear, s)

module _ (by_id : Map LockedPackage) where
  unfoldable pub dfs : ℕ → String → Sets → Outcome × Sets
  dfs zero id s = (out_of_fuel, s)
  dfs (suc fuel) id s =
      let visit =
        and_then
          (each (visit_known by_id (dfs fuel)) (declared (lookup by_id id))
            (record s { visiting = id ∷ s.visiting }))
          (λ t. (
            clear,
            record t { visiting = set_remove id t.visiting; visited = set_insert id t.visited },
          )) in
      if contains s.visited id
      then (clear, s)
      else if contains s.visiting id
      then (report (lookup by_id id), s)
      else visit

-- `packages.values().map(|p| (p.id, p)).collect()`: a later package of an id takes its place.
unfoldable pub index_onto : Map LockedPackage → List LockedPackage → Map LockedPackage
index_onto m [] = m
index_onto m (p ∷ ps) = index_onto (insert m p.id p) ps

-- Each nested call adds a key of `by_id` to `visiting`, so that many calls and one more suffice.
unfoldable pub detect_dependency_cycle : List LockedPackage → Outcome
unfolding dfs each visit_known set_insert set_remove index_onto
detect_dependency_cycle packages =
    let by_id = index_onto [] packages in
    (each (dfs by_id (suc (length (keys by_id)))) (keys by_id)
      (record { visiting = []; visited = [] })).0
