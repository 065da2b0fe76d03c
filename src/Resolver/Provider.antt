-- ===== src/Resolver/Provider.antt =====
-- `LarProvider` of crates/lar-resolver/src/resolve.rs: what the solver asks of the store and the
-- sources. The solver `pubgrub` and its ranges are parameters.
pub mod Sorted
pub mod Highest
use lar.Base.{
  ℕ, zero, suc, ◌^◌, ◌-◌, String, Bool, true, false, not, ◌&&◌, ◌||◌, Option, none, some, List, [],
  ◌∷◌, ◌==◌, length, any, filter, map, is_empty, Result, Done, ok, err, map_err, if◌then◌else◌,
  ◌>>=◌,
}
use lar.Base.Map.{Map, lookup, insert}
use lar.Semver.{Semver}
use lar.Repo.Advisories.{Digest}
use lar.Repo.Error as Repo
use lar.Repo.Fetch.{Network}
use lar.Repo.Fetch.Peek.{ResolvePackage, load_package_for_resolve}
use lar.Repo.Sources.{SourcesFile}
use lar.Repo.Trust.{Crypto, TrustFile}
use lar.Repo.Versions.{SourceProbe, YankedDepVersion, list_dep_versions, list_yanked_dep_versions}
use lar.Resolver.Requirement as Requirement
use lar.Resolver.Requirement.{RangeLib, deps_to_constraints}
use lar.Store.World.{World}

-- `Other` holds its cause. `Discovery` is without the text of the range.
pub data ProviderError : Type 0 where
  yanked : String → String → String → ProviderError
  only_yanked : String → List (String × String) → ProviderError
  discovery : String → List SourceProbe → ProviderError
  other_repo : Repo.Error → ProviderError
  other_requirement : Requirement.Fault → ProviderError

-- `From<lar_repo::Error>`
unfoldable pub from_repo : Repo.Error → ProviderError
from_repo (Repo.yanked id version advisory) = yanked id version advisory
from_repo e = other_repo e

-- What the solver is told of a package at a version.
pub data Dependencies (R : Type 0) : Type 0 where
  available : Map R → Dependencies R
  unavailable : ProviderError → Dependencies R

-- The three `RefCell`s; the keys of `cache` are an id and the text of a version.
pub record Caches (V : Type 0) : Type 0 where
  pub cache : List ((String × String) × ResolvePackage)
  pub versions : Map (List V)
  pub source_probes : Map (List SourceProbe)

unfoldable pub find_package :
    List ((String × String) × ResolvePackage) → String → String → Option ResolvePackage
find_package [] id version = none
find_package (((i, v), pkg) ∷ rest) id version =
    let later = find_package rest id version in if i == id && v == version then some pkg else later

-- `versions.into_iter().rev().find(p)`
unfoldable pub find_last : {A : Type 0} → (A → Bool) → List A → Option A
find_last p [] = none
find_last p (x ∷ xs) = elim (find_last p xs) [
  | some y ↦ some y
  | none ↦ if p x then some x else none
]

module _ (sv : Semver) where
  unfoldable pub insert_version : sv.Version → List sv.Version → List sv.Version
  insert_version v [] = v ∷ []
  insert_version v (w ∷ ws) =
      let rest = insert_version v ws in if sv.lt v w then v ∷ w ∷ ws else w ∷ rest

  -- `parsed.sort()`
  unfoldable pub sort_versions : List sv.Version → List sv.Version
  unfolding insert_version
  sort_versions [] = []
  sort_versions (v ∷ vs) = insert_version v (sort_versions vs)

  -- The texts that are versions.
  unfoldable pub parse_versions : List String → List sv.Version
  parse_versions [] = []
  parse_versions (s ∷ ss) = elim (sv.parse s) [
    | some v ↦ v ∷ parse_versions ss
    | none ↦ parse_versions ss
  ]

  abbrev pub parsed_or_zero : String → sv.Version
  parsed_or_zero s = elim (sv.parse s) [ some v ↦ v | none ↦ sv.new 0 0 0 ]

  -- `matched.sort_by(…)`: the highest version first.
  unfoldable pub insert_yanked : YankedDepVersion → List YankedDepVersion → List YankedDepVersion
  insert_yanked y [] = y ∷ []
  insert_yanked y (z ∷ zs) =
      let rest = insert_yanked y zs in
      if sv.lt (parsed_or_zero y.version) (parsed_or_zero z.version) then z ∷ rest else y ∷ z ∷ zs

  unfoldable pub sort_yanked : List YankedDepVersion → List YankedDepVersion
  unfolding insert_yanked
  sort_yanked [] = []
  sort_yanked (y ∷ ys) = insert_yanked y (sort_yanked ys)

  module _ (lib : RangeLib sv) where
    abbrev pub is_in_range : lib.Ranges → YankedDepVersion → Bool
    is_in_range range y = elim (sv.parse y.version) [ some v ↦ lib.contains range v | none ↦ false ]

    abbrev pub reason_of : String → List YankedDepVersion → Option ProviderError
    reason_of id [] = none
    reason_of id (y ∷ []) = some (yanked id y.version y.advisory)
    reason_of id (y ∷ z ∷ ys) =
        some (only_yanked id (map (λ u. (u.version, u.advisory)) (y ∷ z ∷ ys)))

    module _ (crypto : Crypto) (digest : Digest) (net : Network) (w : World)
        (sources_toml : Option SourcesFile) (trust_toml : Option TrustFile) where
      unfoldable pub yanked_reason_in_range :
          String → lib.Ranges → Result ProviderError (Option ProviderError)
      unfolding list_yanked_dep_versions from_repo filter sort_yanked
      yanked_reason_in_range id range = do
        found ←
            map_err from_repo
              (list_yanked_dep_versions crypto digest net sources_toml trust_toml id)
        ok (reason_of id (sort_yanked (filter (is_in_range range) found)))

      unfoldable pub available_versions :
          String → Caches sv.Version → Result ProviderError (List sv.Version) × Caches sv.Version
      unfolding lookup insert list_dep_versions from_repo sort_versions parse_versions
      available_versions id c = elim (lookup c.versions id) [
        | some cached ↦ (ok cached, c)
        | none ↦ elim (list_dep_versions crypto digest net w.dirs sources_toml trust_toml id) [
          | err e ↦ (err (from_repo e), c)
          | ok listed ↦
              let parsed = sort_versions (parse_versions listed.versions) in
              (
                ok parsed,
                record c {
                  versions = insert c.versions id parsed;
                  source_probes = insert c.source_probes id listed.sources;
                },
              )
        ]
      ]

      unfoldable pub source_probes_for : String → Caches sv.Version → List SourceProbe
      unfolding lookup
      source_probes_for id c = elim (lookup c.source_probes id) [ none ↦ [] | some probes ↦ probes ]

      unfoldable pub load_pkg :
          String
          → sv.Version
          → Caches sv.Version
          → Result ProviderError ResolvePackage × Caches sv.Version
      unfolding find_package load_package_for_resolve from_repo
      load_pkg id version c =
          let text = sv.show version in
          elim (find_package c.cache id text) [
            | some pkg ↦ (ok pkg, c)
            | none ↦
                elim (load_package_for_resolve crypto digest net w sources_toml trust_toml id
                  text) [
                    | err e ↦ (err (from_repo e), c)
                    | ok pkg ↦ (ok pkg, record c { cache = ((id, text), pkg) ∷ c.cache })
                  ]
          ]

      -- The priority by the number of candidates; the solver counts the conflicts.
      abbrev pub priority : ℕ → ℕ → ℕ × ℕ
      priority conflicts zero = (2 ^ 32 - 1, zero)
      priority conflicts (suc n) = (conflicts, suc n)

      abbrev pub in_range : lib.Ranges → Result ProviderError (List sv.Version) → List sv.Version
      in_range range (err e) = []
      in_range range (ok versions) = filter (lib.contains range) versions

      unfoldable pub prioritize :
          String → lib.Ranges → ℕ → Caches sv.Version → (ℕ × ℕ) × Caches sv.Version
      unfolding available_versions filter
      prioritize id range conflicts c =
          let (r, c') = available_versions id c in
          (priority conflicts (length (in_range range r)), c')

      -- A reason for the lack of a candidate, or a source that could not be asked.
      abbrev pub unless_reason :
          String
          → List SourceProbe
          → Option ProviderError
          → Result ProviderError (Option sv.Version)
      unless_reason id probes (some e) = err e
      unless_reason id probes none =
          if any (λ p. not p.available) probes then err (discovery id probes) else ok none

      unfoldable pub no_candidate :
          String → lib.Ranges → Caches sv.Version → Result ProviderError (Option sv.Version)
      unfolding yanked_reason_in_range source_probes_for any
      no_candidate id range c = do
        reason ← yanked_reason_in_range id range
        unless_reason id (source_probes_for id c) reason

      unfoldable pub choose_candidate :
          String
          → lib.Ranges
          → Caches sv.Version
          → List sv.Version
          → Result ProviderError (Option sv.Version)
      unfolding find_last no_candidate
      choose_candidate id range c versions = elim (find_last (lib.contains range) versions) [
        | some v ↦ ok (some v)
        | none ↦ no_candidate id range c
      ]

      module _ (root_id : String) (root_version : sv.Version) (root_deps : Map String) where
        unfoldable pub choose_version :
            String
            → lib.Ranges
            → Caches sv.Version
            → Result ProviderError (Option sv.Version) × Caches sv.Version
        unfolding available_versions choose_candidate
        choose_version id range c =
            if id == root_id
            then (ok (if lib.contains range root_version then some root_version else none), c)
            else (let (r, c') = available_versions id c in
                elim r [
                  | err e ↦ (err e, c')
                  | ok versions ↦ (choose_candidate id range c' versions, c')
                ])

        abbrev pub same_version : sv.Version → sv.Version → Bool
        same_version v w = not (sv.lt v w) && not (sv.lt w v)

        unfoldable pub get_dependencies :
            String
            → sv.Version
            → Caches sv.Version
            → Result ProviderError (Dependencies lib.Ranges) × Caches sv.Version
        unfolding load_pkg deps_to_constraints
        get_dependencies id version c =
            if id == root_id && same_version version root_version
            then (constraints root_deps, c)
            else (let (r, c') = load_pkg id version c in
                elim r [
                  | err e ↦ (ok (unavailable e), c')
                  | ok pkg ↦ (constraints pkg.dependencies, c')
                ])
          where
            constraints : Map String → Result ProviderError (Dependencies lib.Ranges)
            constraints deps = do
              found ← map_err other_requirement (deps_to_constraints sv lib deps)
              ok (available found)
