-- ===== src/Resolver/Provider/Highest.antt =====
-- The version that the provider chooses.
use lar.Base.{
  String, true, false, Option, none, some, List, [], ◌∷◌, ◌==◌, ◌≡◌, ◌↔◌, refl, sym, ap, ◌∙◌, subst,
  Memᴰ, Memᴰ-cons, not-Memᴰ-nil, ⊎_elim, inl, inr, Bool-cases, Option-cases, Result-cases, Result,
  ok, ok-eq, >>=-eq-ok, eq_iff, any, not,
}
use lar.Base.Map.{Map, lookup, insert, lookup-insert}
use lar.Semver.{Semver, IsOrdered}
use lar.Repo.Advisories.{Digest}
use lar.Repo.Error as Repo
use lar.Repo.Fetch.{Network}
use lar.Repo.Sources.{SourcesFile}
use lar.Repo.Trust.{Crypto, TrustFile}
use lar.Repo.Versions.{DepVersionList, SourceProbe, list_dep_versions}
use lar.Resolver.Requirement.{RangeLib}
use lar.Resolver.Provider.{
  Caches, ProviderError, find_last, parse_versions, sort_versions, available_versions,
  choose_candidate, choose_version, no_candidate, yanked_reason_in_range, source_probes_for,
  unless_reason,
}
use lar.Resolver.Provider.Sorted.{
  Memᴰ-sort_versions, sort_versions-IsSorted, find_last-some, find_last-none,
}
use lar.Store.World.{World}

some-eq : {A : Type 0} {a b : A} → some a ≡ some b → a ≡ b
some-eq h = cc

module _ (sv : Semver) where
  Memᴰ-parse_versions :
      (v : sv.Version) (ss : List String)
      → Memᴰ v (parse_versions sv ss) ↔ ((s : String) × Memᴰ s ss × (sv.parse s ≡ some v))
  unfolding parse_versions
  Memᴰ-parse_versions v [] =
      (λ m. absurd (not-Memᴰ-nil v m), λ (s, m, e). absurd (not-Memᴰ-nil s m))
  Memᴰ-parse_versions v (s ∷ ss) = elim (Option-cases (sv.parse s)) [
    | inl e ↦
        rw (parse_versions, e)
          (
            λ m. (let (t, n, p) = (Memᴰ-parse_versions v ss).0 m in (t, Memᴰ.tail n, p)),
            λ (t, m, p).
                ⊎_elim (λ q. cc (e, p, q)) (λ n. (Memᴰ-parse_versions v ss).1 (t, n, p))
                  ((Memᴰ-cons t s ss).0 m),
          )
    | inr (w, e) ↦
        rw (parse_versions, e)
          (
            λ m.
                ⊎_elim (λ q. (s, Memᴰ.head refl, e ∙ ap some (sym q)))
                  (λ k. let (t, n, p) = (Memᴰ-parse_versions v ss).0 k in (t, Memᴰ.tail n, p))
                  ((Memᴰ-cons v w (parse_versions sv ss)).0 m),
            λ (t, m, p).
                ⊎_elim
                  (λ q. let same : v ≡ w = some-eq (sym p ∙ ap sv.parse q ∙ e) in Memᴰ.head same)
                  (λ n. Memᴰ.tail ((Memᴰ-parse_versions v ss).1 (t, n, p)))
                  ((Memᴰ-cons t s ss).0 m),
          )
  ]

  module _ (lib : RangeLib sv) where
    -- The candidates of the listing that lie in the range.
    abbrev pub IsCandidate : DepVersionList → lib.Ranges → sv.Version → Type 0
    IsCandidate listed range v =
        ((s : String) × Memᴰ s listed.versions × (sv.parse s ≡ some v))
        × (lib.contains range v ≡ true)

    -- The highest candidate, or none, where there is no candidate.
    abbrev pub IsChoice : DepVersionList → lib.Ranges → Option sv.Version → Type 0
    IsChoice listed range none = (w : sv.Version) → ¬ IsCandidate listed range w
    IsChoice listed range (some v) =
        IsCandidate listed range v
        × ((w : sv.Version) → IsCandidate listed range w → sv.lt v w ≡ false)

    module _ (ord : IsOrdered sv) (crypto : Crypto) (digest : Digest) (net : Network) (w : World)
        (sources_toml : Option SourcesFile) (trust_toml : Option TrustFile) where
      abbrev pub listing : String → Result Repo.Error DepVersionList
      listing id = list_dep_versions crypto digest net w.dirs sources_toml trust_toml id

      abbrev pub sorted : DepVersionList → List sv.Version
      sorted listed = sort_versions sv (parse_versions sv listed.versions)

      abbrev pub IsListed : String → List sv.Version → Type 0
      IsListed id vs = (listed : DepVersionList) × (listing id ≡ ok listed) × (vs ≡ sorted listed)

      -- A cached list of versions is what the store and the sources list.
      abbrev pub IsCoherent : Caches sv.Version → Type 0
      IsCoherent c =
          (id : String) (vs : List sv.Version) → lookup c.versions id ≡ some vs → IsListed id vs

      available_versions-IsListed :
          (id : String) (c : Caches sv.Version) (vs : List sv.Version)
          → IsCoherent c
          → (available_versions sv lib crypto digest net w sources_toml trust_toml id c).0 ≡ ok vs
          → IsListed id vs
      unfolding available_versions
      available_versions-IsListed id c vs coherent h = elim (Option-cases (lookup c.versions id)) [
        | inr (cached, e) ↦
            let same : cached ≡ vs = ok-eq (rw (available_versions, e) at h) in
            coherent id vs (e ∙ ap some same)
        | inl e ↦ elim (Result-cases (listing id)) [
          | inr (f, l) ↦ cc (rw (available_versions, e, l) at h)
          | inl (listed, l) ↦ (listed, l, sym (ok-eq (rw (available_versions, e, l) at h)))
        ]
      ]

      inserted :
          (id : String) (c : Caches sv.Version)
          → IsCoherent c
          → (listed : DepVersionList) → listing id ≡ ok listed
          → (i : String) (vs : List sv.Version)
          → lookup (insert c.versions id (sorted listed)) i ≡ some vs
          → IsListed i vs
      inserted id c coherent listed l i vs h = elim (Bool-cases (id == i)) [
        | inl e ↦
            let same : sorted listed ≡ vs =
              some-eq (sym (lookup-insert c.versions id i (sorted listed) ∙ rw e refl) ∙ h) in
            (listed, ap listing (sym ((eq_iff id i).0 e)) ∙ l, sym same)
        | inr e ↦
            coherent i vs (sym (lookup-insert c.versions id i (sorted listed) ∙ rw e refl) ∙ h)
      ]

      available_versions-IsCoherent :
          (id : String) (c : Caches sv.Version)
          → IsCoherent c
          → IsCoherent
              (available_versions sv lib crypto digest net w sources_toml trust_toml id c).1
      unfolding available_versions
      available_versions-IsCoherent id c coherent = elim (Option-cases (lookup c.versions id)) [
        | inr (cached, e) ↦ rw (available_versions, e) coherent
        | inl e ↦ elim (Result-cases (listing id)) [
          | inr (f, l) ↦ rw (available_versions, e, l) coherent
          | inl (listed, l) ↦
              rw (available_versions, e, l) λ i vs h. inserted id c coherent listed l i vs h
        ]
      ]

      unless_reason-none :
          (id : String) (probes : List SourceProbe) (reason : Option ProviderError)
          (o : Option sv.Version)
          → unless_reason sv lib crypto digest net w sources_toml trust_toml id probes reason ≡ ok o
          → o ≡ none
      unless_reason-none id probes (some e) o h = cc
      unless_reason-none id probes none o h =
          elim (Bool-cases (any (λ p. not p.available) probes)) [
            | inl e ↦ cc (rw e at h)
            | inr e ↦ sym (ok-eq (rw e at h))
          ]

      -- Without a candidate in the list, the answer is none or an error.
      no_candidate-ne-some :
          (id : String) (range : lib.Ranges) (c : Caches sv.Version) (o : Option sv.Version)
          → no_candidate sv lib crypto digest net w sources_toml trust_toml id range c ≡ ok o
          → o ≡ none
      unfolding no_candidate
      no_candidate-ne-some id range c o h =
          let (reason, a, k) =
            >>=-eq-ok
              (yanked_reason_in_range sv lib crypto digest net w sources_toml trust_toml id range) _
              h in
          unless_reason-none id
            (source_probes_for sv lib crypto digest net w sources_toml trust_toml id c) reason o k

      choose_candidate-IsChoice :
          (id : String) (range : lib.Ranges) (c : Caches sv.Version) (listed : DepVersionList)
          (o : Option sv.Version)
          → choose_candidate sv lib crypto digest net w sources_toml trust_toml id range c
              (sorted listed)
            ≡ ok o
          → IsChoice listed range o
      unfolding choose_candidate
      choose_candidate-IsChoice id range c listed o h =
          elim (Option-cases (find_last (lib.contains range) (sorted listed))) [
            | inr (v, e) ↦
                let same : some v ≡ o = ok-eq (rw (choose_candidate, e) at h) in
                let (m, t, top) =
                  find_last-some sv ord (lib.contains range) (sorted listed) v
                    (sort_versions-IsSorted sv ord (parse_versions sv listed.versions)) e in
                subst (IsChoice listed range) same (
                  (
                    (Memᴰ-parse_versions v listed.versions).0
                        ((Memᴰ-sort_versions sv ord v (parse_versions sv listed.versions)).0 m),
                    t,
                  ),
                  λ x (n, k). top x (in_sorted listed x n) k,
                )
            | inl e ↦
                let same : o ≡ none =
                  no_candidate-ne-some id range c o (rw (choose_candidate, e) at h) in
                subst (IsChoice listed range) (sym same) λ x (n, k). cc (
                  k,
                  find_last-none (lib.contains range) (sorted listed) x e (in_sorted listed x n),
                )
          ]
        where
          in_sorted :
              (l : DepVersionList) (x : sv.Version)
              → ((s : String) × Memᴰ s l.versions × (sv.parse s ≡ some x))
              → Memᴰ x (sorted l)
          in_sorted l x n =
              (Memᴰ-sort_versions sv ord x (parse_versions sv l.versions)).1
                ((Memᴰ-parse_versions x l.versions).1 n)

      module _ (root_id : String) (root_version : sv.Version) (root_deps : Map String) where
        -- For a package other than the root, a choice that succeeds is the highest of the versions
        -- in the range that the store and the sources list for it, or none where no version of
        -- them is in the range, whenever the cached lists are what the store and the sources list;
        -- and the cached lists are so again after it. The versions are ordered.
        pub choose_version-IsChoice :
            (id : String) (range : lib.Ranges) (c : Caches sv.Version) (o : Option sv.Version)
            → IsCoherent c
            → (id == root_id) ≡ false
            → (choose_version sv lib crypto digest net w sources_toml trust_toml root_id
                root_version root_deps id range c).0
              ≡ ok o
            → ((listed : DepVersionList) × (listing id ≡ ok listed) × IsChoice listed range o)
              × IsCoherent
                  (choose_version sv lib crypto digest net w sources_toml trust_toml root_id
                    root_version root_deps id range c).1
        unfolding choose_version
        choose_version-IsChoice id range c o coherent other h =
            elim (Result-cases
              (available_versions sv lib crypto digest net w sources_toml trust_toml id c).0) [
                | inr (f, e) ↦ cc (rw (choose_version, other, e) at h)
                | inl (vs, e) ↦
                    let (listed, l, same) = available_versions-IsListed id c vs coherent e in
                    let k = rw (choose_version, other, e, same) at h in
                    rw (choose_version, other, e)
                      (
                        (
                          listed,
                          l,
                          choose_candidate-IsChoice id range
                              (available_versions sv lib crypto digest net w sources_toml trust_toml
                                id c).1
                              listed o k,
                        ),
                        available_versions-IsCoherent id c coherent,
                      )
              ]
