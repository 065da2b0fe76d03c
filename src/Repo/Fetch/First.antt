-- ===== src/Repo/Fetch/First.antt =====
-- Where `fetch_into_store` takes a package from.
use lar.Base.{
  Result-cases, All, ◌≡◌, refl, ap, ◌∙◌, sym, subst, >>=-eq-ok, ◌⊎◌, inl, inr, Bool-cases, String,
  true, Option, none, some, List, [], ◌∷◌, ◌++◌, ok,
}
use lar.Store.World.{World, StoredPackage}
use lar.Store.Read.{get}
use lar.Repo.Sources.{SourceEntry, SourcesFile, load_sources, ordered_sources}
use lar.Repo.Trust.{Crypto, TrustFile}
use lar.Repo.Advisories.{Digest}
use lar.Repo.Fetch.{Network}
use lar.Repo.Fetch.{collect_warnings_for_pin}
use lar.Repo.Fetch.Into.{is_miss, fetch_from_source, fetch_from_sources, fetch_into_store}
use lar.Repo.Fetch.Delivered.{
  Fetched, ok-stored, fetched_cases, missed, IsFetchedFrom, fetch_from_source-IsFetchedFrom,
  fetch_from_source-missed,
}

module _ (crypto : Crypto) (digest : Digest) (net : Network) where
  -- The sources in front of `src` do not have the package, and `src` delivers it.
  pub record IsFirst (w : World) (trust_toml : Option TrustFile) (srcs : List SourceEntry)
      (id version : String) (stored : StoredPackage) (w' : World) : Type 0 where
    pub before : List SourceEntry
    pub src : SourceEntry
    pub after : List SourceEntry
    pub split : srcs ≡ before ++ src ∷ after
    pub misses :
        All
          (λ s. missed (fetch_from_source crypto digest net w trust_toml s id version) ≡ true)
          before
    pub fetched : IsFetchedFrom crypto digest net w trust_toml src id version stored w'

  fetch_from_sources-IsFirst :
      (w : World) (trust_toml : Option TrustFile) (srcs : List SourceEntry) (id version : String)
      (stored : StoredPackage) (w' : World)
      → fetch_from_sources crypto digest net w trust_toml srcs id version ≡ (ok stored, w')
      → IsFirst w trust_toml srcs id version stored w'
  unfolding fetch_from_sources
  fetch_from_sources-IsFirst w trust_toml [] id version stored w' h =
      cc (ap (λ (r : Fetched). r.0) h)
  fetch_from_sources-IsFirst w trust_toml (src ∷ srcs) id version stored w' h =
      elim (fetched_cases (fetch_from_source crypto digest net w trust_toml src id version)) [
        | inl (p, good) ↦
            let w1 = (fetch_from_source crypto digest net w trust_toml src id version).1 in
            let end : ◌≡◌ {A = Fetched} (ok p, w1) (ok stored, w') =
              rw (fetch_from_sources, good) at h in
            record {
              before = [];
              src = src;
              after = srcs;
              split = refl;
              misses = tt;
              fetched =
                  fetch_from_source-IsFetchedFrom crypto digest net w trust_toml src id version
                    stored w' (good ∙ end);
            }
        | inr (e, bad) ↦ elim (Bool-cases (is_miss e)) [
          | inr stop ↦ cc (ap (λ (r : Fetched). r.0) (rw (fetch_from_sources, bad, stop) at h))
          | inl miss ↦
              let w1 = (fetch_from_source crypto digest net w trust_toml src id version).1 in
              let rest : fetch_from_sources crypto digest net w1 trust_toml srcs id version
                  ≡ (ok stored, w') =
                rw (fetch_from_sources, bad, miss) at h in
              let missed_here = ap missed bad ∙ miss in
              let kept : w1 ≡ w =
                fetch_from_source-missed crypto digest net w trust_toml src id version
                  missed_here in
              let later = fetch_from_sources-IsFirst w trust_toml srcs id version stored w' (
                subst
                  (λ z.
                    fetch_from_sources crypto digest net z trust_toml srcs id version
                    ≡ (ok stored, w'))
                  kept rest) in
              record {
                before = src ∷ later.before;
                src = later.src;
                after = later.after;
                split = ap (λ z. src ∷ z) later.split;
                misses = (missed_here, later.misses);
                fetched = later.fetched;
              }
        ]
      ]

  pub fetch_into_store-IsFirst :
      (w : World) (sources_toml : Option SourcesFile) (trust_toml : Option TrustFile)
      (id version : String) (stored : StoredPackage) (w' : World)
      → fetch_into_store crypto digest net w sources_toml trust_toml id version ≡ (ok stored, w')
      → ((get w.dirs id version ≡ ok (some stored)) × (w' ≡ w))
        ⊎ ((get w.dirs id version ≡ ok none)
            × ((file : SourcesFile) × (load_sources sources_toml ≡ ok file)
                × IsFirst w trust_toml file.sources id version stored w'))
  unfolding fetch_into_store ordered_sources
  fetch_into_store-IsFirst w sources_toml trust_toml id version stored w' h =
      elim (Result-cases (get w.dirs id version)) [
        | inr (e, bad) ↦ cc (ap (λ (r : Fetched). r.0) (rw (fetch_into_store, bad) at h))
        | inl (some existing, there) ↦
            let k = rw (fetch_into_store, there) at h in
            let (_, _, last) =
              >>=-eq-ok
                (collect_warnings_for_pin crypto digest net sources_toml trust_toml id version
                  (some existing.content_hash))
                _ (ap (λ (r : Fetched). r.0) k) in
            inl (there ∙ ap (λ z. ok (some z)) (ok-stored last), sym (ap (λ (r : Fetched). r.1) k))
        | inl (none, absent) ↦ elim (Result-cases (load_sources sources_toml)) [
          | inr (e, bad) ↦ cc (ap (λ (r : Fetched). r.0) (rw (fetch_into_store, absent, bad) at h))
          | inl (file, good) ↦ inr (
            absent,
            (
              file,
              good,
              fetch_from_sources-IsFirst w trust_toml file.sources id version stored w'
                  (rw (fetch_into_store, absent, good) at h),
            ),
          )
        ]
      ]
