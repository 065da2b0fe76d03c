-- ===== src/Repo/Versions/Listed.antt =====
-- Which versions `list_dep_versions` lists.
use lar.Base.{
  String, Option, List, [], ◌∷◌, ◌++◌, ◌≡◌, ◌↔◌, ◌⊎◌, refl, sym, ap, ◌∙◌, subst, Memᴰ, Memᴰ-cons,
  not-Memᴰ-nil, ⊎_elim, inl, inr, Result-cases, ok, ok-eq, map_err, >>=-eq-ok, map_err-ok,
}
use lar.Store.World.{PackageDir, StoredPackage}
use lar.Store.Read.{list}
use lar.Repo.Error.{store_fault, sources_fault}
use lar.Store.Pins.{sort_dedup}
use lar.Repo.Versions.{
  SourceProbe, unavailable, available, offered, stored_versions, probe_index, probe_base,
  probe_source, probe_sources, list_dep_versions, DepVersionList,
}
use lar.Repo.Sources.{SourceEntry, SourcesFile, load_sources, ordered_sources}
use lar.Repo.Trust.{Crypto, TrustFile, load_trust}
use lar.Repo.Fetch.{Network, read_index, read_advisories}
use lar.Repo.Advisories.{Digest, verify_advisories}
use lar.Repo.Fetch.Trusted.{AreSigned, verify_advisories-AreSigned}
use lar.Repo.Index.{PackageIndex}
use lar.Repo.Index.{IndexPackage}
use lar.Repo.Advisories.{AdvisoriesFile}
use lar.Repo.Versions.Offered.{
  Memᴰ-sort_dedup, Memᴰ-append, Memᴰ-stored_versions, IsOfferedPin, Memᴰ-offered,
}

module _ (x : String) where
  module _ (crypto : Crypto) (digest : Digest) (net : Network) (trust : TrustFile)
      (id : String) where
    -- The source can be read, its advisories are absent or signed by a trusted key, and its index has
    -- a pin of the version that none of them that names the pin yanks.
    pub record IsOffered (src : SourceEntry) : Type 0 where
      pub base : net.SourceBase
      pub index : PackageIndex
      pub advisories : AdvisoriesFile
      pub pkg : IndexPackage
      pub uri : net.parse_uri src.uri ≡ ok base
      pub read : read_index crypto digest net base ≡ ok index
      pub advised : read_advisories crypto digest net base ≡ ok advisories
      pub signed : AreSigned crypto digest advisories trust
      pub listed : Memᴰ pkg index.packages
      pub pin : IsOfferedPin x advisories id pkg

    probe_source-IsOffered :
        (src : SourceEntry) (found : SourceProbe × List String)
        → probe_source crypto digest net trust id src ≡ ok found
        → Memᴰ x found.1 ↔ IsOffered src
    unfolding probe_source probe_base probe_index
    probe_source-IsOffered src found h = elim (Result-cases (net.parse_uri src.uri)) [
      | inr (e, u) ↦
          let none' : (unavailable src e, []) ≡ found = ok-eq (rw (probe_source, u) at h) in
          (λ m. absurd (not-Memᴰ-nil x (subst (λ f. Memᴰ x f.1) (sym none') m)), λ o. cc (u, o.uri))
      | inl (base, u) ↦ elim (Result-cases (read_index crypto digest net base)) [
        | inr (e, r) ↦
            let none' : (unavailable src e, []) ≡ found =
              ok-eq (rw (probe_source, u, probe_base, r) at h) in
            (
              λ m. absurd (not-Memᴰ-nil x (subst (λ f. Memᴰ x f.1) (sym none') m)),
              λ o. (let same : base ≡ o.base = ok-eq (sym u ∙ o.uri) in cc (same, r, o.read)),
            )
        | inl (index, r) ↦ read base index u r (rw (probe_source, u, probe_base, r) at h)
      ]
    ]
      where
        read :
            (base : net.SourceBase) (index : PackageIndex)
            → net.parse_uri src.uri ≡ ok base
            → read_index crypto digest net base ≡ ok index
            → probe_index crypto digest net trust id src base index ≡ ok found
            → Memᴰ x found.1 ↔ IsOffered src
        read base index u r k =
            let (advisories, a, k1) = >>=-eq-ok (read_advisories crypto digest net base) _ k in
            let (_, v, k2) = >>=-eq-ok (verify_advisories crypto digest advisories trust) _ k1 in
            let out : (available src.name, offered advisories id index.packages) ≡ found =
              ok-eq k2 in
            (
              λ m.
                  let (pkg, n, pin) =
                    (Memᴰ-offered x advisories id index.packages).0
                      (subst (λ f. Memᴰ x f.1) (sym out) m) in
                  record {
                    base = base;
                    index = index;
                    advisories = advisories;
                    pkg = pkg;
                    uri = u;
                    read = r;
                    advised = a;
                    signed = verify_advisories-AreSigned crypto digest advisories trust v;
                    listed = n;
                    pin = pin;
                  },
              λ o.
                  let b : base ≡ o.base = ok-eq (sym u ∙ o.uri) in
                  let i : o.index ≡ index =
                    ok-eq (sym o.read ∙ ap (read_index crypto digest net) (sym b) ∙ r) in
                  let d : o.advisories ≡ advisories =
                    ok-eq (sym o.advised ∙ ap (read_advisories crypto digest net) (sym b) ∙ a) in
                  subst (λ f. Memᴰ x f.1) out
                    ((Memᴰ-offered x advisories id index.packages).1 (
                      o.pkg,
                      subst (λ z. Memᴰ o.pkg z.packages) i o.listed,
                      subst (λ z. IsOfferedPin x z id o.pkg) d o.pin,
                    )),
            )

    probe_sources-IsOffered :
        (srcs : List SourceEntry) (found : List SourceProbe × List String)
        → probe_sources crypto digest net trust id srcs ≡ ok found
        → Memᴰ x found.1 ↔ ((src : SourceEntry) × Memᴰ src srcs × IsOffered src)
    unfolding probe_sources
    probe_sources-IsOffered [] found h =
        let out : ([], []) ≡ found = ok-eq h in
        (
          λ m. absurd (not-Memᴰ-nil x (subst (λ f. Memᴰ x f.1) (sym out) m)),
          λ (src, m, o). absurd (not-Memᴰ-nil src m),
        )
    probe_sources-IsOffered (src ∷ srcs) found h =
        let (one, a, h1) = >>=-eq-ok (probe_source crypto digest net trust id src) _ h in
        let (rest, b, h2) = >>=-eq-ok (probe_sources crypto digest net trust id srcs) _ h1 in
        let out : (one.0 ∷ rest.0, one.1 ++ rest.1) ≡ found = ok-eq h2 in
        let first = probe_source-IsOffered src one a in
        let later = probe_sources-IsOffered srcs rest b in
        (
          λ m.
              ⊎_elim (λ n. (src, Memᴰ.head refl, first.0 n))
                (λ n. let (s, k, o) = later.0 n in (s, Memᴰ.tail k, o))
                ((Memᴰ-append x one.1 rest.1).0 (subst (λ f. Memᴰ x f.1) (sym out) m)),
          λ (s, k, o).
              subst (λ f. Memᴰ x f.1) out
                ((Memᴰ-append x one.1 rest.1).1 (
                  ⊎_elim (λ e. inl (first.1 (subst IsOffered e o))) (λ n. inr (later.1 (s, n, o)))
                    ((Memᴰ-cons s src srcs).0 k))),
        )

  -- Where the listing succeeds, the store and the configuration could be read, and a version is
  -- listed exactly where the store has it, or a configured source offers it: one that can be read,
  -- whose advisories are absent or signed by a trusted key, and whose index has a pin of it such
  -- that none of those advisories that names the pin yanks it.
  pub list_dep_versions_iff :
      (crypto : Crypto) (digest : Digest) (net : Network) (dirs : List PackageDir)
      (sources_toml : Option SourcesFile) (trust_toml : Option TrustFile) (id : String)
      (out : DepVersionList)
      → list_dep_versions crypto digest net dirs sources_toml trust_toml id ≡ ok out
      → (packages : List StoredPackage) × (file : SourcesFile) × (trust : TrustFile) × (list dirs
          ≡ ok packages)
        × (load_sources sources_toml ≡ ok file)
        × (load_trust crypto trust_toml ≡ ok trust)
        × (Memᴰ x out.versions ↔ (
            ((p : StoredPackage) × Memᴰ p packages × (p.id ≡ id) × (p.version ≡ x))
            ⊎ ((src : SourceEntry) × Memᴰ src file.sources
                × IsOffered crypto digest net trust id src)))
  unfolding list_dep_versions ordered_sources
  list_dep_versions_iff crypto digest net dirs sources_toml trust_toml id out h =
      let (packages, a, h1) = >>=-eq-ok (map_err store_fault (list dirs)) _ h in
      let (file, b, h2) = >>=-eq-ok (map_err sources_fault (load_sources sources_toml)) _ h1 in
      let (trust, c, h3) = >>=-eq-ok (load_trust crypto trust_toml) _ h2 in
      let (found, d, h4) =
        >>=-eq-ok (probe_sources crypto digest net trust id (ordered_sources file)) _ h3 in
      let versions : sort_dedup (stored_versions id packages ++ found.1) ≡ out.versions =
        ap (λ o. o.versions) (ok-eq h4) in
      let stored = Memᴰ-stored_versions x id packages in
      let sources =
        probe_sources-IsOffered crypto digest net trust id (ordered_sources file) found d in
      let both = Memᴰ-append x (stored_versions id packages) found.1 in
      let sorted = Memᴰ-sort_dedup x (stored_versions id packages ++ found.1) in
      (
        packages,
        file,
        trust,
        map_err-ok store_fault (list dirs) a,
        map_err-ok sources_fault (load_sources sources_toml) b,
        c,
        (
          λ m.
              ⊎_elim (λ n. inl (stored.0 n)) (λ n. inr (sources.0 n))
                (both.0 (sorted.0 (subst (Memᴰ x) (sym versions) m))),
          λ k.
              subst (Memᴰ x) versions
                (sorted.1 (both.1 (⊎_elim (λ p. inl (stored.1 p)) (λ s. inr (sources.1 s)) k))),
        ),
      )
