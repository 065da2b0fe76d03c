-- ===== src/Repo/Advisories/Matches.antt =====
-- Which pins an advisory names.
use lar.Base.{
  String, true, false, Option, none, some, List, [], ◌∷◌, ◌≡◌, ◌≢◌, ◌↔◌, ◌⊎◌, inl, inr, refl, arith,
  contains_iff, is_empty, Memᴰ, Memᴰ-filter, ⊎_elim, eq_iff,
}
use lar.Repo.Advisories.{Advisory, AdvisoriesFile, applies, matches, lists_hash}

-- The advisory is about the package, and each list that it gives names the pin; it gives one.
pub record Names (a : Advisory) (package_id version : String) (content_hash : Option String)
    : Type 0 where
  pub about : a.package_id ≡ package_id
  pub by_version : (a.versions ≡ []) ⊎ Memᴰ version a.versions
  pub by_hash :
      (a.content_hashes ≡ [])
      ⊎ ((hash : String) × (content_hash ≡ some hash) × Memᴰ hash a.content_hashes)
  pub not_both_empty : (a.versions ≢ []) ⊎ (a.content_hashes ≢ [])

empty-cases :
    (xs : List String) → ((xs ≡ []) × (is_empty xs ≡ true)) ⊎ ((xs ≢ []) × (is_empty xs ≡ false))
empty-cases [] = inl (refl, refl)
empty-cases (x ∷ xs) = inr (λ e. cc, refl)

listed_hash :
    (a : Advisory) (h : Option String)
    → (lists_hash a h ≡ true) ↔ ((hash : String) × (h ≡ some hash) × Memᴰ hash a.content_hashes)
listed_hash a none = (λ e. cc, λ (hash, e, m). cc)
listed_hash a (some g) = (
  λ e. (g, refl, (contains_iff a.content_hashes g).0 e),
  λ (hash, e, m). let same : g ≡ hash = cc in rw same ((contains_iff a.content_hashes hash).1 m),
)

applies-Names :
    (p v : String) (h : Option String) (a : Advisory) → applies p v h a ≡ true → Names a p v h
unfolding applies
applies-Names p v h a t = elim (empty-cases a.versions) [
  | inl (no_versions, e) ↦ elim (empty-cases a.content_hashes) [
    | inl (_, f) ↦ absurd (ground arith)
    | inr (hashes, f) ↦ record {
      about = (eq_iff a.package_id p).0 (ground arith);
      by_version = inl no_versions;
      by_hash = inr ((listed_hash a h).0 (ground arith));
      not_both_empty = inr hashes;
    }
  ]
  | inr (versions, e) ↦ elim (empty-cases a.content_hashes) [
    | inl (no_hashes, f) ↦ record {
      about = (eq_iff a.package_id p).0 (ground arith);
      by_version = inr ((contains_iff a.versions v).0 (ground arith));
      by_hash = inl no_hashes;
      not_both_empty = inl versions;
    }
    | inr (hashes, f) ↦ record {
      about = (eq_iff a.package_id p).0 (ground arith);
      by_version = inr ((contains_iff a.versions v).0 (ground arith));
      by_hash = inr ((listed_hash a h).0 (ground arith));
      not_both_empty = inl versions;
    }
  ]
]

Names-applies :
    (p v : String) (h : Option String) (a : Advisory) → Names a p v h → applies p v h a ≡ true
unfolding applies
Names-applies p v h a n =
    let about = (eq_iff a.package_id p).1 n.about in
    elim (empty-cases a.versions) [
      | inl (no_versions, e) ↦ elim (empty-cases a.content_hashes) [
        | inl (no_hashes, f) ↦
            absurd (⊎_elim (λ g. g no_versions) (λ g. g no_hashes) n.not_both_empty)
        | inr (hashes, f) ↦
            let t = (listed_hash a h).1 (⊎_elim (λ g. absurd (hashes g)) (λ g. g) n.by_hash) in
            ground arith
      ]
      | inr (versions, e) ↦
          let s =
            (contains_iff a.versions v).1
              (⊎_elim (λ g. absurd (versions g)) (λ g. g) n.by_version) in
          elim (empty-cases a.content_hashes) [
            | inl (no_hashes, f) ↦ ground arith
            | inr (hashes, f) ↦
                let t = (listed_hash a h).1 (⊎_elim (λ g. absurd (hashes g)) (λ g. g) n.by_hash) in
                ground arith
          ]
    ]

-- `matches` returns exactly the advisories of the file that are about the package and name the pin
-- by each of the two lists that they give, the version and the content hash, of which they give one.
pub matches_iff :
    (file : AdvisoriesFile) (package_id version : String) (content_hash : Option String)
    (a : Advisory)
    → Memᴰ a (matches file package_id version content_hash)
      ↔ (Memᴰ a file.advisories × Names a package_id version content_hash)
unfolding matches
matches_iff file p v h a =
    let inside = Memᴰ-filter (applies p v h) file.advisories a in
    (
      λ m. let (n, t) = inside.0 m in (n, applies-Names p v h a t),
      λ (n, t). inside.1 (n, Names-applies p v h a t),
    )
