-- ===== src/Platform/Needs.antt =====
-- The union of platform requirements.
use lar.Base.{
  String, true, false, not, ◌&&◌, ◌||◌, Option, none, some, List, [], ◌∷◌, ◌==◌, ◌≡◌, inl, inr,
  refl, sym, ap, ◌∙◌, subst, arith, any, filter, Result, ok, >>=-eq-ok, Bool-cases, eq_iff,
}
use lar.Package.Manifest.{PackageManifest, PlatformRequirements}
use lar.Platform.{
  Capability, capability_lt, capability_eq, capability_as_str, parse_capability, PlatformNeed,
  has_capability, set_add, set_drop, merge_requires, merge_optional, merge_requirements,
  collect_onto, collect_from_manifests, Fault,
}

-- No capability is both required and optional.
abbrev pub AreApart : PlatformNeed → Type 0
AreApart need =
    (cap : Capability)
    → has_capability cap need.optional ≡ true
    → has_capability cap need.requires ≡ false

same_name :
    (a b : Capability) (caps : List Capability)
    → capability_eq b a ≡ true
    → has_capability b caps ≡ has_capability a caps
unfolding has_capability
same_name a b caps e =
    ap (λ n. any (λ c. capability_as_str c == n) caps)
      ((eq_iff (capability_as_str b) (capability_as_str a)).0 e)

has_capability-set_add :
    (a b : Capability) (caps : List Capability)
    → has_capability a (set_add b caps) ≡ (capability_eq b a || has_capability a caps)
unfolding set_add has_capability any
has_capability-set_add a b [] = ground arith
has_capability-set_add a b (c ∷ caps) = elim (Bool-cases (capability_eq c b)) [
  | inl same ↦
      let e : capability_eq c a ≡ capability_eq b a =
        ap (λ n. n == capability_as_str a)
          ((eq_iff (capability_as_str c) (capability_as_str b)).0 same) in
      ground arith
  | inr differs ↦ elim (Bool-cases (capability_lt b c)) [
    | inl before ↦ ground arith
    | inr after ↦ let rest = has_capability-set_add a b caps in ground arith
  ]
]

other_name :
    (a b c : Capability)
    → capability_eq c b ≡ false
    → capability_eq c a ≡ true
    → capability_eq b a ≡ false
other_name a b c ne e = elim (Bool-cases (capability_eq b a)) [
  | inr f ↦ f
  | inl f ↦
      let same : capability_as_str c ≡ capability_as_str b =
        (eq_iff (capability_as_str c) (capability_as_str a)).0 e
        ∙ sym ((eq_iff (capability_as_str b) (capability_as_str a)).0 f) in
      cc (ne, (eq_iff (capability_as_str c) (capability_as_str b)).1 same)
]

has_capability-set_drop :
    (a b : Capability) (caps : List Capability)
    → has_capability a (set_drop b caps) ≡ (not (capability_eq b a) && has_capability a caps)
unfolding set_drop has_capability any filter
has_capability-set_drop a b [] = elim (Bool-cases (capability_eq b a)) [
  | inl e ↦ rw e refl
  | inr e ↦ rw e refl
]
has_capability-set_drop a b (c ∷ caps) =
    let rest = has_capability-set_drop a b caps in
    elim (Bool-cases (capability_eq c b)) [
      | inl same ↦
          let e : capability_eq c a ≡ capability_eq b a =
            ap (λ n. n == capability_as_str a)
              ((eq_iff (capability_as_str c) (capability_as_str b)).0 same) in
          rw same (
            rest
            ∙ rw e
                (elim (Bool-cases (capability_eq b a)) [ inl f ↦ rw f refl | inr f ↦ rw f refl ]))
      | inr differs ↦ elim (Bool-cases (capability_eq c a)) [
        | inl f ↦ rw (differs, f, other_name a b c differs f) refl
        | inr f ↦ rw (differs, f) rest
      ]
    ]

merge_requires-AreApart :
    (need out : PlatformNeed) (ids : List String)
    → merge_requires need ids ≡ ok out
    → AreApart need
    → AreApart out
unfolding merge_requires
merge_requires-AreApart need out [] h apart = let e : need ≡ out = cc in subst AreApart e apart
merge_requires-AreApart need out (id ∷ ids) h apart =
    let (cap, a, k) = >>=-eq-ok (parse_capability id) _ h in
    merge_requires-AreApart
      (record { requires = set_add cap need.requires; optional = set_drop cap need.optional }) out
      ids k
      (λ x m. ground (
        arith,
        has_capability-set_add x cap need.requires,
        has_capability-set_drop x cap need.optional,
        apart x,
      ))

merge_optional-AreApart :
    (need out : PlatformNeed) (ids : List String)
    → merge_optional need ids ≡ ok out
    → AreApart need
    → AreApart out
unfolding merge_optional
merge_optional-AreApart need out [] h apart = let e : need ≡ out = cc in subst AreApart e apart
merge_optional-AreApart need out (id ∷ ids) h apart =
    let (cap, a, k) = >>=-eq-ok (parse_capability id) _ h in
    elim (Bool-cases (has_capability cap need.requires)) [
      | inl there ↦ merge_optional-AreApart need out ids (rw there at k) apart
      | inr new ↦
          merge_optional-AreApart (record need { optional = set_add cap need.optional }) out ids
            (rw new at k)
            (λ x m. elim (Bool-cases (capability_eq cap x)) [
              | inl e ↦ sym (same_name x cap need.requires e) ∙ new
              | inr e ↦ apart x (ground (arith, has_capability-set_add x cap need.optional))
            ])
    ]

abbrev step : PlatformNeed → Option PlatformRequirements → Result Fault PlatformNeed
step need o = elim o [ none ↦ ok need | some reqs ↦ merge_requirements need reqs ]

step-AreApart :
    (need out : PlatformNeed) (o : Option PlatformRequirements)
    → step need o ≡ ok out
    → AreApart need
    → AreApart out
unfolding merge_requirements
step-AreApart need out none h apart = let e : need ≡ out = cc in subst AreApart e apart
step-AreApart need out (some reqs) h apart =
    let (mid, a, k) = >>=-eq-ok (merge_requires need reqs.requires) _ h in
    merge_optional-AreApart mid out reqs.optional k
      (merge_requires-AreApart need mid reqs.requires a apart)

collect_onto-AreApart :
    (need out : PlatformNeed) (ms : List PackageManifest)
    → collect_onto need ms ≡ ok out
    → AreApart need
    → AreApart out
unfolding collect_onto
collect_onto-AreApart need out [] h apart = let e : need ≡ out = cc in subst AreApart e apart
collect_onto-AreApart need out (m ∷ ms) h apart =
    let (mid, a, k) = >>=-eq-ok (step need m.platform) _ h in
    collect_onto-AreApart mid out ms k (step-AreApart need mid m.platform a apart)

-- The needs that are collected from manifests hold no capability as both required and optional.
pub collect_from_manifests-AreApart :
    (manifests : List PackageManifest) (need : PlatformNeed)
    → collect_from_manifests manifests ≡ ok need
    → AreApart need
unfolding collect_from_manifests has_capability any
collect_from_manifests-AreApart manifests need h =
    collect_onto-AreApart (record { requires = []; optional = [] }) need manifests h (λ cap m. refl)
