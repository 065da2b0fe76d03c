-- ===== src/Package/Manifest/Platform/Laws.antt =====
-- What the `[platform]` tables that pass look like.
use mathlib.Core.List.Memᴰ
use lar.Base.{
  String, false, not, List, [], ◌∷◌, ◌≡◌, ◌↔◌, inl, inr, refl, sym, subst, arith, contains,
  contains_iff, codes, is_blank, ok, guard-eq-ok, >>=-eq-ok, All, Memᴰ, not-Memᴰ-contains,
  contains-not-Memᴰ,
}
use lar.Package.Manifest.{PlatformRequirements}
use lar.Package.Manifest.Platform.{
  platform_capabilities, validate_from, validate_platform_list, validate_disjoint,
  validate_platform,
}

-- Every entry is a known capability, and is listed once.
abbrev pub IsList : List String → List String → Type 0
IsList seen [] = Unit
IsList seen (cap ∷ list) =
    Memᴰ cap platform_capabilities × (¬ Memᴰ cap seen) × IsList (cap ∷ seen) list

known_is_not_blank :
    (caps : List String) (cap : String)
    → All (λ c. is_blank (codes c) ≡ false) caps
    → Memᴰ cap caps
    → is_blank (codes cap) ≡ false
known_is_not_blank [] cap h m = absurd (Memᴰ.not-nil m)
known_is_not_blank (c ∷ caps) cap (h, hs) m = elim (Memᴰ.cases_cons m) [
  | inl e ↦ subst (λ z. is_blank (codes z) ≡ false) (sym e) h
  | inr n ↦ known_is_not_blank caps cap hs n
]

capabilities_are_not_blank : All (λ c. is_blank (codes c) ≡ false) platform_capabilities
unfolding is_blank
capabilities_are_not_blank = (refl, (refl, (refl, (refl, (refl, (refl, (refl, tt)))))))

validate_from_iff :
    (label : String) (seen list : List String)
    → (validate_from label seen list ≡ ok tt) ↔ IsList seen list
unfolding validate_from
validate_from_iff label seen [] = (λ _. tt, λ _. refl)
validate_from_iff label seen (cap ∷ list) =
    let later = validate_from_iff label (cap ∷ seen) list in
    (
      λ h.
          let (_, h1) = guard-eq-ok (not (is_blank (codes cap))) _ _ h in
          let (known, h2) = guard-eq-ok (contains platform_capabilities cap) _ _ h1 in
          let (new, h3) = guard-eq-ok (not (contains seen cap)) _ _ h2 in
          (
            (contains_iff platform_capabilities cap).0 known,
            not-Memᴰ-contains seen cap (ground arith),
            later.0 h3,
          ),
      λ (known, new, rest).
          rw
            (
              known_is_not_blank platform_capabilities cap capabilities_are_not_blank known,
              (contains_iff platform_capabilities cap).1 known,
              contains-not-Memᴰ seen cap new,
            )
            (later.1 rest),
    )

validate_disjoint_iff :
    (requires optional : List String)
    → (validate_disjoint requires optional ≡ ok tt)
      ↔ ((cap : String) → Memᴰ cap optional → ¬ Memᴰ cap requires)
unfolding validate_disjoint
validate_disjoint_iff requires [] = (λ _ cap m. absurd (Memᴰ.not-nil m), λ _. refl)
validate_disjoint_iff requires (cap ∷ optional) =
    let later = validate_disjoint_iff requires optional in
    (
      λ h.
          let (new, h1) = guard-eq-ok (not (contains requires cap)) _ _ h in
          let fresh = not-Memᴰ-contains requires cap (ground arith) in
          λ c m. elim (Memᴰ.cases_cons m) [
            | inl e ↦ λ r. fresh (subst (λ z. Memᴰ z requires) e r)
            | inr n ↦ later.0 h1 c n
          ],
      λ h.
          rw (contains-not-Memᴰ requires cap (h cap (Memᴰ.head refl)))
            (later.1 (λ c m. h c (Memᴰ.tail m))),
    )

-- Known capabilities, each listed once, and none both required and optional.
abbrev pub IsPlatform : PlatformRequirements → Type 0
IsPlatform p =
    IsList [] p.requires
    × IsList [] p.optional
    × ((cap : String) → Memᴰ cap p.optional → ¬ Memᴰ cap p.requires)

-- A `[platform]` table passes exactly when each list holds known capabilities, none twice, and no
-- capability is in both lists.
pub validate_platform_iff :
    (p : PlatformRequirements) → (validate_platform p ≡ ok tt) ↔ IsPlatform p
unfolding validate_platform validate_platform_list
validate_platform_iff p =
    let first = validate_from_iff "platform.requires" [] p.requires in
    let second = validate_from_iff "platform.optional" [] p.optional in
    let third = validate_disjoint_iff p.requires p.optional in
    (
      λ h.
          let (_, a, h1) = >>=-eq-ok (validate_from "platform.requires" [] p.requires) _ h in
          let (_, b, h2) = >>=-eq-ok (validate_from "platform.optional" [] p.optional) _ h1 in
          (first.0 a, second.0 b, third.0 h2),
      λ (a, b, c). rw (first.1 a, second.1 b) (third.1 c),
    )
