-- ===== src/Package/Id/Grammar.antt =====
-- The grammar of package ids, and that `validate_package_id` accepts exactly its texts.
use lar.Base.{
  ℕ, String, true, false, not, List, [], ◌∷◌, ◌++◌, ◌==◌, ◌≡◌, refl, arith, ◌↔◌, ◌≤◌, ◌≢◌, ◌⊎◌, inl,
  inr, ap, sym, ◌∙◌, ltb, length, codes, split, all, ends_with, ok, guard-eq-ok, >>=-eq-ok, All,
  Bool-cases, eq_iff, is_ascii_lowercase,
}
use lar.Base.Split.{join, join-split, split-join, Without, ends_with-append, ends_with-some}
use lar.Package.Id.{is_label_char, validate_label, validate_labels, validate_package_id}

abbrev pub IsLower : ℕ → Type 0
IsLower c = (b'a' ≤ c) × (c ≤ b'z')

abbrev pub IsDigit : ℕ → Type 0
IsDigit c = (b'0' ≤ c) × (c ≤ b'9')

abbrev pub IsLabelChar : ℕ → Type 0
IsLabelChar c = IsLower c ⊎ IsDigit c ⊎ (c ≡ b'-')

-- A lowercase letter, then letters, digits and hyphens, and no hyphen at the end.
abbrev pub IsLabel : List ℕ → Type 0
IsLabel label =
    (first : ℕ) × (chars : List ℕ) × (label ≡ first ∷ chars)
    × IsLower first
    × All IsLabelChar chars
    × ((p : List ℕ) → label ≢ p ++ b'-' ∷ [])

-- Two labels or more, joined by dots.
abbrev pub IsPackageId : String → Type 0
IsPackageId id =
    (labels : List (List ℕ)) × (2 ≤ length labels)
    × All IsLabel labels
    × (codes id ≡ join b'.' labels)

all-IsLabelChar : (cs : List ℕ) → (all is_label_char cs ≡ true) ↔ All IsLabelChar cs
unfolding all
all-IsLabelChar [] = (λ _. tt, λ _. refl)
all-IsLabelChar (c ∷ cs) = ground (arith, all-IsLabelChar cs)

no_hyphen : (l : List ℕ) → (ends_with l b'-' ≡ false) ↔ ((p : List ℕ) → l ≢ p ++ b'-' ∷ [])
no_hyphen l = (
  λ h p e. cc (h, ap (λ s. ends_with s b'-') e, ends_with-append p b'-'),
  λ h. elim (Bool-cases (ends_with l b'-')) [
    | inl t ↦ let (p, e) = ends_with-some l b'-' t in absurd (h p e)
    | inr f ↦ f
  ],
)

IsLabel-sound : (id : String) (l : List ℕ) → validate_label id l ≡ ok tt → IsLabel l
unfolding validate_label
IsLabel-sound id [] h = cc
IsLabel-sound id (c ∷ cs) h =
    let (a, h1) = guard-eq-ok (is_ascii_lowercase c) _ _ h in
    let (b, h2) = guard-eq-ok (all is_label_char cs) _ _ h1 in
    (c, cs, refl, ground arith, (all-IsLabelChar cs).0 b, (no_hyphen (c ∷ cs)).0 (ground arith))

label_complete : (id : String) (l : List ℕ) → IsLabel l → validate_label id l ≡ ok tt
unfolding validate_label
label_complete id l (c, cs, e, low, chars, last) =
    let lower : is_ascii_lowercase c ≡ true = ground arith in
    let end : ends_with (c ∷ cs) b'-' ≡ false =
      (no_hyphen (c ∷ cs)).1 (λ p same. last p (e ∙ same)) in
    rw e (rw (lower, (all-IsLabelChar cs).1 chars, end))

labels_iff : (id : String) (ls : List (List ℕ)) → (validate_labels id ls ≡ ok tt) ↔ All IsLabel ls
unfolding validate_labels
labels_iff id [] = (λ _. tt, λ _. refl)
labels_iff id (l ∷ ls) = (
  λ h.
      let (u, a, b) = >>=-eq-ok (validate_label id l) _ h in
      (IsLabel-sound id l a, (labels_iff id ls).0 b),
  λ (a, b). rw (label_complete id l a) ((labels_iff id ls).1 b),
)

label_has_no_dot : (l : List ℕ) → IsLabel l → Without b'.' l
label_has_no_dot l (c, cs, e, low, chars, _) = rw e (omega arith, rest cs chars)
  where
    rest : (cs : List ℕ) → All IsLabelChar cs → Without b'.' cs
    rest [] h = tt
    rest (c ∷ cs) (h, t) = (ground arith, rest cs t)

labels_have_no_dot : (ls : List (List ℕ)) → All IsLabel ls → All (Without b'.') ls
labels_have_no_dot [] h = tt
labels_have_no_dot (l ∷ ls) (a, b) = (label_has_no_dot l a, labels_have_no_dot ls b)

IsPackageId-sound : (id : String) → validate_package_id id ≡ ok tt → IsPackageId id
unfolding validate_package_id
IsPackageId-sound id h =
    let (_, h1) = guard-eq-ok (not (id == "")) _ _ h in
    let labels = split b'.' (codes id) in
    let (many, h2) = guard-eq-ok (not (ltb (length labels) 2)) _ _ h1 in
    (labels, ground arith, (labels_iff id labels).0 h2, sym (join-split b'.' (codes id)))

split-labels :
    (ls : List (List ℕ)) → 2 ≤ length ls → All IsLabel ls → split b'.' (join b'.' ls) ≡ ls
split-labels [] two h = absurd (omega arith)
split-labels (l ∷ ls) two h = split-join b'.' l ls (labels_have_no_dot (l ∷ ls) h)

join-ne-nil : (ls : List (List ℕ)) → 2 ≤ length ls → join b'.' ls ≢ []
join-ne-nil [] two e = omega arith
join-ne-nil (l ∷ []) two e = omega arith
join-ne-nil ([] ∷ m ∷ ls) two e = cc
join-ne-nil ((c ∷ l) ∷ m ∷ ls) two e = cc

package_id_complete : (id : String) → IsPackageId id → validate_package_id id ≡ ok tt
unfolding validate_package_id
package_id_complete id (ls, two, h, e) =
    let whole : split b'.' (codes id) ≡ ls = ap (split b'.') e ∙ split-labels ls two h in
    let given : (id == "") ≡ false = elim (Bool-cases (id == "")) [
      | inl t ↦ absurd (join-ne-nil ls two (sym e ∙ ap codes ((eq_iff id "").0 t)))
      | inr f ↦ f
    ] in
    let many : ltb (length ls) 2 ≡ false = ground arith in
    rw (given, whole, many) ((labels_iff id ls).1 h)

-- `validate_package_id` accepts a text exactly when it is two labels or more joined by dots, each
-- of a lowercase letter and then lowercase letters, digits and hyphens, with no hyphen at its end.
pub validate_package_id_iff : (id : String) → (validate_package_id id ≡ ok tt) ↔ IsPackageId id
validate_package_id_iff id = (IsPackageId-sound id, package_id_complete id)
