-- ===== src/Package/Id.antt =====
-- `validate_package_id` of crates/lar-package/src/id.rs: reverse-DNS package ids.
pub mod Grammar
use lar.Base.{
  ℕ, String, Bool, true, false, not, ◌&&◌, ◌||◌, List, [], ◌∷◌, ◌==◌, ◌≡◌, refl, arith, ◌↔◌, ◌≤◌,
  ltb, nat_eq, length, codes, split, all, ends_with, is_ascii_lowercase, is_ascii_digit, Result,
  Done, ok, err, guard, ◌>>=◌, ◌>>◌, if◌then◌else◌, All,
}
use lar.Package.Error.{
  Error, invalid_package_id, IdReason, id_empty, few_labels, label_empty, label_start, label_chars,
  label_hyphen,
}

-- `c.is_ascii_lowercase() || c.is_ascii_digit() || c == '-'`
abbrev pub is_label_char : ℕ → Bool
is_label_char c = is_ascii_lowercase c || is_ascii_digit c || nat_eq c b'-'

-- The body of the loop over the labels.
unfoldable pub validate_label : String → List ℕ → Result Error Done
validate_label id [] = err (invalid_package_id id label_empty)
validate_label id (first ∷ chars) = do
  guard (is_ascii_lowercase first) (invalid_package_id id label_start)
  guard (all is_label_char chars) (invalid_package_id id label_chars)
  guard (not (ends_with (first ∷ chars) b'-')) (invalid_package_id id label_hyphen)

unfoldable pub validate_labels : String → List (List ℕ) → Result Error Done
unfolding validate_label
validate_labels id [] = ok tt
validate_labels id (label ∷ labels) = do validate_label id label; validate_labels id labels

unfoldable pub validate_package_id : String → Result Error Done
unfolding validate_labels split
validate_package_id id = do
  guard (not (id == "")) (invalid_package_id id id_empty)
  let labels = split b'.' (codes id)
  guard (not (ltb (length labels) 2)) (invalid_package_id id few_labels)
  validate_labels id labels
