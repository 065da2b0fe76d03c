-- ===== src/Package/Manifest/Path.antt =====
-- Paths below `files/`: `validate_relative_payload_path` and `normalize_payload_rel_path`.
pub mod Laws
use lar.Base.{
  ℕ, String, Bool, true, false, not, List, [], ◌∷◌, ◌==◌, nat_eq, codes, split, Result, Done, ok,
  err, guard, is_empty, ◌>>=◌, ◌>>◌, if◌then◌else◌,
}
use lar.Base.Split.{join}
use lar.Package.Error.{
  Error, validation, path_empty, path_absolute, path_escapes, payload_path_invalid,
  payload_path_empty,
}

-- `std::path::Component` on Unix.
pub data Component : Type 0 where
  root_dir cur_dir parent_dir : Component
  normal : List ℕ → Component

abbrev pub slash : ℕ
slash = b'/'

-- The component of a part between slashes, in front of the others. A dot counts only at the start.
unfoldable pub add_component : Bool → List ℕ → List Component → List Component
add_component start [] rest = rest
add_component start (c ∷ []) rest =
    if nat_eq c b'.' then (if start then cur_dir ∷ rest else rest) else normal (c ∷ []) ∷ rest
add_component start (c ∷ d ∷ []) rest =
    (if nat_eq c b'.'
      then (if nat_eq d b'.' then parent_dir else normal (c ∷ d ∷ []))
      else normal (c ∷ d ∷ []))
    ∷ rest
add_component start (c ∷ d ∷ e ∷ s) rest = normal (c ∷ d ∷ e ∷ s) ∷ rest

unfoldable pub parts_components : Bool → List (List ℕ) → List Component
unfolding add_component
parts_components start [] = []
parts_components start (part ∷ parts) = add_component start part (parts_components false parts)

-- `Path::is_absolute`
unfoldable pub is_absolute : List ℕ → Bool
is_absolute [] = false
is_absolute (c ∷ s) = nat_eq c slash

-- `Path::components`
unfoldable pub components : List ℕ → List Component
unfolding parts_components split is_absolute
components path =
    if is_absolute path
    then root_dir ∷ parts_components false (split slash path)
    else parts_components true (split slash path)

unfoldable pub check_components : Error → List Component → Result Error Done
check_components e [] = ok tt
check_components e (normal part ∷ cs) = check_components e cs
check_components e (cur_dir ∷ cs) = check_components e cs
check_components e (root_dir ∷ cs) = err e
check_components e (parent_dir ∷ cs) = err e

unfoldable pub validate_relative_payload_path : String → String → Result Error Done
unfolding components check_components
validate_relative_payload_path path label = do
  guard (not (path == "")) (validation (path_empty label))
  guard (not (is_absolute (codes path))) (validation (path_absolute label path))
  check_components (validation (path_escapes label path)) (components (codes path))

unfoldable pub normal_parts : Error → List Component → Result Error (List (List ℕ))
normal_parts e [] = ok []
normal_parts e (normal part ∷ cs) = do parts ← normal_parts e cs; ok (part ∷ parts)
normal_parts e (cur_dir ∷ cs) = normal_parts e cs
normal_parts e (root_dir ∷ cs) = err e
normal_parts e (parent_dir ∷ cs) = err e

-- The payload paths of the model are valid UTF-8, so that `to_str` does not fail.
unfoldable pub normalize_payload_rel_path : List ℕ → Result Error (List ℕ)
unfolding components normal_parts
normalize_payload_rel_path path = do
  parts ← normal_parts (validation payload_path_invalid) (components path)
  guard (not (is_empty parts)) (validation payload_path_empty)
  ok (join slash parts)
