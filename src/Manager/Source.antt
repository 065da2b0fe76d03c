-- ===== src/Manager/Source.antt =====
-- `InstallSource` of crates/lar-manager/src/ops.rs: what the user names to install.
pub mod Printed
use Prim.Native.Char.{code}
use Prim.Native.String.{String}
use lar.Base.{
  ℕ, ◌+◌, Bool, true, false, ◌&&◌, ◌||◌, Option, none, some, List, [], ◌∷◌, ◌==◌, nat_eq, leb,
  codes, any, map, Result, ok, err, if◌then◌else◌,
}
use lar.Package.Manifest.Path.{Component, components, normal, root_dir, cur_dir, parent_dir}

pub data InstallSource : Type 0 where
  archive : String → InstallSource
  store : String → Option String → InstallSource

pub data Fault : Type 0 where
  invalid_source : String → Fault

-- `Path::file_name`: the last component, where it is a name.
unfoldable pub last_name : List Component → Option (List ℕ)
last_name [] = none
last_name (normal name ∷ []) = some name
last_name (cur_dir ∷ []) = none
last_name (parent_dir ∷ []) = none
last_name (root_dir ∷ []) = none
last_name (c ∷ d ∷ cs) = last_name (d ∷ cs)

-- What follows the last dot, if there is one.
unfoldable pub after_last_dot : List ℕ → Option (List ℕ)
after_last_dot [] = none
after_last_dot (c ∷ s) = elim (after_last_dot s) [
  | some suffix ↦ some suffix
  | none ↦ if nat_eq c b'.' then some s else none
]

-- `Path::extension`: a dot in front of the name starts no extension.
unfoldable pub extension : List ℕ → Option (List ℕ)
unfolding last_name after_last_dot components
extension path = elim (last_name (components path)) [
  | none ↦ none
  | some [] ↦ none
  | some (c ∷ name) ↦ after_last_dot name
]

abbrev pub to_ascii_lowercase : ℕ → ℕ
to_ascii_lowercase c = if leb b'A' c && leb c b'Z' then c + 32 else c

unfoldable pub codes_eq : List ℕ → List ℕ → Bool
codes_eq [] [] = true
codes_eq (a ∷ s) (b ∷ t) = nat_eq a b && codes_eq s t
codes_eq [] (b ∷ t) = false
codes_eq (a ∷ s) [] = false

-- `e.eq_ignore_ascii_case("lar")`
unfoldable pub is_lar : List ℕ → Bool
unfolding codes_eq
is_lar e = codes_eq (map to_ascii_lowercase e) (codes "lar")

unfoldable pub has_lar_extension : String → Bool
unfolding extension is_lar
has_lar_extension input = elim (extension (codes input)) [ none ↦ false | some e ↦ is_lar e ]

-- `input.rsplit_once(sep)`
unfoldable pub rsplit_once : ℕ → String → Option (String × String)
rsplit_once sep String.[] = none
rsplit_once sep (String.◌∷◌ c s) = elim (rsplit_once sep s) [
  | some (before, after) ↦ some (String.◌∷◌ c before, after)
  | none ↦ if nat_eq (code c) sep then some ("", s) else none
]

-- `contains('/') || contains('\\')`
unfoldable pub has_separator : String → Bool
unfolding any
has_separator s = any (λ c. nat_eq c b'/') (codes s) || any (λ c. nat_eq c b'\\') (codes s)

unfoldable pub parse : String → Result Fault InstallSource
unfolding has_lar_extension rsplit_once has_separator
parse input =
    if has_lar_extension input then ok (archive input) else elim (rsplit_once b'@' input) [
      | some (id, version) ↦
          if id == "" || version == "" || has_separator id
          then err (invalid_source input)
          else ok (store id (some version))
      | none ↦
          if input == "" || has_separator input
          then err (invalid_source input)
          else ok (store input none)
    ]
