-- ===== src/Repo/Index.antt =====
-- crates/lar-repo/src/index.rs: the package index of a source and the message that its signatures
-- cover. `toml` has read the index.
pub mod Message
use lar.Base.{
  ℕ, String, Bool, not, ◌&&◌, ◌||◌, Option, List, [], ◌∷◌, ◌==◌, ◌<>◌, codes, nat_eq, starts_with,
  find, Result, Done, ok, err, guard, map_err, ◌>>◌,
}
use lar.Base.Map.{Map}
use lar.Package.Manifest.Path.{
  Component, root_dir, cur_dir, parent_dir, normal, components, is_absolute,
}
use lar.Repo.Error.{
  Error, invalid_index, invalid_relative_path, bad_signature, unsupported_format,
  id_or_version_empty, bad_content_hash, key_missing,
}
use lar.Repo.Trust.{Crypto, verify_message}

abbrev pub index_format : ℕ
index_format = 1

pub record IndexPackage : Type 0 where
  pub id : String
  pub version : String
  pub content_hash : String
  pub file : String
  pub key_id : String
  pub signature : String
  pub dependencies : Map String

pub record PackageIndex : Type 0 where
  pub format : ℕ
  pub packages : List IndexPackage

unfoldable pub check_relative : String → List Component → Result Error Done
check_relative file [] = ok tt
check_relative file (normal part ∷ cs) = check_relative file cs
check_relative file (cur_dir ∷ cs) = check_relative file cs
check_relative file (root_dir ∷ cs) = err (invalid_relative_path file)
check_relative file (parent_dir ∷ cs) = err (invalid_relative_path file)

unfoldable pub validate_relative_file : String → Result Error Done
unfolding check_relative components is_absolute
validate_relative_file file = do
  guard (not (is_absolute (codes file))) (invalid_relative_path file)
  check_relative file (components (codes file))
  guard (not (file == "")) (invalid_relative_path file)

unfoldable pub validate_index_packages : List IndexPackage → Result Error Done
unfolding validate_relative_file
validate_index_packages [] = ok tt
validate_index_packages (pkg ∷ pkgs) = do
  guard (not (pkg.id == "" || pkg.version == "")) (invalid_index id_or_version_empty)
  validate_relative_file pkg.file
  guard (starts_with pkg.content_hash "blake3:")
      (invalid_index (bad_content_hash pkg.id pkg.version))
  guard (not (pkg.key_id == "" || pkg.signature == ""))
      (invalid_index (key_missing pkg.id pkg.version))
  validate_index_packages pkgs

unfoldable pub validate : PackageIndex → Result Error Done
unfolding validate_index_packages
validate index = do
  guard (nat_eq index.format index_format) (invalid_index (unsupported_format index.format))
  validate_index_packages index.packages

-- What follows the reading of the TOML text.
unfoldable pub parse_index : PackageIndex → Result Error PackageIndex
unfolding validate
parse_index index = do validate index; ok index

abbrev pub is_pin : String → String → IndexPackage → Bool
is_pin id version p = p.id == id && p.version == version

unfoldable pub find_pin : PackageIndex → String → String → Option IndexPackage
unfolding find
find_pin index id version = find (is_pin id version) index.packages

-- The lines of the dependencies, each behind a line break.
unfoldable pub dependency_lines : Map String → String
dependency_lines [] = ""
dependency_lines ((dep_id, req) ∷ deps) =
    "\n" <> ("dep=" <> (dep_id <> ("\t" <> (req <> dependency_lines deps))))

unfoldable pub index_pin_signing_message : IndexPackage → String
unfolding dependency_lines
index_pin_signing_message pkg =
    "lar-index-pin-v1\nid="
    <> (pkg.id
        <> ("\nversion="
            <> (pkg.version
                <> ("\ncontent_hash="
                    <> (pkg.content_hash
                        <> ("\nfile=" <> (pkg.file <> dependency_lines pkg.dependencies)))))))

unfoldable pub verify_index_package : Crypto → String → IndexPackage → Result Error Done
unfolding verify_message index_pin_signing_message
verify_index_package crypto public_key pkg =
    map_err (λ _. bad_signature pkg.id pkg.version)
      (verify_message crypto public_key (index_pin_signing_message pkg) pkg.signature)
