-- ===== src/Package/Manifest/Validate.antt =====
-- `validate_manifest` of crates/lar-package/src/manifest.rs.
use lar.Base.{
  ℕ, String, Bool, false, not, ◌||◌, Option, none, some, List, [], ◌∷◌, nat_eq, codes, trim,
  is_blank, is_empty, contains, Result, Done, ok, guard, ok_or, map_err, ◌>>=◌, ◌>>◌,
}
use lar.Base.Map.{Map}
use lar.Base.Hash.{is_content_hash}
use lar.Semver.{Semver, Comparator}
use lar.Package.Error.{
  Error, invalid_package_id, validation, invalid_version, dependency_id, unsupported_format,
  name_empty, bad_content_hash, binaries_empty, default_not_listed, version_syntax,
  requirement_empty, requirement_syntax, requirement_wildcard, io, toml,
}
use lar.Package.Id.{validate_package_id}
use lar.Package.Manifest.{PackageManifest, Entry, format_version}
use lar.Package.Manifest.Path.{validate_relative_payload_path}
use lar.Package.Manifest.Platform.{validate_platform}

unfoldable pub validate_hash : Option String → Result Error Done
validate_hash none = ok tt
validate_hash (some hash) = guard (is_content_hash hash) (validation bad_content_hash)

abbrev pub as_dependency_id : Error → Error
as_dependency_id (invalid_package_id id reason) = validation (dependency_id id reason)
as_dependency_id (validation v) = validation v
as_dependency_id (invalid_version v l r) = invalid_version v l r
as_dependency_id (io path) = io path
as_dependency_id toml = toml

-- `trimmed == "*"`
abbrev pub is_star_text : List ℕ → Bool
is_star_text [] = false
is_star_text (c ∷ []) = nat_eq c b'*'
is_star_text (c ∷ d ∷ s) = false

unfoldable pub validate_binaries : List String → Result Error Done
validate_binaries [] = ok tt
validate_binaries (binary ∷ binaries) = do
  validate_relative_payload_path binary "entry.binaries"
  validate_binaries binaries

unfoldable pub validate_default : List String → Option String → Result Error Done
validate_default binaries none = ok tt
validate_default binaries (some default) = do
  validate_relative_payload_path default "entry.default"
  guard (contains binaries default) (validation (default_not_listed default))

unfoldable pub validate_entry : Option Entry → Result Error Done
unfolding validate_binaries validate_default
validate_entry none = ok tt
validate_entry (some entry) = do
  guard (not (is_empty entry.binaries)) (validation binaries_empty)
  validate_binaries entry.binaries
  validate_default entry.binaries entry.default

module _ (sv : Semver) where
  unfoldable pub parse_semver : String → String → Result Error sv.Version
  parse_semver value label = ok_or (sv.parse value) (invalid_version value label version_syntax)

  -- `VersionReq::STAR` has no comparators.
  unfoldable pub parse_version_req : String → String → Result Error (List Comparator)
  parse_version_req value label = do
    let trimmed = trim (codes value)
    guard (not (is_empty trimmed)) (invalid_version value label requirement_empty)
    req ← ok_or (sv.parse_req trimmed) (invalid_version value label requirement_syntax)
    guard (not (is_star_text trimmed || is_empty req))
        (invalid_version value label requirement_wildcard)
    ok req

  unfoldable pub validate_dependencies : Map String → Result Error Done
  unfolding parse_version_req
  validate_dependencies [] = ok tt
  validate_dependencies ((dep_id, dep_ver) ∷ deps) = do
    map_err as_dependency_id (validate_package_id dep_id)
    req ← parse_version_req dep_ver dep_id
    validate_dependencies deps

  unfoldable pub validate_manifest : PackageManifest → Result Error Done
  unfolding parse_semver validate_hash
  validate_manifest m = do
    guard (nat_eq m.meta.format format_version) (validation (unsupported_format m.meta.format))
    validate_package_id m.meta.id
    guard (not (is_blank (codes m.meta.name))) (validation name_empty)
    version ← parse_semver m.meta.version "package.version"
    validate_hash m.meta.content_hash
    validate_dependencies m.dependencies
    validate_entry m.entry
    elim m.platform [ none ↦ ok tt | some p ↦ validate_platform p ]
