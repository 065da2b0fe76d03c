-- ===== src/Package/Manifest/Valid.antt =====
-- The manifests that `validate_manifest` accepts.
pub mod EntryTable
use mathlib.Core.List.Memᴰ
use mathlib.Core.Option.{some-injective}
use lar.Base.{
  ℕ, String, Bool, true, false, not, ◌&&◌, ◌||◌, Option, none, some, List, [], ◌∷◌, ◌==◌, ◌≡◌, ◌≢◌,
  ◌↔◌, ◌⊎◌, inl, inr, refl, sym, arith, nat_eq, codes, split, trim, is_blank, is_empty, contains,
  contains_iff, Result, Done, ok, err, guard, guard-eq-ok, >>=-eq-ok, ok_or, ok_or-eq-ok, map_err,
  ◌>>=◌, ◌>>◌, All, Memᴰ, subst,
}
use lar.Base.Map.{Map}
use lar.Base.Hash.{is_content_hash, is_content_hash_iff, IsContentHash}
use lar.Semver.{Semver, Comparator}
use lar.Package.Error.{
  Error, invalid_version, version_syntax, requirement_syntax, validation, unsupported_format,
  name_empty, binaries_empty,
}
use lar.Package.Id.{validate_package_id}
use lar.Package.Id.Grammar.{IsPackageId, validate_package_id_iff}
use lar.Package.Manifest.{PackageManifest, PackageMeta, Entry, PlatformRequirements, format_version}
use lar.Package.Manifest.Path.{slash, is_absolute, validate_relative_payload_path}
use lar.Package.Manifest.Path.Laws.{validate_relative_payload_path_iff}
use lar.Package.Manifest.Platform.{validate_platform}
use lar.Package.Manifest.Platform.Laws.{IsPlatform, validate_platform_iff}
use lar.Package.Manifest.Validate.{
  validate_hash, as_dependency_id, is_star_text, validate_binaries, validate_default,
  validate_entry, parse_semver, parse_version_req, validate_dependencies, validate_manifest,
}
use lar.Package.Manifest.Valid.EntryTable.{IsEntry, entry_iff}

hash_iff :
    (h : Option String)
    → (validate_hash h ≡ ok tt) ↔ ((hash : String) → h ≡ some hash → IsContentHash hash)
unfolding validate_hash
hash_iff none = (λ _ hash e. cc, λ _. refl)
hash_iff (some hash) = (
  λ h other e.
      let given : is_content_hash hash ≡ true = ground arith in
      let same : hash ≡ other = cc in subst IsContentHash same ((is_content_hash_iff hash).0 given),
  λ h. rw ((is_content_hash_iff hash).1 (h hash refl)),
)

map_err-eq-ok : (r : Result Error Done) → (map_err as_dependency_id r ≡ ok tt) ↔ (r ≡ ok tt)
map_err-eq-ok (ok a) = (λ h. h, λ h. h)
map_err-eq-ok (err e) = (λ h. cc, λ h. cc)

module _ (sv : Semver) where
  -- A requirement that parses, and neither `*` nor one without comparators.
  abbrev pub IsRequirement : String → Type 0
  IsRequirement value =
      (req : List Comparator) × (sv.parse_req (trim (codes value)) ≡ some req)
      × (req ≢ [])
      × (trim (codes value) ≢ [])
      × (trim (codes value) ≢ b'*' ∷ [])

  star-text : (s : List ℕ) → (is_star_text s ≡ false) ↔ (s ≢ b'*' ∷ [])
  star-text [] = ground arith
  star-text (c ∷ []) = ground arith
  star-text (c ∷ d ∷ s) = ground arith

  IsRequirement-sound :
      (value label : String) (req : List Comparator)
      → parse_version_req sv value label ≡ ok req
      → IsRequirement value
  unfolding parse_version_req
  IsRequirement-sound value label req h =
      let trimmed = trim (codes value) in
      let (a, h1) = guard-eq-ok (not (is_empty trimmed)) _ _ h in
      let (r, b, h2) = >>=-eq-ok (ok_or (sv.parse_req trimmed) _) _ h1 in
      let (c, h3) = guard-eq-ok (not (is_star_text trimmed || is_empty r)) _ _ h2 in
      (
        r,
        ok_or-eq-ok (sv.parse_req trimmed) _ b,
        ground arith,
        ground arith,
        (star-text trimmed).0 (ground arith),
      )

  requirement_complete :
      (value label : String)
      → IsRequirement value
      → (req : List Comparator) × (parse_version_req sv value label ≡ ok req)
  unfolding parse_version_req
  requirement_complete value label (req, a, b, c, d) =
      let given : is_empty (trim (codes value)) ≡ false = ground arith in
      let some_test : is_empty req ≡ false = ground arith in
      (req, rw (given, a, (star-text (trim (codes value))).1 d, some_test))

  abbrev pub IsDependency : String × String → Type 0
  IsDependency (dep_id, dep_ver) = IsPackageId dep_id × IsRequirement dep_ver

  dependencies_iff :
      (deps : Map String) → (validate_dependencies sv deps ≡ ok tt) ↔ All IsDependency deps
  unfolding validate_dependencies
  dependencies_iff [] = (λ _. tt, λ _. refl)
  dependencies_iff ((dep_id, dep_ver) ∷ deps) =
      let rest = dependencies_iff deps in
      (
        λ h.
            let (_, a, h1) =
              >>=-eq-ok (map_err as_dependency_id (validate_package_id dep_id)) _ h in
            let (req, b, h2) = >>=-eq-ok (parse_version_req sv dep_ver dep_id) _ h1 in
            (
              (
                (validate_package_id_iff dep_id).0
                    ((map_err-eq-ok (validate_package_id dep_id)).0 a),
                IsRequirement-sound dep_ver dep_id req b,
              ),
              rest.0 h2,
            ),
        λ ((a, b), c).
            let (req, e) = requirement_complete dep_ver dep_id b in
            rw ((validate_package_id_iff dep_id).1 a, e) (rest.1 c),
      )

  pub record IsManifest (m : PackageManifest) : Type 0 where
    pub format : m.meta.format ≡ 1
    pub id : IsPackageId m.meta.id
    pub name : is_blank (codes m.meta.name) ≡ false
    pub version : (v : sv.Version) × (sv.parse m.meta.version ≡ some v)
    pub content_hash : (hash : String) → m.meta.content_hash ≡ some hash → IsContentHash hash
    pub dependencies : All IsDependency m.dependencies
    pub entry : (e : Entry) → m.entry ≡ some e → IsEntry e
    pub platform : (p : PlatformRequirements) → m.platform ≡ some p → IsPlatform p

  optional_entry :
      (o : Option Entry) → (validate_entry o ≡ ok tt) ↔ ((e : Entry) → o ≡ some e → IsEntry e)
  unfolding validate_entry
  optional_entry none = (λ _ e h. cc, λ _. refl)
  optional_entry (some entry) = (
    λ h e same. subst IsEntry (some-injective entry e same) ((entry_iff entry).0 h),
    λ h. (entry_iff entry).1 (h entry refl),
  )

  abbrev check_platform : Option PlatformRequirements → Result Error Done
  check_platform o = elim o [ none ↦ ok tt | some p ↦ validate_platform p ]

  optional-IsPlatform :
      (o : Option PlatformRequirements)
      → (check_platform o ≡ ok tt) ↔ ((p : PlatformRequirements) → o ≡ some p → IsPlatform p)
  optional-IsPlatform none = (λ _ e h. cc, λ _. refl)
  optional-IsPlatform (some platform) = (
    λ h p same.
        subst IsPlatform (some-injective platform p same) ((validate_platform_iff platform).0 h),
    λ h. (validate_platform_iff platform).1 (h platform refl),
  )

  IsManifest-sound : (m : PackageManifest) → validate_manifest sv m ≡ ok tt → IsManifest m
  unfolding validate_manifest
  IsManifest-sound m h =
      let (a, h1) = guard-eq-ok (nat_eq m.meta.format format_version) _ _ h in
      let (_, b, h2) = >>=-eq-ok (validate_package_id m.meta.id) _ h1 in
      let (c, h3) = guard-eq-ok (not (is_blank (codes m.meta.name))) _ _ h2 in
      let (v, d, h4) = >>=-eq-ok (ok_or (sv.parse m.meta.version) _) _ h3 in
      let (_, e, h5) = >>=-eq-ok (validate_hash m.meta.content_hash) _ h4 in
      let (_, f, h6) = >>=-eq-ok (validate_dependencies sv m.dependencies) _ h5 in
      let (_, g, h7) = >>=-eq-ok (validate_entry m.entry) _ h6 in
      record {
        format = ground arith;
        id = (validate_package_id_iff m.meta.id).0 b;
        name = ground arith;
        version = (v, ok_or-eq-ok (sv.parse m.meta.version) _ d);
        content_hash = (hash_iff m.meta.content_hash).0 e;
        dependencies = (dependencies_iff m.dependencies).0 f;
        entry = (optional_entry m.entry).0 g;
        platform = (optional-IsPlatform m.platform).0 h7;
      }

  manifest_complete : (m : PackageManifest) → IsManifest m → validate_manifest sv m ≡ ok tt
  unfolding validate_manifest
  manifest_complete m v =
      let supported : nat_eq m.meta.format format_version ≡ true = ground arith in
      rw
        (
          supported,
          (validate_package_id_iff m.meta.id).1 v.id,
          v.name,
          v.version.1,
          (hash_iff m.meta.content_hash).1 v.content_hash,
          (dependencies_iff m.dependencies).1 v.dependencies,
          (optional_entry m.entry).1 v.entry,
        )
        ((optional-IsPlatform m.platform).1 v.platform)

  -- A manifest passes exactly when its format is 1, its id and those of its dependencies are
  -- package ids, its name is not blank, its version parses, its content hash (if given) is
  -- `blake3:` and more, every requirement parses and is no wildcard, its entry (if given) lists
  -- payload paths with the default among them, and its platform table (if given) is consistent.
  pub validate_manifest_iff :
      (m : PackageManifest) → (validate_manifest sv m ≡ ok tt) ↔ IsManifest m
  validate_manifest_iff m = (IsManifest-sound m, manifest_complete m)
