-- ===== src/Platform.antt =====
-- crates/lar-platform/src/check.rs, with the capabilities of probe.rs: what packages need of the
-- host. The probes of the host are a parameter.
pub mod Needs
pub mod Report
mod Tests
use lar.Base.{
  ℕ, ltb, String, Bool, true, false, not, ◌&&◌, Option, none, some, List, [], ◌∷◌, ◌++◌, ◌==◌, any,
  filter, is_empty, Result, Done, ok, err, guard, ◌>>=◌, ◌>>◌, if◌then◌else◌,
}
use lar.Package.Manifest.{PackageManifest, PlatformRequirements}

pub data Capability : Type 0 where
  wayland x11 vulkan opengl dbus dri systemd_user : Capability

abbrev pub capability_as_str : Capability → String
capability_as_str wayland = "wayland"
capability_as_str x11 = "x11"
capability_as_str vulkan = "vulkan"
capability_as_str opengl = "opengl"
capability_as_str dbus = "dbus"
capability_as_str dri = "dri"
capability_as_str systemd_user = "systemd-user"

abbrev pub all_capabilities : List Capability
all_capabilities = wayland ∷ x11 ∷ vulkan ∷ opengl ∷ dbus ∷ dri ∷ systemd_user ∷ []

-- The derived `Eq`: the names of the capabilities differ.
abbrev pub capability_eq : Capability → Capability → Bool
capability_eq a b = capability_as_str a == capability_as_str b

pub record ProbeResult : Type 0 where
  pub capability : Capability
  pub present : Bool
  pub detail : String

-- `UnknownCapability` and `RequirementsNotMet`, with the missing probes.
pub data Fault : Type 0 where
  unknown_capability : String → Fault
  requirements_not_met : List ProbeResult → Fault

unfoldable pub parse_capability : String → Result Fault Capability
parse_capability id =
    if id == "wayland"
    then ok wayland
    else if id == "x11"
    then ok x11
    else if id == "vulkan"
    then ok vulkan
    else if id == "opengl"
    then ok opengl
    else if id == "dbus"
    then ok dbus
    else if id == "dri"
    then ok dri
    else if id == "systemd-user"
    then ok systemd_user
    else err (unknown_capability id)

-- The derived `Ord` goes by the order of the constructors.
abbrev pub rank : Capability → ℕ
rank wayland = 0
rank x11 = 1
rank vulkan = 2
rank opengl = 3
rank dbus = 4
rank dri = 5
rank systemd_user = 6

abbrev pub capability_lt : Capability → Capability → Bool
capability_lt a b = ltb (rank a) (rank b)

-- The two `BTreeSet`s, as lists in the order of the capabilities.
pub record PlatformNeed : Type 0 where
  pub requires : List Capability
  pub optional : List Capability

unfoldable pub is_empty_need : PlatformNeed → Bool
is_empty_need need = is_empty need.requires && is_empty need.optional

unfoldable pub has_capability : Capability → List Capability → Bool
unfolding any
has_capability cap = any (λ c. capability_eq c cap)

-- `BTreeSet::insert` and `BTreeSet::remove`
unfoldable pub set_add : Capability → List Capability → List Capability
set_add cap [] = cap ∷ []
set_add cap (c ∷ caps) =
    let rest = set_add cap caps in
    if capability_eq c cap
    then c ∷ caps
    else if capability_lt cap c
    then cap ∷ c ∷ caps
    else c ∷ rest

unfoldable pub set_drop : Capability → List Capability → List Capability
unfolding filter
set_drop cap = filter (λ c. not (capability_eq c cap))

unfoldable pub merge_requires : PlatformNeed → List String → Result Fault PlatformNeed
unfolding parse_capability set_add set_drop
merge_requires need [] = ok need
merge_requires need (id ∷ ids) = do
  cap ← parse_capability id
  merge_requires
      (record { requires = set_add cap need.requires; optional = set_drop cap need.optional }) ids

unfoldable pub merge_optional : PlatformNeed → List String → Result Fault PlatformNeed
unfolding parse_capability set_add has_capability
merge_optional need [] = ok need
merge_optional need (id ∷ ids) = do
  cap ← parse_capability id
  merge_optional
      (if has_capability cap need.requires
        then need
        else record need { optional = set_add cap need.optional })
      ids

unfoldable pub merge_requirements : PlatformNeed → PlatformRequirements → Result Fault PlatformNeed
unfolding merge_requires merge_optional
merge_requirements need reqs = do
  need' ← merge_requires need reqs.requires
  merge_optional need' reqs.optional

unfoldable pub collect_onto : PlatformNeed → List PackageManifest → Result Fault PlatformNeed
unfolding merge_requirements
collect_onto need [] = ok need
collect_onto need (m ∷ manifests) = do
  need' ← elim m.platform [ none ↦ ok need | some reqs ↦ merge_requirements need reqs ]
  collect_onto need' manifests

unfoldable pub collect_from_manifests : List PackageManifest → Result Fault PlatformNeed
unfolding collect_onto
collect_from_manifests = collect_onto (record { requires = []; optional = [] })

unfoldable pub collect_platform_need : List String → List String → Result Fault PlatformNeed
unfolding merge_requirements
collect_platform_need requires optional =
    merge_requirements (record { requires = []; optional = [] })
      (record { requires = requires; optional = optional })

pub record CheckReport : Type 0 where
  pub satisfied : List ProbeResult
  pub missing_required : List ProbeResult
  pub missing_optional : List ProbeResult

abbrev pub report_ok : CheckReport → Bool
report_ok report = is_empty report.missing_required

-- What a probe adds to the report, by whether its capability is there.
unfoldable pub note_required : Bool → ProbeResult → CheckReport → CheckReport
note_required true result report = record report { satisfied = report.satisfied ++ result ∷ [] }
note_required false result report = record report {
  missing_required = report.missing_required ++ result ∷ [];
}

unfoldable pub note_optional : Bool → ProbeResult → CheckReport → CheckReport
note_optional true result report = record report { satisfied = report.satisfied ++ result ∷ [] }
note_optional false result report = record report {
  missing_optional = report.missing_optional ++ result ∷ [];
}

module _ (probe : Capability → ProbeResult) where
  unfoldable pub check_requires : CheckReport → List Capability → CheckReport
  unfolding note_required
  check_requires report [] = report
  check_requires report (cap ∷ caps) =
      check_requires (note_required (probe cap).present (probe cap) report) caps

  unfoldable pub check_optional : CheckReport → List Capability → CheckReport
  unfolding note_optional
  check_optional report [] = report
  check_optional report (cap ∷ caps) =
      check_optional (note_optional (probe cap).present (probe cap) report) caps

  unfoldable pub check_host_with : PlatformNeed → CheckReport
  unfolding check_requires check_optional
  check_host_with need =
      check_optional
        (check_requires (record { satisfied = []; missing_required = []; missing_optional = [] })
          need.requires)
        need.optional

  unfoldable pub ensure_host : PlatformNeed → Result Fault CheckReport
  unfolding check_host_with
  ensure_host need =
      let report = check_host_with need in
      if report_ok report then ok report else err (requirements_not_met report.missing_required)
