-- ===== src/Package/Manifest/Valid/EntryTable.antt =====
-- The `[entry]` tables that `validate_manifest` accepts.
use mathlib.Core.List.Memᴰ
use lar.Base.{
  String, false, not, Option, none, some, List, [], ◌∷◌, ◌==◌, ◌≡◌, ◌≢◌, ◌↔◌, inl, inr, refl, arith,
  codes, split, is_empty, contains_iff, ok, guard-eq-ok, >>=-eq-ok, All, Memᴰ,
}
use lar.Package.Manifest.{Entry}
use lar.Package.Manifest.Path.{slash, is_absolute, validate_relative_payload_path}
use lar.Package.Manifest.Path.Laws.{validate_relative_payload_path_iff}
use lar.Package.Manifest.Validate.{validate_binaries, validate_default, validate_entry}

-- A path below `files/`.
abbrev pub IsPayloadPath : String → Type 0
IsPayloadPath path =
    ((path == "") ≡ false)
    × (is_absolute (codes path) ≡ false)
    × All (λ part. part ≢ b'.' ∷ b'.' ∷ []) (split slash (codes path))

-- Binaries are given, and the default is one of them.
abbrev pub IsEntry : Entry → Type 0
IsEntry entry =
    (entry.binaries ≢ [])
    × All IsPayloadPath entry.binaries
    × ((default : String) → entry.default ≡ some default → Memᴰ default entry.binaries)

binaries_iff : (bs : List String) → (validate_binaries bs ≡ ok tt) ↔ All IsPayloadPath bs
unfolding validate_binaries
binaries_iff [] = (λ _. tt, λ _. refl)
binaries_iff (b ∷ bs) =
    let here = validate_relative_payload_path_iff b "entry.binaries" in
    let rest = binaries_iff bs in
    (
      λ h.
          let (_, a, k) = >>=-eq-ok (validate_relative_payload_path b "entry.binaries") _ h in
          (here.0 a, rest.0 k),
      λ (a, k). rw (here.1 a) (rest.1 k),
    )

listed_path : (bs : List String) (b : String) → All IsPayloadPath bs → Memᴰ b bs → IsPayloadPath b
listed_path [] b h m = absurd (Memᴰ.not-nil m)
listed_path (c ∷ bs) b (h, hs) m = elim (Memᴰ.cases_cons m) [
  | inl e ↦ rw e h
  | inr n ↦ listed_path bs b hs n
]

default_iff :
    (bs : List String) (d : Option String)
    → All IsPayloadPath bs
    → (validate_default bs d ≡ ok tt) ↔ ((default : String) → d ≡ some default → Memᴰ default bs)
unfolding validate_default
default_iff bs none p = (λ _ d e. cc, λ _. refl)
default_iff bs (some default) p = (
  λ h d e.
      let (_, a, k) = >>=-eq-ok (validate_relative_payload_path default "entry.default") _ h in
      let same : default ≡ d = cc in (contains_iff bs d).0 (ground (arith)),
  λ h.
      let m = h default refl in
      rw (
        (validate_relative_payload_path_iff default "entry.default").1 (listed_path bs default p m),
        (contains_iff bs default).1 m,
      ),
)

pub entry_iff : (entry : Entry) → (validate_entry (some entry) ≡ ok tt) ↔ IsEntry entry
unfolding validate_entry
entry_iff entry =
    let paths = binaries_iff entry.binaries in
    (
      λ h.
          let (given, h1) = guard-eq-ok (not (is_empty entry.binaries)) _ _ h in
          let (_, a, h2) = >>=-eq-ok (validate_binaries entry.binaries) _ h1 in
          (ground arith, paths.0 a, (default_iff entry.binaries entry.default (paths.0 a)).0 h2),
      λ (a, b, c).
          let given : is_empty entry.binaries ≡ false = ground arith in
          rw (given, paths.1 b) ((default_iff entry.binaries entry.default b).1 c),
    )
