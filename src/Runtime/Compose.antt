-- ===== src/Runtime/Compose.antt =====
-- crates/lar-runtime/src/compose.rs: how the files of packages are put into a runtime.
use lar.Base.{
  String, ◌==◌, ◌≡◌, ◌↔◌, ◌∙◌, refl, sym, ap, inl, inr, Bool-cases, if◌then◌else◌, eq_iff, Result,
  ok, err, ok-eq,
}

pub data ComposeMode : Type 0 where
  symlink hardlink copy : ComposeMode

pub data Fault : Type 0 where
  invalid_compose_mode : String → Fault

unfoldable pub as_str : ComposeMode → String
as_str symlink = "symlink"
as_str hardlink = "hardlink"
as_str copy = "copy"

unfoldable pub from_str : String → Result Fault ComposeMode
from_str s =
    if s == "symlink"
    then ok symlink
    else if s == "hardlink"
    then ok hardlink
    else if s == "copy"
    then ok copy
    else err (invalid_compose_mode s)

from_str-as_str : (mode : ComposeMode) → from_str (as_str mode) ≡ ok mode
unfolding from_str as_str
from_str-as_str symlink = refl
from_str-as_str hardlink = refl
from_str-as_str copy = refl

as_str-from_str : (s : String) (mode : ComposeMode) → from_str s ≡ ok mode → as_str mode ≡ s
unfolding as_str from_str
as_str-from_str s mode h = elim (Bool-cases (s == "symlink")) [
  | inl a ↦
      (let e : symlink ≡ mode = ok-eq (rw a at h) in ap as_str (sym e) ∙ sym ((eq_iff s _).0 a))
  | inr a ↦ elim (Bool-cases (s == "hardlink")) [
    | inl b ↦
        (let e : hardlink ≡ mode = ok-eq (rw (a, b) at h) in
          ap as_str (sym e) ∙ sym ((eq_iff s _).0 b))
    | inr b ↦ elim (Bool-cases (s == "copy")) [
      | inl c ↦
          (let e : copy ≡ mode = ok-eq (rw (a, b, c) at h) in
            ap as_str (sym e) ∙ sym ((eq_iff s _).0 c))
      | inr c ↦ cc (rw (a, b, c) at h)
    ]
  ]
]

-- The texts that are read as a mode are exactly those that the mode is printed as.
pub from_str_iff : (s : String) (mode : ComposeMode) → (from_str s ≡ ok mode) ↔ (as_str mode ≡ s)
from_str_iff s mode = (as_str-from_str s mode, λ e. rw (sym e) (from_str-as_str mode))
