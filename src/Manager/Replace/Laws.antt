-- ===== src/Manager/Replace/Laws.antt =====
-- What a change of `installs/` leaves of the other directories.
use text.Mathlib.TextEquality.{starts_with_iff}
use text.Mathlib.TextLemmas.{append_assoc}
use lar.Base.{
  String, ◌<>◌, true, false, not, none, some, List, [], ◌∷◌, ◌==◌, ◌≡◌, refl, sym, ap, ◌∙◌, arith,
  find, filter, starts_with, eq_iff, Bool-cases, inl, inr, if◌then◌else◌,
}
use lar.Store.World.{is_hidden}
use lar.Manager.Home.{AppDir}
use lar.Manager.Installs.{find_app, without_app, put_app}
use lar.Manager.Replace.{is_tmp_install}

pub find_app-without :
    (apps : List AppDir) (gone name : String)
    → find_app (without_app apps gone) name ≡ (if gone == name then none else find_app apps name)
unfolding find_app without_app find filter
find_app-without [] gone name = ground arith
find_app-without (a ∷ apps) gone name = ground (
  arith,
  find_app-without apps gone name,
  eq_iff a.name gone,
  eq_iff a.name name,
  eq_iff gone name,
)

pub find_app-put :
    (a : AppDir) (apps : List AppDir) (name : String)
    → find_app (put_app a apps) name ≡ (if a.name == name then some a else find_app apps name)
unfolding find_app put_app find
find_app-put a apps name = elim (Bool-cases (a.name == name)) [
  | inl e ↦ rw e
  | inr e ↦ rw e (find_app-without apps a.name name ∙ rw e)
]

pub find_app-cleanup :
    (apps : List AppDir) (name : String)
    → is_tmp_install name ≡ false
    → find_app (filter (λ a. not (is_tmp_install a.name)) apps) name ≡ find_app apps name
unfolding find_app find filter
find_app-cleanup [] name h = refl
find_app-cleanup (a ∷ apps) name h = elim (Bool-cases (is_tmp_install a.name)) [
  | inl t ↦ rw t (find_app-cleanup apps name h ∙ rw (differs t))
  | inr t ↦ ground (arith, find_app-cleanup apps name h)
]
  where
    differs : is_tmp_install a.name ≡ true → (a.name == name) ≡ false
    differs t = elim (Bool-cases (a.name == name)) [
      | inl e ↦ cc (t, h, ap is_tmp_install ((eq_iff a.name name).0 e))
      | inr e ↦ e
    ]

starts_hidden : (name rest : String) → starts_with name ("." <> rest) ≡ true → is_hidden name ≡ true
starts_hidden name rest h =
    let (u, e) = (starts_with_iff name ("." <> rest)).0 h in
    (starts_with_iff name ".").1 (rest <> u, sym (append_assoc "." rest u) ∙ e)

pub is_tmp_install-IsShown : (name : String) → is_hidden name ≡ false → is_tmp_install name ≡ false
is_tmp_install-IsShown name h = elim (Bool-cases (starts_with name ".tmp-install-")) [
  | inl e ↦ cc (h, starts_hidden name "tmp-install-" e)
  | inr e ↦ elim (Bool-cases (starts_with name ".tmp-build-")) [
    | inl f ↦ cc (h, starts_hidden name "tmp-build-" f)
    | inr f ↦ rw (e, f)
  ]
]

-- A shown name is not that of a temporary directory.
pub tmp-IsShown :
    (nanos name : String) → is_hidden name ≡ false → ((".tmp-install-" <> nanos) == name) ≡ false
tmp-IsShown nanos name h = elim (Bool-cases ((".tmp-install-" <> nanos) == name)) [
  | inr e ↦ e
  | inl e ↦ cc (
    h,
    starts_hidden name "tmp-install-"
        ((starts_with_iff name ".tmp-install-").1 (nanos, (eq_iff _ name).0 e)),
  )
]

pub build-IsShown :
    (nanos name : String) → is_hidden name ≡ false → ((".tmp-build-" <> nanos) == name) ≡ false
build-IsShown nanos name h = elim (Bool-cases ((".tmp-build-" <> nanos) == name)) [
  | inr e ↦ e
  | inl e ↦ cc (
    h,
    starts_hidden name "tmp-build-"
        ((starts_with_iff name ".tmp-build-").1 (nanos, (eq_iff _ name).0 e)),
  )
]
