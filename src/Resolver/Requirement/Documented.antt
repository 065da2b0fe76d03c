-- ===== src/Resolver/Requirement/Documented.antt =====
-- What a requirement means for release versions, by the documentation of the crate `semver`.
use lar.Base.{
  String, ◌==◌, ◌≡◌, ℕ, ◌+◌, ◌^◌, ◌<◌, Bool, true, false, not, ◌&&◌, ◌||◌, Option, none, some, List,
  [], ◌∷◌, ltb, leb, nat_eq, if◌then◌else◌,
}
use lar.Semver.{
  Comparator, Op, exact, greater, greater_eq, less, less_eq, tilde, caret, wildcard, other,
  triple_lt,
}

module _ (major : ℕ) where
  -- `=I`, `=I.J`, `=I.J.K`; the release I.J.K is not `=I.J.K-pre`.
  abbrev pub exact_match : Option ℕ → Option ℕ → String → ℕ → ℕ → ℕ → Bool
  exact_match none _ pre x y z = nat_eq x major
  exact_match (some mi) none pre x y z = nat_eq x major && nat_eq y mi
  exact_match (some mi) (some pa) pre x y z =
      nat_eq x major && nat_eq y mi && nat_eq z pa && pre == ""

  -- `>I` and `>I.J` start at the next major or minor version; the release I.J.K is `>I.J.K-pre`.
  abbrev pub above : Option ℕ → Option ℕ → String → ℕ → ℕ → ℕ → Bool
  above none _ pre x y z = ltb major x
  above (some mi) none pre x y z = ltb major x || (nat_eq x major && ltb mi y)
  above (some mi) (some pa) pre x y z =
      triple_lt major mi pa x y z
      || (nat_eq x major && nat_eq y mi && nat_eq z pa && not (pre == ""))

  -- `~I.J.K` fixes the minor version; `~I` and `~I.J` are `=I` and `=I.J`.
  abbrev pub tilde_match : Option ℕ → Option ℕ → ℕ → ℕ → ℕ → Bool
  tilde_match none _ x y z = nat_eq x major
  tilde_match (some mi) none x y z = nat_eq x major && nat_eq y mi
  tilde_match (some mi) (some pa) x y z = nat_eq x major && nat_eq y mi && leb pa z

  -- `^` fixes the parts up to the first that is not zero; `^I` and `^0.0` are `=I` and `=0.0`.
  abbrev pub caret_match : Option ℕ → Option ℕ → ℕ → ℕ → ℕ → Bool
  caret_match none _ x y z = nat_eq x major
  caret_match (some mi) none x y z =
      if ltb 0 major then nat_eq x major && leb mi y else nat_eq x 0 && nat_eq y mi
  caret_match (some mi) (some pa) x y z =
      if ltb 0 major
      then nat_eq x major && not (triple_lt x y z major mi pa)
      else if ltb 0 mi
      then nat_eq x 0 && nat_eq y mi && leb pa z
      else nat_eq x 0 && nat_eq y 0 && nat_eq z pa

-- Whether the release version x.y.z meets a comparator, as `semver` documents each operator. A
-- release is above its pre-releases, so that `~` and `^` need not read `pre`.
abbrev pub satisfies : Op → ℕ → Option ℕ → Option ℕ → String → ℕ → ℕ → ℕ → Bool
satisfies exact major mi pa pre x y z = exact_match major mi pa pre x y z
satisfies wildcard major mi pa pre x y z = exact_match major mi pa pre x y z
satisfies greater major mi pa pre x y z = above major mi pa pre x y z
satisfies greater_eq major mi pa pre x y z =
    above major mi pa pre x y z || exact_match major mi pa pre x y z
satisfies less major mi pa pre x y z =
    not (above major mi pa pre x y z) && not (exact_match major mi pa pre x y z)
satisfies less_eq major mi pa pre x y z = not (above major mi pa pre x y z)
satisfies tilde major mi pa pre x y z = tilde_match major mi pa x y z
satisfies caret major mi pa pre x y z = caret_match major mi pa x y z
satisfies other major mi pa pre x y z = false

-- Whether x.y.z meets every comparator.
abbrev pub satisfies_all : List Comparator → ℕ → ℕ → ℕ → Bool
satisfies_all [] x y z = true
satisfies_all (c ∷ cs) x y z =
    satisfies c.op c.major c.minor c.patch c.pre x y z && satisfies_all cs x y z

-- What a parsed comparator looks like: no patch without a minor, no pre-release without a patch, and
-- no number at the end of `u64`.
abbrev pub IsBounded : Option ℕ → Type 0
IsBounded none = Unit
IsBounded (some n) = n + 1 < 2 ^ 64

abbrev pub IsWritten : Option ℕ → Option ℕ → String → Type 0
IsWritten none (some _) pre = ⊥
IsWritten (some _) (some _) pre = Unit
IsWritten _ none pre = pre ≡ ""

-- The comparators that the resolver reads as documented: `=`, `>` and `<=` without a pre-release,
-- `>` and `<=` with all three parts, and a caret that is not `^0.0`. No operator of today's `semver`
-- is an `other`.
abbrev pub IsFaithful : Op → ℕ → Option ℕ → Option ℕ → String → Type 0
IsFaithful exact major minor patch pre = pre ≡ ""
IsFaithful wildcard major minor patch pre = pre ≡ ""
IsFaithful greater major minor none pre = ⊥
IsFaithful greater major minor (some _) pre = pre ≡ ""
IsFaithful less_eq major minor none pre = ⊥
IsFaithful less_eq major minor (some _) pre = pre ≡ ""
IsFaithful caret major (some mi) none pre = 0 < major + mi
IsFaithful other major minor patch pre = ⊥
IsFaithful op major minor patch pre = Unit

pub record IsRegularAt (op : Op) (major : ℕ) (minor patch : Option ℕ) (pre : String) : Type 0 where
  pub bounded_major : major + 1 < 2 ^ 64
  pub bounded_minor : IsBounded minor
  pub bounded_patch : IsBounded patch
  pub written : IsWritten minor patch pre
  pub faithful : IsFaithful op major minor patch pre

abbrev pub IsRegular : Comparator → Type 0
IsRegular c = IsRegularAt c.op c.major c.minor c.patch c.pre
