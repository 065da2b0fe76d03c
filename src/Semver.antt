-- ===== src/Semver.antt =====
-- The crate `semver` 1.0, which the program calls: a parameter of the model. Only what the program
-- reads is here: the parsers, the order of versions, and the public fields of a requirement.
use lar.Base.{ℕ, String, Bool, true, false, Option, List, ◌≡◌, ltb, nat_eq, ◌&&◌, ◌||◌}

-- `semver::Op`, which is non-exhaustive.
pub data Op : Type 0 where
  exact greater greater_eq less less_eq tilde caret wildcard other : Op

pub record Comparator : Type 0 where
  pub op : Op
  pub major : ℕ
  pub minor : Option ℕ
  pub patch : Option ℕ
  -- the text of the pre-release identifiers, empty without them
  pub pre : String

pub record Semver : Type 1 where
  pub Version : Type 0
  -- `Version::new`, `Version::parse`, `to_string`, and `<` of `Ord`
  pub new : ℕ → ℕ → ℕ → Version
  pub parse : String → Option Version
  pub show : Version → String
  pub lt : Version → Version → Bool
  -- `VersionReq::parse` of a text as its code points, as the field `comparators`
  pub parse_req : List ℕ → Option (List Comparator)

-- The order of release versions: major, minor and patch are compared in turn.
abbrev pub triple_lt : ℕ → ℕ → ℕ → ℕ → ℕ → ℕ → Bool
triple_lt a b c x y z = ltb a x || (nat_eq a x && (ltb b y || (nat_eq b y && ltb c z)))

pub record IsSemver (s : Semver) : Type 0 where
  pub lt-new : (a b c x y z : ℕ) → s.lt (s.new a b c) (s.new x y z) ≡ triple_lt a b c x y z

-- `Ord` of versions is a linear order.
pub record IsOrdered (s : Semver) : Type 0 where
  pub lt-irrefl : (a : s.Version) → s.lt a a ≡ false
  pub lt-trans : (a b c : s.Version) → s.lt a b ≡ true → s.lt b c ≡ true → s.lt a c ≡ true
  pub lt-total : (a b : s.Version) → s.lt a b ≡ false → s.lt b a ≡ false → a ≡ b
