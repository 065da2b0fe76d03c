-- ===== src/Manager/Tests.antt =====
-- The theorems on crates/lar-manager at concrete inputs.
pub mod Sample
use lar.Base.{
  all, ends_with, ℕ, String, Bool, false, not, Option, none, some, List, [], ◌∷◌, ◌≡◌, ◌==◌, refl,
  ok, err, ltb, length, codes, arith, Memᴰ, if◌then◌else◌, ◌↔◌, subst, sym, Bool-cases, inl, inr,
  eq_iff,
}
use lar.Base.Map.{same_map}
use lar.Base.Split.{Without}
use lar.Manager.Action.{and_then}
use lar.Semver.{Semver, IsOrdered}
use lar.Runtime.Compose.{copy}
use lar.Store.World.{is_hidden}
use lar.Manager.Healthy.{IsHealthy, IsHealthyDir}
use lar.Manager.Healthy.Listed.{list_iff}
use lar.Manager.Healthy.Steps.{here, next, rolls_back, uninstalls, Reach-IsHealthy}
use lar.Manager.Replace.{list}
use lar.Manager.Record.{validate}
use lar.Manager.Home.{Home, holds}
use lar.Manager.Installs.{find_app, load, load_previous}
use lar.Manager.Ops.{install, uninstall, rollback, newest, InstallOutcome}
use lar.Manager.Ops.Installed.{IsInstalled, install-IsInstalled}
use lar.Manager.Ops.Newest.{IsNewest, newest-IsNewest}
use lar.Manager.Ops.Rollback.{rollback-rollback}
use lar.Package.Id.{validate_package_id}
use lar.Manager.Source.{archive, store, parse}
use lar.Manager.Source.Printed.{parse-versioned}
use lar.Manager.Tests.Sample.{
  parts, fetched, home, first, second, one_key, no_digest, no_network, installed,
}

rollback-rollback_example :
    find_app (rollback parts "2" "org.app" (rollback parts "1" "org.app" home).1).1.apps "org.app"
    ≡ find_app home.apps "org.app"
unfolding load load_previous find_app
rollback-rollback_example =
    rollback-rollback parts "1" "2" "org.app" home second first refl refl refl "org.app" refl

version_Without : Without b'@' (codes "1.0.0")
version_Without = (
  λ e. omega (arith, e),
  (
    λ e. omega (arith, e),
    (λ e. omega (arith, e), (λ e. omega (arith, e), (λ e. omega (arith, e), tt))),
  ),
)

parse-versioned_example : parse "org.app@1.0.0" ≡ ok (store "org.app" (some "1.0.0"))
unfolding parse
parse-versioned_example = parse-versioned "org.app" "1.0.0" refl refl refl version_Without refl

-- Versions are numbers, written as so many digits.
abbrev unary : Semver
unary = record {
  Version = ℕ;
  new = λ a b c. a;
  parse = λ s. if s == "" then none else some (length (codes s));
  show = λ v. "1";
  lt = ltb;
  parse_req = λ s. none;
}

unary-IsOrdered : IsOrdered unary
unary-IsOrdered = record {
  lt-irrefl = λ a. ground arith;
  lt-trans = λ a b c h k. ground arith;
  lt-total = λ a b h k. ground arith;
}

newest-IsNewest_example :
    IsNewest unary unary-IsOrdered 1 ("11" ∷ "" ∷ "1111" ∷ "111" ∷ []) (some (4, "1111"))
unfolding newest
newest-IsNewest_example = newest-IsNewest unary unary-IsOrdered 1 ("11" ∷ "" ∷ "1111" ∷ "111" ∷ [])

install-IsInstalled_example :
    IsInstalled fetched
      (install parts one_key no_digest no_network "3"
        (store "org.app" (some "1.0.0"))
        copy
        false
        fetched).1
      false
      installed
unfolding install and_then same_map
install-IsInstalled_example =
    install-IsInstalled parts one_key no_digest no_network "3" (store "org.app" (some "1.0.0")) copy
      false fetched installed refl refl

home-IsHealthy : IsHealthy home
unfolding find_app validate
home-IsHealthy name shown = elim (Bool-cases ("org.app" == name)) [
  | inr e ↦ subst (IsHealthyDir name) (sym (find_app-other name e)) tt
  | inl e ↦
      subst (λ n. IsHealthyDir n (find_app home.apps n)) ((eq_iff "org.app" name).0 e)
        (second, some first, refl, refl, (refl, refl), refl)
]
  where
    find_app-other : (n : String) → ("org.app" == n) ≡ false → find_app home.apps n ≡ none
    find_app-other n e = rw e refl

-- Back to the first record, and then away.
Reach-IsHealthy_example :
    IsHealthy (uninstall parts "org.app" (rollback parts "1" "org.app" home).1).1
Reach-IsHealthy_example = Reach-IsHealthy parts one_key no_digest no_network unary home-IsHealthy (
    next (next here (rolls_back "1" "org.app" home))
      (uninstalls "org.app" (rollback parts "1" "org.app" home).1))

list_iff_example :
    Memᴰ second (list home).0
    ↔ ((is_hidden second.id ≡ false) × (load home.apps second.id ≡ ok second))
list_iff_example = list_iff home second

-- An id that ends in `.lar` is read as the path of an archive.
lar_id_is_archive :
    (validate_package_id "org.example.lar" ≡ ok tt)
    × (parse "org.example.lar" ≡ ok (archive "org.example.lar"))
unfolding parse validate_package_id all ends_with
lar_id_is_archive = (refl, refl)
