-- ===== src/Store/Change/Ends.antt =====
-- A forced removal does not run out of its fuel: each nested call visits a stored package more.
use native.Mathlib.Nat.{le_trans}
use lar.Base.{
  ℕ, zero, suc, ◌≤◌, ◌<◌, String, Bool, false, not, Option, none, some, List, [], ◌∷◌, ◌≡◌, ◌≢◌,
  refl, ap, ◌∙◌, arith, Result, ok, err, filter, length, length-filter, length-filter-lt, any,
  eq_iff, Bool-cases, inl, inr,
}
use lar.Store.World.{PackageDir, InstallDir, StoredPackage, Fault, find_dir, without_dir}
use lar.Store.World.Laws.{find_dir-some}
use lar.Store.Read.{get, referrers}
use lar.Store.Change.{
  refuse_if_install_pinned, remove_one, Cascade, if_present, Step, going, failed, out_of_fuel,
  and_then, with_ok, visits, each, drop_package, cascade_remove, start,
}

abbrev unvisited : List (String × String) → PackageDir → Bool
unvisited visiting d = not (visits visiting d.id d.version)

-- How many stored packages are not visited.
abbrev left : Cascade → ℕ
left s = length (filter (unvisited s.visiting) s.dirs)

filter-without_dir :
    (p : PackageDir → Bool) (dirs : List PackageDir) (id version : String)
    → length (filter p (without_dir dirs id version)) ≤ length (filter p dirs)
unfolding without_dir filter
filter-without_dir p [] id version = omega arith
filter-without_dir p (d ∷ ds) id version = ground (arith, filter-without_dir p ds id version)

get-some :
    (dirs : List PackageDir) (id version : String) (p : StoredPackage)
    → get dirs id version ≡ ok (some p)
    → (d : PackageDir) × (find_dir dirs id version ≡ some d)
unfolding get
get-some dirs id version p h = ground arith

enter_lt :
    (s : Cascade) (id version : String) (p : StoredPackage)
    → get s.dirs id version ≡ ok (some p)
    → visits s.visiting id version ≡ false
    → left (record s { visiting = (id, version) ∷ s.visiting }) < left s
unfolding visits any
enter_lt s id version p h new =
    let (d, e) = get-some s.dirs id version p h in
    let (m, a, b) = find_dir-some s.dirs id version e in
    length-filter-lt (unvisited s.visiting) (unvisited ((id, version) ∷ s.visiting))
      (λ x k. ground arith) s.dirs d m (rw (a, b, new))
      (ground (arith, eq_iff id d.id, eq_iff version d.version))

-- The end of an action, with no more unvisited packages than before, and not for want of fuel.
record Fine (n : ℕ) (r : Step × Cascade) : Type 0 where
  answers : r.0 ≢ out_of_fuel
  bounded : left r.1 ≤ n

weaken : {k n : ℕ} {r : Step × Cascade} → k ≤ n → Fine k r → Fine n r
weaken le f = record { answers = f.answers; bounded = le_trans f.bounded le }

module _ {A : Type 0} where
  with_ok-Fine :
      (n : ℕ) (r : Result Fault A) (s : Cascade) (k : A → Step × Cascade)
      → left s ≤ n
      → ((a : A) → r ≡ ok a → Fine n (k a))
      → Fine n (with_ok r s k)
  with_ok-Fine n (ok a) s k h g = g a refl
  with_ok-Fine n (err e) s k h g = record { answers = λ q. cc; bounded = h }

if_present-Fine :
    (n : ℕ) (found : Option StoredPackage) (s : Cascade) (k : StoredPackage → Step × Cascade)
    → left s ≤ n
    → ((p : StoredPackage) → found ≡ some p → Fine n (k p))
    → Fine n (if_present found s k)
if_present-Fine n none s k h g = record { answers = λ q. cc; bounded = h }
if_present-Fine n (some p) s k h g = g p refl

and_then-Fine :
    (n : ℕ) (r : Step × Cascade) (k : Cascade → Step × Cascade)
    → Fine n r
    → ((s : Cascade) → left s ≤ n → Fine n (k s))
    → Fine n (and_then r k)
and_then-Fine n (going, s) k h g = g s h.bounded
and_then-Fine n (failed e, s) k h g = h
and_then-Fine n (out_of_fuel, s) k h g = h

each-Fine :
    (n : ℕ) (f : StoredPackage → Cascade → Step × Cascade)
    → ((p : StoredPackage) (s : Cascade) → left s ≤ n → Fine n (f p s))
    → (ps : List StoredPackage) (s : Cascade) → left s ≤ n
    → Fine n (each f ps s)
unfolding each
each-Fine n f h [] s le = record { answers = λ q. cc; bounded = le }
each-Fine n f h (p ∷ ps) s le =
    and_then-Fine n (f p s) (each f ps) (h p s le) (λ t. each-Fine n f h ps t)

remove_one-le :
    (p : PackageDir → Bool) (dirs : List PackageDir) (id version : String)
    → length (filter p (remove_one dirs id version).1) ≤ length (filter p dirs)
unfolding remove_one
remove_one-le p dirs id version = ground (arith, filter-without_dir p dirs id version)

drop_package-Fine :
    (n : ℕ) (id version : String) (s : Cascade) → left s ≤ n → Fine n (drop_package id version s)
unfolding drop_package
drop_package-Fine n id version s le = with_ok-Fine n (get s.dirs id version) s _ le λ found _.
    if_present-Fine n found s _ le λ _ _.
      with_ok-Fine n (remove_one s.dirs id version).0 s _ le λ stored _. record {
        answers = λ q. cc;
        bounded = le_trans (remove_one-le (unvisited s.visiting) s.dirs id version) le;
      }

module _ (installs : List InstallDir) where
  cascade_remove-Fine :
      (fuel : ℕ) (id version : String) (s : Cascade)
      → left s < fuel
      → (n : ℕ) → left s ≤ n
      → Fine n (cascade_remove installs fuel id version s)
  unfolding cascade_remove
  cascade_remove-Fine zero id version s h n le = elim h [ ]
  cascade_remove-Fine (suc fuel) id version s h n le =
      elim (Bool-cases (visits s.visiting id version)) [
        | inl seen ↦ rw seen record { answers = λ q. cc; bounded = le }
        | inr new ↦
            let entered : Cascade = record s { visiting = (id, version) ∷ s.visiting } in
            rw new (
              with_ok-Fine n (get s.dirs id version) s _ le λ found e.
                if_present-Fine n found s _ le λ p here.
                  let less : left entered < left s = enter_lt s id version p (e ∙ ap ok here) new in
                  weaken {k = left entered} (omega arith) (
                    with_ok-Fine (left entered) (refuse_if_install_pinned installs id version)
                      entered _ (omega arith)
                      λ _ _.
                        with_ok-Fine (left entered) (referrers s.dirs id version) entered _
                          (omega arith)
                          λ rs _.
                            and_then-Fine (left entered) _ _
                              (each-Fine (left entered) _
                                (λ q t below.
                                  cascade_remove-Fine fuel q.id q.version t (omega arith)
                                    (left entered) below)
                                rs entered (omega arith))
                              (λ t below. drop_package-Fine (left entered) id version t below)))
      ]

  -- The cascade ends with an answer: one call more deep than there are packages is enough.
  pub cascade_remove-ne-out_of_fuel :
      (dirs : List PackageDir) (id version : String)
      → (cascade_remove installs (suc (length dirs)) id version (start dirs)).0 ≢ out_of_fuel
  cascade_remove-ne-out_of_fuel dirs id version =
      (cascade_remove-Fine (suc (length dirs)) id version (start dirs)
        (omega (arith, length-filter (unvisited []) dirs)) (length dirs)
        (length-filter (unvisited []) dirs)).answers
