-- ===== src/Store/Change/Added.antt =====
-- What `add` does to the store, where it succeeds and where it fails.
use text.Mathlib.TextPositions.{eq_refl}
use lar.Base.{
  String, false, ◌&&◌, none, some, List, ◌∷◌, ◌==◌, ◌≡◌, refl, ap, ◌∙◌, Result, ok, err, map_err,
  ok_or, >>=-eq-ok, ok_or-eq-ok, if◌then◌else◌, find, Result-cases, Option-cases, inl, inr, subst,
}
use lar.Package.Error
use lar.Store.World.{
  Content, PackageDir, World, StoredPackage, Fault, package_fault, missing_hash, find_dir,
}
use lar.Store.Read.{load_content, read_stored_package, get}
use lar.Store.Change.{place, add}

-- The place of a directory does not count for what is read from it.
read_at :
    (content : Content) (i v id version : String) (p : StoredPackage)
    → read_stored_package (record { id = i; version = v; content = content }) ≡ ok p
    → read_stored_package (record { id = id; version = version; content = content })
      ≡ ok (record p { path = (id, version) })
unfolding read_stored_package
read_at content i v id version p h =
    let (m, a, h1) = >>=-eq-ok (map_err package_fault (load_content content)) _ h in
    let (hash, b, h2) = >>=-eq-ok (ok_or m.meta.content_hash (missing_hash i v)) _ h1 in
    let c = ok_or-eq-ok m.meta.content_hash (missing_hash i v) b in
    let e = ok-injective h2 in
    rw (a, c) (ap (λ (q : StoredPackage). ok (record q { path = (id, version) })) e)
  where
    ok-injective :
        {p q : StoredPackage} → ◌≡◌ {A = Result Fault StoredPackage} (ok p) (ok q) → p ≡ q
    ok-injective h = cc

find_dir-cons :
    (d : PackageDir) (dirs : List PackageDir) (i v : String)
    → find_dir (d ∷ dirs) i v ≡ (if d.id == i && d.version == v then some d else find_dir dirs i v)
unfolding find_dir find
find_dir-cons d dirs i v = refl

-- What a successful `add` promises of the directories before and after.
pub record IsAdded (dirs dirs' : List PackageDir) (p : StoredPackage) : Type 0 where
  pub was_free : find_dir dirs p.id p.version ≡ none
  pub stored : get dirs' p.id p.version ≡ ok (some p)
  pub path : p.path ≡ (p.id, p.version)
  pub others :
      (i v : String)
      → (p.id == i && p.version == v) ≡ false
      → find_dir dirs' i v ≡ find_dir dirs i v

abbrev Outcome : List PackageDir → Result Fault StoredPackage × List PackageDir → Type 0
Outcome dirs (ok p, dirs') = IsAdded dirs dirs' p
Outcome dirs (err e, dirs') = dirs' ≡ dirs

placed-IsAdded :
    (dirs : List PackageDir) (content : Content) (p : StoredPackage)
    → find_dir dirs p.id p.version ≡ none
    → p.path ≡ (p.id, p.version)
    → read_stored_package (record { id = p.id; version = p.version; content = content }) ≡ ok p
    → IsAdded dirs (record { id = p.id; version = p.version; content = content } ∷ dirs) p
unfolding get
placed-IsAdded dirs content p free path readable =
    let d : PackageDir = record { id = p.id; version = p.version; content = content } in
    record {
      was_free = free;
      stored =
          rw (get, find_dir-cons d dirs p.id p.version, eq_refl p.id, eq_refl p.version, readable);
      path = path;
      others = λ i v other. find_dir-cons d dirs i v ∙ rw other;
    }

place-Outcome : (dirs : List PackageDir) (content : Content) → Outcome dirs (place dirs content)
unfolding place
place-Outcome dirs content =
    let tmp : PackageDir = record { id = ""; version = ""; content = content } in
    elim (Result-cases (read_stored_package tmp)) [
      | inr (e, h) ↦ rw (place, h) refl
      | inl (staged, h) ↦ elim (Option-cases (find_dir dirs staged.id staged.version)) [
        | inr (d, there) ↦ rw (place, h, there) refl
        | inl free ↦
            let readable = read_at content "" "" staged.id staged.version staged h in
            rw (place, h, free, readable)
              (placed-IsAdded dirs content (record staged { path = (staged.id, staged.version) })
                free refl readable)
      ]
    ]

add-Outcome :
    (w : World) (extracted : Result Error.Error Content)
    → Outcome w.dirs ((add w extracted).0, (add w extracted).1.dirs)
unfolding add
add-Outcome w (err e) = refl
add-Outcome w (ok content) = place-Outcome w.dirs content

-- An archive that is added had no directory at its id and version; afterwards `get` returns it from
-- there, and every other package is where it was.
pub add-IsAdded :
    (w : World) (extracted : Result Error.Error Content) (p : StoredPackage)
    → (add w extracted).0 ≡ ok p
    → IsAdded w.dirs (add w extracted).1.dirs p
add-IsAdded w extracted p h =
    subst (λ r. Outcome w.dirs (r, (add w extracted).1.dirs)) h (add-Outcome w extracted)

-- An `add` that fails, for a bad archive or a package that is there already, leaves the packages.
pub add_fails :
    (w : World) (extracted : Result Error.Error Content) (e : Fault)
    → (add w extracted).0 ≡ err e
    → (add w extracted).1.dirs ≡ w.dirs
add_fails w extracted e h =
    subst (λ r. Outcome w.dirs (r, (add w extracted).1.dirs)) h (add-Outcome w extracted)
