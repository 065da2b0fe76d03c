-- ===== src/Store/Change/Removed.antt =====
-- What `remove` without force does: nothing that is listed depends on the removed package.
use mathlib.Core.List.Memᴰ
use text.Mathlib.TextPositions.{eq_refl}
use lar.Base.{
  String, Bool, true, false, ◌&&◌, none, some, List, [], ◌∷◌, ◌==◌, ◌≡◌, ◌⊎◌, refl, sym, ap, ap₂,
  ◌∙◌, arith, Result, ok, err, map_err, ok_or, >>=-eq-ok, if◌then◌else◌, Bool-cases, Result-cases,
  Option-cases, inl, inr, subst, Memᴰ, Memᴰ-cons,
}
use lar.Package.Manifest.{PackageManifest}
use lar.Store.World.{
  PackageDir, World, StoredPackage, Fault, package_fault, missing_hash, find_dir, without_dir,
}
use lar.Store.World.Laws.{find_dir-without_dir, find_dir-some}
use lar.Store.Read.{
  load_content, read_stored_package, is_listed, list_dirs, insert_package, sort_packages, list,
  load_at, depends_on, dependents, referrers,
}
use lar.Store.Pins.{cleanup_tmp_installs}
use lar.Store.Change.{
  cleanup_tmp_adds, refuse_if_install_pinned, remove_one, remove_unused, remove_dirs, remove,
}

-- What is read from a directory names it by its path.
read_path :
    (d : PackageDir) (p : StoredPackage) → read_stored_package d ≡ ok p → p.path ≡ (d.id, d.version)
unfolding read_stored_package
read_path d p h =
    let (m, a, h1) = >>=-eq-ok (map_err package_fault (load_content d.content)) _ h in
    let (hash, b, h2) = >>=-eq-ok (ok_or m.meta.content_hash (missing_hash d.id d.version)) _ h1 in
    ground arith

-- Every listed directory is read into the list.
list_dirs-mem :
    (dirs : List PackageDir) (ps : List StoredPackage) (d : PackageDir)
    → list_dirs dirs ≡ ok ps
    → Memᴰ d dirs
    → is_listed d ≡ true
    → (p : StoredPackage) × (read_stored_package d ≡ ok p) × Memᴰ p ps
unfolding list_dirs
list_dirs-mem [] ps d h m listed = absurd (Memᴰ.not-nil m)
list_dirs-mem (c ∷ ds) ps d h m listed = elim (Bool-cases (is_listed c)) [
  | inr off ↦ elim (Memᴰ.cases_cons m) [
    | inl same ↦ cc (listed, off, ap is_listed same)
    | inr later ↦ list_dirs-mem ds ps d (rw (list_dirs, off) at h) later listed
  ]
  | inl on ↦
      let (p, a, h1) = >>=-eq-ok (read_stored_package c) _ (rw (list_dirs, on) at h) in
      let (qs, b, h2) = >>=-eq-ok (list_dirs ds) _ h1 in
      let shape : ps ≡ p ∷ qs = ground arith in
      elim (Memᴰ.cases_cons m) [
        | inl same ↦ (p, ap read_stored_package same ∙ a, rw shape (Memᴰ.head refl))
        | inr later ↦
            let (q, e, n) = list_dirs-mem ds qs d b later listed in (q, e, rw shape (Memᴰ.tail n))
      ]
]

insert_package-mem :
    (p q : StoredPackage) (ps : List StoredPackage)
    → (q ≡ p) ⊎ Memᴰ q ps
    → Memᴰ q (insert_package p ps)
unfolding insert_package
insert_package-mem p q [] m = ground (arith, Memᴰ-cons q p [])
insert_package-mem p q (r ∷ ps) m = ground (
  arith,
  insert_package-mem p q ps,
  Memᴰ-cons q r ps,
  Memᴰ-cons q r (insert_package p ps),
  Memᴰ-cons q p (r ∷ ps),
)

sort_packages-mem :
    (q : StoredPackage) (ps : List StoredPackage) → Memᴰ q ps → Memᴰ q (sort_packages ps)
unfolding sort_packages
sort_packages-mem q [] m = m
sort_packages-mem q (p ∷ ps) m =
    insert_package-mem p q (sort_packages ps) (elim (Memᴰ.cases_cons m) [
      | inl same ↦ inl same
      | inr later ↦ inr (sort_packages-mem q ps later)
    ])

-- If there are no dependents, no package of the list depends on the one in question.
dependents-nil :
    (dirs : List PackageDir) (id version : String) (ps : List StoredPackage)
    → dependents dirs id version ps ≡ ok []
    → (q : StoredPackage) (m : PackageManifest) → Memᴰ q ps
    → (q.id == id && q.version == version) ≡ false
    → load_at dirs q.path ≡ ok m
    → depends_on m id version ≡ false
unfolding dependents
dependents-nil dirs id version [] h q m mem other e = absurd (Memᴰ.not-nil mem)
dependents-nil dirs id version (p ∷ ps) h q m mem other e =
    elim (Bool-cases (p.id == id && p.version == version)) [
      | inl skipped ↦ elim (Memᴰ.cases_cons mem) [
        | inl same ↦
            cc (skipped, other, ap (λ (z : StoredPackage). z.id == id && z.version == version) same)
        | inr later ↦
            dependents-nil dirs id version ps (rw (dependents, skipped) at h) q m later other e
      ]
      | inr kept ↦
          let (m', a, h1) =
            >>=-eq-ok (map_err package_fault (load_at dirs p.path)) _
              (rw (dependents, kept) at h) in
          let (found, b, h2) = >>=-eq-ok (dependents dirs id version ps) _ h1 in
          let (none_here, none_later) = split found (depends_on m' id version) p h2 in
          elim (Memᴰ.cases_cons mem) [
            | inl same ↦
                let loaded : map_err package_fault (load_at dirs p.path) ≡ ok m =
                  ap (λ (z : StoredPackage). map_err package_fault (load_at dirs z.path)) (sym same)
                  ∙ ap (map_err package_fault) e in
                let eq : m ≡ m' = cc (loaded, a) in rw eq none_here
            | inr later ↦ dependents-nil dirs id version ps (b ∙ ap ok none_later) q m later other e
          ]
    ]
  where
    split :
        (found : List StoredPackage) (b : Bool) (p : StoredPackage)
        → ◌≡◌ {A = Result Fault (List StoredPackage)} (ok (if b then p ∷ found else found)) (ok [])
        → (b ≡ false) × (found ≡ [])
    split found true p h = cc
    split found false p h = (refl, cc)

-- A package without referrers is no exact dependency of a listed package.
referrers-nil :
    (dirs : List PackageDir) (id version i v : String) (d : PackageDir) (m : PackageManifest)
    → referrers dirs id version ≡ ok []
    → find_dir dirs i v ≡ some d
    → is_listed d ≡ true
    → (q : StoredPackage) → read_stored_package d ≡ ok q
    → load_content d.content ≡ ok m
    → (q.id == id && q.version == version) ≡ false
    → depends_on m id version ≡ false
unfolding referrers list load_at
referrers-nil dirs id version i v d m h there listed q readable loaded other =
    let (sorted, a, h1) = >>=-eq-ok (list dirs) _ h in
    let (ps, b, h2) = >>=-eq-ok (list_dirs dirs) _ a in
    let (mem, same_id, same_version) = find_dir-some dirs i v there in
    let (q', e, n) = list_dirs-mem dirs ps d b mem listed in
    let same : q' ≡ q = cc (e, readable) in
    let shape : sort_packages ps ≡ sorted = cc h2 in
    let place : q.path ≡ (i, v) =
      read_path d q readable ∙ ap₂ (λ (x y : String). (x, y)) same_id same_version in
    dependents-nil dirs id version sorted h1 q m
      (subst (Memᴰ q) shape (sort_packages-mem q ps (subst (λ z. Memᴰ z ps) same n))) other
      (ap (load_at dirs) place ∙ rw (load_at, there) loaded)

-- What a removal without force promises of the directories before and after.
pub record IsRemoved (dirs dirs' : List PackageDir) (id version : String) : Type 0 where
  pub was_there : (d : PackageDir) × (find_dir dirs id version ≡ some d)
  pub gone : find_dir dirs' id version ≡ none
  pub others :
      (i v : String) → (id == i && version == v) ≡ false → find_dir dirs' i v ≡ find_dir dirs i v
  pub unneeded :
      (i v : String) (d : PackageDir) (m : PackageManifest) (q : StoredPackage)
      → find_dir dirs' i v ≡ some d
      → is_listed d ≡ true
      → read_stored_package d ≡ ok q
      → load_content d.content ≡ ok m
      → (q.id == id && q.version == version) ≡ false
      → depends_on m id version ≡ false

still_there :
    (dirs : List PackageDir) (id version i v : String) (d : PackageDir)
    → find_dir (without_dir dirs id version) i v ≡ some d
    → find_dir dirs i v ≡ some d
still_there dirs id version i v d h = ground (arith, find_dir-without_dir dirs id version i v)

without_dir-IsRemoved :
    (dirs : List PackageDir) (id version : String) (d : PackageDir)
    → find_dir dirs id version ≡ some d
    → referrers dirs id version ≡ ok []
    → IsRemoved dirs (without_dir dirs id version) id version
without_dir-IsRemoved dirs id version d there free = record {
  was_there = (d, there);
  gone = find_dir-without_dir dirs id version id version ∙ rw (eq_refl id, eq_refl version);
  others = λ i v other. find_dir-without_dir dirs id version i v ∙ rw other;
  unneeded = λ i v e m q found listed readable loaded other.
      referrers-nil dirs id version i v e m free (still_there dirs id version i v e found) listed q
        readable loaded other;
}

abbrev Outcome :
    List PackageDir → String → String → Result Fault (List StoredPackage) × List PackageDir → Type 0
Outcome dirs id version (ok ps, dirs') = IsRemoved dirs dirs' id version
Outcome dirs id version (err e, dirs') = dirs' ≡ dirs

remove_unused-Outcome :
    (dirs : List PackageDir) (id version : String)
    → Outcome dirs id version (remove_unused dirs id version)
unfolding remove_unused remove_one
remove_unused-Outcome dirs id version = elim (Option-cases (find_dir dirs id version)) [
  | inl absent ↦ rw (remove_unused, absent) refl
  | inr (d, there) ↦ elim (Result-cases (referrers dirs id version)) [
    | inr (e, failed) ↦ rw (remove_unused, there, failed) refl
    | inl (p ∷ ps, used) ↦ rw (remove_unused, there, used) refl
    | inl ([], free) ↦ elim (Result-cases (read_stored_package d)) [
      | inr (e, unreadable) ↦ rw (remove_unused, there, free, remove_one, there, unreadable) refl
      | inl (q, readable) ↦
          rw (remove_unused, there, free, remove_one, there, readable)
            (without_dir-IsRemoved dirs id version d there free)
    ]
  ]
]

remove_dirs-Outcome :
    (w : World) (id version : String)
    → Outcome w.dirs id version ((remove w id version false).0, (remove w id version false).1.dirs)
unfolding remove remove_dirs cleanup_tmp_adds cleanup_tmp_installs
remove_dirs-Outcome w id version =
    elim (Result-cases (refuse_if_install_pinned (cleanup_tmp_installs w).installs id version)) [
      | inr (e, refused) ↦ rw (remove_dirs, refused) refl
      | inl (u, passed) ↦ rw (remove_dirs, passed) (remove_unused-Outcome w.dirs id version)
    ]

-- A removal without force that fails leaves every package.
pub remove_fails :
    (w : World) (id version : String) (e : Fault)
    → (remove w id version false).0 ≡ err e
    → (remove w id version false).1.dirs ≡ w.dirs
remove_fails w id version e h =
    subst (λ r. Outcome w.dirs id version (r, (remove w id version false).1.dirs)) h
      (remove_dirs-Outcome w id version)
