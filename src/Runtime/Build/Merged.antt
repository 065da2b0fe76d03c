-- ===== src/Runtime/Build/Merged.antt =====
-- The files of a composed runtime.
use lar.Base.{
  String, Option, some, List, [], ◌∷◌, ◌≡◌, ◌↔◌, ◌⊎◌, refl, sym, ap, ◌∙◌, subst, ok, ok_or, ok-eq,
  map_err, map_err-ok, >>=-eq-ok, ok_or-eq-ok, Memᴰ, Memᴰ-cons, not-Memᴰ-nil, ⊎_elim, inl, inr,
  arith, Option-cases, Bool-cases,
}
use lar.Base.Map.{Map, lookup}
use lar.Resolver.Locked.{LockedPackage, Lockfile}
use lar.Resolver.Resolve.{locked_lt}
use lar.Runtime.Compose.{ComposeMode}
use lar.Runtime.Build.{
  Listing, store_fault, Placed, placed, insert_package, sort_packages, label_of, link_files,
  link_packages, compose_files,
}
use lar.Store.Read.{get}
use lar.Store.World as Store
use lar.Store.World.{PackageDir, StoredPackage}
use lar.Runtime.Build.Linked.{some-eq, IsFile, Adds, Adds-trans, Adds-nothing, link_tree-Adds}

Memᴰ-insert_package :
    (x p : LockedPackage) (ps : List LockedPackage)
    → Memᴰ x (insert_package p ps) ↔ ((x ≡ p) ⊎ Memᴰ x ps)
unfolding insert_package
Memᴰ-insert_package x p [] = ground (arith, Memᴰ-cons x p [])
Memᴰ-insert_package x p (q ∷ qs) = elim (Bool-cases (locked_lt q p)) [
  | inl e ↦
      rw (insert_package, e) ground
        (arith, Memᴰ-insert_package x p qs, Memᴰ-cons x q (insert_package p qs), Memᴰ-cons x q qs)
  | inr e ↦ rw (insert_package, e) (Memᴰ-cons x p (q ∷ qs))
]

Memᴰ-sort_packages :
    (x : LockedPackage) (ps : List LockedPackage) → Memᴰ x (sort_packages ps) ↔ Memᴰ x ps
unfolding sort_packages
Memᴰ-sort_packages x [] = (λ m. m, λ m. m)
Memᴰ-sort_packages x (p ∷ ps) =
    ground
      (arith, Memᴰ-sort_packages x ps, Memᴰ-insert_package x p (sort_packages ps), Memᴰ-cons x p ps)

module _ (dirs : List PackageDir) (files_at : String × String → Option Listing)
    (compose : ComposeMode) where
  -- `file` is the file that the stored package has at the path.
  pub record IsOf (p : LockedPackage) (path : String) (file : Placed) : Type 0 where
    pub stored : StoredPackage
    pub found : get dirs p.id p.version ≡ ok (some stored)
    pub files : Listing
    pub read : files_at stored.path ≡ some files
    pub is_file : IsFile "" files path
    pub same : file ≡ placed compose (label_of p) stored.path path

  abbrev pub IsOfOne : List LockedPackage → String → Placed → Type 0
  IsOfOne packages path file = (p : LockedPackage) × Memᴰ p packages × IsOf p path file

  link_files-Adds :
      (p : LockedPackage) (stored : StoredPackage) (claimed out : Map Placed)
      → get dirs p.id p.version ≡ ok (some stored)
      → link_files dirs files_at compose p stored claimed ≡ ok out
      → Adds (IsOf p) claimed out
  link_files-Adds p stored claimed out found h = elim (Option-cases (files_at stored.path)) [
    | inl e ↦
        Adds-nothing (IsOf p) claimed out
          (λ path file w.
            let same = some-eq (ok-eq (sym w.found ∙ found)) in
            cc (w.read, ap (λ (s : StoredPackage). files_at s.path) same, e))
          (ok-eq (rw (link_files, e) at h))
    | inr (files, e) ↦
        let adds =
          link_tree-Adds compose (label_of p) stored.path "" files claimed out
            (rw (link_files, e) at h) in
        λ path file. (
          λ k.
              ⊎_elim (λ old. inl old)
                (λ (i, same). inr (record {
                  stored = stored;
                  found = found;
                  files = files;
                  read = e;
                  is_file = i;
                  same = same;
                }))
                ((adds path file).0 k),
          λ k.
              ⊎_elim (λ old. (adds path file).1 (inl old))
                (λ (w : IsOf p path file).
                  let same = some-eq (ok-eq (sym w.found ∙ found)) in
                  let there : w.files ≡ files =
                    some-eq (sym w.read ∙ ap (λ (s : StoredPackage). files_at s.path) same ∙ e) in
                  (adds path file).1 (
                    inr (
                      subst (λ l. IsFile "" l path) there w.is_file,
                      w.same
                          ∙ ap (λ (s : StoredPackage). placed compose (label_of p) s.path path)
                              same,
                    )))
                k,
        )
  ]

  link_packages-Adds :
      (ps : List LockedPackage) (claimed out : Map Placed)
      → link_packages dirs files_at compose ps claimed ≡ ok out
      → Adds (IsOfOne ps) claimed out
  unfolding link_packages
  link_packages-Adds [] claimed out h =
      Adds-nothing (IsOfOne []) claimed out (λ path file (p, m, _). not-Memᴰ-nil p m) (ok-eq h)
  link_packages-Adds (p ∷ ps) claimed out h =
      let (found, a, h1) = >>=-eq-ok (map_err store_fault (get dirs p.id p.version)) _ h in
      let (stored, b, h2) =
        >>=-eq-ok (ok_or found (store_fault (Store.not_found p.id p.version))) _ h1 in
      let (m, c, k) = >>=-eq-ok (link_files dirs files_at compose p stored claimed) _ h2 in
      let there : get dirs p.id p.version ≡ ok (some stored) =
        map_err-ok store_fault (get dirs p.id p.version) a ∙ ap ok (ok_or-eq-ok found _ b) in
      Adds-trans (IsOf p) (IsOfOne ps) (IsOfOne (p ∷ ps)) claimed m out
        (link_files-Adds p stored claimed m there c) (link_packages-Adds ps m out k)
        λ path file. (
          λ (q, n, w).
              ⊎_elim (λ e. inl (subst (λ z. IsOf z path file) e w)) (λ i. inr (q, i, w))
                ((Memᴰ-cons q p ps).0 n),
          λ w. ⊎_elim (λ i. (p, Memᴰ.head refl, i)) (λ (q, n, i). (q, Memᴰ.tail n, i)) w,
        )

  -- Where the files of a runtime are composed without an error, the runtime has a file at a path
  -- exactly where a stored package of the lockfile has one, and it is that file, placed in the way
  -- asked for and claimed for that package.
  pub compose_files_iff :
      (lock : Lockfile) (out : Map Placed)
      → compose_files dirs files_at compose lock ≡ ok out
      → (path : String) (file : Placed)
      → (lookup out path ≡ some file) ↔ IsOfOne lock.packages path file
  unfolding compose_files lookup
  compose_files_iff lock out h path file =
      let adds = link_packages-Adds (sort_packages lock.packages) [] out h path file in
      (
        λ k.
            ⊎_elim (λ old. cc) (λ (p, m, w). (p, (Memᴰ-sort_packages p lock.packages).0 m, w))
              (adds.0 k),
        λ (p, m, w). adds.1 (inr (p, (Memᴰ-sort_packages p lock.packages).1 m, w)),
      )
