-- ===== src/Runtime/Build/Linked.antt =====
-- What `link_tree` adds to the files of a runtime.
use lar.Base.{
  String, none, some, ◌==◌, ◌≡◌, ◌↔◌, ◌⊎◌, refl, sym, ap, ◌∙◌, ok, ok-eq, >>=-eq-ok, ⊎_elim, inl,
  inr, any, Option-cases, Bool-cases, eq_iff, if◌then◌else◌,
}
use lar.Base.Map.{Map, lookup, insert, lookup-insert, keys}
use lar.Runtime.Compose.{ComposeMode}
use lar.Runtime.Build.{
  Listing, done, file_entry, other_entry, dir_entry, Placed, rel_path, in_the_way, place, placed,
  link_tree,
}

pub some-eq : {A : Type 0} {a b : A} → some a ≡ some b → a ≡ b
some-eq h = cc

-- A directory has a file at a path.
abbrev pub IsFile : String → Listing → String → Type 0
IsFile dir done path = ⊥
IsFile dir (other_entry name rest) path = IsFile dir rest path
IsFile dir (file_entry name rest) path = (path ≡ rel_path dir name) ⊎ IsFile dir rest path
IsFile dir (dir_entry name inside rest) path =
    IsFile (rel_path dir name) inside path ⊎ IsFile dir rest path

place-ok :
    (path : String) (file : Placed) (claimed out : Map Placed)
    → place path file claimed ≡ ok out
    → (lookup claimed path ≡ none) × (out ≡ insert claimed path file)
unfolding place
place-ok path file claimed out h = elim (Option-cases (lookup claimed path)) [
  | inr (first, e) ↦ cc (rw (place, e) at h)
  | inl e ↦ elim (Bool-cases (any (in_the_way path) (keys claimed))) [
    | inl t ↦ cc (rw (place, e, t) at h)
    | inr t ↦ (e, sym (ok-eq (rw (place, e, t) at h)))
  ]
]

-- What a path leads to afterwards: what it led to before, or a file that is placed.
abbrev pub Adds : (String → Placed → Type 0) → Map Placed → Map Placed → Type 0
Adds New claimed out =
    (path : String) (file : Placed)
    → (lookup out path ≡ some file) ↔ ((lookup claimed path ≡ some file) ⊎ New path file)

place-Adds :
    (p : String) (f : Placed) (claimed out : Map Placed)
    → place p f claimed ≡ ok out
    → Adds (λ path file. (path ≡ p) × (file ≡ f)) claimed out
place-Adds p f claimed out h path file =
    let (free, same) = place-ok p f claimed out h in
    let after : lookup out path ≡ (if p == path then some f else lookup claimed path) =
      ap (λ m. lookup m path) same ∙ lookup-insert claimed p path f in
    elim (Bool-cases (p == path)) [
      | inl e ↦
          let found : lookup out path ≡ some f = after ∙ rw e refl in
          let there = (eq_iff p path).0 e in
          (
            λ k. inr (sym there, some-eq (sym k ∙ found)),
            λ k.
                ⊎_elim (λ old. cc (sym free ∙ ap (lookup claimed) there ∙ old))
                  (λ (_, g). found ∙ ap some (sym g)) k,
          )
      | inr e ↦
          let found : lookup out path ≡ lookup claimed path = after ∙ rw e refl in
          (
            λ k. inl (sym found ∙ k),
            λ k.
                ⊎_elim (λ old. found ∙ old) (λ (same', _). cc (e, (eq_iff p path).1 (sym same'))) k,
          )
    ]

pub Adds-trans :
    (M N New : String → Placed → Type 0) (a b c : Map Placed)
    → Adds M a b
    → Adds N b c
    → ((path : String) (file : Placed) → New path file ↔ (M path file ⊎ N path file))
    → Adds New a c
Adds-trans M N New a b c first second new path file = (
  λ h.
      ⊎_elim
        (λ k.
          ⊎_elim (λ old. inl old) (λ m. inr ((new path file).1 (inl m))) ((first path file).0 k))
        (λ n. inr ((new path file).1 (inr n))) ((second path file).0 h),
  λ h. (second path file).1 (
      ⊎_elim (λ old. inl ((first path file).1 (inl old)))
        (λ n. ⊎_elim (λ m. inl ((first path file).1 (inr m))) (λ k. inr k) ((new path file).0 n))
        h),
)

pub Adds-nothing :
    (New : String → Placed → Type 0) (a b : Map Placed)
    → ((path : String) (file : Placed) → ¬ New path file)
    → a ≡ b
    → Adds New a b
Adds-nothing New a b empty same path file = (
  λ h. inl (ap (λ m. lookup m path) same ∙ h),
  λ h. ⊎_elim (λ old. ap (λ m. lookup m path) (sym same) ∙ old) (λ n. absurd (empty path file n)) h,
)

module _ (compose : ComposeMode) (label : String) (root : String × String) where
  abbrev pub New : String → Listing → String → Placed → Type 0
  New dir listing path file = IsFile dir listing path × (file ≡ placed compose label root path)

  pub link_tree-Adds :
      (dir : String) (listing : Listing) (claimed out : Map Placed)
      → link_tree compose label root dir listing claimed ≡ ok out
      → Adds (New dir listing) claimed out
  unfolding link_tree
  link_tree-Adds dir done claimed out h =
      Adds-nothing (New dir done) claimed out (λ path file (m, _). m) (ok-eq h)
  link_tree-Adds dir (other_entry name rest) claimed out h = cc
  link_tree-Adds dir (file_entry name rest) claimed out h =
      let p = rel_path dir name in
      let (m, a, k) = >>=-eq-ok (place p (placed compose label root p) claimed) _ h in
      Adds-trans (λ path file. (path ≡ p) × (file ≡ placed compose label root p)) (New dir rest)
        (New dir (file_entry name rest)) claimed m out
        (place-Adds p (placed compose label root p) claimed m a) (link_tree-Adds dir rest m out k)
        λ path file. (
          λ (w, e). ⊎_elim (λ q. inl (q, e ∙ ap (placed compose label root) q)) (λ i. inr (i, e)) w,
          λ w.
              ⊎_elim (λ (q, e). (inl q, e ∙ ap (placed compose label root) (sym q)))
                (λ (i, e). (inr i, e)) w,
        )
  link_tree-Adds dir (dir_entry name listing rest) claimed out h =
      let p = rel_path dir name in
      let (m, a, k) = >>=-eq-ok (link_tree compose label root p listing claimed) _ h in
      Adds-trans (New p listing) (New dir rest) (New dir (dir_entry name listing rest)) claimed m
        out (link_tree-Adds p listing claimed m a) (link_tree-Adds dir rest m out k)
        λ path file. (
          λ (w, e). ⊎_elim (λ i. inl (i, e)) (λ i. inr (i, e)) w,
          λ w. ⊎_elim (λ (i, e). (inl i, e)) (λ (i, e). (inr i, e)) w,
        )
