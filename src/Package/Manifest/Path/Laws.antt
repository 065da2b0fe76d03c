-- ===== src/Package/Manifest/Path/Laws.antt =====
-- What the payload paths that pass look like, and the normal form.
use lar.Base.{
  ℕ, String, Bool, true, false, not, List, [], ◌∷◌, ◌==◌, ◌≡◌, ◌≢◌, ◌↔◌, ◌⊎◌, inl, inr, refl, arith,
  nat_eq, codes, split, ok, guard, guard-eq-ok, >>=-eq-ok, is_empty, ◌>>◌, All, Bool-cases,
}
use lar.Base.Split.{join, split-All, split-join, Without}
use lar.Package.Error.{Error, validation, path_escapes, payload_path_invalid, payload_path_empty}
use lar.Package.Manifest.Path.{
  Component, normal, slash, add_component, parts_components, is_absolute, components,
  check_components, validate_relative_payload_path, normal_parts, normalize_payload_rel_path,
}

abbrev dot_dot : List ℕ
dot_dot = b'.' ∷ b'.' ∷ []

check-add_component :
    (e : Error) (start : Bool) (part : List ℕ) (rest : List Component)
    → (check_components e (add_component start part rest) ≡ ok tt)
      ↔ ((part ≢ dot_dot) × (check_components e rest ≡ ok tt))
unfolding check_components add_component
check-add_component e start [] rest = ground arith
check-add_component e true (c ∷ []) rest = ground arith
check-add_component e false (c ∷ []) rest = ground arith
check-add_component e start (c ∷ d ∷ []) rest = ground arith
check-add_component e start (c ∷ d ∷ f ∷ s) rest = ground arith

check-parts_components :
    (e : Error) (start : Bool) (parts : List (List ℕ))
    → (check_components e (parts_components start parts) ≡ ok tt)
      ↔ All (λ part. part ≢ dot_dot) parts
unfolding check_components parts_components
check-parts_components e start [] = (λ _. tt, λ _. refl)
check-parts_components e start (part ∷ parts) =
    let head = check-add_component e start part (parts_components false parts) in
    let tail = check-parts_components e false parts in
    (λ h. let (a, b) = head.0 h in (a, tail.0 b), λ (a, b). head.1 (a, tail.1 b))

-- A payload path passes exactly when it is not empty, does not start with a slash, and none of its
-- parts between slashes is `..`.
pub validate_relative_payload_path_iff :
    (path label : String)
    → (validate_relative_payload_path path label ≡ ok tt) ↔ (
        ((path == "") ≡ false)
        × (is_absolute (codes path) ≡ false)
        × All (λ part. part ≢ b'.' ∷ b'.' ∷ []) (split slash (codes path)))
unfolding validate_relative_payload_path
validate_relative_payload_path_iff path label =
    let inside =
      check-parts_components (validation (path_escapes label path)) true
        (split slash (codes path)) in
    (
      λ h.
          let (a, h1) = guard-eq-ok (not (path == "")) _ _ h in
          let (b, h2) = guard-eq-ok (not (is_absolute (codes path))) _ _ h1 in
          let rel : is_absolute (codes path) ≡ false = ground arith in
          (ground arith, rel, inside.0 (rw (components, rel) at h2)),
      λ (a, b, c). rw (a, b) (inside.1 c),
    )

-- A part that names an entry of a directory below the current one.
abbrev pub IsPlain : List ℕ → Type 0
IsPlain part = (part ≢ []) × (part ≢ b'.' ∷ []) × (part ≢ b'.' ∷ b'.' ∷ []) × Without slash part

normal_parts-add :
    (e : Error) (start : Bool) (part : List ℕ) (rest : List Component) (out : List (List ℕ))
    → normal_parts e (add_component start part rest) ≡ ok out
    → (normal_parts e rest ≡ ok out)
      ⊎ ((out' : List (List ℕ)) × (normal_parts e rest ≡ ok out')
          × (out ≡ part ∷ out')
          × (part ≢ [])
          × (part ≢ b'.' ∷ [])
          × (part ≢ b'.' ∷ b'.' ∷ []))
unfolding normal_parts add_component
normal_parts-add e start [] rest out h = inl h
normal_parts-add e start (c ∷ []) rest out h = elim (Bool-cases (nat_eq c b'.')) [
  | inl t ↦ elim (Bool-cases start) [ inl s ↦ inl (rw (t, s) at h) | inr s ↦ inl (rw (t, s) at h) ]
  | inr t ↦
      let (out', a, b) = >>=-eq-ok (normal_parts e rest) _ (rw t at h) in
      inr (out', a, cc b, λ k. cc, λ k. ground arith, λ k. cc)
]
normal_parts-add e start (c ∷ d ∷ []) rest out h = elim (Bool-cases (nat_eq c b'.')) [
  | inl t ↦ elim (Bool-cases (nat_eq d b'.')) [
    | inl s ↦ absurd (ground arith)
    | inr s ↦
        let (out', a, b) = >>=-eq-ok (normal_parts e rest) _ (rw (t, s) at h) in
        inr (out', a, cc b, λ k. cc, λ k. cc, λ k. ground arith)
  ]
  | inr t ↦
      let (out', a, b) = >>=-eq-ok (normal_parts e rest) _ (rw t at h) in
      inr (out', a, cc b, λ k. cc, λ k. cc, λ k. ground arith)
]
normal_parts-add e start (c ∷ d ∷ f ∷ s) rest out h =
    let (out', a, b) = >>=-eq-ok (normal_parts e rest) _ h in
    inr (out', a, cc b, λ k. cc, λ k. cc, λ k. cc)

normal_parts-IsPlain :
    (e : Error) (start : Bool) (parts out : List (List ℕ))
    → All (Without slash) parts
    → normal_parts e (parts_components start parts) ≡ ok out
    → All IsPlain out
unfolding normal_parts parts_components
normal_parts-IsPlain e start [] out w h = let same : out ≡ [] = cc in rw same tt
normal_parts-IsPlain e start (part ∷ parts) out (here, w) h =
    elim (normal_parts-add e start part (parts_components false parts) out h) [
      | inl k ↦ normal_parts-IsPlain e false parts out w k
      | inr (out', k, same, a, b, c) ↦
          rw same ((a, b, c, here), normal_parts-IsPlain e false parts out' w k)
    ]

add_component-IsPlain :
    (start : Bool) (part : List ℕ) (rest : List Component)
    → IsPlain part
    → add_component start part rest ≡ normal part ∷ rest
unfolding add_component
add_component-IsPlain start [] rest p = ground arith
add_component-IsPlain start (c ∷ []) rest p = ground arith
add_component-IsPlain start (c ∷ d ∷ []) rest p = ground arith
add_component-IsPlain start (c ∷ d ∷ f ∷ s) rest p = refl

normal_parts_of_plain :
    (e : Error) (start : Bool) (parts : List (List ℕ))
    → All IsPlain parts
    → normal_parts e (parts_components start parts) ≡ ok parts
unfolding normal_parts parts_components
normal_parts_of_plain e start [] p = refl
normal_parts_of_plain e start (part ∷ parts) (p, ps) =
    rw (add_component-IsPlain start part (parts_components false parts) p)
      (rw (normal_parts_of_plain e false parts ps))

All-Without : (parts : List (List ℕ)) → All IsPlain parts → All (Without slash) parts
All-Without [] p = tt
All-Without (part ∷ parts) (p, ps) = (p.3, All-Without parts ps)

join_relative :
    (part : List ℕ) (parts : List (List ℕ))
    → IsPlain part
    → is_absolute (join slash (part ∷ parts)) ≡ false
unfolding is_absolute
join_relative [] parts p = absurd (p.0 refl)
join_relative (c ∷ s) [] p = ground arith
join_relative (c ∷ s) (next ∷ parts) p = ground arith

normalize_of_plain :
    (part : List ℕ) (parts : List (List ℕ))
    → All IsPlain (part ∷ parts)
    → normalize_payload_rel_path (join slash (part ∷ parts)) ≡ ok (join slash (part ∷ parts))
unfolding normalize_payload_rel_path
normalize_of_plain part parts p = rw (
  join_relative part parts p.0,
  split-join slash part parts (All-Without (part ∷ parts) p),
  normal_parts_of_plain (validation payload_path_invalid) true (part ∷ parts) p,
)

normalize_joined :
    (out : List (List ℕ)) (r : List ℕ)
    → All IsPlain out
    → (guard (not (is_empty out)) (validation payload_path_empty) >> ok (join slash out)) ≡ ok r
    → All IsPlain (split slash r) × (normalize_payload_rel_path r ≡ ok r)
normalize_joined [] r p h = cc
normalize_joined (part ∷ parts) r p h =
    let same : r ≡ join slash (part ∷ parts) = cc in
    rw same (
      rw (split-join slash part parts (All-Without (part ∷ parts) p)) p,
      normalize_of_plain part parts p,
    )

-- What normalizing a payload path returns names an entry below the payload directory: each of its
-- parts between slashes is not empty, `.` or `..`; and it is its own normal form.
pub normalize_payload_rel_path_lem :
    (path r : List ℕ)
    → normalize_payload_rel_path path ≡ ok r
    → All IsPlain (split slash r) × (normalize_payload_rel_path r ≡ ok r)
unfolding normalize_payload_rel_path
normalize_payload_rel_path_lem path r h = elim (Bool-cases (is_absolute path)) [
  | inl t ↦ cc (rw t at h)
  | inr t ↦
      let (out, a, b) =
        >>=-eq-ok
          (normal_parts (validation payload_path_invalid)
            (parts_components true (split slash path)))
          (λ parts.
            guard (not (is_empty parts)) (validation payload_path_empty) >> ok (join slash parts))
          (rw t at h) in
      normalize_joined out r
        (normal_parts-IsPlain (validation payload_path_invalid) true (split slash path) out
          (split-All slash path) a)
        b
]
