-- ===== src/Repo/Sources/Beside.antt =====
-- Where `move_source_before` and `move_source_after` leave an entry.
use lar.Base.{
  ℕ, suc, ◌+◌, ◌-◌, String, false, not, Option, some, List, ◌≡◌, refl, sym, ap, ◌∙◌, arith, nat_eq,
  ltb, get_elem?, Result, ok, err, ok_or, guard-eq-ok, >>=-eq-ok, ok_or-eq-ok, Bool-cases, inl, inr,
  subst,
}
use lar.Repo.Sources.{
  SourceEntry, SourcesFile, Fault, source_not_found, load_sources, written_entry, is_called,
  position, remove_at, find_source_index, move_source, move_source_before, move_source_after,
  place_before, place_after,
}
use lar.Repo.Sources.Indices.{position-some, get_elem?-remove_before, get_elem?-remove_after}
use lar.Repo.Sources.Moves.{IsAtPosition, move_source-IsAtPosition, written-get}

-- What a move next to the entry `other`, which is the one called `next_to`, promises: the place
-- `beside` is the place of `other` afterwards.
pub record IsBeside (disk : Option SourcesFile) (called next_to : String) (place beside : ℕ)
    (entry : SourceEntry) (saved : SourcesFile) : Type 0 where
  pub to_place : IsAtPosition disk called (place + 1) entry saved
  pub other : SourceEntry
  pub index_of_other : ℕ
  pub other_index : position (is_called next_to) to_place.file.sources ≡ some index_of_other
  pub other_was : get_elem? to_place.file.sources index_of_other ≡ some other
  pub entry_at : get_elem? saved.sources place ≡ some (written_entry entry)
  pub other_at : get_elem? saved.sources beside ≡ some (written_entry other)

-- What stands where among the others after a move.
other-at :
    {disk : Option SourcesFile} {called : String} {entry : SourceEntry} {saved : SourcesFile}
    (place : ℕ) (m : IsAtPosition disk called place entry saved) (k b : ℕ) (o : SourceEntry)
    → get_elem? (remove_at m.file.sources m.from) k ≡ get_elem? m.file.sources b
    → get_elem? m.file.sources b ≡ some o
    → get_elem? (remove_at saved.sources (place - 1)) k ≡ some (written_entry o)
other-at place m k b o same at =
    ap (λ z. get_elem? z k) m.others ∙ written-get (remove_at m.file.sources m.from) k o (same ∙ at)

-- Where the removal of the entry at `from` leaves the one at `b`.
before-same :
    (es : List SourceEntry) (from b : ℕ)
    → nat_eq from b ≡ false
    → get_elem? (remove_at es from) (place_before from b) ≡ get_elem? es b
before-same es from b ne = elim (Bool-cases (ltb from b)) [
  | inl lt ↦
      rw (lt, get_elem?-remove_after es from (b - 1) (ground arith))
        (ap (get_elem? es) (ground arith))
  | inr ge ↦ rw (ge, get_elem?-remove_before es from b (ground arith)) refl
]

load-same : {a b : SourcesFile} → ◌≡◌ {A = Result Fault SourcesFile} (ok a) (ok b) → a ≡ b
load-same {a} {b} h = ap (λ r. file_of r) h
  where
    file_of : Result Fault SourcesFile → SourcesFile
    file_of (ok f) = f
    file_of (err e) = a

index-same : {a b : ℕ} → ◌≡◌ {A = Option ℕ} (some a) (some b) → a ≡ b
index-same h = cc

-- `move_source_before` leaves the entry at a place with the one called `before` directly behind
-- it, and the other entries in their order.
pub move_source_before-IsBeside :
    (disk : Option SourcesFile) (called before : String) (entry : SourceEntry) (saved : SourcesFile)
    → move_source_before disk called before ≡ ok (entry, saved)
    → (place : ℕ) × IsBeside disk called before place (suc place) entry saved
unfolding move_source_before find_source_index
move_source_before-IsBeside disk called before entry saved h =
    let (file, a, h1) = >>=-eq-ok (load_sources disk) _ h in
    let (from, b, h2) =
      >>=-eq-ok (ok_or (position (is_called called) file.sources) (source_not_found called)) _ h1 in
    let (at, c, h3) =
      >>=-eq-ok (ok_or (position (is_called before) file.sources) (source_not_found before)) _ h2 in
    let (ne, h4) = guard-eq-ok (not (nat_eq from at)) _ _ h3 in
    let place = place_before from at in
    let m = move_source-IsAtPosition disk called (place + 1) entry saved h4 in
    let file_same : file ≡ m.file = load-same (sym a ∙ m.read) in
    let b' = ok_or-eq-ok (position (is_called called) file.sources) _ b in
    let c' = ok_or-eq-ok (position (is_called before) file.sources) _ c in
    let index = subst (λ f. position (is_called before) f.sources ≡ some at) file_same c' in
    let from_same : from ≡ m.from = index-same (
      sym (subst (λ f. position (is_called called) f.sources ≡ some from) file_same b')
      ∙ m.index) in
    let (o, o_at, _, _) = position-some (is_called before) m.file.sources at index in
    let e : place + 1 - 1 ≡ place = omega arith in
    let stays =
      subst (λ f. get_elem? (remove_at m.file.sources f) place ≡ get_elem? m.file.sources at)
        from_same (before-same m.file.sources from at (ground arith)) in
    let others = other-at (place + 1) m place at o stays o_at in
    let others' =
      subst (λ z. get_elem? (remove_at saved.sources z) place ≡ some (written_entry o)) e others in
    (
      place,
      record {
        to_place = m;
        other = o;
        index_of_other = at;
        other_index = index;
        other_was = o_at;
        entry_at = subst (λ z. get_elem? saved.sources z ≡ some (written_entry entry)) e m.place_is;
        other_at = sym (get_elem?-remove_after saved.sources place place (omega arith)) ∙ others';
      },
    )

after-same :
    (es : List SourceEntry) (from b : ℕ)
    → nat_eq from b ≡ false
    → (k : ℕ) × (place_after from b ≡ suc k) × (get_elem? (remove_at es from) k ≡ get_elem? es b)
after-same es from b ne = elim (Bool-cases (ltb from b)) [
  | inl lt ↦ (
    b - 1,
    rw lt (ground arith),
    get_elem?-remove_after es from (b - 1) (ground arith) ∙ ap (get_elem? es) (ground arith),
  )
  | inr ge ↦ (b, rw ge (omega arith), get_elem?-remove_before es from b (ground arith))
]

-- `move_source_after` leaves the entry at a place with the one called `after` directly in front of
-- it, and the other entries in their order.
pub move_source_after-IsBeside :
    (disk : Option SourcesFile) (called after : String) (entry : SourceEntry) (saved : SourcesFile)
    → move_source_after disk called after ≡ ok (entry, saved)
    → (place : ℕ) × IsBeside disk called after (suc place) place entry saved
unfolding move_source_after find_source_index
move_source_after-IsBeside disk called after entry saved h =
    let (file, a, h1) = >>=-eq-ok (load_sources disk) _ h in
    let (from, b, h2) =
      >>=-eq-ok (ok_or (position (is_called called) file.sources) (source_not_found called)) _ h1 in
    let (at, c, h3) =
      >>=-eq-ok (ok_or (position (is_called after) file.sources) (source_not_found after)) _ h2 in
    let (ne, h4) = guard-eq-ok (not (nat_eq from at)) _ _ h3 in
    let m0 = move_source-IsAtPosition disk called (place_after from at + 1) entry saved h4 in
    let file_same0 : file ≡ m0.file = load-same (sym a ∙ m0.read) in
    let (k, place_is, stays0) = after-same m0.file.sources from at (ground arith) in
    let m : IsAtPosition disk called (suc k + 1) entry saved =
      move_source-IsAtPosition disk called (suc k + 1) entry saved
        (subst (λ z. move_source disk called (z + 1) ≡ ok (entry, saved)) place_is h4) in
    let file_same : file ≡ m.file = load-same (sym a ∙ m.read) in
    let b' = ok_or-eq-ok (position (is_called called) file.sources) _ b in
    let c' = ok_or-eq-ok (position (is_called after) file.sources) _ c in
    let index = subst (λ f. position (is_called after) f.sources ≡ some at) file_same c' in
    let from_same : from ≡ m.from = index-same (
      sym (subst (λ f. position (is_called called) f.sources ≡ some from) file_same b')
      ∙ m.index) in
    let (o, o_at, _, _) = position-some (is_called after) m.file.sources at index in
    let e : suc k + 1 - 1 ≡ suc k = omega arith in
    let stays1 =
      subst (λ f. get_elem? (remove_at f.sources from) k ≡ get_elem? f.sources at)
        (sym file_same0 ∙ file_same) stays0 in
    let stays =
      subst (λ f. get_elem? (remove_at m.file.sources f) k ≡ get_elem? m.file.sources at) from_same
        stays1 in
    let others = other-at (suc k + 1) m k at o stays o_at in
    let others' =
      subst (λ z. get_elem? (remove_at saved.sources z) k ≡ some (written_entry o)) e others in
    (
      k,
      record {
        to_place = m;
        other = o;
        index_of_other = at;
        other_index = index;
        other_was = o_at;
        entry_at = subst (λ z. get_elem? saved.sources z ≡ some (written_entry entry)) e m.place_is;
        other_at = sym (get_elem?-remove_before saved.sources (suc k) k (omega arith)) ∙ others';
      },
    )
