-- ===== src/Repo/Sources/Moves.antt =====
-- Where `move_source`, `move_source_before` and `move_source_after` leave the sources.
use lar.Base.{
  ℕ, zero, suc, ◌-◌, ◌≤◌, ◌<◌, String, true, not, ◌||◌, Option, some, List, [], ◌∷◌, ◌≡◌, refl, sym,
  ap, ◌∙◌, arith, nat_eq, ltb, is_empty, length, get_elem?, Result, ok, err, ok_or, guard-eq-ok,
  >>=-eq-ok, ok_or-eq-ok, ok-pair, Bool-cases, inl, inr, subst,
}
use lar.Repo.Sources.{
  SourceEntry, SourcesFile, Fault, index_panic, source_not_found, load_sources, save_sources,
  validate, written_entry, written_entries, is_called, position, remove_at, insert_at,
  find_source_index, moved, move_source,
}
use lar.Repo.Sources.Indices.{
  position-some, length-remove_at, get_elem?-insert_at, remove_at-insert_at,
}

pub written-get :
    (es : List SourceEntry) (i : ℕ) (e : SourceEntry)
    → get_elem? es i ≡ some e
    → get_elem? (written_entries es) i ≡ some (written_entry e)
written-get [] i e h = cc
written-get (x ∷ es) zero e h = ground arith
written-get (x ∷ es) (suc i) e h = written-get es i e h

written-remove_at :
    (es : List SourceEntry) (i : ℕ)
    → remove_at (written_entries es) i ≡ written_entries (remove_at es i)
unfolding remove_at
written-remove_at [] i = refl
written-remove_at (x ∷ es) zero = refl
written-remove_at (x ∷ es) (suc i) = ap (λ z. written_entry x ∷ z) (written-remove_at es i)

-- The entry has moved, and the others are in their order.
record IsMoved (sources out : List SourceEntry) (from to : ℕ) (entry : SourceEntry) : Type 0 where
  at_place : get_elem? out to ≡ some entry
  others : remove_at out to ≡ remove_at sources from

moved-IsMoved :
    (sources out : List SourceEntry) (from to : ℕ) (entry : SourceEntry)
    → moved sources from to ≡ some out
    → get_elem? sources from ≡ some entry
    → from < length sources
    → to < length sources
    → IsMoved sources out from to entry
unfolding moved
moved-IsMoved sources out from to entry h at lt to_lt = elim (Bool-cases (nat_eq from to)) [
  | inl same ↦
      let eq : from ≡ to = ground arith in
      let keep : sources ≡ out = ground arith in
      record {
        at_place = subst (λ z. get_elem? z to ≡ some entry) keep (rw (sym eq) at);
        others = subst (λ z. remove_at z to ≡ remove_at sources from) keep (rw eq);
      }
  | inr other ↦
      let shape : insert_at (remove_at sources from) to entry ≡ out = ground arith in
      let fits : to ≤ length (remove_at sources from) =
        omega (arith, length-remove_at sources from lt) in
      record {
        at_place = rw (sym shape) (get_elem?-insert_at (remove_at sources from) to entry fits);
        others = rw (sym shape) (remove_at-insert_at (remove_at sources from) to entry fits);
      }
]

-- What a move to a position promises: `file` is what was read, `from` where the entry was.
pub record IsAtPosition (disk : Option SourcesFile) (called : String) (place : ℕ)
    (entry : SourceEntry) (saved : SourcesFile) : Type 0 where
  pub file : SourcesFile
  pub from : ℕ
  pub read : load_sources disk ≡ ok file
  pub index : position (is_called called) file.sources ≡ some from
  pub was : get_elem? file.sources from ≡ some entry
  pub is_it : is_called called entry ≡ true
  pub low : 1 ≤ place
  pub high : place ≤ length file.sources
  pub place_is : get_elem? saved.sources (place - 1) ≡ some (written_entry entry)
  pub others : remove_at saved.sources (place - 1) ≡ written_entries (remove_at file.sources from)
  pub out : List SourceEntry
  pub out_is : moved file.sources from (place - 1) ≡ some out
  pub saved_is : saved.sources ≡ written_entries out

save-sources :
    (file saved : SourcesFile)
    → save_sources file ≡ ok saved
    → saved.sources ≡ written_entries file.sources
unfolding save_sources
save-sources file saved h =
    let (_, _, k) = >>=-eq-ok (validate file) _ h in
    cc (ap (λ (r : Result Fault SourcesFile). sources_of r) k)
  where
    sources_of : Result Fault SourcesFile → List SourceEntry
    sources_of (ok f) = f.sources
    sources_of (err e) = []

some-entry : {a b : SourceEntry} → some a ≡ some b → a ≡ b
some-entry h = cc

-- A move to a position puts the entry that is called so there, counting from 1, and leaves the other
-- entries in their order.
pub move_source-IsAtPosition :
    (disk : Option SourcesFile) (called : String) (place : ℕ) (entry : SourceEntry)
    (saved : SourcesFile)
    → move_source disk called place ≡ ok (entry, saved)
    → IsAtPosition disk called place entry saved
unfolding move_source find_source_index
move_source-IsAtPosition disk called place entry saved h =
    let (file, a, h1) = >>=-eq-ok (load_sources disk) _ h in
    let (_, h2) = guard-eq-ok (not (is_empty file.sources)) _ _ h1 in
    let (range, h3) =
      guard-eq-ok (not (nat_eq place 0 || ltb (length file.sources) place)) _ _ h2 in
    let (from, b, h4) =
      >>=-eq-ok (ok_or (position (is_called called) file.sources) (source_not_found called)) _ h3 in
    let (out, c, h5) = >>=-eq-ok (ok_or (moved file.sources from (place - 1)) index_panic) _ h4 in
    let (e, d, h6) = >>=-eq-ok (ok_or (get_elem? out (place - 1)) index_panic) _ h5 in
    let (s, f, h7) = >>=-eq-ok (save_sources (record file { sources = out })) _ h6 in
    let index = ok_or-eq-ok (position (is_called called) file.sources) _ b in
    let out_is = ok_or-eq-ok (moved file.sources from (place - 1)) _ c in
    let (x, at, passes, lt) = position-some (is_called called) file.sources from index in
    let low : 1 ≤ place = ground arith in
    let high : place ≤ length file.sources = ground arith in
    let m = moved-IsMoved file.sources out from (place - 1) x out_is at lt (omega arith) in
    let (same, same_file) = ok-pair h7 in
    let found = ok_or-eq-ok (get_elem? out (place - 1)) _ d in
    let it : x ≡ entry = some-entry (sym m.at_place ∙ found) ∙ same in
    let written : saved.sources ≡ written_entries out =
      ap (λ (z : SourcesFile). z.sources) (sym same_file)
      ∙ save-sources (record file { sources = out }) s f in
    record {
      file = file;
      from = from;
      read = a;
      index = index;
      was = at ∙ ap some it;
      is_it = subst (λ z. is_called called z ≡ true) it passes;
      low = low;
      high = high;
      place_is =
          ap (λ z. get_elem? z (place - 1)) written
          ∙ written-get out (place - 1) entry (m.at_place ∙ ap some it);
      others =
          ap (λ z. remove_at z (place - 1)) written
          ∙ written-remove_at out (place - 1)
          ∙ ap written_entries m.others;
      out = out;
      out_is = out_is;
      saved_is = written;
    }
