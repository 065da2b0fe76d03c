-- ===== src/Repo/Sources.antt =====
-- crates/lar-repo/src/sources.rs: the configured package sources, in the order of their priority.
-- Reading and writing `sources.toml` keeps the file's value, so that the state is the value.
pub mod Indices
pub mod Moves
pub mod Beside
use lar.Base.{
  ℕ, zero, suc, ◌+◌, ◌-◌, String, Bool, true, false, not, ◌&&◌, ◌||◌, Option, none, some, List, [],
  ◌∷◌, ◌++◌, ◌==◌, nat_eq, ltb, any, contains, is_empty, length, get_elem?, Result, Done, ok, err,
  guard, ok_or, ◌>>=◌, ◌>>◌, if◌then◌else◌,
}

abbrev pub sources_format : ℕ
sources_format = 1

pub record SourceEntry : Type 0 where
  pub name : String
  pub uri : String
  -- legacy fields
  pub policy : Option String
  pub is_main : Option Bool

pub record SourcesFile : Type 0 where
  pub format : ℕ
  pub sources : List SourceEntry
  pub fetch_priority : Option String

pub data Fault : Type 0 where
  unsupported_format : ℕ → Fault
  name_or_uri_empty : Fault
  duplicate_name source_exists source_not_found : String → Fault
  bad_position : ℕ → Fault
  before_itself after_itself : Fault
  -- an index out of range
  index_panic : Fault

-- The loop of `validate`; `names` are the names before.
unfoldable pub validate_sources : List String → List SourceEntry → Result Fault Done
unfolding contains
validate_sources names [] = ok tt
validate_sources names (src ∷ srcs) = do
  guard (not (src.name == "" || src.uri == "")) name_or_uri_empty
  guard (not (contains names src.name)) (duplicate_name src.name)
  validate_sources (src.name ∷ names) srcs

unfoldable pub validate : SourcesFile → Result Fault Done
unfolding validate_sources
validate file = do
  guard (nat_eq file.format sources_format) (unsupported_format file.format)
  validate_sources [] file.sources

-- A missing file is an empty one.
unfoldable pub load_sources : Option SourcesFile → Result Fault SourcesFile
unfolding validate
load_sources none = ok (record { format = sources_format; sources = []; fetch_priority = none })
load_sources (some file) = do validate file; ok file

-- The legacy fields are read, and never written.
abbrev pub written_entry : SourceEntry → SourceEntry
written_entry e = record e { policy = none; is_main = none }

abbrev pub written_entries : List SourceEntry → List SourceEntry
written_entries [] = []
written_entries (e ∷ es) = written_entry e ∷ written_entries es

-- What `sources.toml` holds afterwards.
unfoldable pub save_sources : SourcesFile → Result Fault SourcesFile
unfolding validate
save_sources file = do
  validate file
  ok (record file { sources = written_entries file.sources; fetch_priority = none })

abbrev pub is_named : String → SourceEntry → Bool
is_named name s = s.name == name

abbrev pub is_called : String → SourceEntry → Bool
is_called name_or_uri s = s.name == name_or_uri || s.uri == name_or_uri

module _ {ℓ} {A : Type ℓ} where
  -- `iter().position(p)`
  unfoldable pub position : (A → Bool) → List A → Option ℕ
  position p [] = none
  position p (x ∷ xs) =
      let later : Option ℕ = elim (position p xs) [ none ↦ none | some i ↦ some (suc i) ] in
      if p x then some 0 else later

  -- `Vec::remove(i)` and `Vec::insert(i, x)`, in range
  unfoldable pub remove_at : List A → ℕ → List A
  remove_at [] i = []
  remove_at (x ∷ xs) zero = xs
  remove_at (x ∷ xs) (suc i) = x ∷ remove_at xs i

  unfoldable pub insert_at : List A → ℕ → A → List A
  insert_at xs zero y = y ∷ xs
  insert_at [] (suc i) y = y ∷ []
  insert_at (x ∷ xs) (suc i) y = x ∷ insert_at xs i y

-- An operation returns its entry and the value of `sources.toml` after it.
abbrev pub Changed : Type 0
Changed = Result Fault (SourceEntry × SourcesFile)

unfoldable pub add_source : Option SourcesFile → String → String → Changed
unfolding load_sources save_sources any
add_source disk name uri = do
  file ← load_sources disk
  guard (not (any (is_named name) file.sources)) (source_exists name)
  let entry : SourceEntry = record { name = name; uri = uri; policy = none; is_main = none }
  saved ← save_sources (record file { sources = file.sources ++ entry ∷ [] })
  ok (entry, saved)

unfoldable pub find_source_index : SourcesFile → String → Result Fault ℕ
unfolding position
find_source_index file name_or_uri =
    ok_or (position (is_called name_or_uri) file.sources) (source_not_found name_or_uri)

unfoldable pub remove_source : Option SourcesFile → String → Changed
unfolding load_sources save_sources find_source_index remove_at
remove_source disk name_or_uri = do
  file ← load_sources disk
  idx ← find_source_index file name_or_uri
  entry ← ok_or (get_elem? file.sources idx) index_panic
  saved ← save_sources (record file { sources = remove_at file.sources idx })
  ok (entry, saved)

-- The removal and the insertion of `move_source`; `none` is a panic, which does not happen.
unfoldable pub moved : List SourceEntry → ℕ → ℕ → Option (List SourceEntry)
unfolding remove_at insert_at
moved sources from to = if nat_eq from to then some sources else elim (get_elem? sources from) [
  | none ↦ none
  | some entry ↦ some (insert_at (remove_at sources from) to entry)
]

-- `position` counts from 1.
unfoldable pub move_source : Option SourcesFile → String → ℕ → Changed
unfolding load_sources save_sources find_source_index moved
move_source disk name_or_uri position = do
  file ← load_sources disk
  guard (not (is_empty file.sources)) (source_not_found name_or_uri)
  guard (not (nat_eq position 0 || ltb (length file.sources) position))
      (bad_position (length file.sources))
  from ← find_source_index file name_or_uri
  let to = position - 1
  sources ← ok_or (moved file.sources from to) index_panic
  entry ← ok_or (get_elem? sources to) index_panic
  saved ← save_sources (record file { sources = sources })
  ok (entry, saved)

-- After the removal the entries behind it stand one place further to the front.
abbrev pub place_before : ℕ → ℕ → ℕ
place_before from before_idx = if ltb from before_idx then before_idx - 1 else before_idx

abbrev pub place_after : ℕ → ℕ → ℕ
place_after from after_idx = if ltb from after_idx then after_idx else after_idx + 1

unfoldable pub move_source_before : Option SourcesFile → String → String → Changed
unfolding move_source
move_source_before disk name_or_uri before = do
  file ← load_sources disk
  from ← find_source_index file name_or_uri
  before_idx ← find_source_index file before
  guard (not (nat_eq from before_idx)) before_itself
  move_source disk name_or_uri (place_before from before_idx + 1)

unfoldable pub move_source_after : Option SourcesFile → String → String → Changed
unfolding move_source
move_source_after disk name_or_uri after = do
  file ← load_sources disk
  from ← find_source_index file name_or_uri
  after_idx ← find_source_index file after
  guard (not (nat_eq from after_idx)) after_itself
  move_source disk name_or_uri (place_after from after_idx + 1)

unfoldable pub ordered_sources : SourcesFile → List SourceEntry
ordered_sources file = file.sources
