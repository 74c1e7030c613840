-- ===== src/Agent/Files.antt =====
-- crates/bouvet-agent/src/fs.rs: reading, writing and listing.
pub mod Sorted
use petty.Shared.{
  ℕ, Bool, true, false, List, [], ◌∷◌, ◌++◌, Option, none, some, ltb, ◌==◌, if◌then◌else◌,
}
use petty.Shared.Result.{Result, ok, err, map_err, and_then}
use petty.Text.{Str, lit}
use petty.Text.Decimal.{decimal}
use petty.Text.FilePath.{FilePath, path_from, parent}
use petty.Agent.Protocol.{FileEntry}
use petty.Agent.Os.{Os, Metadata, DirEntry}

abbrev pub max_read_size : ℕ
max_read_size = 10485760

abbrev quoted : Str → Str → Str → Str
quoted before path error = before ++ lit " '" ++ path ++ lit "': " ++ error

too_large : Str → ℕ → Str
too_large path len =
    lit "file '"
    ++ path
    ++ lit "' is too large ("
    ++ decimal len
    ++ lit " bytes, max "
    ++ decimal max_read_size
    ++ lit " bytes)"

-- The order of names: that of their bytes.
pub le_str : Str → Str → Bool
le_str [] t = true
le_str (c ∷ s) [] = false
le_str (c ∷ s) (d ∷ t) =
    let rest = le_str s t in if ltb c d then true else if c == d then rest else false

-- A stable sort by name.
pub insert_entry : FileEntry → List FileEntry → List FileEntry
unfolding le_str
insert_entry x [] = x ∷ []
insert_entry x (y ∷ ys) =
    let rest = insert_entry x ys in if le_str x.name y.name then x ∷ y ∷ ys else y ∷ rest

pub sort_entries : List FileEntry → List FileEntry
unfolding insert_entry
sort_entries [] = []
sort_entries (x ∷ xs) = insert_entry x (sort_entries xs)

abbrev entry_of : Str → Metadata → FileEntry
entry_of name m = record { name = name; is_dir = m.is_dir; size = if m.is_file then m.len else 0 }

read_entry : Result Str DirEntry → Result Str FileEntry
read_entry (err x) = err (lit "failed to read entry: " ++ x)
read_entry (ok d) =
    and_then (map_err (λ x. lit "failed to get metadata: " ++ x) d.metadata)
      λ m. ok (entry_of d.file_name m)

-- The loop over the entries: the first that cannot be read ends it.
unfoldable pub read_entries : List (Result Str DirEntry) → Result Str (List FileEntry)
unfolding read_entry
read_entries [] = ok []
read_entries (d ∷ ds) =
    let rest = read_entries ds in and_then (read_entry d) λ x. and_then rest λ xs. ok (x ∷ xs)

module _ (os : Os) where
  open os use {World}

  unfoldable pub read_file : Str → World → Result Str Str
  unfolding too_large
  read_file path w =
      and_then (map_err (quoted (lit "failed to stat") path) (os.file_metadata path w)) λ metadata.
        if ltb max_read_size metadata.len
        then err (too_large path metadata.len)
        else map_err (quoted (lit "failed to read") path) (os.read_to_string path w)

  -- The parent directories, where they are not there yet.
  make_parent : Str → Option FilePath → World → Result Str (Unit {0}) × World
  make_parent path none w = (ok tt, w)
  make_parent path (some dir) w =
      let (r, w') = os.create_dir_all dir w in
      if os.path_exists dir w
      then (ok tt, w)
      else (map_err (quoted (lit "failed to create directories for") path) r, w')

  write_content : Str → Str → Result Str (Unit {0}) × World → Result Str Bool × World
  write_content path content (err x, w) = (err x, w)
  write_content path content (ok _, w) =
      let (r, w') = os.write path content w in
      (and_then (map_err (quoted (lit "failed to write") path) r) λ _. ok true, w')

  unfoldable pub write_file : Str → Str → World → Result Str Bool × World
  unfolding make_parent write_content
  write_file path content w =
      write_content path content (make_parent path (parent (path_from path)) w)

  unfoldable pub list_dir : Str → World → Result Str (List FileEntry)
  unfolding read_entries sort_entries
  list_dir path w =
      and_then (map_err (quoted (lit "failed to read directory") path) (os.read_dir path w))
        λ entries. and_then (read_entries entries) λ result. ok (sort_entries result)
