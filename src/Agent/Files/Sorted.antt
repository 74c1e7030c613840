-- ===== src/Agent/Files/Sorted.antt =====
-- The order of a listed directory.
use mathlib.Core.List.{Perm}
use mathlib.Core.List.Perm
use petty.Shared.{
  ℕ, Bool, map, ap, ◌∙◌, ◌++◌, ◌≡◌, refl, true, false, List, [], ◌∷◌, subst, All, arith, Bool-cases,
  inl, inr,
}
use petty.Shared.Result.{Result, ok, err, map_err, and_then}
use petty.Text.{Str, lit}
use petty.Agent.Protocol.{FileEntry}
use petty.Agent.Os.{Os, DirEntry, Metadata}
use petty.Agent.Files.{
  read_entry, entry_of, le_str, insert_entry, sort_entries, read_entries, list_dir, quoted,
}

le_str_total : (s t : Str) → le_str s t ≡ false → le_str t s ≡ true
unfolding le_str
le_str_total [] t h = absurd (ground arith)
le_str_total (c ∷ s) [] h = refl
le_str_total (c ∷ s) (d ∷ t) h = ground (arith, le_str_total s t)

le_str_trans : (s t u : Str) → le_str s t ≡ true → le_str t u ≡ true → le_str s u ≡ true
unfolding le_str
le_str_trans [] t u h k = refl
le_str_trans (c ∷ s) [] u h k = absurd (ground arith)
le_str_trans (c ∷ s) (d ∷ t) [] h k = absurd (ground arith)
le_str_trans (c ∷ s) (d ∷ t) (e ∷ u) h k = ground (arith, le_str_trans s t u)

abbrev Below : Str → FileEntry → Type 0
Below name x = le_str name x.name ≡ true

-- Each name is not after any behind it, in the order of their bytes.
abbrev pub IsSorted : List FileEntry → Type 0
IsSorted [] = Unit
IsSorted (x ∷ xs) = All (Below x.name) xs × IsSorted xs

Below-insert_entry :
    (n : Str) (x : FileEntry) (xs : List FileEntry)
    → Below n x
    → All (Below n) xs
    → All (Below n) (insert_entry x xs)
unfolding insert_entry
Below-insert_entry n x [] h a = (h, tt)
Below-insert_entry n x (y ∷ ys) h a = elim (Bool-cases (le_str x.name y.name)) [
  | inl p ↦ rw (p, insert_entry) (h, a)
  | inr p ↦ rw (p, insert_entry) (a.0, Below-insert_entry n x ys h a.1)
]

Below-trans :
    (n : Str) (y : FileEntry) (xs : List FileEntry)
    → Below n y
    → All (Below y.name) xs
    → All (Below n) xs
Below-trans n y [] h a = tt
Below-trans n y (x ∷ xs) h a = (le_str_trans n y.name x.name h a.0, Below-trans n y xs h a.1)

insert_entry-IsSorted :
    (x : FileEntry) (xs : List FileEntry) → IsSorted xs → IsSorted (insert_entry x xs)
unfolding insert_entry
insert_entry-IsSorted x [] s = (tt, tt)
insert_entry-IsSorted x (y ∷ ys) s = elim (Bool-cases (le_str x.name y.name)) [
  | inl p ↦ rw (p, insert_entry) ((p, Below-trans x.name y ys p s.0), s)
  | inr p ↦
      rw (p, insert_entry)
        (
          Below-insert_entry y.name x ys (le_str_total x.name y.name p) s.0,
          insert_entry-IsSorted x ys s.1,
        )
]

sort_entries-IsSorted : (xs : List FileEntry) → IsSorted (sort_entries xs)
unfolding sort_entries
sort_entries-IsSorted [] = tt
sort_entries-IsSorted (x ∷ xs) =
    insert_entry-IsSorted x (sort_entries xs) (sort_entries-IsSorted xs)

insert_entry-Perm : (x : FileEntry) (xs : List FileEntry) → Perm (insert_entry x xs) (x ∷ xs)
unfolding insert_entry
insert_entry-Perm x [] = Perm.refl (x ∷ [])
insert_entry-Perm x (y ∷ ys) = elim (Bool-cases (le_str x.name y.name)) [
  | inl p ↦ rw (p, insert_entry) (Perm.refl (x ∷ y ∷ ys))
  | inr p ↦
      rw (p, insert_entry) (Perm.trans (Perm.cons y (insert_entry-Perm x ys)) (Perm.swap x y ys))
]

sort_entries-Perm : (xs : List FileEntry) → Perm (sort_entries xs) xs
unfolding sort_entries
sort_entries-Perm [] = Perm.refl []
sort_entries-Perm (x ∷ xs) =
    Perm.trans (insert_entry-Perm x (sort_entries xs)) (Perm.cons x (sort_entries-Perm xs))

-- An entry of a directory that could be read, by its name and metadata, as the system gives it and as
-- it is listed: with its size where it is a file, and 0 otherwise.
abbrev pub readable : Str × Metadata → Result Str DirEntry
readable (name, m) = ok (record { file_name = name; metadata = ok m })

abbrev size_of : Bool → ℕ → ℕ
size_of true len = len
size_of false len = 0

abbrev pub listed : Str × Metadata → FileEntry
listed (name, m) = record { name = name; is_dir = m.is_dir; size = size_of m.is_file m.len }

abbrev AllRead : List (Result Str DirEntry) → List FileEntry → Type 0
AllRead ds xs = (ms : List (Str × Metadata)) × (ds ≡ map readable ms) × (xs ≡ map listed ms)

read_entry_ok :
    (d : Result Str DirEntry) (x : FileEntry)
    → read_entry d ≡ ok x
    → (m : Str × Metadata) × (d ≡ readable m) × (x ≡ listed m)
unfolding read_entry
read_entry_ok (err e) x h = absurd (cc h)
read_entry_ok (ok d) x h = by_metadata d.metadata refl h
  where
    by_metadata :
        (r : Result Str Metadata)
        → d.metadata ≡ r
        → and_then
            (map_err (λ x. lit "failed to get metadata: " ++ x) r)
            (λ m. ok (entry_of d.file_name m))
          ≡ ok x
        → (m : Str × Metadata) × (ok d ≡ readable m) × (x ≡ listed m)
    by_metadata (err e) k h = absurd (cc h)
    by_metadata (ok m) k h = (
      (d.file_name, m),
      ap (λ r. ok (record { file_name = d.file_name; metadata = r })) k,
      ground arith,
    )

read_entries-AllRead :
    (ds : List (Result Str DirEntry)) (xs : List FileEntry)
    → read_entries ds ≡ ok xs
    → AllRead ds xs
unfolding read_entries
read_entries-AllRead [] xs h = ([], refl, ground arith)
read_entries-AllRead (d ∷ ds) xs h =
    by_first (read_entry d) refl (read_entries ds) (read_entries-AllRead ds) h
  where
    by_first :
        (o : Result Str FileEntry)
        → read_entry d ≡ o
        → (r : Result Str (List FileEntry)) → ((ys : List FileEntry) → r ≡ ok ys → AllRead ds ys)
        → and_then o (λ x. and_then r λ xs. ok (x ∷ xs)) ≡ ok xs
        → AllRead (d ∷ ds) xs
    by_first (err e) k r q h = absurd (cc h)
    by_first (ok x) k (err e) q h = absurd (cc h)
    by_first (ok x) k (ok ys) q h =
        let (m, a, b) = read_entry_ok d x k in
        let (ms, c, e) = q ys refl in (m ∷ ms, cc (a, c), ground (arith, b, e))

module _ (os : Os) where
  open os use {World}

  -- A directory that is listed could be read, and so could each of its entries with its metadata; the
  -- list has each of these entries exactly as often, under its name, as a directory or not, and with its
  -- size where it is a file or 0, in the order of the bytes of the names.
  pub list_dir-IsSorted :
      (path : Str) (w : World) (es : List FileEntry)
      → list_dir os path w ≡ ok es
      → IsSorted es
        × ((ms : List (Str × Metadata)) × (os.read_dir path w ≡ ok (map readable ms))
            × Perm es (map listed ms))
  unfolding list_dir
  list_dir-IsSorted path w es h = by_read (os.read_dir path w) refl h
    where
      by_entries :
          (ds : List (Result Str DirEntry)) (r : Result Str (List FileEntry))
          → os.read_dir path w ≡ ok ds
          → read_entries ds ≡ r
          → and_then r (λ result. ok (sort_entries result)) ≡ ok es
          → IsSorted es
            × ((ms : List (Str × Metadata)) × (os.read_dir path w ≡ ok (map readable ms))
                × Perm es (map listed ms))
      by_entries ds (ok xs) a b h =
          let e : sort_entries xs ≡ es = ground arith in
          let (ms, c, f) = read_entries-AllRead ds xs b in
          (
            subst IsSorted e (sort_entries-IsSorted xs),
            (
              ms,
              a ∙ ap ok c,
              subst (λ y. Perm y (map listed ms)) e
                  (subst (Perm (sort_entries xs)) f (sort_entries-Perm xs)),
            ),
          )
      by_entries ds (err x) a b h = absurd (ground arith)

      by_read :
          (r : Result Str (List (Result Str DirEntry)))
          → os.read_dir path w ≡ r
          → and_then
              (map_err (quoted (lit "failed to read directory") path) r)
              (λ entries. and_then (read_entries entries) λ result. ok (sort_entries result))
            ≡ ok es
          → IsSorted es
            × ((ms : List (Str × Metadata)) × (os.read_dir path w ≡ ok (map readable ms))
                × Perm es (map listed ms))
      by_read (ok ds) a h = by_entries ds (read_entries ds) a refl h
      by_read (err x) a h = absurd (ground arith)
