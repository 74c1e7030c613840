-- ===== src/Text/FilePath.antt =====
-- `std::path::Path` up to its own equality, which compares components: repeated and trailing
-- separators are no part of a path, and `.` is one only at the head of a relative path.
use petty.Shared.{
  ◌≡◌, refl, ap, Bool, true, false, not, ◌&&◌, List, [], ◌∷◌, ◌++◌, ℕ, Option, none, some, arith,
  ◌==◌, if◌then◌else◌,
}

pub record FilePath : Type 0 where
  pub is_absolute : Bool
  pub components : List (List ℕ)

-- One more byte of the component that `rest` begins with.
abbrev add_byte : ℕ → List (List ℕ) → List (List ℕ)
add_byte c [] = (c ∷ []) ∷ []
add_byte c (p ∷ ps) = (c ∷ p) ∷ ps

-- The text between the separators, empty pieces included.
split_slash : List ℕ → List (List ℕ)
split_slash [] = [] ∷ []
split_slash (c ∷ s) = let rest = split_slash s in if c == b'/' then [] ∷ rest else add_byte c rest

abbrev is_blank : List ℕ → Bool
is_blank [] = true
is_blank (c ∷ s) = false

abbrev is_dot : List ℕ → Bool
is_dot (c ∷ []) = c == b'.'
is_dot _ = false

drop_blank : List (List ℕ) → List (List ℕ)
drop_blank [] = []
drop_blank (p ∷ ps) = let rest = drop_blank ps in if is_blank p then rest else p ∷ rest

drop_dots : List (List ℕ) → List (List ℕ)
drop_dots [] = []
drop_dots (p ∷ ps) = let rest = drop_dots ps in if is_dot p then rest else p ∷ rest

-- A leading `.` stays.
normalize : List (List ℕ) → List (List ℕ)
normalize [] = []
normalize (p ∷ ps) = p ∷ drop_dots ps

-- `PathBuf::from`.
unfoldable pub path_from : List ℕ → FilePath
unfolding split_slash drop_blank drop_dots normalize
path_from [] = record { is_absolute = false; components = [] }
path_from (c ∷ s) =
    if c == b'/'
    then record { is_absolute = true; components = drop_dots (drop_blank (split_slash s)) }
    else record { is_absolute = false; components = normalize (drop_blank (split_slash (c ∷ s))) }

-- `as_os_str().is_empty()`.
abbrev no_components : List (List ℕ) → Bool
no_components [] = true
no_components (p ∷ ps) = false

abbrev pub is_empty : FilePath → Bool
is_empty p = not p.is_absolute && no_components p.components

-- `Path::join`: an absolute argument replaces the path.
abbrev append_components : FilePath → List (List ℕ) → FilePath
append_components p cs = elim (is_empty p) [
  | true ↦ record p { components = cs }
  | false ↦ record p { components = p.components ++ drop_dots cs }
]

unfoldable pub join : FilePath → FilePath → FilePath
unfolding drop_dots
join p q = elim q.is_absolute [ true ↦ q | false ↦ append_components p q.components ]

init_of : List (List ℕ) → List (List ℕ)
init_of [] = []
init_of (p ∷ []) = []
init_of (p ∷ q ∷ ps) = p ∷ init_of (q ∷ ps)

-- `Path::parent`: there is none of a root or of the empty path.
unfoldable pub parent : FilePath → Option FilePath
unfolding init_of
parent p = elim p.components [
  | [] ↦ none
  | c ∷ cs ↦ some (record p { components = init_of (c ∷ cs) })
]

separated : List (List ℕ) → List ℕ
separated [] = []
separated (p ∷ []) = p
separated (p ∷ q ∷ ps) = p ++ b'/' ∷ separated (q ∷ ps)

-- `to_string_lossy`, of a path that is valid UTF-8 and is written without separators or dots that do not
-- count, since a path here is its components.
unfoldable pub path_string : FilePath → List ℕ
unfolding separated
path_string p = elim p.is_absolute [
  | true ↦ b'/' ∷ separated p.components
  | false ↦ separated p.components
]

init_of-append : (ps : List (List ℕ)) (q : List ℕ) → init_of (ps ++ q ∷ []) ≡ ps
unfolding init_of
init_of-append [] q = refl
init_of-append (p ∷ []) q = refl
init_of-append (p ∷ r ∷ ps) q = ap (◌∷◌ p) (init_of-append (r ∷ ps) q)

parent-append :
    (p : FilePath) (n : List ℕ) → parent (record p { components = p.components ++ n ∷ [] }) ≡ some p
unfolding parent
parent-append p n = parent_of p.is_absolute p.components
  where
    parent_of :
        (b : Bool) (cs : List (List ℕ))
        → parent (record { is_absolute = b; components = cs ++ n ∷ [] })
          ≡ some (record { is_absolute = b; components = cs })
    parent_of b [] = refl
    parent_of b (c ∷ cs) =
        ap (λ ds. some (record { is_absolute = b; components = ds })) (init_of-append (c ∷ cs) n)

-- A plain file name: one relative component that is not `.`.
pub record IsName (q : FilePath) (n : List ℕ) : Type 0 where
  pub relative : q.is_absolute ≡ false
  pub single : q.components ≡ n ∷ []
  pub not_dot : is_dot n ≡ false

-- Joining a plain name adds one component.
append_components_name :
    (p : FilePath) (n : List ℕ)
    → is_dot n ≡ false
    → append_components p (n ∷ []) ≡ record p { components = p.components ++ n ∷ [] }
unfolding drop_dots
append_components_name p n h = ground arith

pub join-IsName :
    (p q : FilePath) (n : List ℕ)
    → IsName q n
    → join p q ≡ record p { components = p.components ++ n ∷ [] }
unfolding join
join-IsName p q n h = rw (h.relative, join) (rw (h.single) (append_components_name p n h.not_dot))

-- The parent of a path that ends in a plain name is what the name was joined to.
pub parent-join : (p q : FilePath) (n : List ℕ) → IsName q n → parent (join p q) ≡ some p
parent-join p q n h = rw (join-IsName p q n h) (parent-append p n)
