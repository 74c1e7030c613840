-- ===== src/Text/Trim.antt =====
-- Rust's `str::trim`: white space of Unicode off both ends of a text.
use petty.Shared.{
  ℕ, ◌≤◌, ◌≡◌, refl, ◌∙◌, ap, sym, reverse, reverse-append, reverse-reverse, Bool, true, false,
  ◌&&◌, ◌||◌, [], ◌∷◌, ◌++◌, leb, ◌==◌, arith,
}
use petty.Text.{Str}

-- The characters with the property White_Space, by the length of their encoding.
abbrev is_white : ℕ → Bool
is_white b = (leb 9 b && leb b 13) || (b == 32)

abbrev is_white_pair : ℕ → ℕ → Bool
is_white_pair b c = (b == 194) && ((c == 133) || (c == 160))

abbrev is_white_triple : ℕ → ℕ → ℕ → Bool
is_white_triple b c d =
    ((b == 225) && (c == 154) && (d == 128))
    || ((b == 226)
        && (c == 128)
        && ((leb 128 d && leb d 138) || (d == 168) || (d == 169) || (d == 175)))
    || ((b == 226) && (c == 129) && (d == 159))
    || ((b == 227) && (c == 128) && (d == 128))

module _ (pair : ℕ → ℕ → Bool) (triple : ℕ → ℕ → ℕ → Bool) where
  -- White space off the front, for encodings of two and three bytes that are told so.
  strip_white : Str → Str
  strip_white [] = []
  strip_white (b ∷ []) = elim (is_white b) [ true ↦ [] | false ↦ b ∷ [] ]
  strip_white (b ∷ c ∷ []) = elim (is_white b) [
    | true ↦ strip_white (c ∷ [])
    | false ↦ elim (pair b c) [ true ↦ [] | false ↦ b ∷ c ∷ [] ]
  ]
  strip_white (b ∷ c ∷ d ∷ s) = elim (is_white b) [
    | true ↦ strip_white (c ∷ d ∷ s)
    | false ↦ elim (pair b c) [
      | true ↦ strip_white (d ∷ s)
      | false ↦ elim (triple b c d) [ true ↦ strip_white s | false ↦ b ∷ c ∷ d ∷ s ]
    ]
  ]

-- `str::trim`.
unfoldable pub trim : Str → Str
unfolding strip_white
trim s = reverse (
    strip_white (λ c b. is_white_pair b c) (λ d c b. is_white_triple b c d)
      (reverse (strip_white is_white_pair is_white_triple s)))

-- A byte of ASCII that is no white space.
pub record IsInk (b : ℕ) : Type 0 where
  pub ascii : b ≤ 127
  pub visible : is_white b ≡ false

module _ (pair : ℕ → ℕ → Bool) (triple : ℕ → ℕ → ℕ → Bool) where
  strip_white-ink :
      (b : ℕ) (s : Str)
      → is_white b ≡ false
      → ((c : ℕ) → pair b c ≡ false)
      → ((c d : ℕ) → triple b c d ≡ false)
      → strip_white pair triple (b ∷ s) ≡ b ∷ s
  unfolding strip_white
  strip_white-ink b [] i p t = rw (i, strip_white) refl
  strip_white-ink b (c ∷ []) i p t = rw (i, p c, strip_white) refl
  strip_white-ink b (c ∷ d ∷ s) i p t = rw (i, p c, t c d, strip_white) refl

  strip_white-newline : (s : Str) → strip_white pair triple (10 ∷ s) ≡ strip_white pair triple s
  unfolding strip_white
  strip_white-newline [] = refl
  strip_white-newline (c ∷ []) = refl
  strip_white-newline (c ∷ d ∷ s) = refl

strip_front :
    (b : ℕ) (s : Str) → IsInk b → strip_white is_white_pair is_white_triple (b ∷ s) ≡ b ∷ s
strip_front b s i =
    strip_white-ink is_white_pair is_white_triple b s i.visible (λ c. ground (arith, i.ascii))
      (λ c d. ground (arith, i.ascii))

abbrev strip_reversed : Str → Str
strip_reversed = strip_white (λ c b. is_white_pair b c) (λ d c b. is_white_triple b c d)

strip_back : (b : ℕ) (s : Str) → IsInk b → strip_reversed (10 ∷ b ∷ s) ≡ b ∷ s
strip_back b s i =
    strip_white-newline _ _ (b ∷ s)
    ∙ strip_white-ink _ _ b s i.visible (λ c. ground (arith, i.ascii))
        (λ c d. ground (arith, i.ascii))

-- A line that begins and ends with visible ASCII loses its line feed, and nothing else.
pub trim_line :
    (a b : ℕ) (s : Str) → IsInk a → IsInk b → trim (a ∷ s ++ b ∷ 10 ∷ []) ≡ a ∷ s ++ b ∷ []
unfolding trim
trim_line a b s i k = rw (strip_front a (s ++ b ∷ 10 ∷ []) i) (
    ap (λ x. reverse (strip_reversed x)) (reverse-append (a ∷ s) (b ∷ 10 ∷ []))
    ∙ (ap reverse (strip_back b (reverse (a ∷ s)) k)
        ∙ (ap reverse (sym (reverse-append (a ∷ s) (b ∷ []))) ∙ reverse-reverse (a ∷ s ++ b ∷ []))))
