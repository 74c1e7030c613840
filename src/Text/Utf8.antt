-- ===== src/Text/Utf8.antt =====
-- The invariant of Rust's `String`: its bytes are well-formed UTF-8.
use petty.Shared.{ℕ, ◌≤◌, ◌≡◌, Bool, true, ◌&&◌, [], ◌∷◌, ◌++◌, leb, arith}
use petty.Text.{Str}

abbrev pub IsTail : ℕ → Type 0
IsTail b = (128 ≤ b) × (b ≤ 191)

-- The encodings of characters, of one to four bytes, without those that are too long, of surrogates or
-- past U+10FFFF.
pub data IsUtf8 : Str → Type 0 where
  empty : IsUtf8 []
  one : (a : ℕ) (s : Str) → a ≤ 127 → IsUtf8 s → IsUtf8 (a ∷ s)
  two : (a b : ℕ) (s : Str) → (194 ≤ a) × (a ≤ 223) → IsTail b → IsUtf8 s → IsUtf8 (a ∷ b ∷ s)
  three :
      (a b c : ℕ) (s : Str)
      → (224 ≤ a) × (a ≤ 239)
      → (a ≡ 224 → 160 ≤ b) × (a ≡ 237 → b ≤ 159)
      → IsTail b
      → IsTail c
      → IsUtf8 s
      → IsUtf8 (a ∷ b ∷ c ∷ s)
  four :
      (a b c d : ℕ) (s : Str)
      → (240 ≤ a) × (a ≤ 244)
      → (a ≡ 240 → 144 ≤ b) × (a ≡ 244 → b ≤ 143)
      → IsTail b
      → IsTail c
      → IsTail d
      → IsUtf8 s
      → IsUtf8 (a ∷ b ∷ c ∷ d ∷ s)

pub IsUtf8-append : (s t : Str) → IsUtf8 s → IsUtf8 t → IsUtf8 (s ++ t)
IsUtf8-append [] t empty w = w
IsUtf8-append _ t (one a s h v) w = one a (s ++ t) h (IsUtf8-append s t v w)
IsUtf8-append _ t (two a b s h i v) w = two a b (s ++ t) h i (IsUtf8-append s t v w)
IsUtf8-append _ t (three a b c s h k i j v) w = three a b c (s ++ t) h k i j (IsUtf8-append s t v w)
IsUtf8-append _ t (four a b c d s h k i j m v) w =
    four a b c d (s ++ t) h k i j m (IsUtf8-append s t v w)

-- A text of ASCII.
abbrev pub is_ascii : Str → Bool
is_ascii [] = true
is_ascii (a ∷ s) = leb a 127 && is_ascii s

pub is_ascii-IsUtf8 : (s : Str) → is_ascii s ≡ true → IsUtf8 s
is_ascii-IsUtf8 [] h = empty
is_ascii-IsUtf8 (a ∷ s) h = one a s (ground arith) (is_ascii-IsUtf8 s (ground arith))
