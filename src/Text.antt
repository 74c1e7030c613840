-- ===== src/Text.antt =====
-- Rust's `String` and `&str` as their UTF-8 bytes, and what the crates use of them.
pub mod Decimal
pub mod FilePath
pub mod IpAddr
pub mod Duration
pub mod Trim
pub mod Utf8
use Prim.Native.Char.{code}
use Prim.Native.String.{String}
use petty.Shared.{
  ℕ, ◌≡◌, refl, ap, ◌↔◌, Bool, true, false, ◌&&◌, List, [], ◌∷◌, ◌++◌, Option, none, some, arith,
  ◌+◌, leb, ◌==◌, ==_iff, if◌then◌else◌,
}

abbrev pub Str : Type 0
Str = List ℕ

-- A literal of the source. All of them are ASCII, so a character is one byte.
unfoldable pub lit : String → Str
lit String.[] = []
lit (String.◌∷◌ c s) = code c ∷ lit s

unfoldable pub eq_str : Str → Str → Bool
eq_str [] [] = true
eq_str [] (d ∷ t) = false
eq_str (c ∷ s) [] = false
eq_str (c ∷ s) (d ∷ t) = (c == d) && eq_str s t

pub eq_str→eq : (s t : Str) → eq_str s t ≡ true → s ≡ t
unfolding eq_str
eq_str→eq [] [] h = refl
eq_str→eq [] (d ∷ t) h = ground arith
eq_str→eq (c ∷ s) [] h = ground arith
eq_str→eq (c ∷ s) (d ∷ t) h = ground (arith, eq_str→eq s t)

pub eq_str_refl : (s : Str) → eq_str s s ≡ true
unfolding eq_str
eq_str_refl [] = refl
eq_str_refl (c ∷ s) = ground (arith, eq_str_refl s)

pub eq_str_iff : (s t : Str) → (eq_str s t ≡ true) ↔ (s ≡ t)
eq_str_iff s t = (eq_str→eq s t, λ e. ground (arith, eq_str_refl s))

-- `str::strip_prefix`.
unfoldable pub strip_prefix : Str → Str → Option Str
strip_prefix s [] = some s
strip_prefix [] (d ∷ p) = none
strip_prefix (c ∷ s) (d ∷ p) = let rest = strip_prefix s p in if c == d then rest else none

pub strip_prefix-append : (p s : Str) → strip_prefix (p ++ s) p ≡ some s
unfolding strip_prefix
strip_prefix-append [] s = refl
strip_prefix-append (c ∷ p) s = ground (arith, strip_prefix-append p s)

-- `str::starts_with`.
unfoldable pub starts_with : Str → Str → Bool
starts_with s p = elim (strip_prefix s p) [ none ↦ false | some _ ↦ true ]

pub starts_with-append : (p s : Str) → starts_with (p ++ s) p ≡ true
unfolding starts_with
starts_with-append p s = rw (strip_prefix-append p s, starts_with)

-- `to_lowercase` on the letters of ASCII. The crates compare its result with words of ASCII letters
-- other than k, and no other character lowers to one of those alone.
abbrev pub lower : ℕ → ℕ
lower b = if leb 65 b && leb b 90 then b + 32 else b
