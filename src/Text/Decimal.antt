-- ===== src/Text/Decimal.antt =====
-- Decimal text: `format!("{}", n)` of an unsigned integer, and `str::parse::<u32>`.
use petty.Shared.{
  ℕ, zero, suc, ◌+◌, ◌-◌, ◌*◌, ◌/◌, ◌%◌, ◌≤◌, ◌<◌, ◌≡◌, refl, ◌∙◌, ◌&&◌, List, [], ◌∷◌, ◌++◌, sym,
  append_assoc, Option, none, some, arith, leb, ltb, ◌==◌, if◌then◌else◌, Bool-cases, inl, inr,
}

-- The digits of `n` in front of `rest`, the last digit first. Each round divides by ten, so `n + 1`
-- rounds are enough.
pub digits_before : ℕ → ℕ → List ℕ → List ℕ
digits_before zero n rest = rest
digits_before (suc fuel) n rest =
    let more = digits_before fuel (n / 10) ((48 + n % 10) ∷ rest) in
    if ltb n 10 then (48 + n) ∷ rest else more

unfoldable pub decimal : ℕ → List ℕ
unfolding digits_before
decimal n = digits_before (suc n) n []

abbrev pub u32_max : ℕ
u32_max = 4294967295

abbrev pub u16_max : ℕ
u16_max = 65535

-- `usize` has 64 bits.
abbrev pub usize_max : ℕ
usize_max = 18446744073709551615

-- The loop of `from_str` of an unsigned integer up to `max`: a byte that is no digit, or a value past
-- `max`, is an error.
pub parse_digits : ℕ → ℕ → List ℕ → Option ℕ
parse_digits max acc [] = some acc
parse_digits max acc (c ∷ s) =
    let rest = parse_digits max (acc * 10 + (c - 48)) s in
    if leb 48 c && leb c 57 && leb (acc * 10 + (c - 48)) max then rest else none

-- A sign alone is an error, and `+` may stand in front of the digits.
parse_signed : ℕ → List ℕ → Option ℕ
parse_signed max [] = none
parse_signed max (c ∷ s) = parse_digits max 0 (c ∷ s)

unfoldable pub parse_unsigned : ℕ → List ℕ → Option ℕ
unfolding parse_signed parse_digits
parse_unsigned max [] = none
parse_unsigned max (c ∷ s) = if c == b'+' then parse_signed max s else parse_signed max (c ∷ s)

unfoldable pub parse_u32 : List ℕ → Option ℕ
unfolding parse_unsigned
parse_u32 s = parse_unsigned u32_max s

parse_digits_digit :
    (max q r : ℕ) (s : List ℕ)
    → r < 10
    → q * 10 + r ≤ max
    → parse_digits max q ((48 + r) ∷ s) ≡ parse_digits max (q * 10 + r) s
unfolding parse_digits
parse_digits_digit max q r s h b = let e : 48 + r - 48 ≡ r = omega arith in rw e (ground arith)

-- Reading the digits of `n` takes the accumulator to `n` before `rest` is read.
parse_digits-digits_before :
    (max fuel n : ℕ) (rest : List ℕ)
    → n < fuel
    → n ≤ max
    → parse_digits max 0 (digits_before fuel n rest) ≡ parse_digits max n rest
unfolding digits_before
parse_digits-digits_before max zero n rest h b = absurd (omega arith)
parse_digits-digits_before max (suc fuel) n rest h b = ground (
  arith,
  parse_digits-digits_before max fuel (n / 10) ((48 + n % 10) ∷ rest),
  parse_digits_digit max (n / 10) (n % 10) rest,
  parse_digits_digit max 0 n rest,
)

-- The first byte of a decimal is a digit.
digits_before-head :
    (fuel n : ℕ) (rest : List ℕ)
    → n < fuel
    → (c : ℕ) × (s : List ℕ) × (digits_before fuel n rest ≡ c ∷ s) × (48 ≤ c)
unfolding digits_before
digits_before-head zero n rest h = absurd (omega arith)
digits_before-head (suc fuel) n rest h = elim (Bool-cases (ltb n 10)) [
  | inl small ↦ (48 + n, rest, rw small, omega arith)
  | inr large ↦ rw large (digits_before-head fuel (n / 10) ((48 + n % 10) ∷ rest) (ground arith))
]

parse_unsigned_digits :
    (max c : ℕ) (s : List ℕ) → 48 ≤ c → parse_unsigned max (c ∷ s) ≡ parse_digits max 0 (c ∷ s)
unfolding parse_unsigned
parse_unsigned_digits max c s h = ground arith

-- Every number up to `max` is read back from its decimal text.
pub parse_unsigned-decimal : (max n : ℕ) → n ≤ max → parse_unsigned max (decimal n) ≡ some n
unfolding decimal
parse_unsigned-decimal max n b =
    let (c, s, e, h) = digits_before-head (suc n) n [] (omega arith) in
    rw e (
      parse_unsigned_digits max c s h
      ∙ (rw (← e) (parse_digits-digits_before max (suc n) n [] (omega arith) b ∙ done)))
  where
    done : parse_digits max n [] ≡ some n
    done = unfold parse_digits in refl

pub parse_u32-decimal : (n : ℕ) → n ≤ u32_max → parse_u32 (decimal n) ≡ some n
unfolding parse_u32
parse_u32-decimal n b = parse_unsigned-decimal u32_max n b

-- A decimal ends in a digit, and has a digit in front of that or nothing.
digits_before-last :
    (fuel n : ℕ) (rest : List ℕ)
    → n < fuel
    → (s : List ℕ) × (r : ℕ) × (r < 10) × (digits_before fuel n rest ≡ s ++ (48 + r) ∷ rest)
unfolding digits_before
digits_before-last zero n rest h = absurd (omega arith)
digits_before-last (suc fuel) n rest h = elim (Bool-cases (ltb n 10)) [
  | inl small ↦ ([], n, ground arith, rw small refl)
  | inr large ↦
      let (s, r, b, e) = digits_before-last fuel (n / 10) ((48 + n % 10) ∷ rest) (ground arith) in
      (
        s ++ (48 + r) ∷ [],
        n % 10,
        omega arith,
        rw large (e ∙ sym (append_assoc s ((48 + r) ∷ []) ((48 + n % 10) ∷ rest))),
      )
]

pub decimal-last : (n : ℕ) → (s : List ℕ) × (r : ℕ) × (r < 10) × (decimal n ≡ s ++ (48 + r) ∷ [])
unfolding decimal
decimal-last n = digits_before-last (suc n) n [] (omega arith)
