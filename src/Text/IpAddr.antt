-- ===== src/Text/IpAddr.antt =====
-- `str::parse::<IpAddr>` of the standard library: its parser of addresses, in its order.
use petty.Shared.{
  ℕ, zero, suc, ◌+◌, ◌-◌, ◌*◌, ◌≡◌, refl, Bool, true, false, ◌&&◌, not, List, [], ◌∷◌, ◌++◌, Option,
  none, some, leb, ltb, ◌==◌, if◌then◌else◌, length,
}
use petty.Text.{Str, lit}

-- Four bytes, or eight groups of 16 bits.
pub data IpAddr : Type 0 where
  v4 : ℕ → ℕ → ℕ → ℕ → IpAddr
  v6 : List ℕ → IpAddr

-- `char::to_digit`, 16 and more for no digit.
digit_of : ℕ → ℕ
digit_of c =
    if leb 48 c && leb c 57
    then c - 48
    else if leb 97 c && leb c 102
    then c - 87
    else if leb 65 c && leb c 70
    then c - 55
    else 16

-- The digits in front, their value, and the rest. One more digit than there may be is an error.
read_digits : ℕ → ℕ → ℕ → ℕ → Str → Option (ℕ × ℕ × Str)
unfolding digit_of
read_digits radix room value count [] = some (value, count, [])
read_digits radix zero value count (c ∷ s) =
    if ltb (digit_of c) radix then none else some (value, count, c ∷ s)
read_digits radix (suc room) value count (c ∷ s) =
    let rest = read_digits radix room (value * radix + digit_of c) (suc count) s in
    if ltb (digit_of c) radix then rest else some (value, count, c ∷ s)

leading_zero : Str → Bool
leading_zero [] = false
leading_zero (c ∷ s) = c == 48

checked : ℕ → Bool → Str → Option (ℕ × ℕ × Str) → Option (ℕ × Str)
checked limit zero_prefix s none = none
checked limit zero_prefix s (some (value, count, rest)) =
    if count == 0
    then none
    else if ltb limit value
    then none
    else if not zero_prefix && leading_zero s && ltb 1 count
    then none
    else some (value, rest)

-- `read_number`, with the largest value of its type.
read_number : ℕ → ℕ → ℕ → Bool → Str → Option (ℕ × Str)
unfolding read_digits leading_zero checked
read_number radix room limit zero_prefix s =
    checked limit zero_prefix s (read_digits radix room 0 0 s)

-- `read_given_char`.
read_char : ℕ → Str → Option Str
read_char d [] = none
read_char d (c ∷ s) = if c == d then some s else none

-- `read_separator`: nothing in front of the first.
separated {ℓ} : {A : Type ℓ} → Bool → ℕ → (Str → Option A) → Str → Option A
unfolding read_char
separated true d f s = f s
separated false d f s = elim (read_char d s) [ none ↦ none | some r ↦ f r ]

byte_after : Bool → Str → Option (ℕ × Str)
unfolding separated read_number
byte_after is_first = separated is_first b'.' (read_number 10 3 255 false)

read_ipv4 : Str → Option (List ℕ × Str)
unfolding byte_after
read_ipv4 s = elim (byte_after true s) [
  | none ↦ none
  | some (a, s₁) ↦ elim (byte_after false s₁) [
    | none ↦ none
    | some (b, s₂) ↦ elim (byte_after false s₂) [
      | none ↦ none
      | some (c, s₃) ↦ elim (byte_after false s₃) [
        | none ↦ none
        | some (d, s₄) ↦ some (a ∷ b ∷ c ∷ d ∷ [], s₄)
      ]
    ]
  ]
]

abbrev two_groups : List ℕ → List ℕ
two_groups (a ∷ b ∷ c ∷ d ∷ []) = (a * 256 + b) ∷ (c * 256 + d) ∷ []
two_groups _ = []

-- `read_groups`: the groups, whether the last two are an IPv4 address, and the rest. An IPv4 address
-- needs two places.
read_groups : ℕ → Bool → Str → List ℕ × Bool × Str
unfolding separated read_ipv4 read_number
read_groups zero is_first s = ([], false, s)
read_groups (suc limit) is_first s =
    elim (if limit == 0 then none else separated is_first b':' read_ipv4 s) [
      | some (bytes, r) ↦ (two_groups bytes, true, r)
      | none ↦ elim (separated is_first b':' (read_number 16 4 65535 true) s) [
        | none ↦ ([], false, s)
        | some (g, r) ↦ let (gs, v, r') = read_groups limit false r in (g ∷ gs, v, r')
      ]
    ]

zeros : ℕ → List ℕ
zeros zero = []
zeros (suc n) = 0 ∷ zeros n

-- The groups in front, two colons, and the groups behind them.
compressed : List ℕ → Str → Option (List ℕ × Str)
unfolding read_char read_groups zeros
compressed head s = elim (read_char b':' s) [
  | none ↦ none
  | some s₁ ↦ elim (read_char b':' s₁) [
    | none ↦ none
    | some s₂ ↦
        let (tail, _, r) = read_groups (7 - length head) true s₂ in
        some (head ++ zeros (8 - length head - length tail) ++ tail, r)
  ]
]

after_head : List ℕ × Bool × Str → Option (List ℕ × Str)
unfolding compressed
after_head (head, is_v4, s) =
    if length head == 8 then some (head, s) else if is_v4 then none else compressed head s

read_ipv6 : Str → Option (List ℕ × Str)
unfolding read_groups after_head
read_ipv6 s = after_head (read_groups 8 true s)

abbrev v4_of : List ℕ → IpAddr
v4_of (a ∷ b ∷ c ∷ d ∷ []) = v4 a b c d
v4_of gs = v6 gs

-- Nothing may be left behind the address.
whole : IpAddr → Str → Option IpAddr
whole a [] = some a
whole a (c ∷ s) = none

unfoldable pub parse_ip : Str → Option IpAddr
unfolding read_ipv4 read_ipv6 whole
parse_ip s = elim (read_ipv4 s) [
  | some (bytes, r) ↦ whole (v4_of bytes) r
  | none ↦ elim (read_ipv6 s) [ none ↦ none | some (groups, r) ↦ whole (v6 groups) r ]
]

plain : parse_ip (lit "127.0.0.1") ≡ some (v4 127 0 0 1)
unfolding parse_ip lit
plain = refl

no_leading_zero : parse_ip (lit "127.0.0.01") ≡ none
unfolding parse_ip lit
no_leading_zero = refl

loopback : parse_ip (lit "::1") ≡ some (v6 (0 ∷ 0 ∷ 0 ∷ 0 ∷ 0 ∷ 0 ∷ 0 ∷ 1 ∷ []))
unfolding parse_ip lit
loopback = refl

mapped : parse_ip (lit "::ffff:1.2.3.4") ≡ some (v6 (0 ∷ 0 ∷ 0 ∷ 0 ∷ 0 ∷ 65535 ∷ 258 ∷ 772 ∷ []))
unfolding parse_ip lit
mapped = refl

too_long : parse_ip (lit "1:2:3:4:5:6:7:8:9") ≡ none
unfolding parse_ip lit
too_long = refl
