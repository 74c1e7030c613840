-- ===== src/Agent/Exec.antt =====
-- crates/bouvet-agent/src/exec.rs: how the output of a command is cut to a size.
pub mod Utf8
use petty.Shared.{
  ℕ, zero, suc, ◌≤◌, ◌<◌, ◌≡◌, refl, ◌⊎◌, inl, inr, Bool, true, false, not, ◌&&◌, [], ◌∷◌, ◌++◌,
  leb, ltb, if◌then◌else◌, length, take, arith, Bool-cases,
}
use petty.Text.{Str, lit}

-- A byte inside a character's encoding, after its first.
abbrev is_continuation : ℕ → Bool
is_continuation b = leb 128 b && ltb b 192

-- Whether a character starts at the index, or the text ends there.
starts_at : Str → ℕ → Bool
starts_at [] zero = true
starts_at [] (suc n) = false
starts_at (c ∷ s) zero = not (is_continuation c)
starts_at (c ∷ s) (suc n) = starts_at s n

-- `str::is_char_boundary`.
unfoldable pub is_char_boundary : Str → ℕ → Bool
unfolding starts_at
is_char_boundary s zero = true
is_char_boundary s (suc n) = starts_at s (suc n)

-- The loop that goes back from an index to a boundary.
cut_end : Str → ℕ → ℕ
cut_end s zero = zero
cut_end s (suc n) = let rest = cut_end s n in if is_char_boundary s (suc n) then suc n else rest

abbrev pub max_output_size : ℕ
max_output_size = 1048576

abbrev pub truncation_note : Str
truncation_note = lit "\n... [output truncated]"

unfoldable pub truncate_output : Str → ℕ → Str
unfolding cut_end
truncate_output s max_bytes =
    if leb (length s) max_bytes then s else take (cut_end s max_bytes) s ++ truncation_note

-- The last boundary that is not past the limit.
pub record LastBoundary (s : Str) (limit k : ℕ) : Type 0 where
  pub within : k ≤ limit
  pub boundary : is_char_boundary s k ≡ true
  pub last : (j : ℕ) → k < j → j ≤ limit → is_char_boundary s j ≡ false

cut_end-LastBoundary : (s : Str) (n : ℕ) → LastBoundary s n (cut_end s n)
unfolding cut_end
cut_end-LastBoundary s zero = record {
  within = omega arith;
  boundary = unfold is_char_boundary in refl;
  last = λ j a b. absurd (omega arith);
}
cut_end-LastBoundary s (suc n) = elim (Bool-cases (is_char_boundary s (suc n))) [
  | inl h ↦
      rw (h, cut_end)
        (record { within = omega arith; boundary = h; last = λ j a b. absurd (omega arith) })
  | inr h ↦
      let v = cut_end-LastBoundary s n in
      rw (h, cut_end)
        (record {
          within = omega (arith, v.within);
          boundary = v.boundary;
          last = λ j a b. ground (arith, v.last j a, h);
        })
]

-- A text within the limit stays as it is. A longer one is cut at the last character boundary that
-- is not past the limit, and the note is put behind it.
pub truncate_output-LastBoundary :
    (s : Str) (limit : ℕ)
    → ((length s ≤ limit) × (truncate_output s limit ≡ s))
      ⊎ ((limit < length s)
          × ((k : ℕ) × LastBoundary s limit k
              × (truncate_output s limit ≡ take k s ++ truncation_note)))
unfolding truncate_output
truncate_output-LastBoundary s limit = elim (Bool-cases (leb (length s) limit)) [
  | inl h ↦ inl (ground arith, rw h refl)
  | inr h ↦ inr (ground arith, (cut_end s limit, cut_end-LastBoundary s limit, rw h refl))
]
