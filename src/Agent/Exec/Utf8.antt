-- ===== src/Agent/Exec/Utf8.antt =====
-- The output that was cut is text still.
use petty.Shared.{
  ℕ, zero, suc, ◌+◌, ◌≤◌, ◌≡◌, refl, true, [], length, take, arith, leb, Bool-cases, inl, inr,
  length-append, length-take_of_le,
}
use petty.Text.{Str, lit}
use petty.Text.Utf8.{IsUtf8, empty, one, two, three, four, IsUtf8-append, is_ascii-IsUtf8}
use petty.Agent.Exec.{
  is_char_boundary, starts_at, truncate_output, truncation_note, cut_end, cut_end-LastBoundary,
}

starts_at-boundary : (s : Str) (n : ℕ) → starts_at s n ≡ true → is_char_boundary s n ≡ true
unfolding is_char_boundary
starts_at-boundary s zero h = refl
starts_at-boundary s (suc n) h = h

take-IsUtf8 : (s : Str) (k : ℕ) → IsUtf8 s → is_char_boundary s k ≡ true → IsUtf8 (take k s)
unfolding is_char_boundary
take-IsUtf8 s zero v h = empty
take-IsUtf8 [] (suc k) empty h = empty
take-IsUtf8 _ (suc k) (one a s i v) h =
    one a (take k s) i (take-IsUtf8 s k v (starts_at-boundary s k h))
take-IsUtf8 _ (suc zero) (two a b s i j v) h = absurd (ground arith)
take-IsUtf8 _ (suc (suc k)) (two a b s i j v) h =
    two a b (take k s) i j (take-IsUtf8 s k v (starts_at-boundary s k h))
take-IsUtf8 _ (suc zero) (three a b c s i m j n v) h = absurd (ground arith)
take-IsUtf8 _ (suc (suc zero)) (three a b c s i m j n v) h = absurd (ground arith)
take-IsUtf8 _ (suc (suc (suc k))) (three a b c s i m j n v) h =
    three a b c (take k s) i m j n (take-IsUtf8 s k v (starts_at-boundary s k h))
take-IsUtf8 _ (suc zero) (four a b c d s i m j n o v) h = absurd (ground arith)
take-IsUtf8 _ (suc (suc zero)) (four a b c d s i m j n o v) h = absurd (ground arith)
take-IsUtf8 _ (suc (suc (suc zero))) (four a b c d s i m j n o v) h = absurd (ground arith)
take-IsUtf8 _ (suc (suc (suc (suc k)))) (four a b c d s i m j n o v) h =
    four a b c d (take k s) i m j n o (take-IsUtf8 s k v (starts_at-boundary s k h))

truncation_note-IsUtf8 : IsUtf8 truncation_note
truncation_note-IsUtf8 = is_ascii-IsUtf8 truncation_note (unfold lit in refl)

truncation_note-length : length truncation_note ≡ 23
unfolding lit
truncation_note-length = refl

-- Where the output is well-formed UTF-8, so is what `truncate_output` gives, which has no more bytes
-- than the limit and the note together.
pub truncate_output-IsUtf8 :
    (s : Str) (limit : ℕ)
    → IsUtf8 s
    → IsUtf8 (truncate_output s limit) × (length (truncate_output s limit) ≤ limit + 23)
unfolding truncate_output
truncate_output-IsUtf8 s limit v = elim (Bool-cases (leb (length s) limit)) [
  | inl h ↦ rw h (v, ground arith)
  | inr h ↦
      let w = cut_end-LastBoundary s limit in
      rw h (
        IsUtf8-append (take (cut_end s limit) s) truncation_note
            (take-IsUtf8 s (cut_end s limit) v w.boundary) truncation_note-IsUtf8,
        ground (
          arith,
          length-append (take (cut_end s limit) s) truncation_note,
          length-take_of_le (cut_end s limit) s (ground (arith, w.within)),
          truncation_note-length,
          w.within,
        ),
      )
]
