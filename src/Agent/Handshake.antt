-- ===== src/Agent/Handshake.antt =====
-- crates/bouvet-agent/src/main.rs: what the agent makes of the first line of a connection, and the
-- client's handshake of crates/bouvet-core/src/client.rs.
use petty.Shared.{
  ℕ, ◌+◌, ◌≤◌, ◌≡◌, refl, ◌∙◌, ap, [], ◌∷◌, ◌++◌, Option, none, some, arith, append_assoc,
}
use petty.Shared.Result.{ok}
use petty.Text.{Str, lit, strip_prefix, starts_with}
use petty.Text.Decimal.{decimal, parse_u32, parse_u32-decimal, decimal-last, u32_max}
use petty.Text.Trim.{trim, trim_line}
use petty.Core.Client.{check_handshake}

-- What the first line leads to: the end of the connection, the line that answers a handshake, the
-- trimmed text of a request, or nothing.
pub data FirstLine : Type 0 where
  closed skipped : FirstLine
  answered requested : Str → FirstLine

abbrev default_port : ℕ
default_port = 52

-- `port_str.parse()`, or the default.
pub port_of : Str → ℕ
port_of port_str = elim (parse_u32 port_str) [ none ↦ default_port | some p ↦ p ]

abbrev pub answer : ℕ → Str
answer port = lit "OK " ++ decimal port ++ lit "\n"

abbrev request_or_blank : Str → FirstLine
request_or_blank [] = skipped
request_or_blank (c ∷ s) = requested (c ∷ s)

unfoldable pub on_line : Str → FirstLine
unfolding port_of
on_line trimmed = elim (strip_prefix trimmed (lit "CONNECT ")) [
  | some port_str ↦ answered (answer (port_of port_str))
  | none ↦ request_or_blank trimmed
]

-- The first part of `handle_connection`. A read that gives nothing is the end of the stream.
unfoldable pub first_line : Str → FirstLine
unfolding on_line
first_line [] = closed
first_line (c ∷ s) = on_line (trim (c ∷ s))

abbrev pub connect_line : ℕ → Str
connect_line port = lit "CONNECT " ++ decimal port ++ lit "\n"

trim-connect_line : (port : ℕ) → trim (connect_line port) ≡ lit "CONNECT " ++ decimal port
unfolding lit
trim-connect_line port =
    let (s, r, b, e) = decimal-last port in
    rw e (
      ap (λ x. trim (lit "CONNECT " ++ x)) (append_assoc s ((48 + r) ∷ []) (10 ∷ []))
      ∙ trim_line 67 (48 + r) (lit "ONNECT " ++ s) (record { ascii = omega arith; visible = refl })
          (record { ascii = omega (arith, b); visible = ground (arith, b) }))

on_line-port :
    (port : ℕ) → port ≤ u32_max → on_line (lit "CONNECT " ++ decimal port) ≡ answered (answer port)
unfolding on_line lit strip_prefix
on_line-port port b = rw (parse_u32-decimal port b, port_of) refl

-- The agent answers the handshake for a port of 32 bits with that port, and the client takes the
-- answer, as a client whose next request has id 1.
pub first_line-handshake :
    (port : ℕ)
    → port ≤ u32_max
    → (first_line (connect_line port) ≡ answered (answer port))
      × (check_handshake (answer port) ≡ ok (record { next_id = 1 }))
unfolding first_line check_handshake lit starts_with strip_prefix
first_line-handshake port b = (ap on_line (trim-connect_line port) ∙ on_line-port port b, refl)

-- A request on the first line is the line without the white space around it.
pub first_line-requested : (line text : Str) → first_line line ≡ requested text → trim line ≡ text
unfolding first_line
first_line-requested [] text h = absurd (ground arith)
first_line-requested (c ∷ s) text h =
    whole (trim (c ∷ s)) (strip_prefix (trim (c ∷ s)) (lit "CONNECT ")) h
  where
    whole :
        (t : Str) (o : Option Str)
        → elim o as (λ _. FirstLine) [
          | some port_str ↦ answered (answer (port_of port_str))
          | none ↦ request_or_blank t
        ]
          ≡ requested text
        → t ≡ text
    whole t (some p) h = absurd (ground arith)
    whole [] none h = absurd (ground arith)
    whole (c ∷ s) none h = ground arith
