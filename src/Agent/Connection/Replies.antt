-- ===== src/Agent/Connection/Replies.antt =====
-- How many replies a connection sends.
use petty.Shared.{
  ℕ, suc, ◌+◌, ◌≡◌, refl, ◌++◌, List, [], ◌∷◌, none, some, Option, arith, length, map, All, subst,
  true, false, ◌≤◌, ◌<◌, ◌∙◌,
}
use petty.Shared.Result.{Result, ok, err, ◌>>◌, then_with}
use petty.Text.{Str, lit, strip_prefix}
use petty.Text.Decimal.{u32_max}
use petty.Agent.Exec.{is_char_boundary}
use petty.Text.Trim.{trim}
use petty.Agent.Protocol.{Request, Response}
use petty.Agent.Handler.{handle_request}
use petty.Agent.Os.{Os, Json}
use petty.Agent.Handshake.{
  FirstLine, closed, skipped, answered, requested, first_line, on_line, port_of,
  first_line-requested, answer, connect_line, first_line-handshake,
}
use petty.Agent.Connection.{
  Connection, Socket, Read, Failure, panicked, previewable, respond_to, send, encode_and_send,
  answer_request, serve, first, handle_connection,
}

-- The lines up to the first empty one, which ends the stream, that are not blank.
abbrev pub requests : List Str → ℕ
requests [] = 0
requests ([] ∷ lines) = 0
requests ((b ∷ line) ∷ lines) = elim (trim (b ∷ line)) [
  | [] ↦ requests lines
  | _ ∷ _ ↦ suc (requests lines)
]

-- The replies to a first line, and to those after it.
abbrev replies_from : FirstLine → List Str → ℕ
replies_from closed lines = 0
replies_from skipped lines = requests lines
replies_from (answered a) lines = suc (requests lines)
replies_from (requested a) lines = suc (requests lines)

-- Of the first line too: a line that is not blank has one reply.
replies_from-requests :
    (line : Str) (lines : List Str) → replies_from (first_line line) lines ≡ requests (line ∷ lines)
unfolding first_line on_line strip_prefix lit
replies_from-requests [] lines = refl
replies_from-requests (b ∷ line) lines = by_text (trim (b ∷ line))
  where
    by_text :
        (t : Str)
        → replies_from (on_line t) lines
          ≡ elim t as (λ _. ℕ) [ [] ↦ requests lines | _ ∷ _ ↦ suc (requests lines) ]
    by_text [] = refl
    by_text (c ∷ t) = by_prefix (strip_prefix (c ∷ t) (lit "CONNECT "))
      where
        by_prefix :
            (o : Option Str)
            → replies_from
                (elim o as (λ _. FirstLine) [
                  | some port_str ↦ answered (answer (port_of port_str))
                  | none ↦ requested (c ∷ t)
                ])
                lines
              ≡ suc (requests lines)
        by_prefix none = refl
        by_prefix (some p) = refl

-- The request on the line, if there is one, can be cut for the log.
abbrev pub Previewable : Str → Type 0
Previewable line = previewable (trim line) ≡ true

module _ (os : Os) (j : Json) (socket : Socket os j) where
  open os use {World}
  open j use {Value}

  answer_request-panicked :
      (t : Str) (c : Connection os j)
      → 200 < length t
      → is_char_boundary t 200 ≡ false
      → answer_request os j socket t c ≡ (err panicked, c)
  unfolding answer_request
  answer_request-panicked t c n m =
      let p : previewable t ≡ false = unfold previewable in ground (arith, n, m) in
      rw (p, answer_request) refl

  respond_to_read :
      (t : Str) (q : Request Value) (w : World)
      → j.from_str t ≡ ok q
      → respond_to os j t w ≡ handle_request os j q w
  unfolding respond_to
  respond_to_read t q w h = rw (h, respond_to) refl

  -- A request that can be read and whose response can be written and sent.
  pub answer_request_ok :
      (t reply : Str) (q : Request Value) (r : Response Value) (w : World) (c : Connection os j)
      → previewable t ≡ true
      → j.from_str t ≡ ok q
      → handle_request os j q c.world ≡ (r, w)
      → j.to_string r ≡ ok reply
      → socket c.sent (reply ++ lit "\n") ≡ none
      → answer_request os j socket t c
        ≡ (ok tt, record { world = w; sent = (reply ++ lit "\n") ∷ c.sent })
  unfolding answer_request encode_and_send send
  answer_request_ok t reply q r w c p f h e k =
      rw (p, answer_request, respond_to_read t q c.world f ∙ h) (rw e (rw k refl))

  -- Every response can be written, and is taken by the socket.
  pub record Works : Type 0 where
    pub text : Response Value → Str
    pub writes : (r : Response Value) → j.to_string r ≡ ok (text r)
    pub takes : (sent : List Str) (s : Str) → socket sent s ≡ none

  -- The step succeeds and has sent `n` lines more.
  abbrev pub Sends : ℕ → Connection os j → Result Failure (Unit {0}) × Connection os j → Type 0
  Sends n c o = (o.0 ≡ ok tt) × (length o.1.sent ≡ length c.sent + n)

  module _ (k : Works) where
    answer-Sends :
        (text : Str) (c : Connection os j)
        → previewable text ≡ true
        → Sends 1 c (answer_request os j socket text c)
    unfolding answer_request encode_and_send send
    answer-Sends text c p =
        rw
          (
            p,
            answer_request,
            k.writes (respond_to os j text c.world).0,
            k.takes c.sent (k.text (respond_to os j text c.world).0 ++ lit "\n"),
          )
          (refl, omega arith)

    send-Sends : (text : Str) (c : Connection os j) → Sends 1 c (send os j socket text c)
    unfolding send
    send-Sends text c = rw (k.takes c.sent text) (refl, omega arith)

    Sends-then :
        (n : ℕ) (c : Connection os j) (o : Result Failure (Unit {0}) × Connection os j)
        (f : Connection os j → Result Failure (Unit {0}) × Connection os j)
        → Sends 1 c o
        → ((d : Connection os j) → Sends n d (f d))
        → Sends (suc n) c (then_with (λ _. f) o)
    Sends-then n c (ok _, d) f h g = ((g d).0, omega (arith, (g d).1, h.1))
    Sends-then n c (err e, d) f h g = absurd (cc (h.0))

    serve-Sends :
        (lines : List Str) (c : Connection os j)
        → All Previewable lines
        → Sends (requests lines) c (serve os j socket (map ok lines) c)
    unfolding serve
    serve-Sends [] c a = (refl, omega arith)
    serve-Sends ([] ∷ lines) c a = (refl, omega arith)
    serve-Sends ((b ∷ line) ∷ lines) c a =
        by_text (trim (b ∷ line)) a.0 (λ d. serve-Sends lines d a.1)
      where
        by_text :
            (t : Str)
            → previewable t ≡ true
            → ((d : Connection os j)
                → Sends (requests lines) d (serve os j socket (map ok lines) d))
            → Sends
                (elim t as (λ _. ℕ) [ [] ↦ requests lines | _ ∷ _ ↦ suc (requests lines) ])
                c
                (elim t as (λ _. Connection os j → Result Failure (Unit {0}) × Connection os j) [
                  | [] ↦ serve os j socket (map ok lines)
                  | b' ∷ text ↦
                      answer_request os j socket (b' ∷ text) >> serve os j socket (map ok lines)
                ]
                  c)
        by_text [] p h = h c
        by_text (b' ∷ text) p h = Sends-then (requests lines) c _ _ (answer-Sends (b' ∷ text) c p) h

    -- Where every response can be written and sent, and no request is cut inside a character for the
    -- log, a connection over lines that can all be read ends without an error, and has sent one line
    -- for each line, the first included, that is not blank, up to the end of the stream.
    pub handle_connection-Sends :
        (lines : List Str) (c : Connection os j)
        → All Previewable lines
        → Sends (requests lines) c (handle_connection os j socket (map ok lines) c)
    unfolding handle_connection
    handle_connection-Sends [] c a = (refl, omega arith)
    handle_connection-Sends (line ∷ lines) c a =
        subst (λ n. Sends n c (handle_connection os j socket (map ok (line ∷ lines)) c))
          (replies_from-requests line lines)
          (by_first (first_line line) refl (λ d. serve-Sends lines d a.1))
      where
        by_first :
            (x : FirstLine)
            → first_line line ≡ x
            → ((d : Connection os j)
                → Sends (requests lines) d (serve os j socket (map ok lines) d))
            → Sends (replies_from x lines) c (first os j socket x (map ok lines) c)
        by_first closed h g = (refl, omega arith)
        by_first skipped h g = g c
        by_first (answered t) h g = Sends-then (requests lines) c _ _ (send-Sends t c) g
        by_first (requested t) h g =
            Sends-then (requests lines) c _ _
              (answer-Sends t c
                (subst (λ x. previewable x ≡ true) (first_line-requested line t h) a.0))
              g

    -- A request of more than 200 bytes whose byte 200 is inside a character ends the agent by a
    -- panic, after any handshake and whatever comes later.
    pub preview-panicked :
        (port : ℕ) (b : ℕ) (line : Str) (reads : List Read) (c : Connection os j)
        → port ≤ u32_max
        → 200 < length (trim (b ∷ line))
        → is_char_boundary (trim (b ∷ line)) 200 ≡ false
        → (handle_connection os j socket (ok (connect_line port) ∷ ok (b ∷ line) ∷ reads) c).0
          ≡ err panicked
    unfolding handle_connection serve send
    preview-panicked port b line reads c h n m =
        rw ((first_line-handshake port h).0, k.takes c.sent (answer port))
          (long (trim (b ∷ line)) n m)
      where
        long :
            (t : Str)
            → 200 < length t
            → is_char_boundary t 200 ≡ false
            → (elim t as (λ _. Connection os j → Result Failure (Unit {0}) × Connection os j) [
              | [] ↦ serve os j socket reads
              | b' ∷ text ↦ answer_request os j socket (b' ∷ text) >> serve os j socket reads
            ]
                (record c { sent = answer port ∷ c.sent })).0
              ≡ err panicked
        long [] n m = absurd (omega arith)
        long (b' ∷ text) n m =
            rw (answer_request-panicked (b' ∷ text) (record c { sent = answer port ∷ c.sent }) n m)
              refl
