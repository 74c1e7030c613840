-- ===== src/Agent/Connection.antt =====
-- crates/bouvet-agent/src/main.rs: one connection, from its first line to its end.
pub mod Replies
use petty.Shared.{ℕ, Bool, true, false, ◌||◌, leb, length, List, [], ◌∷◌, ◌++◌, Option}
use petty.Shared.Result.{Result, ok, err, map_err, failing, Action, ◌>>=◌, ◌>>◌, pure, throw, lift}
use petty.Text.{Str, lit}
use petty.Text.Trim.{trim}
use petty.Agent.Exec.{is_char_boundary}
use petty.Agent.Protocol.{Request, Response, error_response, parse_error}
use petty.Agent.Os.{Os, Json}
use petty.Agent.Handler.{handle_request}
use petty.Agent.Handshake.{FirstLine, closed, skipped, answered, requested, first_line}

-- A line that the connection reads, empty at the end of the stream, or the error of the read.
abbrev pub Read : Type 0
Read = Result Str Str

-- How a connection fails: by an error, or by a panic, which ends the agent.
pub data Failure : Type 0 where
  failed : Str → Failure
  panicked : Failure

-- `&trimmed[..200]` in the log line of a request panics inside a character.
unfoldable pub previewable : Str → Bool
unfolding is_char_boundary
previewable text = leb (length text) 200 || is_char_boundary text 200

module _ (os : Os) (j : Json) where
  open os use {World}
  open j use {Value}

  -- The world, and the lines sent so far, newest first.
  pub record Connection : Type 0 where
    pub world : World
    pub sent : List Str

  -- What becomes of a line that is written to the buffer and flushed, by the lines before it: the
  -- error of these calls, or none.
  abbrev pub Socket : Type 0
  Socket = List Str → Str → Option Str

  respond_to : Str → World → Response Value × World
  respond_to text w = elim (j.from_str text) [
    | ok req ↦ handle_request os j req w
    | err e ↦ (error_response 0 parse_error (lit "parse error: " ++ e), w)
  ]

  module _ (socket : Socket) where
    abbrev ConnectionStep : Type 0
    ConnectionStep = Action Connection Failure (Unit {0})

    send : Str → ConnectionStep
    send text c = (map_err failed (failing (socket c.sent text)), record c { sent = text ∷ c.sent })

    encode_and_send : Response Value → ConnectionStep
    unfolding send
    encode_and_send r = do json ← lift (map_err failed (j.to_string r)); send (json ++ lit "\n")

    unfoldable pub answer_request : Str → ConnectionStep
    unfolding respond_to encode_and_send previewable
    answer_request text c = elim (previewable text) [
      | true ↦ let (r, w) = respond_to text c.world in encode_and_send r (record c { world = w })
      | false ↦ (err panicked, c)
    ]

    -- The loop over requests, by the lines that it reads.
    serve : List Read → ConnectionStep
    serve [] = pure tt
    serve (err e ∷ reads) = throw (failed e)
    serve (ok [] ∷ reads) = pure tt
    serve (ok (b ∷ line) ∷ reads) = elim (trim (b ∷ line)) [
      | [] ↦ serve reads
      | b' ∷ text ↦ answer_request (b' ∷ text) >> serve reads
    ]

    -- What the first line leads to, and then the loop.
    first : FirstLine → List Read → ConnectionStep
    unfolding answer_request serve
    first closed reads = pure tt
    first skipped reads = serve reads
    first (answered text) reads = send text >> serve reads
    first (requested text) reads = answer_request text >> serve reads

    -- `handle_connection`.
    unfoldable pub handle_connection : List Read → ConnectionStep
    unfolding first
    handle_connection [] = pure tt
    handle_connection (err e ∷ reads) = throw (failed e)
    handle_connection (ok line ∷ reads) = first (first_line line) reads
