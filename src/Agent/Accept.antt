-- ===== src/Agent/Accept.antt =====
-- crates/bouvet-agent/src/main.rs: the agent's start and its loop over connections, which are served
-- one after another.
use petty.Shared.{
  ℕ, suc, ◌≡◌, refl, ap, Bool, true, false, List, [], ◌∷◌, Option, none, some, length, arith,
}
use petty.Shared.Result.{Result, ok, err}
use petty.Text.{Str, lit}
use petty.Agent.Os.{Os, Json}
use petty.Agent.Connection.{Read, Socket, Connection, Failure, failed, panicked, handle_connection}

module _ (os : Os) (j : Json) where
  open os use {World}

  -- What `accept` gives: a peer, by the lines that it sends and how it takes those sent to it, or an
  -- error, which is logged.
  pub data Accept : Type 0 where
    accepted : List Read → Socket os j → Accept
    unaccepted : Str → Accept

  -- How the agent ends: it could not start, or a connection panicked, or it waits for a peer.
  pub data Ending : Type 0 where
    not_started : Str → Ending
    crashed : Ending
    waiting : World → Ending

  abbrev fresh : World → Connection os j
  fresh w = record { world = w; sent = [] }

  -- An error of a connection is logged, and a panic ends the agent.
  abbrev after_peer :
      Result Failure (Unit {0}) → List Str → Ending × List (List Str) → Ending × List (List Str)
  after_peer (ok _) sent (ending, rest) = (ending, sent ∷ rest)
  after_peer (err (failed text)) sent (ending, rest) = (ending, sent ∷ rest)
  after_peer (err panicked) sent rest = (crashed, sent ∷ [])

  -- The loop, with the lines sent on each connection that was accepted, newest first.
  unfoldable pub accept_loop : List Accept → World → Ending × List (List Str)
  accept_loop [] w = (waiting w, [])
  accept_loop (unaccepted e ∷ peers) w = accept_loop peers w
  accept_loop (accepted reads socket ∷ peers) w =
      let (r, c) = handle_connection os j socket reads (fresh w) in
      after_peer r c.sent (accept_loop peers c.world)

  -- `async_main`, by whether `/dev/vsock` exists and whether the port can be bound.
  unfoldable pub async_main : Bool → Option Str → List Accept → World → Ending × List (List Str)
  unfolding accept_loop
  async_main false bound peers w =
      (not_started (lit "/dev/vsock does not exist - vsock kernel module may not be loaded"), [])
  async_main true (some e) peers w = (not_started e, [])
  async_main true none peers w = accept_loop peers w

  abbrev pub peers_of : List Accept → ℕ
  peers_of [] = 0
  peers_of (unaccepted e ∷ peers) = peers_of peers
  peers_of (accepted reads socket ∷ peers) = suc (peers_of peers)

  -- Unless a connection panics, every peer that was accepted is served, whichever of the connections
  -- before it failed.
  pub accept_loop-peers_of :
      (peers : List Accept) (w w' : World)
      → (accept_loop peers w).0 ≡ waiting w'
      → length (accept_loop peers w).1 ≡ peers_of peers
  unfolding accept_loop
  accept_loop-peers_of [] w w' h = refl
  accept_loop-peers_of (unaccepted e ∷ peers) w w' h = accept_loop-peers_of peers w w' h
  accept_loop-peers_of (accepted reads socket ∷ peers) w w' h =
      let (r, c) = handle_connection os j socket reads (fresh w) in
      by_result r c.sent (accept_loop peers c.world) (accept_loop-peers_of peers c.world w') h
    where
      by_result :
          (r : Result Failure (Unit {0})) (sent : List Str) (rest : Ending × List (List Str))
          → (rest.0 ≡ waiting w' → length rest.1 ≡ peers_of peers)
          → (after_peer r sent rest).0 ≡ waiting w'
          → length (after_peer r sent rest).1 ≡ suc (peers_of peers)
      by_result (ok u) sent rest k e = ap suc (k e)
      by_result (err (failed text)) sent rest k e = ap suc (k e)
      by_result (err panicked) sent rest k e = absurd (ground arith)
