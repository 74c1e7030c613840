-- ===== src/Mcp/Concurrent/Safe/Ready.antt =====
-- What a request holds is ready at each of its steps.
use petty.Shared.{ℕ, ◌+◌, ◌≡◌, refl, ◌∙◌, List, [], ◌∷◌, Option, none, some, if_both}
use petty.Shared.Result.{Result, ok, err}
use petty.Host.{Trace}
use petty.Core.Error.{CoreError}
use petty.Core.Config.{SandboxConfig}
use petty.Core.Sandbox.{Sandbox, Libraries, ready}
use petty.Core.Sandbox
use petty.Core.Sandbox.Create.{create_ok}
use petty.Core.Manager.Race.{Creator, checked, booted}
use petty.Core.Pool.{SandboxPool, cold_start}
use petty.Core.Pool.Caller.{Caller, trying, checking, answer, answer_front}
use petty.Core.Pool.Schedule.Ready.{IsReady, CallerReady, OptionCallerReady, is_healthy-state}
use petty.Mcp.Types.{CreateSandboxParams}
use petty.Mcp.Concurrent.{Request, acquiring, registering, starting, creating, after_acquire}

-- The requests that are past the check of the limit.
abbrev pub is_creating : Request → ℕ
is_creating (creating x) = 1
is_creating _ = 0

abbrev pub creators : List Request → ℕ
creators [] = 0
creators (q ∷ qs) = is_creating q + creators qs

abbrev pub CreatorReady : Creator → Type 0
CreatorReady (checked k) = Unit
CreatorReady (booted x) = IsReady x

abbrev pub RequestReady : Request → Type 0
RequestReady (acquiring params c) = CallerReady c
RequestReady (registering params x) = IsReady x
RequestReady (starting params) = Unit
RequestReady (creating x) = CreatorReady x

abbrev pub creating_kept : Option Request → ℕ
creating_kept none = 0
creating_kept (some q) = is_creating q

abbrev pub KeptReady : Option Request → Type 0
KeptReady none = Unit
KeptReady (some q) = RequestReady q

module _ (l : Libraries) where
  -- What a caller is returned is ready.
  abbrev pub AnswerReady : Option (Result CoreError Sandbox) → Type 0
  AnswerReady none = Unit
  AnswerReady (some (err e)) = Unit
  AnswerReady (some (ok x)) = IsReady x

  pub created-AnswerReady :
      (c : SandboxConfig) (t : Trace) → AnswerReady (some (Sandbox.create l c t).0)
  created-AnswerReady c t = by_result (Sandbox.create l c t) refl
    where
      by_result :
          (r : Result CoreError Sandbox × Trace) → Sandbox.create l c t ≡ r → AnswerReady (some r.0)
      by_result (ok x, u) h = let (_, _, q, _) = create_ok l c t u x h in q
      by_result (err e, u) h = tt

  answer_front-AnswerReady :
      (q : List Sandbox) (p : SandboxPool) (t : Trace) → AnswerReady (answer_front l q p t)
  unfolding answer_front cold_start
  answer_front-AnswerReady [] p t =
      created-AnswerReady (record (p.config.sandbox_config) { vsock_cid = p.cid_counter }) t
  answer_front-AnswerReady (s ∷ q) p t = tt

  pub answer-AnswerReady :
      (c : Caller) (p : SandboxPool) (t : Trace) → CallerReady c → AnswerReady (answer l c p t)
  unfolding answer
  answer-AnswerReady trying p t h = answer_front-AnswerReady p.queue p t
  answer-AnswerReady (checking s) p t h =
      if_both AnswerReady (Sandbox.is_healthy l s t).0 (some (ok (Sandbox.is_healthy l s t).1)) none
        (is_healthy-state l s t ∙ h) tt

  pub after_acquire-KeptReady :
      (params : CreateSandboxParams) (a : Option (Result CoreError Sandbox)) (o : Option Caller)
      → AnswerReady a
      → OptionCallerReady l o
      → KeptReady (after_acquire params a o) × (creating_kept (after_acquire params a o) ≡ 0)
  unfolding after_acquire
  after_acquire-KeptReady params (some (ok x)) o h k = (h, refl)
  after_acquire-KeptReady params (some (err e)) o h k = (tt, refl)
  after_acquire-KeptReady params none none h k = (tt, refl)
  after_acquire-KeptReady params none (some c) h k = (k, refl)
