-- ===== src/Core/Manager/Race.antt =====
-- The manager under concurrent calls of `create` and `register`: the check of the limit, the boot and
-- the insertion are steps of their own, since the lock of the registry is not held between them.
pub mod Alone
pub mod Bounds
pub mod Exceeded
use petty.Shared.{
  ℕ, zero, suc, ◌+◌, Bool, true, false, List, [], ◌∷◌, ◌++◌, Option, none, some, if◌then◌else◌,
}
use petty.Shared.Result.{Result, ok, err}
use petty.Host.{Uuid, Trace}
use petty.Core.Error.{CoreError}
use petty.Core.Config.{SandboxConfig}
use petty.Core.Sandbox.{Sandbox, Libraries}
use petty.Core.Sandbox
use petty.Core.Manager.{SandboxManager, at_limit, insert, next_cid}
use petty.Core.Manager

-- A call that has passed the limit: about to boot a sandbox, or to insert one.
pub data Creator : Type 0 where
  checked : SandboxConfig → Creator
  booted : Sandbox → Creator

pub record Race : Type 0 where
  pub manager : SandboxManager
  pub creators : List Creator
  pub trace : Trace

-- What happens next: a call of `create` or `register` begins, a call in the given place goes on, or a
-- sandbox is destroyed.
pub data Step : Type 0 where
  creates : SandboxConfig → Step
  registers : Sandbox → Step
  continues : ℕ → Step
  destroys : Uuid → Step

-- A call passes the limit or ends with its error.
unfoldable pub enter : Creator → Race → Race
enter x y = if at_limit y.manager then y else record y { creators = y.creators ++ x ∷ [] }

abbrev pub left : Option Creator → List Creator → List Creator
left none cs = cs
left (some x) cs = x ∷ cs

abbrev pub boot_end :
    Result CoreError Sandbox × Trace → SandboxManager → Option Creator × SandboxManager × Trace
boot_end (ok s, t) m = (some (booted s), m, t)
boot_end (err e, t) m = (none, m, t)

module _ (l : Libraries) where
  -- One step of a call: its CID and its boot, or its insertion, after which it ends.
  unfoldable pub advance :
      Creator → SandboxManager → Trace → Option Creator × SandboxManager × Trace
  advance (checked c) m t =
      boot_end (Sandbox.create l (record c { vsock_cid = m.cid_counter }) t)
        (record m { cid_counter = next_cid m.cid_counter })
  advance (booted s) m t = (none, record m { sandboxes = insert s.id s m.sandboxes }, t)

  unfoldable pub continue_at :
      ℕ → List Creator → SandboxManager → Trace → List Creator × SandboxManager × Trace
  unfolding advance
  continue_at i [] m t = ([], m, t)
  continue_at zero (x ∷ cs) m t = let (o, m', t') = advance x m t in (left o cs, m', t')
  continue_at (suc i) (x ∷ cs) m t = let (cs', m', t') = continue_at i cs m t in (x ∷ cs', m', t')

  unfoldable pub step : Step → Race → Race
  unfolding enter continue_at
  step (creates c) y = enter (checked c) y
  step (registers s) y = enter (booted s) y
  step (continues i) y =
      let (cs, m, t) = continue_at i y.creators y.manager y.trace in
      record { manager = m; creators = cs; trace = t }
  step (destroys id) y =
      let (_, m, t) = Manager.destroy l id y.manager y.trace in record y { manager = m; trace = t }

  unfoldable pub run : List Step → Race → Race
  run [] y = y
  run (o ∷ os) y = run os (step o y)
