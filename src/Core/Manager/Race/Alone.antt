-- ===== src/Core/Manager/Race/Alone.antt =====
-- A call with no other between its steps.
use petty.Shared.{◌≡◌, refl, sym, ap, ◌∙◌, ◌++◌, true, false, [], ◌∷◌, Bool-cases, inl, inr}
use petty.Shared.Result.{Result, ok, err}
use petty.Host.{Trace}
use petty.Core.Error.{CoreError}
use petty.Core.Config.{SandboxConfig}
use petty.Core.Sandbox.{Sandbox, Libraries}
use petty.Core.Sandbox
use petty.Core.Manager.{SandboxManager, at_limit, create_below, registered, next_cid}
use petty.Core.Manager
use petty.Core.Manager.Added.{create-full}
use petty.Core.Manager.Race.{
  Race, Creator, checked, boot_end, left, enter, creates, continues, step, run, continue_at,
  advance,
}

abbrev pub calm : SandboxManager → Trace → Race
calm m t = record { manager = m; creators = []; trace = t }

enter-full : (x : Creator) (y : Race) → at_limit y.manager ≡ true → enter x y ≡ y
unfolding enter
enter-full x y h = rw h refl

pub enter-room :
    (x : Creator) (y : Race)
    → at_limit y.manager ≡ false
    → enter x y ≡ record y { creators = y.creators ++ x ∷ [] }
unfolding enter
enter-room x y h = rw h refl

module _ (l : Libraries) where
  abbrev next : Race → Race
  next y = step l (continues 0) y

  create-room :
      (c : SandboxConfig) (m : SandboxManager) (t : Trace)
      → at_limit m ≡ false
      → Manager.create l c m t ≡ create_below l c m t
  unfolding Manager.create
  create-room c m t h = rw h refl

  abbrev calm_after : {R : Type 0} → Result CoreError R × SandboxManager × Trace → Race
  calm_after (a, m, t) = calm m t

  booted-next :
      (r : Result CoreError Sandbox × Trace) (m : SandboxManager)
      → let (o, m', t') = boot_end r m in
        next (record { manager = m'; creators = left o []; trace = t' })
        ≡ calm_after (registered m r)
  unfolding step continue_at advance registered
  booted-next (ok s, t) m = refl
  booted-next (err e, t) m = refl

  -- The steps of one call of `create` with nothing between them leave the manager and the host as
  -- `create` does.
  run-create :
      (c : SandboxConfig) (m : SandboxManager) (t : Trace)
      → run l (creates c ∷ continues 0 ∷ continues 0 ∷ []) (calm m t)
        ≡ (let (_, m', t') = Manager.create l c m t in calm m' t')
  unfolding run step continue_at advance create_below
  run-create c m t = elim (Bool-cases (at_limit m)) [
    | inl full ↦
        ap (λ y. next (next y)) (enter-full (checked c) (calm m t) full)
        ∙ sym (ap calm_after (create-full l c m t full))
    | inr room ↦
        ap (λ y. next (next y)) (enter-room (checked c) (calm m t) room)
        ∙ booted-next (Sandbox.create l (record c { vsock_cid = m.cid_counter }) t)
            (record m { cid_counter = next_cid m.cid_counter })
        ∙ sym (ap calm_after (create-room c m t room))
  ]
