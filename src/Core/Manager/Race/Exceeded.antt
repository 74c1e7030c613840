-- ===== src/Core/Manager/Race/Exceeded.antt =====
-- The limit exceeded by two calls that check it at the same time.
use petty.Shared.{ℕ, ◌≡◌, ◌≢◌, ◌∙◌, ap, false, [], ◌∷◌, arith, length, ==_iff}
use petty.Shared.Result.{ok}
use petty.Host.{Trace}
use petty.Core.Config.{SandboxConfig}
use petty.Core.Sandbox.{Sandbox, Libraries}
use petty.Core.Sandbox
use petty.Core.Manager.{ManagerConfig, new, at_limit, insert, next_cid}
use petty.Core.Manager.Race.{
  Race, checked, booted, boot_end, creates, continues, enter, step, run, continue_at, advance, left,
}
use petty.Core.Manager.Race.Alone.{calm, enter-room}

module _ (l : Libraries) where
  abbrev both : SandboxConfig → ManagerConfig → Trace → Race
  both k c t = record { manager = new c; creators = checked k ∷ checked k ∷ []; trace = t }

  -- How many sandboxes are there when the call in the first place has gone on twice.
  abbrev inserted : Race → ℕ
  inserted z = length (step l (continues 0) (step l (continues 0) z)).manager.sandboxes

  both-enter :
      (k : SandboxConfig) (c : ManagerConfig) (t : Trace)
      → c.max_sandboxes ≡ 1
      → enter (checked k) (enter (checked k) (calm (new c) t)) ≡ both k c t
  unfolding at_limit
  both-enter k c t e =
      let room : at_limit (new c) ≡ false = ground arith in
      ap (enter (checked k)) (enter-room (checked k) (calm (new c) t) room)
      ∙ enter-room (checked k) (record (both k c t) { creators = checked k ∷ [] }) room

  both_boot :
      (k : SandboxConfig) (c : ManagerConfig) (t u v : Trace) (x y : Sandbox)
      → Sandbox.create l (record k { vsock_cid = 3 }) t ≡ (ok x, u)
      → Sandbox.create l (record k { vsock_cid = 4 }) u ≡ (ok y, v)
      → step l (continues 1) (step l (continues 0) (both k c t)) ≡ record {
        manager = record (new c) { cid_counter = 5 };
        creators = booted x ∷ booted y ∷ [];
        trace = v;
      }
  unfolding step continue_at advance next_cid
  both_boot k c t u v x y h i =
      ap
        (λ r. step l (continues 1) (
          let (o, m', t') = boot_end r (record (new c) { cid_counter = 4 }) in
          record { manager = m'; creators = left o (checked k ∷ []); trace = t' }))
        h
      ∙ ap
          (λ r.
            let (o, m', t') = boot_end r (record (new c) { cid_counter = 5 }) in
            record { manager = m'; creators = booted x ∷ left o []; trace = t' })
          i

  -- Two calls of `create` that check a limit of one before either inserts, and whose boots succeed
  -- with different identifiers, leave two sandboxes in the registry.
  pub two_exceed_one :
      (c : ManagerConfig) (k : SandboxConfig) (t u v : Trace) (x y : Sandbox)
      → c.max_sandboxes ≡ 1
      → Sandbox.create l (record k { vsock_cid = 3 }) t ≡ (ok x, u)
      → Sandbox.create l (record k { vsock_cid = 4 }) u ≡ (ok y, v)
      → x.id ≢ y.id
      → length
          (run l
            (creates k ∷ creates k ∷ continues 0 ∷ continues 1 ∷ continues 0 ∷ continues 0 ∷ [])
            (calm (new c) t)).manager.sandboxes
        ≡ 2
  unfolding run step continue_at advance insert
  two_exceed_one c k t u v x y e h i d =
      ap (λ z. inserted (step l (continues 1) (step l (continues 0) z))) (both-enter k c t e)
      ∙ ap inserted (both_boot k c t u v x y h i)
      ∙ ground (arith, ==_iff x.id y.id)
