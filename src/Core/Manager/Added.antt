-- ===== src/Core/Manager/Added.antt =====
-- What `create` and `register` add to the registry.
use petty.Shared.{◌≡◌, refl, true, false, Bool-cases, inl, inr, arith}
use petty.Shared.Result.{Result, ok, err}
use petty.Host.{Uuid, Trace}
use petty.Core.Error.{CoreError}
use petty.Core.Config.{SandboxConfig}
use petty.Core.Sandbox.{Sandbox, Libraries}
use petty.Core.Sandbox
use petty.Core.Manager.{
  SandboxManager, ManagerConfig, insert, at_limit, limit_error, create_below, registered,
}
use petty.Core.Manager

-- A success adds the sandbox of the identifier that it gives, below the limit, and an error changes
-- nothing in the registry.
abbrev pub Added {ℓ} : {E : Type ℓ} → SandboxManager → Result E Uuid → SandboxManager → Type 0
Added m (ok id) m' =
    (x : Sandbox) × (x.id ≡ id) × (at_limit m ≡ false) × (m'.sandboxes ≡ insert x.id x m.sandboxes)
Added m (err e) m' = m'.sandboxes ≡ m.sandboxes

pub register-Added :
    (s : Sandbox) (m : SandboxManager) → let (a, m') = Manager.register m s in Added m a m'
unfolding Manager.register
register-Added s m = elim (Bool-cases (at_limit m)) [
  | inl full ↦ rw (full, Manager.register) refl
  | inr room ↦ rw (room, Manager.register) (s, refl, room, refl)
]

pub register-config :
    (s : Sandbox) (m : SandboxManager) → (Manager.register m s).1.config ≡ m.config
unfolding Manager.register
register-config s m = ground arith

-- At the limit, a sandbox is given back.
pub register-full :
    (s : Sandbox) (m : SandboxManager)
    → at_limit m ≡ true
    → Manager.register m s ≡ (err (limit_error m, s), m)
unfolding Manager.register
register-full s m full = rw full refl

module _ (l : Libraries) where
  pub create-full :
      (c : SandboxConfig) (m : SandboxManager) (t : Trace)
      → at_limit m ≡ true
      → Manager.create l c m t ≡ (err (limit_error m), m, t)
  unfolding Manager.create
  create-full c m t full = rw full refl

  pub create-Added :
      (c : SandboxConfig) (m : SandboxManager) (t : Trace)
      → let (a, m', _) = Manager.create l c m t in Added m a m'
  unfolding Manager.create create_below registered
  create-Added c m t = elim (Bool-cases (at_limit m)) [
    | inl full ↦ rw (full, Manager.create) refl
    | inr room ↦
        rw (room, Manager.create)
          (below (Sandbox.create l (record c { vsock_cid = m.cid_counter }) t) room)
  ]
    where
      below :
          (r : Result CoreError Sandbox × Trace)
          → at_limit m ≡ false
          → let (a, m', _) =
              registered (record m { cid_counter = Manager.next_cid m.cid_counter }) r in
            Added m a m'
      below (ok s, u) room = (s, refl, room, refl)
      below (err e, u) room = refl
