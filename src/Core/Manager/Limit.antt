-- ===== src/Core/Manager/Limit.antt =====
-- What holds of the manager after any sequence of its methods.
use petty.Shared.{
  ℕ, ◌+◌, ◌≤◌, ◌<◌, ◌≡◌, refl, ◌∙◌, subst, false, List, [], ◌∷◌, some, arith, length, Option-cases,
  inl, inr, Bool-cases, All,
}
use petty.Shared.Result.{Result, ok, err}
use petty.Text.{Str}
use petty.Host.{Uuid, Trace}
use petty.Core.Error.{CoreError}
use petty.Core.Config.{SandboxConfig}
use petty.Core.Client.Methods.{ClientMethod}
use petty.Core.Sandbox.{Sandbox, Libraries, SandboxMethod, ready, when_ready}
use petty.Core.Sandbox
use petty.Core.Sandbox.Create.{create_ok}
use petty.Core.Manager.{
  Registry, SandboxManager, ManagerConfig, get, insert, remove, new, at_limit, registered,
  on_sandbox, next_cid,
}
use petty.Core.Manager
use petty.Core.Manager.Registry.{
  Good, insert-Good, remove-Good, get-Good, length-insert-le, length-insert_old, length-remove-le,
}

pub data Op : Type 0 where
  create : SandboxConfig → Op
  create_default destroy_all : Op
  register : Sandbox → Op
  destroy : Uuid → Op
  execute read_file list_dir : Uuid → Str → Op
  execute_code write_file : Uuid → Str → Str → Op

module _ (l : Libraries) where
  -- The manager and the trace after one method.
  unfoldable pub step : Op → SandboxManager → Trace → SandboxManager × Trace
  step (create c) m t = let (_, m', t') = Manager.create l c m t in (m', t')
  step create_default m t = let (_, m', t') = Manager.create_default l m t in (m', t')
  step destroy_all m t = let (_, m', t') = Manager.destroy_all l m t in (m', t')
  step (register s) m t = let (_, m') = Manager.register m s in (m', t)
  step (destroy id) m t = let (_, m', t') = Manager.destroy l id m t in (m', t')
  step (execute id cmd) m t = let (_, m', t') = Manager.execute l id cmd m t in (m', t')
  step (read_file id path) m t = let (_, m', t') = Manager.read_file l id path m t in (m', t')
  step (list_dir id path) m t = let (_, m', t') = Manager.list_dir l id path m t in (m', t')
  step (execute_code id lang code) m t =
      let (_, m', t') = Manager.execute_code l id lang code m t in (m', t')
  step (write_file id path text) m t =
      let (_, m', t') = Manager.write_file l id path text m t in (m', t')

  unfoldable pub run : List Op → SandboxManager → Trace → SandboxManager × Trace
  run [] m t = (m, t)
  run (o ∷ os) m t = let (m', t') = step o m t in run os m' t'

-- The registry is good, and exceeds the limit, if there is one, by no more than `k`.
pub record Inv (k : ℕ) (m : SandboxManager) : Type 0 where
  pub good : Good m.sandboxes
  pub bounded : 0 < m.config.max_sandboxes → length m.sandboxes ≤ m.config.max_sandboxes + k

-- What is registered from outside is ready.
abbrev pub Allowed : Op → Type 0
Allowed (register s) = s.state ≡ ready
Allowed _ = Unit

abbrev pub Kept : ℕ → SandboxManager → SandboxManager → Type 0
Kept k m m' = Inv k m' × (m'.config ≡ m.config)

-- One more ready sandbox below the limit.
pub insert-Inv :
    {k : ℕ} (m : SandboxManager) (s : Sandbox) (n : ℕ)
    → s.state ≡ ready
    → at_limit m ≡ false
    → Inv k m
    → Kept k m (record m { sandboxes = insert s.id s m.sandboxes; cid_counter = n })
unfolding at_limit
insert-Inv {k = k} m s n h b v = (
  record {
    good = insert-Good s m.sandboxes h v.good;
    bounded = λ p. omega (arith, length-insert-le s.id s m.sandboxes, below p);
  },
  refl,
)
  where
    below : 0 < m.config.max_sandboxes → length m.sandboxes < m.config.max_sandboxes
    below p = ground arith

pub when_ready_same :
    {R : Type 0} (f : ClientMethod R) (s : Sandbox) (t : Trace)
    → let s' = (when_ready f s t).1 in (s'.id ≡ s.id) × (s'.state ≡ s.state)
unfolding when_ready
when_ready_same f s t = ground arith

on_sandbox-Inv :
    {k : ℕ} {R : Type 0} (id : Uuid) (f : ClientMethod R) (m : SandboxManager) (t : Trace)
    → Inv k m
    → Kept k m (on_sandbox id (when_ready f) m t).1
unfolding on_sandbox
on_sandbox-Inv {k = k} id f m t v = elim (Option-cases (get id m.sandboxes)) [
  | inl h ↦ rw (h, on_sandbox) (v, refl)
  | inr (s, h) ↦ rw (h, on_sandbox) (stored s h, refl)
]
  where
    stored :
        (s : Sandbox)
        → get id m.sandboxes ≡ some s
        → Inv k (record m { sandboxes = insert id (when_ready f s t).1 m.sandboxes })
    stored s h =
        let (i, r) = when_ready_same f s t in
        let (j, q) = get-Good id m.sandboxes s v.good h in
        record {
          good =
              subst (λ i. Good (insert i (when_ready f s t).1 m.sandboxes)) (i ∙ j)
                (insert-Good (when_ready f s t).1 m.sandboxes (r ∙ q) v.good);
          bounded = λ p.
              omega (arith, length-insert_old id (when_ready f s t).1 s m.sandboxes h, v.bounded p);
        }

destroy-Kept :
    {k : ℕ} (id : Uuid) (m : SandboxManager)
    → Inv k m
    → Kept k m (record m { sandboxes = remove id m.sandboxes })
destroy-Kept id m v = (
  record {
    good = remove-Good id m.sandboxes v.good;
    bounded = λ p. omega (arith, length-remove-le id m.sandboxes, v.bounded p);
  },
  refl,
)

module _ (l : Libraries) where
  registered-Kept :
      {k : ℕ} (c : SandboxConfig) (m : SandboxManager) (n : ℕ) (t : Trace)
      (r : Result CoreError Sandbox × Trace)
      → Sandbox.create l c t ≡ r
      → at_limit m ≡ false
      → Inv k m
      → Kept k m (registered (record m { cid_counter = n }) r).1
  unfolding registered
  registered-Kept c m n t (ok s, u) h b v =
      let (_, _, q, _) = create_ok l c t u s h in insert-Inv m s n q b v
  registered-Kept c m n t (err x, u) h b v = (record { good = v.good; bounded = v.bounded }, refl)

  create-Kept :
      {k : ℕ} (c : SandboxConfig) (m : SandboxManager) (t : Trace)
      → Inv k m
      → Kept k m (Manager.create l c m t).1
  unfolding Manager.create
  create-Kept c m t v = elim (Bool-cases (at_limit m)) [
    | inl full ↦ rw full (v, refl)
    | inr room ↦ rw room (registered-Kept _ m _ t _ refl room v)
  ]

  create_default-Kept :
      {k : ℕ} (m : SandboxManager) (t : Trace) → Inv k m → Kept k m (Manager.create_default l m t).1
  unfolding Manager.create_default
  create_default-Kept {k = k} m t v = by_config _ v
    where
      by_config :
          (r : Result CoreError SandboxConfig)
          → Inv k m
          → Kept k m
              (elim r as (λ _. Result CoreError Uuid × SandboxManager × Trace) [
                | ok c ↦ Manager.create l c m t
                | err x ↦ (err x, m, t)
              ]).1
      by_config (ok c) v = create-Kept c m t v
      by_config (err x) v = (v, refl)

  pub register-Kept :
      {k : ℕ} (s : Sandbox) (m : SandboxManager)
      → s.state ≡ ready
      → Inv k m
      → Kept k m (Manager.register m s).1
  unfolding Manager.register
  register-Kept s m h v = elim (Bool-cases (at_limit m)) [
    | inl full ↦ rw full (v, refl)
    | inr room ↦ rw room (insert-Inv m s m.cid_counter h room v)
  ]

  removed-Kept :
      {k : ℕ} (id : Uuid) (m : SandboxManager) (t : Trace)
      → Inv k m
      → Kept k m (Manager.destroy l id m t).1
  unfolding Manager.destroy
  removed-Kept id m t v = elim (Option-cases (get id m.sandboxes)) [
    | inl h ↦ rw (h, Manager.destroy) (v, refl)
    | inr (s, h) ↦ rw (h, Manager.destroy) (destroy-Kept id m v)
  ]

  -- Every method keeps the invariant and the configuration.
  pub step-Inv :
      {k : ℕ} (o : Op) (m : SandboxManager) (t : Trace)
      → Allowed o
      → Inv k m
      → Kept k m (step l o m t).0
  unfolding step Manager.execute Manager.execute_code Manager.read_file Manager.write_file
      Manager.list_dir Sandbox.execute Sandbox.execute_code Sandbox.read_file Sandbox.write_file
      Sandbox.list_dir Manager.destroy_all
  step-Inv (create c) m t a v = create-Kept c m t v
  step-Inv create_default m t a v = create_default-Kept m t v
  step-Inv destroy_all m t a v = (record { good = tt; bounded = λ p. omega arith }, refl)
  step-Inv (register s) m t a v = register-Kept s m a v
  step-Inv (destroy id) m t a v = removed-Kept id m t v
  step-Inv (execute id cmd) m t a v = on_sandbox-Inv id _ m t v
  step-Inv (read_file id path) m t a v = on_sandbox-Inv id _ m t v
  step-Inv (list_dir id path) m t a v = on_sandbox-Inv id _ m t v
  step-Inv (execute_code id lang code) m t a v = on_sandbox-Inv id _ m t v
  step-Inv (write_file id path text) m t a v = on_sandbox-Inv id _ m t v

  run-Inv :
      {k : ℕ} (os : List Op) (m : SandboxManager) (t : Trace)
      → All Allowed os
      → Inv k m
      → Kept k m (run l os m t).0
  unfolding run
  run-Inv [] m t a v = (v, refl)
  run-Inv (o ∷ os) m t a v =
      let (w, h) = step-Inv o m t a.0 v in
      let (x, k) = run-Inv os (step l o m t).0 (step l o m t).1 a.1 w in (x, k ∙ h)

  -- From a new manager, after any sequence of its methods of which one runs at a time: every sandbox
  -- of the registry is ready and stands under its own identifier, no identifier stands twice, and
  -- where the configuration has a limit the registry is within it. It is so whatever the host
  -- answers, if each sandbox registered from outside was ready.
  pub run-new-Inv :
      (c : ManagerConfig) (os : List Op) (t : Trace)
      → All Allowed os
      → Inv 0 (run l os (new c) t).0 × ((run l os (new c) t).0.config ≡ c)
  run-new-Inv c os t a = run-Inv os (new c) t a (record { good = tt; bounded = λ p. omega arith })
