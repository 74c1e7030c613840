-- ===== src/Core/Manager/Owners.antt =====
-- Which sandboxes the registry holds, and how the manager's methods move them.
use petty.Shared.{
  ℕ, ◌+◌, ◌≤◌, ◌≡◌, [], ◌∷◌, some, length, arith, Bool-cases, Option-cases, inl, inr,
}
use petty.Shared.Result.{Result, ok, err}
use petty.Host.{Uuid, Trace}
use petty.Core.Error.{CoreError}
use petty.Core.Config.{SandboxConfig}
use petty.Core.Client.{AgentClient}
use petty.Core.Client.Methods.{ClientMethod}
use petty.Core.Client.Growth.{
  exec-Grows, exec_code-Grows, read_file-Grows, write_file-Grows, list_dir-Grows,
}
use petty.Core.Sandbox.{Sandbox, Libraries, when_ready}
use petty.Core.Sandbox
use petty.Core.Sandbox.Growth.{destroy-Grows, when_ready-Grows}
use petty.Core.Sandbox.Owners.{one, of_answer, Moves, same-Moves, Moves-below, created-Moves}
use petty.Core.Manager.{
  Registry, SandboxManager, get, insert, remove, at_limit, registered, on_sandbox, create_below,
  destroy_each, next_cid,
}
use petty.Core.Manager
use petty.Core.Manager.Limit.{Op, Allowed, step, when_ready_same}

module _ (i : Uuid) where
  -- How many entries of the registry hold a sandbox of this identifier.
  abbrev pub in_registry : Registry → ℕ
  in_registry [] = 0
  in_registry ((k, s) ∷ r) = one i s + in_registry r

  pub in_registry-insert :
      (k : Uuid) (s : Sandbox) (r : Registry) → in_registry (insert k s r) ≤ in_registry r + one i s
  unfolding insert
  in_registry-insert k s [] = omega arith
  in_registry-insert k s ((j, v) ∷ r) = ground (arith, in_registry-insert k s r)

  -- A sandbox stored again in its own entry.
  in_registry-insert_same :
      (k : Uuid) (s s' : Sandbox) (r : Registry)
      → get k r ≡ some s
      → s'.id ≡ s.id
      → in_registry (insert k s' r) ≡ in_registry r
  unfolding insert get
  in_registry-insert_same k s s' [] h e = absurd (cc h)
  in_registry-insert_same k s s' ((j, v) ∷ r) h e = ground (arith, in_registry-insert_same k s s' r)

  in_registry-remove : (k : Uuid) (r : Registry) → in_registry (remove k r) ≤ in_registry r
  unfolding remove
  in_registry-remove k [] = omega arith
  in_registry-remove k ((j, v) ∷ r) = ground (arith, in_registry-remove k r)

-- The methods other than `register`, which takes a sandbox from outside.
abbrev pub Within : Op → Type 0
Within (Op.register s) = ⊥
Within _ = Unit

pub Within-Allowed : (o : Op) → Within o → Allowed o
Within-Allowed (Op.register s) w = absurd w
Within-Allowed (Op.create c) w = tt
Within-Allowed Op.create_default w = tt
Within-Allowed Op.destroy_all w = tt
Within-Allowed (Op.destroy id) w = tt
Within-Allowed (Op.execute id cmd) w = tt
Within-Allowed (Op.read_file id path) w = tt
Within-Allowed (Op.list_dir id path) w = tt
Within-Allowed (Op.execute_code id lang code) w = tt
Within-Allowed (Op.write_file id path text) w = tt

module _ (l : Libraries) (i : Uuid) where
  abbrev Managed : SandboxManager → Trace → SandboxManager × Trace → Type 0
  Managed m t (m', t') = Moves l i t (in_registry i m.sandboxes) t' (in_registry i m'.sandboxes)

  on_sandbox-Managed :
      {R : Type 0} (id : Uuid) (f : ClientMethod R) (m : SandboxManager) (t : Trace)
      → ((c : AgentClient) → length t ≤ length (f c t).2)
      → let (_, m', t') = on_sandbox id (when_ready f) m t in Managed m t (m', t')
  unfolding on_sandbox
  on_sandbox-Managed id f m t g = elim (Option-cases (get id m.sandboxes)) [
    | inl h ↦ rw (h, on_sandbox) (same-Moves l i t t _ _ (omega arith) (omega arith))
    | inr (s, h) ↦
        rw (h, on_sandbox)
          (same-Moves l i t _ _ _ (when_ready-Grows f s t (g s.client)) (
            omega (
              arith,
              in_registry-insert_same i id s (when_ready f s t).1 m.sandboxes h
                  (when_ready_same f s t).0,
            )))
  ]

  registered-Managed :
      (m : SandboxManager) (t : Trace) (r : Result CoreError Sandbox × Trace)
      → Moves l i t
          (in_registry i m.sandboxes)
          r.1
          (in_registry i m.sandboxes + of_answer i (some r.0))
      → let (_, m', t') = registered m r in Managed m t (m', t')
  unfolding registered
  registered-Managed m t (ok s, u) v =
      Moves-below l i t u _ _ _ (in_registry-insert i s.id s m.sandboxes) v
  registered-Managed m t (err x, u) v = Moves-below l i t u _ _ _ (omega arith) v

  pub create-Managed :
      (c : SandboxConfig) (m : SandboxManager) (t : Trace)
      → let (_, m', t') = Manager.create l c m t in Managed m t (m', t')
  unfolding Manager.create create_below
  create-Managed c m t = elim (Bool-cases (at_limit m)) [
    | inl full ↦ rw full (same-Moves l i t t _ _ (omega arith) (omega arith))
    | inr room ↦ rw room (
        registered-Managed (record m { cid_counter = next_cid m.cid_counter }) t _
          (created-Moves l i _ (record c { vsock_cid = m.cid_counter }) t))
  ]

  create_default-Managed :
      (m : SandboxManager) (t : Trace)
      → let (_, m', t') = Manager.create_default l m t in Managed m t (m', t')
  unfolding Manager.create_default
  create_default-Managed m t = by_config _
    where
      by_config :
          (r : Result CoreError SandboxConfig)
          → let (_, m', t') : Result CoreError Uuid × SandboxManager × Trace =
              elim r as (λ _. Result CoreError Uuid × SandboxManager × Trace) [
                | ok c ↦ Manager.create l c m t
                | err x ↦ (err x, m, t)
              ] in
            Managed m t (m', t')
      by_config (ok c) = create-Managed c m t
      by_config (err x) = same-Moves l i t t _ _ (omega arith) (omega arith)

  destroy-Managed :
      (id : Uuid) (m : SandboxManager) (t : Trace)
      → let (_, m', t') = Manager.destroy l id m t in Managed m t (m', t')
  unfolding Manager.destroy
  destroy-Managed id m t = elim (Option-cases (get id m.sandboxes)) [
    | inl h ↦ rw (h, Manager.destroy) (same-Moves l i t t _ _ (omega arith) (omega arith))
    | inr (s, h) ↦
        rw (h, Manager.destroy)
          (same-Moves l i t _ _ _ (destroy-Grows l s t) (in_registry-remove i id m.sandboxes))
  ]

  destroy_each-Grows : (r : Registry) (t : Trace) → length t ≤ length (destroy_each l r t)
  unfolding destroy_each
  destroy_each-Grows [] t = omega arith
  destroy_each-Grows ((k, s) ∷ r) t =
      omega (arith, destroy-Grows l s t, destroy_each-Grows r (Sandbox.destroy l s t).1)

  -- Every method but `register` draws at most one identifier, and moves no sandbox in.
  pub step-Managed :
      (o : Op) (m : SandboxManager) (t : Trace) → Within o → Managed m t (step l o m t)
  unfolding step Manager.execute Manager.execute_code Manager.read_file Manager.write_file
      Manager.list_dir Sandbox.execute Sandbox.execute_code Sandbox.read_file Sandbox.write_file
      Sandbox.list_dir Manager.destroy_all
  step-Managed (Op.create c) m t w = create-Managed c m t
  step-Managed Op.create_default m t w = create_default-Managed m t
  step-Managed Op.destroy_all m t w =
      same-Moves l i t _ _ _ (destroy_each-Grows m.sandboxes t) (omega arith)
  step-Managed (Op.register s) m t w = absurd w
  step-Managed (Op.destroy id) m t w = destroy-Managed id m t
  step-Managed (Op.execute id cmd) m t w =
      on_sandbox-Managed id _ m t (λ c. exec-Grows l.serde l.env l.decoders c t cmd)
  step-Managed (Op.read_file id path) m t w =
      on_sandbox-Managed id _ m t (λ c. read_file-Grows l.serde l.env l.decoders c t path)
  step-Managed (Op.list_dir id path) m t w =
      on_sandbox-Managed id _ m t (λ c. list_dir-Grows l.serde l.env l.decoders c t path)
  step-Managed (Op.execute_code id lang code) m t w =
      on_sandbox-Managed id _ m t (λ c. exec_code-Grows l.serde l.env l.decoders c t lang code)
  step-Managed (Op.write_file id path text) m t w =
      on_sandbox-Managed id _ m t (λ c. write_file-Grows l.serde l.env l.decoders c t path text)
