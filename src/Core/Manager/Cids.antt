-- ===== src/Core/Manager/Cids.antt =====
-- The CIDs of the sandboxes in the registry.
use petty.Shared.{
  ℕ, suc, ◌+◌, ◌^◌, ◌≤◌, ◌<◌, ◌≡◌, refl, ap, List, [], ◌∷◌, some, length, arith, ◌==◌, Bool-cases,
  Option-cases, inl, inr, if◌then◌else◌, All,
}
use petty.Shared.Result.{Result, ok, err}
use petty.Host.{Uuid, Trace}
use petty.Core.Error.{CoreError}
use petty.Core.Config.{SandboxConfig, build, builder, kernel, rootfs}
use petty.Core.Client.Methods.{ClientMethod}
use petty.Core.Sandbox.{Sandbox, Libraries, when_ready}
use petty.Core.Sandbox
use petty.Core.Sandbox.Create.{create_ok}
use petty.Core.Manager.{
  Registry, SandboxManager, ManagerConfig, get, insert, remove, new, at_limit, registered,
  on_sandbox, create_below, next_cid,
}
use petty.Core.Manager
use petty.Core.Manager.Limit.{Op, step, run}

module _ (n : ℕ) where
  abbrev pub has_cid : Sandbox → ℕ
  has_cid s = if s.config.vsock_cid == n then 1 else 0

  -- How many entries of the registry have this CID.
  abbrev pub with_cid : Registry → ℕ
  with_cid [] = 0
  with_cid ((k, s) ∷ r) = has_cid s + with_cid r

  -- A sandbox that is registered from outside has another CID.
  abbrev pub Clear : Op → Type 0
  Clear (Op.register s) = has_cid s ≡ 0
  Clear _ = Unit

  with_cid-insert :
      (k : Uuid) (s : Sandbox) (r : Registry) → with_cid (insert k s r) ≤ with_cid r + has_cid s
  unfolding insert
  with_cid-insert k s [] = omega arith
  with_cid-insert k s ((j, v) ∷ r) = ground (arith, with_cid-insert k s r)

  with_cid-insert_same :
      (k : Uuid) (s s' : Sandbox) (r : Registry)
      → get k r ≡ some s
      → s'.config ≡ s.config
      → with_cid (insert k s' r) ≡ with_cid r
  unfolding insert get
  with_cid-insert_same k s s' [] h e = absurd (cc h)
  with_cid-insert_same k s s' ((j, v) ∷ r) h e = ground (arith, with_cid-insert_same k s s' r)

  with_cid-remove : (k : Uuid) (r : Registry) → with_cid (remove k r) ≤ with_cid r
  unfolding remove
  with_cid-remove k [] = omega arith
  with_cid-remove k ((j, v) ∷ r) = ground (arith, with_cid-remove k r)

  -- With `k` more CIDs to draw before the counter wraps.
  record Unique (k : ℕ) (m : SandboxManager) : Type 0 where
    one : with_cid m.sandboxes ≤ 1
    drawn : m.cid_counter ≤ n → with_cid m.sandboxes ≡ 0
    reserved : n < 3 → with_cid m.sandboxes ≡ 0
    from : 3 ≤ m.cid_counter
    room : m.cid_counter + k < 2 ^ 32

  -- A registry with no more sandboxes of the CID, and the same counter.
  fewer :
      (k : ℕ) (m : SandboxManager) (r : Registry)
      → with_cid r ≤ with_cid m.sandboxes
      → Unique (suc k) m
      → Unique k (record m { sandboxes = r })
  fewer k m r h v = record {
    one = omega (arith, h, v.one);
    drawn = λ p. omega (arith, h, v.drawn p);
    reserved = λ p. omega (arith, h, v.reserved p);
    from = v.from;
    room = omega (arith, v.room);
  }

  module _ (l : Libraries) where
    on_sandbox-Unique :
        {R : Type 0} (k : ℕ) (id : Uuid) (f : ClientMethod R) (m : SandboxManager) (t : Trace)
        → Unique (suc k) m
        → Unique k (on_sandbox id (when_ready f) m t).1
    unfolding on_sandbox when_ready
    on_sandbox-Unique k id f m t v = elim (Option-cases (get id m.sandboxes)) [
      | inl h ↦ rw (h, on_sandbox) (fewer k m m.sandboxes (omega arith) v)
      | inr (s, h) ↦
          rw (h, on_sandbox)
            (fewer k m _
              (omega (
                arith,
                with_cid-insert_same id s (when_ready f s t).1 m.sandboxes h (ground arith),
              ))
              v)
    ]

    registered-Unique :
        (k : ℕ) (c : SandboxConfig) (m : SandboxManager) (t : Trace)
        (r : Result CoreError Sandbox × Trace)
        → Sandbox.create l (record c { vsock_cid = m.cid_counter }) t ≡ r
        → Unique (suc k) m
        → Unique k (registered (record m { cid_counter = next_cid m.cid_counter }) r).1
    unfolding registered next_cid
    registered-Unique k c m t (ok s, u) h v =
        let (_, e, _, _) = create_ok l (record c { vsock_cid = m.cid_counter }) t u s h in
        let cid : s.config.vsock_cid ≡ m.cid_counter = ap (λ c. c.vsock_cid) e in
        let i = with_cid-insert s.id s m.sandboxes in
        record {
          one = ground (arith, cid, i, v.one, v.drawn);
          drawn = λ p. ground (arith, cid, i, v.drawn, v.room);
          reserved = λ p. ground (arith, cid, i, v.reserved, v.from);
          from = omega (arith, v.from, v.room);
          room = omega (arith, v.room);
        }
    registered-Unique k c m t (err x, u) h v = record {
      one = v.one;
      drawn = λ p. v.drawn (omega (arith, p, v.room));
      reserved = v.reserved;
      from = omega (arith, v.from, v.room);
      room = omega (arith, v.room);
    }

    create-Unique :
        (k : ℕ) (c : SandboxConfig) (m : SandboxManager) (t : Trace)
        → Unique (suc k) m
        → Unique k (Manager.create l c m t).1
    unfolding Manager.create create_below
    create-Unique k c m t v = elim (Bool-cases (at_limit m)) [
      | inl full ↦ rw full (fewer k m m.sandboxes (omega arith) v)
      | inr room ↦ rw room (registered-Unique k c m t _ refl v)
    ]

    create_default-Unique :
        (k : ℕ) (m : SandboxManager) (t : Trace)
        → Unique (suc k) m
        → Unique k (Manager.create_default l m t).1
    unfolding Manager.create_default
    create_default-Unique k m t v =
        by_config (build (rootfs (kernel builder m.config.kernel_path) m.config.rootfs_path))
      where
        by_config :
            (r : Result CoreError SandboxConfig)
            → Unique k
                (elim r as (λ _. Result CoreError Uuid × SandboxManager × Trace) [
                  | ok c ↦ Manager.create l c m t
                  | err x ↦ (err x, m, t)
                ]).1
        by_config (ok c) = create-Unique k c m t v
        by_config (err x) = fewer k m m.sandboxes (omega arith) v

    register-Unique :
        (k : ℕ) (s : Sandbox) (m : SandboxManager)
        → has_cid s ≡ 0
        → Unique (suc k) m
        → Unique k (Manager.register m s).1
    unfolding Manager.register
    register-Unique k s m h v = elim (Bool-cases (at_limit m)) [
      | inl full ↦ rw full (fewer k m m.sandboxes (omega arith) v)
      | inr room ↦ rw room (fewer k m _ (omega (arith, with_cid-insert s.id s m.sandboxes, h)) v)
    ]

    destroy-Unique :
        (k : ℕ) (id : Uuid) (m : SandboxManager) (t : Trace)
        → Unique (suc k) m
        → Unique k (Manager.destroy l id m t).1
    unfolding Manager.destroy
    destroy-Unique k id m t v = elim (Option-cases (get id m.sandboxes)) [
      | inl h ↦ rw (h, Manager.destroy) (fewer k m m.sandboxes (omega arith) v)
      | inr (s, h) ↦ rw (h, Manager.destroy) (fewer k m _ (with_cid-remove id m.sandboxes) v)
    ]

    step-Unique :
        (k : ℕ) (o : Op) (m : SandboxManager) (t : Trace)
        → Clear o
        → Unique (suc k) m
        → Unique k (step l o m t).0
    unfolding step Manager.execute Manager.execute_code Manager.read_file Manager.write_file
        Manager.list_dir Sandbox.execute Sandbox.execute_code Sandbox.read_file Sandbox.write_file
        Sandbox.list_dir Manager.destroy_all
    step-Unique k (Op.create c) m t a v = create-Unique k c m t v
    step-Unique k Op.create_default m t a v = create_default-Unique k m t v
    step-Unique k Op.destroy_all m t a v = fewer k m [] (omega arith) v
    step-Unique k (Op.register s) m t a v = register-Unique k s m a v
    step-Unique k (Op.destroy id) m t a v = destroy-Unique k id m t v
    step-Unique k (Op.execute id cmd) m t a v = on_sandbox-Unique k id _ m t v
    step-Unique k (Op.read_file id path) m t a v = on_sandbox-Unique k id _ m t v
    step-Unique k (Op.list_dir id path) m t a v = on_sandbox-Unique k id _ m t v
    step-Unique k (Op.execute_code id lang code) m t a v = on_sandbox-Unique k id _ m t v
    step-Unique k (Op.write_file id path text) m t a v = on_sandbox-Unique k id _ m t v

    run-Unique :
        (os : List Op) (m : SandboxManager) (t : Trace)
        → All Clear os
        → Unique (length os) m
        → Unique 0 (run l os m t).0
    unfolding run
    run-Unique [] m t a v = v
    run-Unique (o ∷ os) m t a v =
        run-Unique os (step l o m t).0 (step l o m t).1 a.1 (step-Unique (length os) o m t a.0 v)

    -- From a new manager, after a sequence of its methods that the counter of CIDs has room for: at most
    -- one registered sandbox has a given CID, and none has one below 3, if no sandbox of that CID was
    -- registered from outside.
    pub run-new-with_cid :
        (c : ManagerConfig) (os : List Op) (t : Trace)
        → All Clear os
        → 3 + length os < 2 ^ 32
        → (with_cid (run l os (new c) t).0.sandboxes ≤ 1)
          × (n < 3 → with_cid (run l os (new c) t).0.sandboxes ≡ 0)
    run-new-with_cid c os t a h =
        let v = run-Unique os (new c) t a (record {
          one = omega arith;
          drawn = λ p. refl;
          reserved = λ p. refl;
          from = omega arith;
          room = omega (arith, h);
        }) in
        (v.one, v.reserved)
