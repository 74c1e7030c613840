-- ===== src/Vm/Machine/Life.antt =====
-- The life of a machine after its boot: its recorded state against what the host was told.
use petty.Shared.{
  ◌≡◌, refl, ◌≢◌, ◌∙◌, ap, subst, ◌⊎◌, inl, inr, Bool, false, List, [], ◌∷◌, ◌++◌, arith, ◌==◌,
  ==_iff, if◌then◌else◌,
}
use petty.Shared.Result.{Result, ok, err, failing}
use petty.Host.{
  Uuid, FpConfig, Call, Trace, Env, perform, is_ok, start_machine, stop_machine, kill_machine,
}
use petty.Text.{Str}
use petty.Vm.Error.{VmError}
use petty.Vm.Config.{MachineConfig}
use petty.Vm.Machine.{
  VmState, running, stopped, paused, creating, VirtualMachine, start_vm, stop_vm, kill_vm,
  destroy_vm, create_with_id, kill_if_running,
}
use petty.Vm.Machine.Boot.{create_with_id-Booted, Booted, boot_events, drop_event}

-- The methods that keep the machine.
pub data Op : Type 0 where
  start stop kill : Op

unfoldable pub call_op :
    Env → Op → VirtualMachine → Trace → Result VmError (Unit {0}) × VirtualMachine × Trace
call_op e start = start_vm e
call_op e stop = stop_vm e
call_op e kill = kill_vm e

-- The calls of a list of operations, whatever each of them returns.
unfoldable pub run : Env → List Op → VirtualMachine → Trace → VirtualMachine × Trace
unfolding call_op
run e [] vm t = (vm, t)
run e (o ∷ os) vm t = let (_, vm', t') = call_op e o vm t in run e os vm' t'

-- What a call tells the host of machine `id`.
abbrev pub effect_of : Uuid → Call → VmState → VmState
effect_of id (start_machine j) s = if j == id then running else s
effect_of id (stop_machine j) s = if j == id then stopped else s
effect_of id (kill_machine j) s = if j == id then stopped else s
effect_of id _ s = s

-- The state that the host was left in by the last start, stop or kill of the machine that succeeded.
pub host_state : Uuid → Trace → VmState
host_state id [] = stopped
host_state id (ev ∷ t) =
    let s = host_state id t in if ev.succeeded then effect_of id ev.call s else s

abbrev pub Agrees : VirtualMachine → Trace → Type 0
Agrees vm t = vm.state ≡ host_state vm.id t

call_op-Agrees :
    (e : Env) (o : Op) (vm : VirtualMachine) (t : Trace)
    → Agrees vm t
    → let (_, vm', t') = call_op e o vm t in
      Agrees vm' t' × (vm'.id ≡ vm.id) × (vm'.config ≡ vm.config)
unfolding call_op start_vm stop_vm kill_vm perform host_state
call_op-Agrees e start vm t a = ground (arith, ==_iff vm.id vm.id)
call_op-Agrees e stop vm t a = ground (arith, ==_iff vm.id vm.id)
call_op-Agrees e kill vm t a = ground (arith, ==_iff vm.id vm.id)

run-Agrees :
    (e : Env) (os : List Op) (vm : VirtualMachine) (t : Trace)
    → Agrees vm t
    → let (vm', t') = run e os vm t in Agrees vm' t' × (vm'.id ≡ vm.id) × (vm'.config ≡ vm.config)
unfolding run
run-Agrees e [] vm t a = (a, refl, refl)
run-Agrees e (o ∷ os) vm t a =
    let (_, vm', t') = call_op e o vm t in
    let (b, i, k) = call_op-Agrees e o vm t a in
    let (d, j, l) = run-Agrees e os vm' t' b in (d, j ∙ i, l ∙ k)

-- A start, a stop or a kill that fails leaves the machine as it was, and has made no call to the
-- host or a single one, which failed.
call_op_failed :
    (e : Env) (o : Op) (vm : VirtualMachine) (t : Trace) {x : VmError}
    → (call_op e o vm t).0 ≡ err x
    → ((call_op e o vm t).1 ≡ vm)
      × (((call_op e o vm t).2 ≡ t)
          ⊎ ((c : Call) × ((call_op e o vm t).2 ≡ record { call = c; succeeded = false } ∷ t)))
unfolding call_op start_vm stop_vm kill_vm perform
call_op_failed e start vm t h = ground arith
call_op_failed e stop vm t h = ground arith
call_op_failed e kill vm t h = ground arith

kill_vm-calls :
    (e : Env) (vm : VirtualMachine) (t : Trace)
    → (b : Bool) × ((kill_vm e vm t).2 ≡ record { call = kill_machine vm.id; succeeded = b } ∷ t)
unfolding kill_vm perform
kill_vm-calls e vm t =
    (is_ok {E = Str} {A = Unit {0}} (failing (e.respond t (kill_machine vm.id))), ground arith)

-- `destroy` succeeds in every state. Its last call drops the handle, and before that it makes no
-- call but the kill of a machine that is running.
pub destroy_vm-calls :
    (e : Env) (vm : VirtualMachine) (t : Trace)
    → ((destroy_vm e vm t).0 ≡ ok tt)
      × ((u : Trace) × ((destroy_vm e vm t).1 ≡ drop_event e vm.id u ∷ u)
          × (((vm.state ≡ running)
                × ((b : Bool) × (u ≡ record { call = kill_machine vm.id; succeeded = b } ∷ t)))
              ⊎ ((vm.state ≢ running) × (u ≡ t))))
unfolding destroy_vm perform
destroy_vm-calls e vm t = (refl, (kill_if_running e vm.state vm t, refl, by_state vm.state refl))
  where
    by_state :
        (s : VmState)
        → vm.state ≡ s
        → ((vm.state ≡ running)
            × ((b : Bool) × (kill_if_running e s vm t
                  ≡ record { call = kill_machine vm.id; succeeded = b } ∷ t)))
          ⊎ ((vm.state ≢ running) × (kill_if_running e s vm t ≡ t))
    by_state running h = inl (h, kill_vm-calls e vm t)
    by_state creating h = inr (λ k. cc, refl)
    by_state paused h = inr (λ k. cc, refl)
    by_state stopped h = inr (λ k. cc, refl)

boot_events-host_state :
    (e : Env) (id : Uuid) (c : MachineConfig) (fp : FpConfig) (t : Trace)
    → host_state id (boot_events e id c fp ++ t) ≡ running
unfolding host_state
boot_events-host_state e id c fp t = ground (arith, ==_iff id id)

Booted-Agrees :
    (e : Env) (id : Uuid) (c : MachineConfig) (t : Trace)
    (r : Result VmError VirtualMachine × Trace) (vm : VirtualMachine) (t' : Trace)
    → Booted e id c t r
    → r ≡ (ok vm, t')
    → Agrees vm t' × (vm.id ≡ id) × (vm.config ≡ c)
Booted-Agrees e id c t (ok v, u) vm t' (fp, _, p, q) h =
    ground (arith, boot_events-host_state e id c fp t)
Booted-Agrees e id c t (err x, u) vm t' b h = absurd (cc (ap (λ p. p.0) h))

-- After a successful boot and any sequence of starts, stops and kills, whatever the host answers,
-- the machine's recorded state is the one that the last successful of these calls left the host in,
-- and its identifier and configuration are those that it was created with.
pub run_follows_host :
    (e : Env) (id : Uuid) (c : MachineConfig) (t : Trace) (vm : VirtualMachine) (t' : Trace)
    (os : List Op)
    → create_with_id e id c t ≡ (ok vm, t')
    → let (vm', u) = run e os vm t' in
      (vm'.state ≡ host_state id u) × (vm'.id ≡ id) × (vm'.config ≡ c)
run_follows_host e id c t vm t' os h =
    let (a, i, k) = Booted-Agrees e id c t _ vm t' (create_with_id-Booted e id c t) h in
    let (b, j, l) = run-Agrees e os vm t' a in
    (
      subst (λ x. (run e os vm t').0.state ≡ host_state x (run e os vm t').1) (j ∙ i) b,
      j ∙ i,
      l ∙ k,
    )
