-- ===== src/Vm/Machine/Boot.antt =====
-- What `create_with_id` asks of the host: the order of its calls when the machine boots, and what
-- it leaves behind when it does not.
use petty.Shared.{
  ℕ, ◌≡◌, refl, ap, ◌⊎◌, inl, inr, Bool, true, false, List, [], ◌∷◌, ◌++◌, All, Option, none, some,
  arith, append_assoc, subst, ◌∙◌, sym, Option-cases,
}
use petty.Shared.Result.{Result, ok, err, failing, Action, then_with, then_with-eq-ok, ◌>>◌}
use petty.Text.FilePath.{FilePath}
use petty.Host.{
  Uuid, FpConfig, Call, Event, Trace, Env, perform, is_ok, send_put, create_machine, start_machine,
  drop_machine, put, ApiRequest,
}
use petty.Text.{Str}
use petty.Vm.Error.{VmError, create, start}
use petty.Vm.Config.{VsockConfig, MachineConfig}
use petty.Vm.Api.{
  put_request, configure_machine, configure_vsock, machine_request, vsock_request, Messages,
}
use petty.Vm.Machine.{
  VirtualMachine, running, build_fp_config, call_machine, api_socket, configure_vsock_if, boot,
  create_from, create_with_id, finish_create,
}

abbrev pub done : Call → Event
done c = record { call = c; succeeded = true }

abbrev vsock_events : FilePath → Option VsockConfig → List Event
vsock_events socket none = []
vsock_events socket (some v) = done (put socket (vsock_request v)) ∷ []

-- The calls of a boot, newest first: the machine is created, its resources and then its vsock are
-- configured, and only then it starts.
abbrev pub boot_events : Env → Uuid → MachineConfig → FpConfig → List Event
boot_events e id c fp =
    done (start_machine id) ∷ vsock_events (api_socket e id c) c.vsock
    ++ done (put (api_socket e id c) (machine_request c.vcpu_count c.memory_mib))
      ∷ done (create_machine fp)
      ∷ []

abbrev pub is_start : Call → Bool
is_start (start_machine id) = true
is_start _ = false

-- No call of these started a machine.
abbrev pub NeverStarted : List Event → Type 0
NeverStarted = All (λ ev. is_start ev.call ≡ true → ev.succeeded ≡ false)

put_request_ok :
    (e : Env) (s : FilePath) (r : ApiRequest) (m : Messages) (t t' : Trace)
    → put_request e s r m t ≡ (ok tt, t')
    → t' ≡ done (put s r) ∷ t
unfolding put_request send_put
put_request_ok e s r m t t' h = ground arith

-- The later trace adds calls of which none started a machine.
abbrev pub Extends : Trace → Trace → Type 0
Extends t t' = (new : List Event) × (t' ≡ new ++ t) × NeverStarted new

NeverStarted-append :
    (xs ys : List Event) → NeverStarted xs → NeverStarted ys → NeverStarted (xs ++ ys)
NeverStarted-append [] ys a b = b
NeverStarted-append (x ∷ xs) ys a b = (a.0, NeverStarted-append xs ys a.1 b)

pub Extends-refl : (t : Trace) → Extends t t
Extends-refl t = ([], refl, tt)

pub Extends-trans : (t u v : Trace) → Extends t u → Extends u v → Extends t v
Extends-trans t u v (xs, p, a) (ys, q, b) =
    (ys ++ xs, q ∙ (ap (◌++◌ ys) p ∙ sym (append_assoc ys xs t)), NeverStarted-append ys xs b a)

pub Extends-one :
    (t : Trace) (ev : Event) → (is_start ev.call ≡ true → ev.succeeded ≡ false) → Extends t (ev ∷ t)
Extends-one t ev h = (ev ∷ [], refl, (h, tt))

-- An action that starts nothing, and one that starts nothing where it fails.
abbrev pub Quiet : {A : Type 0} → Action Trace VmError A → Type 0
Quiet m = (t : Trace) → Extends t (m t).1

abbrev pub QuietFailure : {A : Type 0} → Action Trace VmError A → Type 0
QuietFailure m = (t t' : Trace) (x : VmError) → m t ≡ (err x, t') → Extends t t'

QuietFailure-after :
    {B : Type 0} (f : Action Trace VmError B) (t t' : Trace) (x : VmError)
    → QuietFailure f
    → (r : Result VmError (Unit {0}) × Trace) → Extends t r.1
    → then_with (λ _. f) r ≡ (err x, t')
    → Extends t t'
QuietFailure-after f t t' x q (ok _, u) a h = Extends-trans t u t' a (q u t' x h)
QuietFailure-after f t t' x q (err y, u) a h = subst (Extends t) (ap (λ p. p.1) h) a

pub QuietFailure->> :
    {B : Type 0} (m : Action Trace VmError (Unit {0})) (f : Action Trace VmError B)
    → Quiet m
    → QuietFailure f
    → QuietFailure (m >> f)
QuietFailure->> m f a q t t' x h = QuietFailure-after f t t' x q (m t) (a t) h

put_request_trace :
    (e : Env) (s : FilePath) (r : ApiRequest) (m : Messages) (t : Trace)
    → ((put_request e s r m t).1 ≡ t)
      ⊎ ((b : Bool) × ((put_request e s r m t).1 ≡ record { call = put s r; succeeded = b } ∷ t))
unfolding put_request send_put
put_request_trace e s r m t = ground arith

put_request-Quiet :
    (e : Env) (s : FilePath) (r : ApiRequest) (m : Messages) → Quiet (put_request e s r m)
put_request-Quiet e s r m t = elim (put_request_trace e s r m t) [
  | inl p ↦ rw p (Extends-refl t)
  | inr (b, p) ↦ rw p (Extends-one t _ (λ k. absurd (cc k)))
]

call_machine_ok :
    (e : Env) (c : Call) (wrap : Str → VmError) (t t' : Trace)
    → call_machine e c wrap t ≡ (ok tt, t')
    → t' ≡ done c ∷ t
unfolding call_machine perform
call_machine_ok e c wrap t t' h = ground arith

call_machine-Quiet :
    (e : Env) (c : Call) (wrap : Str → VmError) → is_start c ≡ false → Quiet (call_machine e c wrap)
unfolding call_machine perform
call_machine-Quiet e c wrap h t = Extends-one t _ (λ k. cc)

start-QuietFailure :
    (e : Env) (c : Call) (wrap : Str → VmError) → QuietFailure (call_machine e c wrap)
unfolding call_machine perform
start-QuietFailure e c wrap t t' x h = elim (Option-cases (e.respond t c)) [
  | inl n ↦ absurd (ground arith)
  | inr (y, p) ↦ subst (Extends t) (ap (λ q. q.1) h) (Extends-one t _ (λ _. ground arith))
]

configure_machine-Quiet : (e : Env) (s : FilePath) (n m : ℕ) → Quiet (configure_machine e s n m)
unfolding configure_machine
configure_machine-Quiet e s n m t = put_request-Quiet e s _ _ t

configure_vsock_if-Quiet :
    (e : Env) (s : FilePath) (v : Option VsockConfig) → Quiet (configure_vsock_if e s v)
unfolding configure_vsock_if configure_vsock
configure_vsock_if-Quiet e s none t = Extends-refl t
configure_vsock_if-Quiet e s (some v) t = put_request-Quiet e s _ _ t

configure_vsock_if_ok :
    (e : Env) (s : FilePath) (v : Option VsockConfig) (t t' : Trace)
    → configure_vsock_if e s v t ≡ (ok tt, t')
    → t' ≡ vsock_events s v ++ t
unfolding configure_vsock_if configure_vsock
configure_vsock_if_ok e s none t t' h = ground arith
configure_vsock_if_ok e s (some v) t t' h = put_request_ok e s _ _ t t' h

boot-QuietFailure :
    (e : Env) (id : Uuid) (c : MachineConfig) (fp : FpConfig) → QuietFailure (boot e id c fp)
unfolding boot
boot-QuietFailure e id c fp =
    QuietFailure->> (call_machine e (create_machine fp) create) _
      (call_machine-Quiet e (create_machine fp) create refl)
      (QuietFailure->> (configure_machine e (api_socket e id c) c.vcpu_count c.memory_mib) _
        (configure_machine-Quiet e (api_socket e id c) c.vcpu_count c.memory_mib)
        (QuietFailure->> (configure_vsock_if e (api_socket e id c) c.vsock) _
          (configure_vsock_if-Quiet e (api_socket e id c) c.vsock)
          (start-QuietFailure e (start_machine id) start)))

boot_ok :
    (e : Env) (id : Uuid) (c : MachineConfig) (fp : FpConfig) (t t' : Trace)
    → boot e id c fp t ≡ (ok tt, t')
    → t' ≡ boot_events e id c fp ++ t
unfolding boot configure_machine
boot_ok e id c fp t t' h =
    let (_, u, p, h₁) = then_with-eq-ok _ _ h in
    let (_, v, q, h₂) = then_with-eq-ok _ _ h₁ in
    let (_, w, r, h₃) = then_with-eq-ok _ _ h₂ in
    call_machine_ok e (start_machine id) start w t' h₃
    ∙ ap (◌∷◌ (done (start_machine id))) (
        configure_vsock_if_ok e (api_socket e id c) c.vsock v w r
        ∙ (ap (◌++◌ (vsock_events (api_socket e id c) c.vsock)) (
              put_request_ok e (api_socket e id c) _ _ u v q
              ∙ ap
                  (◌∷◌ (done (put (api_socket e id c) (machine_request c.vcpu_count c.memory_mib))))
                  (call_machine_ok e (create_machine fp) create t u p))
            ∙ sym (append_assoc (vsock_events (api_socket e id c) c.vsock) _ t)))

abbrev pub drop_event : Env → Uuid → Trace → Event
drop_event e id u = record {
  call = drop_machine id;
  succeeded = is_ok (failing (e.respond u (drop_machine id)));
}

-- What a boot leaves behind where it succeeds, and where it fails.
abbrev pub Booted :
    Env → Uuid → MachineConfig → Trace → Result VmError VirtualMachine × Trace → Type 0
Booted e id c t (ok vm, t') =
    (fp : FpConfig) × (build_fp_config e id c ≡ ok fp)
    × (vm ≡ record { id = id; config = c; state = running; socket_path = api_socket e id c })
    × (t' ≡ boot_events e id c fp ++ t)
Booted e id c t (err x, t') =
    ((build_fp_config e id c ≡ err x) × (t' ≡ t))
    ⊎ ((u : Trace) × Extends t u × (t' ≡ drop_event e id u ∷ u))

create_from-Booted :
    (e : Env) (id : Uuid) (c : MachineConfig) (t : Trace) (b : Result VmError FpConfig)
    → build_fp_config e id c ≡ b
    → Booted e id c t (create_from e id c b t)
unfolding create_from perform
create_from-Booted e id c t (err x) h = inl (h, refl)
create_from-Booted e id c t (ok fp) h = finish (boot e id c fp t) refl
  where
    finish :
        (r : Result VmError (Unit {0}) × Trace)
        → boot e id c fp t ≡ r
        → Booted e id c t (finish_create e id c r)
    finish (ok _, u) k = (fp, h, refl, boot_ok e id c fp t u k)
    finish (err x, u) k = inr (u, boot-QuietFailure e id c fp t u x k, refl)

-- `create_with_id` returns a running machine after exactly these calls, all successful: the machine
-- is created, its resources are configured, then its vsock if it has one, and last it starts. Where
-- it fails, either it was refused before any call to the host, or no call that it made started a
-- machine and its last call drops the machine's handle.
pub create_with_id-Booted :
    (e : Env) (id : Uuid) (c : MachineConfig) (t : Trace)
    → Booted e id c t (create_with_id e id c t)
unfolding create_with_id
create_with_id-Booted e id c t = create_from-Booted e id c t (build_fp_config e id c) refl
