-- ===== src/Host/Growth.antt =====
-- The trace of the host only grows: what each call and each composition of calls adds to it.
use petty.Shared.{ℕ, ◌≤◌, suc, arith, length, ◌≡◌}
use petty.Shared.Result.{Result, ok, err, Action, then_with, ◌>>=◌}
use petty.Host.{Trace, Env, Call, perform, read_reply, sleep_for, send_put, ApiRequest}
use petty.Text.FilePath.{FilePath}

-- The action never shortens the trace.
abbrev pub Grows : {E A : Type 0} → Action Trace E A → Type 0
Grows m = (t : Trace) → length t ≤ length (m t).1

pub Grows-then_with :
    {E A B : Type 0} (f : A → Action Trace E B)
    → ((a : A) → Grows (f a))
    → (n : ℕ) (r : Result E A × Trace) → n ≤ length r.1
    → n ≤ length (then_with f r).1
Grows-then_with f g n (ok a, u) h = omega (arith, g a u)
Grows-then_with f g n (err x, u) h = h

pub Grows->>= :
    {E A B : Type 0} (m : Action Trace E A) (f : A → Action Trace E B)
    → Grows m
    → ((a : A) → Grows (f a))
    → Grows (m >>= f)
Grows->>= m f a b t = Grows-then_with f b (length t) (m t) (a t)

pub perform-length : (e : Env) (c : Call) (t : Trace) → length (perform e c t).1 ≡ suc (length t)
unfolding perform
perform-length e c t = ground arith

pub perform-Grows : (e : Env) (c : Call) → Grows (perform e c)
perform-Grows e c t = omega (arith, perform-length e c t)

pub read_reply-Grows : (e : Env) → Grows (read_reply e)
unfolding read_reply
read_reply-Grows e t = ground arith

pub sleep_for-Grows : (ms : ℕ) (t : Trace) → length t ≤ length (sleep_for ms t)
unfolding sleep_for
sleep_for-Grows ms t = ground arith

pub send_put-Grows : (e : Env) (s : FilePath) (r : ApiRequest) → Grows (send_put e s r)
unfolding send_put
send_put-Grows e s r t = ground arith
