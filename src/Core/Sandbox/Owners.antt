-- ===== src/Core/Sandbox/Owners.antt =====
-- Who holds the sandbox of an identifier: a step moves it between holders, and `Sandbox::create`
-- draws it.
use petty.Shared.{
  ℕ, ◌+◌, ◌≤◌, ◌<◌, ◌≡◌, ◌⊎◌, inl, inr, Option, none, some, if◌then◌else◌, ◌==◌, length, Bool-cases,
  arith, subst, refl,
}
use petty.Shared.Result.{Result, ok, err}
use petty.Host.{Uuid, Trace}
use petty.Core.Error.{CoreError}
use petty.Core.Config.{SandboxConfig}
use petty.Core.Sandbox.{Sandbox, Libraries, create}
use petty.Core.Sandbox.Create.{create_ok}
use petty.Core.Sandbox.Growth.{create-Grows, create-longer}

module _ (i : Uuid) where
  abbrev pub one : Sandbox → ℕ
  one s = if s.id == i then 1 else 0

  abbrev pub of_answer : Option (Result CoreError Sandbox) → ℕ
  of_answer none = 0
  of_answer (some (err e)) = 0
  of_answer (some (ok s)) = one s

module _ (l : Libraries) (i : Uuid) where
  -- One move: the trace grows, and no more places hold the identifier, unless it was drawn meanwhile,
  -- by a creation that made the trace longer.
  abbrev pub Moves : Trace → ℕ → Trace → ℕ → Type 0
  Moves t n t' n' =
      (length t ≤ length t')
      × ((n' ≤ n)
          ⊎ ((u : Trace) × (i ≡ l.env.new_uuid u)
              × (length t ≤ length u)
              × (length u < length t')
              × (n' ≤ n + 1)))

  -- The identifier was drawn before this point of the trace.
  abbrev pub Drawn : Trace → Type 0
  Drawn t = (u : Trace) × (i ≡ l.env.new_uuid u) × (length u < length t)

  -- At most one holder, and none of an identifier that was not drawn yet.
  abbrev pub Owned : ℕ → Trace → Type 0
  Owned n t = (n ≤ 1) × ((n ≡ 0) ⊎ Drawn t)

module _ (l : Libraries) (i : Uuid) where
  pub same-Moves : (t t' : Trace) (n n' : ℕ) → length t ≤ length t' → n' ≤ n → Moves l i t n t' n'
  same-Moves t t' n n' a b = (a, inl b)

  -- A move beside others' holdings.
  pub Moves-beside :
      (t t' : Trace) (n n' k m m' : ℕ)
      → n + k ≡ m
      → n' + k ≡ m'
      → Moves l i t n t' n'
      → Moves l i t m t' m'
  Moves-beside t t' n n' k m m' a b (g, inl h) = (g, inl (omega arith))
  Moves-beside t t' n n' k m m' a b (g, inr (u, e, f, s, h)) = (g, inr (u, e, f, s, omega arith))

  -- A move of which less stays.
  pub Moves-below : (t t' : Trace) (n m n' : ℕ) → n' ≤ m → Moves l i t n t' m → Moves l i t n t' n'
  Moves-below t t' n m n' b (g, inl h) = (g, inl (omega arith))
  Moves-below t t' n m n' b (g, inr (u, e, f, s, h)) = (g, inr (u, e, f, s, omega arith))

  -- A move after the trace has grown.
  pub Moves-after :
      (t u t' : Trace) (n m n' : ℕ)
      → length t ≤ length u
      → m ≤ n
      → Moves l i u m t' n'
      → Moves l i t n t' n'
  Moves-after t u t' n m n' g b (f, inl h) = (omega arith, inl (omega arith))
  Moves-after t u t' n m n' g b (f, inr (v, e, x, s, h)) =
      (omega arith, inr (v, e, omega arith, s, omega arith))

  pub created-Moves :
      (n : ℕ) (c : SandboxConfig) (t : Trace)
      → let (r, t') = create l c t in Moves l i t n t' (n + of_answer i (some r))
  created-Moves n c t = by_result (create l c t) refl
    where
      by_result :
          (r : Result CoreError Sandbox × Trace)
          → create l c t ≡ r
          → Moves l i t n r.1 (n + of_answer i (some r.0))
      by_result (err x, u) h =
          same-Moves t u n _ (subst (λ r. length t ≤ length r.1) h (create-Grows l c t))
            (omega arith)
      by_result (ok s, u) h = elim (Bool-cases (s.id == i)) [
        | inl same ↦
            let (k, _, _, _) = create_ok l c t u s h in
            let longer = create-longer l c t u s h in
            (omega arith, inr (t, ground arith, omega arith, longer, rw same (omega arith)))
        | inr other ↦ (ground (arith, create-longer l c t u s h), inl (rw other (omega arith)))
      ]

-- Version 4 UUIDs do not repeat: those drawn at traces of different lengths differ.
abbrev pub Unrepeated : Libraries → Type 0
Unrepeated l = (t u : Trace) → l.env.new_uuid t ≡ l.env.new_uuid u → length t ≡ length u

module _ (l : Libraries) (fresh : Unrepeated l) (i : Uuid) where
  pub Moves-Owned :
      (t t' : Trace) (n n' k : ℕ)
      → Moves l i t n t' n'
      → Owned l i (k + n) t
      → Owned l i (k + n') t'
  Moves-Owned t t' n n' k (g, inl h) (b, inl e) = (omega arith, inl (omega arith))
  Moves-Owned t t' n n' k (g, inl h) (b, inr (u, e, s)) = (omega arith, inr (u, e, omega arith))
  Moves-Owned t t' n n' k (g, inr (v, d, f, s, h)) (b, inl e) = (omega arith, inr (v, d, s))
  Moves-Owned t t' n n' k (g, inr (v, d, f, s, h)) (b, inr (u, e, x)) =
      absurd (omega (arith, fresh u v cc))

  pub Owned-eq : (n n' : ℕ) (t : Trace) → n ≡ n' → Owned l i n t → Owned l i n' t
  Owned-eq n n' t e v = subst (λ m. Owned l i m t) e v
