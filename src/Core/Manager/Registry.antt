-- ===== src/Core/Manager/Registry.antt =====
-- The registry of the manager: the laws of its map, and the invariant that every operation keeps.
use petty.Shared.{
  suc, ◌≤◌, ◌≡◌, refl, [], ◌∷◌, none, some, arith, length, ◌==◌, if◌then◌else◌, Option-cases, inl,
  inr,
}
use petty.Host.{Uuid}
use petty.Core.Sandbox.{Sandbox, ready}
use petty.Core.Manager.{Registry, get, insert, remove}

pub get-insert :
    (k j : Uuid) (s : Sandbox) (r : Registry)
    → get j (insert k s r) ≡ (if k == j then some s else get j r)
unfolding get insert
get-insert k j s [] = refl
get-insert k j s ((i, v) ∷ r) = ground (arith, get-insert k j s r)

-- Every entry is ready and stands under its own identifier, and no identifier stands twice.
abbrev pub Good : Registry → Type 0
Good [] = Unit
Good ((k, s) ∷ r) = (k ≡ s.id) × (s.state ≡ ready) × (get k r ≡ none) × Good r

pub insert-Good : (s : Sandbox) (r : Registry) → s.state ≡ ready → Good r → Good (insert s.id s r)
unfolding get insert
insert-Good s [] h g = (refl, h, refl, tt)
insert-Good s ((k, v) ∷ r) h g = ground (arith, insert-Good s r h g.3, get-insert s.id k s r)

pub get-remove :
    (k j : Uuid) (r : Registry) → Good r → get j (remove k r) ≡ (if k == j then none else get j r)
unfolding get remove
get-remove k j [] g = ground arith
get-remove k j ((i, v) ∷ r) g = ground (arith, get-remove k j r g.3)

pub remove-Good : (k : Uuid) (r : Registry) → Good r → Good (remove k r)
unfolding remove
remove-Good k [] g = tt
remove-Good k ((i, v) ∷ r) g = ground (arith, remove-Good k r g.3, get-remove k i r g.3)

pub get-Good :
    (k : Uuid) (r : Registry) (s : Sandbox)
    → Good r
    → get k r ≡ some s
    → (s.id ≡ k) × (s.state ≡ ready)
unfolding get
get-Good k [] s g h = absurd (ground arith)
get-Good k ((i, v) ∷ r) s g h = ground (arith, get-Good k r s g.3)

pub length-insert_new :
    (k : Uuid) (s : Sandbox) (r : Registry)
    → get k r ≡ none
    → length (insert k s r) ≡ suc (length r)
unfolding get insert
length-insert_new k s [] h = refl
length-insert_new k s ((i, v) ∷ r) h = ground (arith, length-insert_new k s r)

pub length-insert_old :
    (k : Uuid) (s v : Sandbox) (r : Registry) → get k r ≡ some v → length (insert k s r) ≡ length r
unfolding get insert
length-insert_old k s v [] h = absurd (ground arith)
length-insert_old k s v ((i, w) ∷ r) h = ground (arith, length-insert_old k s v r)

pub length-insert-le :
    (k : Uuid) (s : Sandbox) (r : Registry) → length (insert k s r) ≤ suc (length r)
length-insert-le k s r = elim (Option-cases (get k r)) [
  | inl h ↦ omega (arith, length-insert_new k s r h)
  | inr (v, h) ↦ omega (arith, length-insert_old k s v r h)
]

pub length-remove :
    (k : Uuid) (s : Sandbox) (r : Registry)
    → get k r ≡ some s
    → length r ≡ suc (length (remove k r))
unfolding get remove
length-remove k s [] h = absurd (ground arith)
length-remove k s ((i, v) ∷ r) h = ground (arith, length-remove k s r)

pub length-remove-le : (k : Uuid) (r : Registry) → length (remove k r) ≤ length r
unfolding remove
length-remove-le k [] = omega arith
length-remove-le k ((i, v) ∷ r) = ground (arith, length-remove-le k r)
