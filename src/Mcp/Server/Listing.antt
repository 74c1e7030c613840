-- ===== src/Mcp/Server/Listing.antt =====
-- What `list_sandboxes` lists.
use petty.Shared.{◌≡◌, [], ◌∷◌, some, none, arith, ==_iff, All}
use petty.Host.{Uuid}
use petty.Core.Sandbox.{Sandbox}
use petty.Core.Manager.{Registry, get}
use petty.Core.Manager
use petty.Core.Manager.Registry.{Good}
use petty.Mcp.Tools.{Tools}
use petty.Mcp.Server.{Server}

-- A later entry is found past a first one under another identifier.
get-later :
    (k : Uuid) (s : Sandbox) (q r : Registry)
    → get k q ≡ none
    → All (λ e. get e.0 q ≡ some e.1) r
    → All (λ e. get e.0 ((k, s) ∷ q) ≡ some e.1) r
unfolding get
get-later k s q [] h a = tt
get-later k s q ((j, x) ∷ r) h (b, a) = (ground (arith, h, b, ==_iff k j), get-later k s q r h a)

-- Every entry of a good registry is found under its identifier.
pub get-entries : (r : Registry) → Good r → All (λ e. get e.0 r ≡ some e.1) r
unfolding get
get-entries [] g = tt
get-entries ((k, s) ∷ r) g = (ground (arith, ==_iff k k), get-later k s r r g.2 (get-entries r g.3))
