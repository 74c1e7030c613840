-- ===== src/Tests/Client.antt =====
-- The theorems on the agent's client at a concrete host.
use petty.Shared.{◌≡◌, refl, some, []}
use petty.Text.{lit}
use petty.Text.FilePath.{FilePath, path_from}
use petty.Core.Client.{AgentClient, connect, connect_rounds, most_rounds}
use petty.Core.Client.Connect.{Ends, connect-Ends}
use petty.Tests.{host, host-WellClocked}

abbrev socket : FilePath
socket = path_from (lit "/tmp/vsock.sock")

connect-Ends_example :
    (connect_rounds host socket 0 most_rounds [] ≡ some (connect host socket []))
    × Ends host host-WellClocked (λ t. refl) 0 (connect host socket [])
connect-Ends_example = connect-Ends host host-WellClocked (λ t. refl) socket []

abbrev client : AgentClient
client = record { next_id = 1 }
