-- ===== src/Tests/Short.antt =====
-- A sender that connects to the node and sends nothing, between two that set a flow up.
use premium.Base.{[], ◌∷◌, ◌++◌, ◌≡◌, refl, none, arith, replicate}
use premium.Text.{c_string}
use premium.Wire.{recv_into}
use premium.Rules.Node.{Client, start_overlay}
use premium.Rules.Short.{start_overlay_short}
use premium.Rules.Start.Main.{client_of}
use premium.Tests.{relay_a}
use premium.Tests.Protocol.{flow}

abbrev silent : Client
silent = record { forwarding_chunk = []; darshana_chunk = []; stale = replicate 512 0 }

silent_held : c_string (recv_into silent.stale silent.forwarding_chunk) ≡ []
unfolding c_string
silent_held = refl

start_overlay_short_example :
    start_overlay relay_a ((client_of flow ∷ []) ++ silent ∷ client_of flow ∷ []) ≡ none
start_overlay_short_example =
    start_overlay_short relay_a (client_of flow ∷ []) silent (client_of flow ∷ []) [] silent_held tt
      (omega arith)
