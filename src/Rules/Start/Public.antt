-- ===== src/Rules/Start/Public.antt =====
-- A node that asks a STUN server for its address.
use premium.Base.{ℕ, suc, ◌≤◌, ◌<◌, List, [], ◌∷◌, ◌≡◌, refl, true, some, map, All, length}
use premium.Text.{Bytes}
use premium.Stun.{max_line}
use premium.Stun.Answer.{Attribute, IsOther, IsByte, dotted, response, stun_get_public_ip-response}
use premium.Rules.Protocol.Flow.{FlowRules, IsFlow}
use premium.Rules.Start.{NodeArguments, NodeEnvironment, node_main}
use premium.Rules.Start.Main.{client_of, main_effects, main_runs}

-- A node that uses a STUN server, which answers with a binding response of up to 200 bytes, with no
-- padding behind the attributes in front of the mapped address, and whose address of the proxy fits,
-- registers under the mapped address, starts Darshana's server on it and listens on it; then it does
-- for each sender in turn, whose addresses are fields of a rule expression, what the sender asks for,
-- with that address in all rules. Its interfaces are not looked at.
pub node_main-public :
    (env : NodeEnvironment) (argv : NodeArguments) (transaction : Bytes)
    (attributes : List Attribute) (port a b c d : ℕ) (rest : Bytes) (fs : List FlowRules)
    → argv.use_stun_server ≡ true
    → env.stun_sent ≡ true
    → env.stun_answer ≡ some (response transaction attributes port a b c d rest)
    → length transaction ≡ 18
    → All IsOther attributes
    → All IsByte (a ∷ b ∷ c ∷ d ∷ [])
    → length (response transaction attributes port a b c d rest) ≤ max_line
    → length argv.manager_proxy_addr < 20
    → All IsFlow fs
    → node_main (suc (length attributes)) env argv (map client_of fs)
      ≡ some (main_effects (dotted a b c d) argv fs)
node_main-public env argv transaction attributes port a b c d rest fs public sent answered header
      others bytes short fits h =
    main_runs (suc (length attributes)) env argv (dotted a b c d) fs fits
      (rw
        (
          public,
          sent,
          answered,
          stun_get_public_ip-response transaction attributes port a b c d rest env.stun_stale
              env.reserved header others bytes short,
        )
        refl)
      h
