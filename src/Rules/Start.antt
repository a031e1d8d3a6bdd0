-- ===== src/Rules/Start.antt =====
-- How an overlay node starts: main, getPrimaryIP, run_darshana_server and shutdown_darshana_client
-- of SCNodeCode/forwarding_handler.c. `none` is a read through NULL, a write past an array, or a
-- walk over a STUN answer that has not ended within its fuel.
pub mod Main
pub mod Public
use premium.Base.{
  ℕ, List, [], ◌∷◌, ◌++◌, Bool, Option, none, some, ltb, if◌then◌else◌, ◌>>=◌, length, map,
}
use premium.Text.{Bytes, codes, strcat_all}
use premium.Text.Decimal.{decimal}
use premium.Manager.Register.{within, register_dep}
use premium.Sender.Interfaces.{IfAddrs, null_addr, other_family, inet, is_loopback}
use premium.Stun.{stun_get_public_ip}
use premium.Rules.Node.{NodeAction, Client, darshana_relative_path, start_overlay}

abbrev pub ip_addr_size : ℕ
ip_addr_size = 20

-- The array `interface` of getPrimaryIP.
abbrev pub interface_size : ℕ
interface_size = 5

abbrev pub enable_ipv4_forwarding_command : Bytes
enable_ipv4_forwarding_command = codes "echo 1 > /proc/sys/net/ipv4/ip_forward"

abbrev pub node_server_port : Bytes
node_server_port = codes "11130"

-- The first IPv4 address that is no loopback's, or what malloc left.
unfoldable pub get_primary_ip : List IfAddrs → Bytes → Option Bytes
get_primary_ip [] reserved = some reserved
get_primary_ip (ifa ∷ rest) reserved =
    let later = get_primary_ip rest reserved in
    let taken : Bytes → Option Bytes =
      λ ip. (do interface ← within interface_size ifa.ifa_name; within ip_addr_size ip) in
    if is_loopback ifa.ifa_name
    then later
    else elim ifa.ifa_addr [ null_addr ↦ none | other_family ↦ later | inet ip ↦ taken ip ]

unfoldable pub node_darshana_server : Bytes → Bytes
node_darshana_server receiver_ip = strcat_all (
    codes "cd "
    ∷ darshana_relative_path
    ∷ codes "; sh run-server_args.sh "
    ∷ receiver_ip
    ∷ codes " "
    ∷ node_server_port
    ∷ codes " >> darshana-server.out &"
    ∷ [])

unfoldable pub shutdown_darshana_client : ℕ → Bytes
shutdown_darshana_client darshana_client_port =
    strcat_all (codes "kill $(sudo lsof -t -i:" ∷ decimal darshana_client_port ∷ codes ")" ∷ [])

-- What main does: the commands that it sends to the manager's proxy at an address and a port, its own
-- command, the thread that runs Darshana's server, the socket it listens on, and what it does for the
-- senders that connect.
pub data NodeEffect : Type 0 where
  register : Bytes → ℕ → Bytes → NodeEffect
  run_command : Bytes → NodeEffect
  create_server : Bytes → NodeEffect
  listen_at : Bytes → ℕ → NodeEffect
  serve : NodeAction → NodeEffect

pub record NodeArguments : Type 0 where
  pub manager_proxy_addr : Bytes
  pub manager_proxy_port : ℕ
  pub node_port : ℕ
  pub use_stun_server : Bool

-- The interfaces, the STUN server's part, and what malloc and the stack hold.
pub record NodeEnvironment : Type 0 where
  pub interfaces : List IfAddrs
  pub stun_sent : Bool
  pub stun_answer : Option Bytes
  pub stun_stale : Bytes
  pub reserved : Bytes

-- The address under which the node registers. What stunGetPublicIP returns is not looked at.
abbrev pub node_address : ℕ → NodeEnvironment → Bool → Option Bytes
node_address fuel env use_stun_server =
    let public = (do
      (result, text) ←
          stun_get_public_ip fuel env.stun_sent env.stun_answer env.stun_stale env.reserved
      some text) in
    if use_stun_server then public else get_primary_ip env.interfaces env.reserved

unfoldable pub node_main :
    ℕ → NodeEnvironment → NodeArguments → List Client → Option (List NodeEffect)
node_main fuel env argv clients = do
  manager_proxy_addr ← within ip_addr_size argv.manager_proxy_addr
  node_addr ← node_address fuel env argv.use_stun_server
  served ← start_overlay node_addr clients
  some (
      register manager_proxy_addr argv.manager_proxy_port (register_dep node_addr)
      ∷ run_command enable_ipv4_forwarding_command
      ∷ create_server (node_darshana_server node_addr)
      ∷ listen_at node_addr argv.node_port
      ∷ map serve served)
