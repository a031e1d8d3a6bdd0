-- ===== src/Receiver.antt =====
-- The receiver: SCMultipath/receiving_handler.c, which machete_receiver.c passes on. `none` is a read
-- through NULL or a write past an array. What getifaddrs and accept return is an argument, and `stun`
-- stands for what stunGetPublicIP writes for an address.
pub mod Registration
pub mod Setup
use premium.Base.{
  ℕ, zero, suc, ◌+◌, ℤ, pos, negsuc, List, [], ◌∷◌, ◌++◌, Bool, Option, none, some, ltb,
  if◌then◌else◌, ◌>>=◌, length, map,
}
use premium.Text.{Bytes, codes, strcat_all}
use premium.Rules.Spec.{ip_addr_length}
use premium.Rules.Node.{darshana_relative_path}
use premium.Manager.Register.{register_to_manager}
use premium.Sender.State.{darshana_server_port}
use premium.Sender.Interfaces.{SockAddr, null_addr, other_family, inet, IfAddrs, is_loopback}

-- COMMAND_SIZE of this file.
abbrev pub server_command_size : ℕ
server_command_size = 100

-- The first IPv4 address that is no loopback's, or what primary_ip held.
unfoldable pub get_primary : List IfAddrs → Bytes → Option Bytes
get_primary [] primary_ip = some primary_ip
get_primary (ifa ∷ rest) primary_ip =
    let later = get_primary rest primary_ip in
    if is_loopback ifa.ifa_name then later else elim ifa.ifa_addr [
      | null_addr ↦ none
      | other_family ↦ later
      | inet ip ↦ if ltb (length ip) ip_addr_length then some ip else none
    ]

-- srcs, an array of IP_ADDR_LENGTH pointers, up to its first NULL.
unfoldable pub get_local_interfaces2 : List IfAddrs → List Bytes → Option (List Bytes)
get_local_interfaces2 [] srcs = some srcs
get_local_interfaces2 (ifa ∷ rest) srcs =
    let later = get_local_interfaces2 rest srcs in
    let taken = λ (ip : Bytes). get_local_interfaces2 rest (srcs ++ ip ∷ []) in
    if is_loopback ifa.ifa_name then later else elim ifa.ifa_addr [
      | null_addr ↦ none
      | other_family ↦ later
      | inet ip ↦ if ltb (length srcs) ip_addr_length then taken ip else none
    ]

-- The command of the thread darshana_server_pthread.
unfoldable pub run_darshana_server : Bytes → Bytes → Bytes
run_darshana_server receiver_ip receiver_port = strcat_all (
    codes "cd "
    ∷ darshana_relative_path
    ∷ codes "; sh run-server_args.sh "
    ∷ receiver_ip
    ∷ codes " "
    ∷ receiver_port
    ∷ codes " >> darshana-server.out &"
    ∷ [])

-- What the receiver does: the commands that it sends to the manager's proxy, the thread that runs
-- Darshana, the socket that it listens on, a thread for each sender that connects.
pub data Action : Type 0 where
  send_to_manager : Bytes → Action
  create_darshana_server : Bytes → Action
  listen_on : Bytes → ℕ → Action
  cancel_darshana_server cancel_last_receiving_thread : Action
  close_socket : ℕ → Action

-- The loop over what accept returns. It ends only at the descriptor 0; a failure is handed to a
-- thread like a descriptor.
unfoldable pub accept_loop : List ℤ → List ℤ
accept_loop [] = []
accept_loop (pos zero ∷ later) = []
accept_loop (pos (suc fd) ∷ later) = pos (suc fd) ∷ accept_loop later
accept_loop (negsuc n ∷ later) = negsuc n ∷ accept_loop later

-- The array has a NULL behind its last address as long as there are fewer than its length. The result
-- is what the receiver does before it accepts, in order.
unfoldable pub setup_receiver :
    (Bytes → Bytes) → List IfAddrs → ℕ → Bool → Bytes → Option (List Action)
unfolding get_primary get_local_interfaces2 run_darshana_server
setup_receiver stun ifap receiver_port use_stun_public_ip primary_ip = do
  primary ← get_primary ifap primary_ip
  local ← get_local_interfaces2 ifap []
  let srcs = if use_stun_public_ip then map stun local else local
  registration ←
      if ltb (length srcs) ip_addr_length then register_to_manager (length srcs) srcs 1 else none
  some (
      send_to_manager registration
      ∷ create_darshana_server (run_darshana_server primary darshana_server_port)
      ∷ listen_on primary receiver_port
      ∷ [])

unfoldable pub teardown_receiver : ℕ → List Action
teardown_receiver client_sock_fd =
    cancel_darshana_server ∷ cancel_last_receiving_thread ∷ close_socket client_sock_fd ∷ []
