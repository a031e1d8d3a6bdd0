-- ===== src/Lib.antt =====
-- PREMIUM sends the traffic between two devices over several overlay nodes and watches the paths for
-- route hijacking. Its C programs are the sender and the receiver (MACHETE/SCMultipath) and the
-- overlay node (MACHETE/SCNodeCode). The sender asks the manager for overlay nodes, pings them,
-- creates as many source addresses as it needs, gives each pair of a source and a destination address
-- a node, sets NAT rules on itself and on the node, has Darshana watch the way, and then receives
-- Darshana's alerts in a thread that marks the monitored paths and raises SIGUSR1.
--
-- Texts are lists of bytes (Text). A buffer that recv fills is the bytes that it holds, and a function
-- that reads it takes the bytes before the first NUL. strtok returns the token and the text behind it.
-- What the network, the interfaces, the clock and the STUN server answer is an argument: a list of
-- reads, or a function of the number of the call. A function that would read through NULL, write past
-- an array, or end a loop beyond its fuel returns none; what it does to the machine is a list of
-- commands or effects, in order. Calls of the log and debug output are left out.
--
-- Base, with Tests, Lists, Results and Int: the numbers, lists, options and tests that all files use.
-- Text, with Token and Decimal: strings, strtok, sprintf of %d and atoi.
-- Wire: the sizes of MACHETE/SCMultipath/common.h, send and recv on a fixed buffer.
-- Rules: the control protocol between sender and node.
--   Spec: build_hop_forward_rules_spec (overlay_manager.c) and build_hop_run_darshana_spec
--   (path_monitoring.c). Nat, Teardown: SCMultipath/utils/rules_utils.c and
--   SCNodeCode/on_rules_utils.c (forward_paths is forwardPaths, remove_rules is removeRules). Node:
--   SCNodeCode/forwarding_handler.c. Short: a message that lacks fields. Exchange: both ends together.
--   Protocol, with Stages, Moves, Order and Flow: setup_overlay_node and the node as two programs
--   whose steps interleave. Start, with Main and Public: main of the node.
-- Net: SCMultipath/utils/connectivity_utils.c (Checksum, Ping, Probe) and validate_number_of_hops.
-- Manager: SCMultipath/register_dep.c (Nodes: get_overlay_nodes_from_manager;
--   Receiver, with Lines and RoundTrip: get_receiver_info_from_manager; Register: register_to_manager,
--   and registerDep of SCNodeCode/register_dep.c; Buffer: what is left in the receive buffer).
-- Dar: SCMultipath/dar. Time: utils.c. Chain, with Shape, Insert, Change, Either and Show: the
--   linked lists on a heap of nodes, with the list that a heap holds. Alerts:
--   hijack_alert_handler.c. History: what it prints. Paths, with Refinement and Show:
--   monitored_paths_handler.c. Receiver, with Loop, Threshold and Socket:
--   alerts_receiver.c. Replay, with Report: testing_wout_socket/parse_hijack.c.
-- Log, with Phases: SCMultipath/utils/log_utils.c.
-- Sender: SCMultipath/sending_handler.c. State: its globals and effects. Interfaces, with Local, Loop
--   and Alias: setup_machete_info and utils/virtual_int_utils.c. Flows, with Order, Setup, Clean,
--   Table and Stun: setup_each_flow and clean_rules. Session, with Monitoring, Unheard and
--   Reaction: the end of setup_sender, teardown_sender, handle_dar_signal, and the start and end of monitoring in path_monitoring.c.
--   Start, with Plan, Ready, Run, Life and Overflow: setup_sender as a whole, machete_sender.c
--   and connection_manager.c.
-- Stun, with Answer and Stall: stunGetPublicIP of SCMultipath/utils/stun_public_ip.c, and its copy in
--   SCNodeCode.
-- Receiver: SCMultipath/receiving_handler.c. Registration: what the proxy reads of register_to_manager.
--   Setup: setup_receiver, and what a sender learns of it.
-- Apps: the programs that use a session. Stream: a connection as pieces. File, with Transfer and
--   EndToEnd: the transfer of SCMultipath/file_client.c and file_server.c. Echo, with Exchange: that of
--   hi_client_eval.c and hi_server.c. Program, with Session and Experiments: main of file_client.c,
--   hi_client.c and hi_client_eval.c. Server, with Accepting: main of file_server.c, hi_server.c and
--   hi_server_eval.c.
-- Standalone: Darshana/dar, the receiver of alerts as a program of its own. Paths, Show:
--   monitored_paths_handler.c. Receiver, with Loop: alerts_receiver.c.
-- Tests: the theorems at concrete inputs.
--
-- The fuel: loops over a list on the heap run on as many rounds as there are allocated nodes, which
-- is enough for any list that the heap holds, since addresses ascend along it. The loop that probes
-- the nodes, the one that creates sources and the walk over the attributes of a STUN answer can run
-- without end, so that their fuel is an argument; the one that receives a file needs one more than
-- the bytes of the file, and the one that echoes messages one more than the messages. Ports are
-- below 65536 and an address fits IP_ADDR_LENGTH where a size or a round trip depends on it; the
-- checksum is computed modulo 2 ^ 32 and 2 ^ 16.
--
-- iptables is a parameter of Rules/Table, with what its manual says of -A and -D as laws: -A puts a rule
-- that it accepts at the end, -D takes the first rule that is the same out.
--
-- The receiving programs run one thread for each sender; each comes to its end before accept returns
-- again, and one that ends the process ends the program. The proxy prints a tuple by the toStringTuple
-- of a library that is not here: what it prints is a parameter, a label in front of the tuple between
-- brackets, the same for all tuples; it is not empty, since the code that reads the addresses of a
-- receiver needs something there.
--
-- Not modelled: connections to a node that fail or deliver a message in pieces, the programs' debug
-- output and pauses, and the programs in Java and Python.
pub mod Base
pub mod Text
pub mod Wire
pub mod Rules
pub mod Net
pub mod Manager
pub mod Dar
pub mod Sender
pub mod Apps
pub mod Log
pub mod Receiver
pub mod Standalone
pub mod Stun
pub mod Tests
