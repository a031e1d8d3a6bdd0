-- ===== src/Rules/Node.antt =====
-- The overlay node, SCNodeCode/forwarding_handler.c: what it does for each sender that connects.
-- `none` is a fault: strcmp, strcat or sprintf of the NULL that strtok returned for a missing field.
use premium.Base.{ℕ, List, [], ◌∷◌, ◌++◌, Option, some, map, replicate, if◌then◌else◌, ◌>>=◌}
use premium.Text.{Bytes, codes, str_eq, c_string, strcat_all}
use premium.Text.Token.{next_token}
use premium.Wire.{buffer_length, recv_into}
use premium.Rules.Nat.{forward_paths, remove_rules}

-- What the node does, in order: the answer to the sender, a command for system, the thread that
-- runs Darshana with its command, and its cancellation.
pub data NodeAction : Type 0 where
  send_type : Bytes → NodeAction
  system : Bytes → NodeAction
  create_thread : Bytes → NodeAction
  cancel_thread : NodeAction

abbrev pub dash : ℕ
dash = b'-'

abbrev pub darshana_relative_path : Bytes
darshana_relative_path = codes "../../darshana/darshana/"

unfoldable pub receive_forwarding_rule_specification : Bytes → Bytes → Option (List NodeAction)
receive_forwarding_rule_specification overlay_addr buffer =
    let (type, r1) = next_token dash (c_string buffer) in
    let (src_addr, r2) = next_token dash r1 in
    let (dst_addr, r3) = next_token dash r2 in
    let (dst_port, r4) = next_token dash r3 in
    do
      t ← type
      src ← src_addr
      dst ← dst_addr
      port ← dst_port
      some (
          send_type t
          ∷ map system (
              if str_eq t (codes "A")
              then forward_paths overlay_addr src dst port
              else remove_rules overlay_addr src dst port))

unfoldable pub run_darshana_client : Bytes → Bytes → Bytes → Bytes → Bytes → Bytes → Bytes → Bytes
run_darshana_client node_addr sender_dar_ip sender_dar_port dst_darshana_addr dst_darshana_port
      monitoring_mode metrics_thresholds =
    strcat_all (
      codes "cd "
      ∷ darshana_relative_path
      ∷ codes "; sh run-client-broadcaster_args.sh "
      ∷ monitoring_mode
      ∷ codes " "
      ∷ node_addr
      ∷ codes " "
      ∷ dst_darshana_addr
      ∷ codes " "
      ∷ dst_darshana_port
      ∷ codes " "
      ∷ metrics_thresholds
      ∷ codes " "
      ∷ sender_dar_ip
      ∷ codes ","
      ∷ sender_dar_port
      ∷ codes " >> darshana-node-client.out &"
      ∷ [])

unfoldable pub receive_darshana_rule_specification : Bytes → Bytes → Option (List NodeAction)
receive_darshana_rule_specification overlay_addr buffer =
    let (type, r1) = next_token dash (c_string buffer) in
    let (dar_addr, r2) = next_token dash r1 in
    let (dar_port, r3) = next_token dash r2 in
    let (dst_darshana_addr, r4) = next_token dash r3 in
    let (dst_darshana_port, r5) = next_token dash r4 in
    let (monitoring_mode, r6) = next_token dash r5 in
    let (metrics_thresholds, r7) = next_token dash r6 in
    do
      t ← type
      if str_eq t (codes "A")
          then (do
            da ← dar_addr
            dp ← dar_port
            ta ← dst_darshana_addr
            tp ← dst_darshana_port
            mode ← monitoring_mode
            thresholds ← metrics_thresholds
            some (
                send_type t
                ∷ create_thread (run_darshana_client overlay_addr da dp ta tp mode thresholds)
                ∷ []))
          else some (send_type t ∷ cancel_thread ∷ [])

-- A sender that connects: the two messages as they are received, and what the buffer held before.
pub record Client : Type 0 where
  pub forwarding_chunk : Bytes
  pub darshana_chunk : Bytes
  pub stale : Bytes

unfoldable pub serve_client : Bytes → Client → Option (List NodeAction)
serve_client overlay_addr c = do
  first ← receive_forwarding_rule_specification overlay_addr (recv_into c.stale c.forwarding_chunk)
  second ←
      receive_darshana_rule_specification overlay_addr
        (recv_into (replicate buffer_length 0) c.darshana_chunk)
  some (first ++ second)

-- The loop that accepts senders, over those that connect.
unfoldable pub start_overlay : Bytes → List Client → Option (List NodeAction)
unfolding serve_client
start_overlay overlay_addr [] = some []
start_overlay overlay_addr (c ∷ clients) = do
  now ← serve_client overlay_addr c
  later ← start_overlay overlay_addr clients
  some (now ++ later)
