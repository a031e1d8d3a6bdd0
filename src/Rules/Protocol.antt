-- ===== src/Rules/Protocol.antt =====
-- The control protocol as two programs that run at the same time: setup_overlay_node of
-- SCMultipath/overlay_manager.c, and one round of the loop of start_overlay of
-- SCNodeCode/forwarding_handler.c. Each message that is sent is received whole and by itself.
pub mod Stages
pub mod Moves
pub mod Order
pub mod Flow
use premium.Base.{
  ℕ, zero, suc, List, [], ◌∷◌, ◌++◌, ◌≡◌, ◌⊎◌, Bool, true, false, Option, none, some, map,
  replicate, if◌then◌else◌, ◌>>=◌,
}
use premium.Text.{Bytes, c_string}
use premium.Wire.{buffer_length, send_rule, recv_into}
use premium.Rules.Node.{
  NodeAction, send_type, system, create_thread, cancel_thread,
  receive_forwarding_rule_specification, receive_darshana_rule_specification,
}

-- Where setup_overlay_node is, once it is connected.
pub data Phase : Type 0 where
  sends_forwarding awaits_forwarding sends_darshana awaits_darshana closes closed : Phase

-- What the node still has to do: the two calls of recv, and the actions that follow each.
pub data Task : Type 0 where
  recv_forwarding recv_darshana : Task
  act : NodeAction → Task

-- The two ends, what is on its way between them, and what the node has done besides its answers.
pub record Config : Type 0 where
  pub sender : Phase
  pub pending : List Task
  pub to_node : List Bytes
  pub to_sender : List Bytes
  pub done : List NodeAction

-- `strlen(s) > 0`
abbrev pub has_text : Bytes → Bool
has_text [] = false
has_text (c ∷ s) = true

-- The loop around recv: it goes on waiting if what it received is an empty string.
abbrev pub sender_recv : Phase → List Bytes → Config → Option Config
sender_recv next [] c = none
sender_recv next (m ∷ later) c =
    some (record c { sender = if has_text (c_string m) then next else c.sender; to_sender = later })

abbrev pub sender_at : Bytes → Bytes → Phase → Config → Option Config
sender_at forwarding_rule darshana_rule sends_forwarding c =
    some (record c { sender = awaits_forwarding; to_node = c.to_node ++ forwarding_rule ∷ [] })
sender_at forwarding_rule darshana_rule awaits_forwarding c =
    sender_recv sends_darshana c.to_sender c
sender_at forwarding_rule darshana_rule sends_darshana c =
    some (record c { sender = awaits_darshana; to_node = c.to_node ++ darshana_rule ∷ [] })
sender_at forwarding_rule darshana_rule awaits_darshana c = sender_recv closes c.to_sender c
sender_at forwarding_rule darshana_rule closes c = some (record c { sender = closed })
sender_at forwarding_rule darshana_rule closed c = none

-- The next step of setup_overlay_node, given the bytes that send takes of both rules; `none` if it
-- waits or has returned.
unfoldable pub sender_step : Bytes → Bytes → Config → Option Config
sender_step forwarding_rule darshana_rule c = sender_at forwarding_rule darshana_rule c.sender c

-- One action of the node: an answer goes to the sender, with what the buffer holds behind it.
abbrev pub node_act : Bytes → NodeAction → List Task → Config → Config
node_act behind (send_type t) rest c = record c {
  pending = rest;
  to_sender = c.to_sender ++ send_rule t behind ∷ [];
}
node_act behind (system command) rest c = record c {
  pending = rest;
  done = c.done ++ system command ∷ [];
}
node_act behind (create_thread command) rest c = record c {
  pending = rest;
  done = c.done ++ create_thread command ∷ [];
}
node_act behind cancel_thread rest c = record c {
  pending = rest;
  done = c.done ++ cancel_thread ∷ [];
}

-- recv into a buffer, and the actions that a message asks for.
abbrev pub node_recv :
    (Bytes → Option (List NodeAction)) → List Bytes → List Task → Config → Option Config
node_recv actions [] rest c = none
node_recv actions (m ∷ later) rest c = (do
  todo ← actions m
  some (record c { pending = map act todo ++ rest; to_node = later }))

abbrev pub node_at : Bytes → Bytes → Bytes → List Task → Config → Option Config
node_at overlay_addr stale behind [] c = none
node_at overlay_addr stale behind (recv_forwarding ∷ rest) c =
    node_recv (λ m. receive_forwarding_rule_specification overlay_addr (recv_into stale m))
      c.to_node rest c
node_at overlay_addr stale behind (recv_darshana ∷ rest) c =
    node_recv
      (λ m.
        receive_darshana_rule_specification overlay_addr (recv_into (replicate buffer_length 0) m))
      c.to_node rest c
node_at overlay_addr stale behind (act a ∷ rest) c = some (node_act behind a rest c)

-- The next step of the node, given what its buffer held; `none` if it waits, has served the sender, or
-- has crashed.
unfoldable pub node_step : Bytes → Bytes → Bytes → Config → Option Config
node_step overlay_addr stale behind c = node_at overlay_addr stale behind c.pending c

-- The sender has connected and the node has accepted.
abbrev pub connected : Config
connected = record {
  sender = sends_forwarding;
  pending = recv_forwarding ∷ recv_darshana ∷ [];
  to_node = [];
  to_sender = [];
  done = [];
}
