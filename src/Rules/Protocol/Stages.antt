-- ===== src/Rules/Protocol/Stages.antt =====
-- The stages that the two ends go through, whichever of them moves when.
use premium.Base.{
  ℕ, suc, ◌+◌, List, [], ◌∷◌, ◌++◌, ◌≡◌, true, Option, none, some, map, length, All, replicate,
}
use premium.Text.{Bytes, c_string}
use premium.Wire.{buffer_length, send_rule, recv_into}
use premium.Rules.Node.{
  NodeAction, send_type, system, create_thread, cancel_thread,
  receive_forwarding_rule_specification, receive_darshana_rule_specification,
}
use premium.Rules.Protocol.{
  awaits_forwarding, sends_darshana, awaits_darshana, closes, closed, recv_darshana, act, Config,
  has_text, connected,
}

-- An action other than an answer.
abbrev pub IsQuiet : NodeAction → Type 0
IsQuiet (send_type t) = ⊥
IsQuiet (system command) = Unit
IsQuiet (create_thread command) = Unit
IsQuiet cancel_thread = Unit

-- One exchange: what the sender sends, what the node's buffers hold, and what the node does on each
-- message besides its answer.
pub record Exchange : Type 0 where
  pub forwarding_rule : Bytes
  pub darshana_rule : Bytes
  pub overlay_addr : Bytes
  pub stale : Bytes
  pub behind : Bytes
  pub type : Bytes
  pub forwarding : List NodeAction
  pub darshana : List NodeAction

-- The node understands both messages.
pub record IsExchange (x : Exchange) : Type 0 where
  pub reads_forwarding :
      receive_forwarding_rule_specification x.overlay_addr (recv_into x.stale x.forwarding_rule)
      ≡ some (send_type x.type ∷ x.forwarding)
  pub reads_darshana :
      receive_darshana_rule_specification x.overlay_addr
        (recv_into (replicate buffer_length 0) x.darshana_rule)
      ≡ some (send_type x.type ∷ x.darshana)
  pub answer : has_text (c_string (send_rule x.type x.behind)) ≡ true
  pub quiet_forwarding : All IsQuiet x.forwarding
  pub quiet_darshana : All IsQuiet x.darshana

module _ (x : Exchange) where
  abbrev pub answer_message : Bytes
  answer_message = send_rule x.type x.behind

  -- The node is in the middle of some actions: those it has done, and those it still has to do.
  pub record Split (todo : List NodeAction) (xs ys : List NodeAction) : Type 0 where
    pub both : xs ++ ys ≡ todo
    pub quiet : All IsQuiet ys

  -- The stage that the two ends have reached after n steps.
  pub data Stage (n : ℕ) : Config → Type 0 where
    at_start : n ≡ 0 → Stage n connected
    forwarding_sent :
        n ≡ 1
        → Stage n
            (record connected { sender = awaits_forwarding; to_node = x.forwarding_rule ∷ [] })
    forwarding_read :
        n ≡ 2
        → Stage n (record {
          sender = awaits_forwarding;
          pending = act (send_type x.type) ∷ (map act x.forwarding ++ recv_darshana ∷ []);
          to_node = [];
          to_sender = [];
          done = [];
        })
    forwarding_answered :
        (xs ys : List NodeAction)
        → Split x.forwarding xs ys
        → n ≡ 3 + length xs
        → Stage n (record {
          sender = awaits_forwarding;
          pending = map act ys ++ recv_darshana ∷ [];
          to_node = [];
          to_sender = answer_message ∷ [];
          done = xs;
        })
    forwarding_known :
        (xs ys : List NodeAction)
        → Split x.forwarding xs ys
        → n ≡ 4 + length xs
        → Stage n (record {
          sender = sends_darshana;
          pending = map act ys ++ recv_darshana ∷ [];
          to_node = [];
          to_sender = [];
          done = xs;
        })
    darshana_sent :
        (xs ys : List NodeAction)
        → Split x.forwarding xs ys
        → n ≡ 5 + length xs
        → Stage n (record {
          sender = awaits_darshana;
          pending = map act ys ++ recv_darshana ∷ [];
          to_node = x.darshana_rule ∷ [];
          to_sender = [];
          done = xs;
        })
    darshana_read :
        n ≡ 6 + length x.forwarding
        → Stage n (record {
          sender = awaits_darshana;
          pending = act (send_type x.type) ∷ (map act x.darshana ++ []);
          to_node = [];
          to_sender = [];
          done = x.forwarding;
        })
    darshana_answered :
        (xs ys : List NodeAction)
        → Split x.darshana xs ys
        → n ≡ 7 + (length x.forwarding + length xs)
        → Stage n (record {
          sender = awaits_darshana;
          pending = map act ys ++ [];
          to_node = [];
          to_sender = answer_message ∷ [];
          done = x.forwarding ++ xs;
        })
    darshana_known :
        (xs ys : List NodeAction)
        → Split x.darshana xs ys
        → n ≡ 8 + (length x.forwarding + length xs)
        → Stage n (record {
          sender = closes;
          pending = map act ys ++ [];
          to_node = [];
          to_sender = [];
          done = x.forwarding ++ xs;
        })
    returned :
        (xs ys : List NodeAction)
        → Split x.darshana xs ys
        → n ≡ 9 + (length x.forwarding + length xs)
        → Stage n (record {
          sender = closed;
          pending = map act ys ++ [];
          to_node = [];
          to_sender = [];
          done = x.forwarding ++ xs;
        })

  -- A step, if there is one, leads to the next stage.
  abbrev pub Leads : ℕ → Option Config → Type 0
  Leads n none = Unit
  Leads n (some d) = Stage (suc n) d
