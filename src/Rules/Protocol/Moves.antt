-- ===== src/Rules/Protocol/Moves.antt =====
-- Each step of either end leads from one stage to the next.
use premium.Base.{
  ℕ, suc, ◌+◌, List, [], ◌∷◌, ◌++◌, ◌≡◌, refl, sym, ap, ◌∙◌, subst, map, arith, length,
  length-append, append-nil, append_assoc,
}
use premium.Text.{Bytes}
use premium.Rules.Node.{NodeAction, send_type, system, create_thread, cancel_thread}
use premium.Rules.Protocol.{
  Phase, awaits_darshana, Task, recv_darshana, act, Config, sender_step, node_act, node_step,
}
use premium.Rules.Protocol.Stages.{
  Exchange, IsExchange, IsQuiet, answer_message, Split, Stage, at_start, forwarding_sent,
  forwarding_read, forwarding_answered, forwarding_known, darshana_sent, darshana_read,
  darshana_answered, darshana_known, returned, Leads,
}

node_act_quiet :
    (behind : Bytes) (a : NodeAction) (rest : List Task) (c : Config)
    → IsQuiet a
    → node_act behind a rest c ≡ record c { pending = rest; done = c.done ++ a ∷ [] }
node_act_quiet behind (send_type t) rest c h = elim h [ ]
node_act_quiet behind (system command) rest c h = refl
node_act_quiet behind (create_thread command) rest c h = refl
node_act_quiet behind cancel_thread rest c h = refl

module _ (x : Exchange) (ok : IsExchange x) where
  pub sender-Leads :
      (n : ℕ) (c : Config)
      → Stage x n c
      → Leads x n (sender_step x.forwarding_rule x.darshana_rule c)
  unfolding sender_step
  sender-Leads n c (at_start e) = forwarding_sent (omega arith)
  sender-Leads n c (forwarding_sent e) = tt
  sender-Leads n c (forwarding_read e) = tt
  sender-Leads n c (forwarding_answered xs ys s e) =
      rw ok.answer (forwarding_known xs ys s (omega arith))
  sender-Leads n c (forwarding_known xs ys s e) = darshana_sent xs ys s (omega arith)
  sender-Leads n c (darshana_sent xs ys s e) = tt
  sender-Leads n c (darshana_read e) = tt
  sender-Leads n c (darshana_answered xs ys s e) =
      rw ok.answer (darshana_known xs ys s (omega arith))
  sender-Leads n c (darshana_known xs ys s e) = returned xs ys s (omega arith)
  sender-Leads n c (returned xs ys s e) = tt

  abbrev Todo :
      List NodeAction → List Task → Phase → List Bytes → List Bytes → List NodeAction → Config
  Todo ys rest sender to_node to_sender done = record {
    sender = sender;
    pending = map act ys ++ rest;
    to_node = to_node;
    to_sender = to_sender;
    done = done;
  }

  -- The node does the next of its actions, whatever the sender is at.
  quiet-Leads :
      (n : ℕ) (y : NodeAction) (ys : List NodeAction) (rest : List Task) (sender : Phase)
      (to_node to_sender : List Bytes) (done : List NodeAction)
      → IsQuiet y
      → Stage x (suc n) (Todo ys rest sender to_node to_sender (done ++ y ∷ []))
      → Leads x n (
          node_step x.overlay_addr x.stale x.behind
            (Todo (y ∷ ys) rest sender to_node to_sender done))
  unfolding node_step
  quiet-Leads n y ys rest sender to_node to_sender done h next =
      subst (λ d. Stage x (suc n) d)
        (sym (
          node_act_quiet x.behind y (map act ys ++ rest)
            (Todo (y ∷ ys) rest sender to_node to_sender done) h))
        next

  Split-next :
      (todo xs ys : List NodeAction) (y : NodeAction)
      → Split x todo xs (y ∷ ys)
      → Split x todo (xs ++ y ∷ []) ys
  Split-next todo xs ys y s = record {
    both = append_assoc xs (y ∷ []) ys ∙ s.both;
    quiet = s.quiet.1;
  }

  one_more : (xs : List NodeAction) (y : NodeAction) → length (xs ++ y ∷ []) ≡ length xs + 1
  one_more xs y = length-append xs (y ∷ [])

  pub Split-end : (todo xs : List NodeAction) → Split x todo xs [] → todo ≡ xs
  Split-end todo xs s = sym s.both ∙ append-nil xs

  -- The actions behind the second answer follow those behind the first.
  longer :
      (m : ℕ) (sender : Phase) (to_sender : List Bytes) (xs ys : List NodeAction) (y : NodeAction)
      → Stage x m (Todo ys [] sender [] to_sender (x.forwarding ++ (xs ++ y ∷ [])))
      → Stage x m (Todo ys [] sender [] to_sender ((x.forwarding ++ xs) ++ y ∷ []))
  longer m sender to_sender xs ys y st =
      subst (λ done. Stage x m (Todo ys [] sender [] to_sender done))
        (sym (append_assoc x.forwarding xs (y ∷ []))) st

  pub node-Leads :
      (n : ℕ) (c : Config) → Stage x n c → Leads x n (node_step x.overlay_addr x.stale x.behind c)
  unfolding node_step
  node-Leads n c (at_start e) = tt
  node-Leads n c (forwarding_sent e) = rw ok.reads_forwarding (forwarding_read (omega arith))
  node-Leads n c (forwarding_read e) =
      forwarding_answered [] x.forwarding (record { both = refl; quiet = ok.quiet_forwarding })
        (omega arith)
  node-Leads n c (forwarding_answered xs [] s e) = tt
  node-Leads n c (forwarding_answered xs (y ∷ ys) s e) =
      quiet-Leads n y ys (recv_darshana ∷ []) _ [] _ xs s.quiet.0 (
        forwarding_answered (xs ++ y ∷ []) ys (Split-next _ xs ys y s)
          (omega (arith, one_more xs y)))
  node-Leads n c (forwarding_known xs [] s e) = tt
  node-Leads n c (forwarding_known xs (y ∷ ys) s e) =
      quiet-Leads n y ys (recv_darshana ∷ []) _ [] _ xs s.quiet.0
        (forwarding_known (xs ++ y ∷ []) ys (Split-next _ xs ys y s) (omega (arith, one_more xs y)))
  node-Leads n c (darshana_sent xs [] s e) =
      let all_done = Split-end x.forwarding xs s in
      rw ok.reads_darshana (
        subst
          (λ done. Stage x (suc n) (record {
            sender = awaits_darshana;
            pending = act (send_type x.type) ∷ (map act x.darshana ++ []);
            to_node = [];
            to_sender = [];
            done = done;
          }))
          all_done (darshana_read (omega (arith, ap length all_done))))
  node-Leads n c (darshana_sent xs (y ∷ ys) s e) =
      quiet-Leads n y ys (recv_darshana ∷ []) _ (x.darshana_rule ∷ []) _ xs s.quiet.0
        (darshana_sent (xs ++ y ∷ []) ys (Split-next _ xs ys y s) (omega (arith, one_more xs y)))
  node-Leads n c (darshana_read e) =
      subst
        (λ done.
          Stage x (suc n) (Todo x.darshana [] awaits_darshana [] (answer_message x ∷ []) done))
        (append-nil x.forwarding)
        (darshana_answered [] x.darshana (record { both = refl; quiet = ok.quiet_darshana })
          (omega arith))
  node-Leads n c (darshana_answered xs [] s e) = tt
  node-Leads n c (darshana_answered xs (y ∷ ys) s e) =
      quiet-Leads n y ys [] _ [] _ (x.forwarding ++ xs) s.quiet.0 (
        longer (suc n) _ _ xs ys y (
          darshana_answered (xs ++ y ∷ []) ys (Split-next _ xs ys y s)
            (omega (arith, one_more xs y))))
  node-Leads n c (darshana_known xs [] s e) = tt
  node-Leads n c (darshana_known xs (y ∷ ys) s e) =
      quiet-Leads n y ys [] _ [] _ (x.forwarding ++ xs) s.quiet.0 (
        longer (suc n) _ _ xs ys y (
          darshana_known (xs ++ y ∷ []) ys (Split-next _ xs ys y s) (omega (arith, one_more xs y))))
  node-Leads n c (returned xs [] s e) = tt
  node-Leads n c (returned xs (y ∷ ys) s e) =
      quiet-Leads n y ys [] _ [] _ (x.forwarding ++ xs) s.quiet.0 (
        longer (suc n) _ _ xs ys y
          (returned (xs ++ y ∷ []) ys (Split-next _ xs ys y s) (omega (arith, one_more xs y))))
