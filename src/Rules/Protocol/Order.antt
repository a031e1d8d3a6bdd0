-- ===== src/Rules/Protocol/Order.antt =====
-- Runs of the two ends: every one ends, and what it has done then.
use premium.Base.{
  ℕ, suc, ◌+◌, ◌<◌, List, [], ◌∷◌, ◌++◌, ◌≡◌, ◌⊎◌, inl, inr, refl, sym, ap, ◌∙◌, subst, Option,
  none, some, arith, length, length-append,
}
use premium.Rules.Node.{NodeAction}
use premium.Rules.Protocol.{closed, Config, sender_step, node_step, connected}
use premium.Rules.Protocol.Moves.{sender-Leads, node-Leads, Split-end}
use premium.Rules.Protocol.Stages.{
  Exchange, IsExchange, Split, Stage, at_start, forwarding_sent, forwarding_read,
  forwarding_answered, forwarding_known, darshana_sent, darshana_read, darshana_answered,
  darshana_known, returned, Leads,
}

-- Either end moves.
abbrev pub Step : Exchange → Config → Config → Type 0
Step x c d =
    (sender_step x.forwarding_rule x.darshana_rule c ≡ some d)
    ⊎ (node_step x.overlay_addr x.stale x.behind c ≡ some d)

-- n steps from the connection on, by either end in any order.
pub data Run (x : Exchange) : ℕ → Config → Type 0 where
  begin : Run x 0 connected
  then : {n : ℕ} {c d : Config} → Run x n c → Step x c d → Run x (suc n) d

-- Where every run ends.
abbrev pub finished : Exchange → Config
finished x = record {
  sender = closed;
  pending = [];
  to_node = [];
  to_sender = [];
  done = x.forwarding ++ x.darshana;
}

abbrev pub total : Exchange → ℕ
total x = 9 + (length x.forwarding + length x.darshana)

Step-Stage :
    (x : Exchange) (n : ℕ) (c d : Config)
    → IsExchange x
    → Step x c d
    → Stage x n c
    → Stage x (suc n) d
Step-Stage x n c d ok (inl e) st = subst (Leads x n) e (sender-Leads x ok n c st)
Step-Stage x n c d ok (inr e) st = subst (Leads x n) e (node-Leads x ok n c st)

-- What a run has reached is one of the stages.
pub Run-Stage : (x : Exchange) {n : ℕ} {c : Config} → IsExchange x → Run x n c → Stage x n c
Run-Stage x ok begin = at_start refl
Run-Stage x ok (then {n} {c} {d} run step) = Step-Stage x n c d ok step (Run-Stage x ok run)

abbrev Moves : Option Config → Type 0
Moves none = ⊥
Moves (some d) = Unit

moved : (r : Option Config) → Moves r → (d : Config) × (r ≡ some d)
moved none h = elim h [ ]
moved (some d) h = (d, refl)

sender-Moves :
    (x : Exchange) (c : Config)
    → Moves (sender_step x.forwarding_rule x.darshana_rule c)
    → (d : Config) × Step x c d
sender-Moves x c h = let (d, e) = moved _ h in (d, inl e)

node-Moves :
    (x : Exchange) (c : Config)
    → Moves (node_step x.overlay_addr x.stale x.behind c)
    → (d : Config) × Step x c d
node-Moves x c h = let (d, e) = moved _ h in (d, inr e)

Split-length :
    (x : Exchange) (todo xs ys : List NodeAction)
    → Split x todo xs ys
    → length xs + length ys ≡ length todo
Split-length x todo xs ys s = sym (length-append xs ys) ∙ ap length s.both

-- A run goes on until it is finished.
abbrev pub GoesOn : Exchange → ℕ → Config → Type 0
GoesOn x n c = ((n < total x) × ((d : Config) × Step x c d)) ⊎ ((n ≡ total x) × (c ≡ finished x))

pub Stage-GoesOn : (x : Exchange) (n : ℕ) (c : Config) → IsExchange x → Stage x n c → GoesOn x n c
unfolding sender_step node_step
Stage-GoesOn x n c ok (at_start e) = inl (omega arith, sender-Moves x c tt)
Stage-GoesOn x n c ok (forwarding_sent e) =
    inl (omega arith, node-Moves x c (rw ok.reads_forwarding tt))
Stage-GoesOn x n c ok (forwarding_read e) = inl (omega arith, node-Moves x c tt)
Stage-GoesOn x n c ok (forwarding_answered xs ys s e) =
    inl (omega (arith, Split-length x _ xs ys s), sender-Moves x c tt)
Stage-GoesOn x n c ok (forwarding_known xs ys s e) =
    inl (omega (arith, Split-length x _ xs ys s), sender-Moves x c tt)
Stage-GoesOn x n c ok (darshana_sent xs [] s e) =
    inl (omega (arith, Split-length x _ xs [] s), node-Moves x c (rw ok.reads_darshana tt))
Stage-GoesOn x n c ok (darshana_sent xs (y ∷ ys) s e) =
    inl (omega (arith, Split-length x _ xs (y ∷ ys) s), node-Moves x c tt)
Stage-GoesOn x n c ok (darshana_read e) = inl (omega arith, node-Moves x c tt)
Stage-GoesOn x n c ok (darshana_answered xs ys s e) =
    inl (omega (arith, Split-length x _ xs ys s), sender-Moves x c tt)
Stage-GoesOn x n c ok (darshana_known xs ys s e) =
    inl (omega (arith, Split-length x _ xs ys s), sender-Moves x c tt)
Stage-GoesOn x n c ok (returned xs (y ∷ ys) s e) =
    inl (omega (arith, Split-length x _ xs (y ∷ ys) s), node-Moves x c tt)
Stage-GoesOn x n c ok (returned xs [] s e) =
    let all_done = Split-end x ok x.darshana xs s in
    inr (
      omega (arith, ap length all_done),
      ap (λ done. record (finished x) { done = x.forwarding ++ done }) (sym all_done),
    )

-- When the sender has returned, the node has run all its forwarding actions and some of the others.
pub Stage-returned :
    (x : Exchange) (n : ℕ) (c : Config)
    → Stage x n c
    → c.sender ≡ closed
    → (xs : List NodeAction) × (ys : List NodeAction) × (c.done ≡ x.forwarding ++ xs)
      × (xs ++ ys ≡ x.darshana)
Stage-returned x n c (at_start e) is_closed = cc
Stage-returned x n c (forwarding_sent e) is_closed = cc
Stage-returned x n c (forwarding_read e) is_closed = cc
Stage-returned x n c (forwarding_answered xs ys s e) is_closed = cc
Stage-returned x n c (forwarding_known xs ys s e) is_closed = cc
Stage-returned x n c (darshana_sent xs ys s e) is_closed = cc
Stage-returned x n c (darshana_read e) is_closed = cc
Stage-returned x n c (darshana_answered xs ys s e) is_closed = cc
Stage-returned x n c (darshana_known xs ys s e) is_closed = cc
Stage-returned x n c (returned xs ys s e) is_closed = (xs, ys, refl, s.both)
