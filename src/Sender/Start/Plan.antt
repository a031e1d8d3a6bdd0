-- ===== src/Sender/Start/Plan.antt =====
-- The flows that a sender plans for its nodes, sources and destinations, and that it finds them
-- again in its arrays.
use premium.Base.{
  ℕ, zero, suc, ◌+◌, ◌*◌, ◌%◌, ◌≤◌, ◌<◌, List, [], ◌∷◌, ◌≡◌, refl, ◌∙◌, some, arith, length,
  get_elem?, set, length-set, get_elem?-some, get_elem?-set, get_elem?-set_later, All, All-append,
  ==_ne,
}
use premium.Text.{Bytes}
use premium.Manager.Nodes.{store_all}
use premium.Sender.State.{Network}
use premium.Sender.Flows.{hop_index}
use premium.Sender.Flows.Order.{row, grid}
use premium.Sender.Flows.Setup.{Flow, FlowsAt, flow_at, flow_at-parts}

pub length-store_all : (ips xs : List Bytes) (i : ℕ) → length (store_all xs i ips) ≡ length xs
length-store_all [] xs i = refl
length-store_all (ip ∷ ips) xs i = length-store_all ips (set xs i ip) (i + 1) ∙ length-set xs i ip

store_all_keeps :
    (ips xs : List Bytes) (i k : ℕ) → k < i → get_elem? (store_all xs i ips) k ≡ get_elem? xs k
store_all_keeps [] xs i k h = refl
store_all_keeps (ip ∷ ips) xs i k h =
    store_all_keeps ips (set xs i ip) (i + 1) k (omega arith) ∙ get_elem?-set_later xs i k ip h

-- What was stored stands where it was stored.
pub get_elem?-store_all :
    (ips xs : List Bytes) (i k j : ℕ) (v : Bytes)
    → i + length ips ≤ length xs
    → get_elem? ips k ≡ some v
    → j ≡ i + k
    → get_elem? (store_all xs i ips) j ≡ some v
get_elem?-store_all [] xs i k j v room at e = cc
get_elem?-store_all (ip ∷ ips) xs i zero j v room at e =
    store_all_keeps ips (set xs i ip) (i + 1) j (omega arith)
    ∙ (let same : j ≡ i = omega arith in rw same (get_elem?-set xs i ip (omega arith) ∙ at))
get_elem?-store_all (ip ∷ ips) xs i (suc k) j v room at e =
    get_elem?-store_all ips (set xs i ip) (i + 1) k j v (omega (arith, length-set xs i ip)) at
      (omega arith)

-- The nodes, the destinations and their numbers, from lists that hold nothing else.
abbrev pub plan : List Bytes → List Bytes → List Bytes → Network
plan nodes addresses sources = record {
  hops = nodes;
  dsts = addresses;
  num_srcs = length sources;
  num_dsts = length addresses;
  num_hops = length nodes;
}

-- The same in arrays that hold more.
abbrev pub arrays : List Bytes → List Bytes → List Bytes → List Bytes → List Bytes → Network
arrays hops nodes dsts addresses sources = record {
  hops = store_all hops 0 nodes;
  dsts = store_all dsts 0 addresses;
  num_srcs = length sources;
  num_dsts = length addresses;
  num_hops = length nodes;
}

flow_at-arrays :
    (hops nodes dsts addresses srcs sources : List Bytes) (i j : ℕ) (f : Flow)
    → length nodes ≤ length hops
    → length addresses ≤ length dsts
    → length sources ≤ length srcs
    → flow_at (plan nodes addresses sources) sources i j ≡ some f
    → flow_at (arrays hops nodes dsts addresses sources) (store_all srcs 0 sources) i j ≡ some f
unfolding hop_index
flow_at-arrays hops nodes dsts addresses srcs sources i j f h1 h2 h3 e =
    let r1 : 0 + length nodes ≤ length hops = omega arith in
    let r2 : 0 + length addresses ≤ length dsts = omega arith in
    let r3 : 0 + length sources ≤ length srcs = omega arith in
    let zero_plus : (n : ℕ) → n ≡ 0 + n = λ n. omega arith in
    let (at, s, d, h) = flow_at-parts (plan nodes addresses sources) sources i j f e in
    rw
      (
        at,
        get_elem?-store_all sources srcs 0 i i f.src r3 s (zero_plus i),
        get_elem?-store_all addresses dsts 0 j j f.dst r2 d (zero_plus j),
        get_elem?-store_all nodes hops 0 f.index f.index f.hop r1 h (zero_plus f.index),
      )
      refl

pub FlowsAt-arrays :
    (hops nodes dsts addresses srcs sources : List Bytes) (ps : List (ℕ × ℕ)) (fs : List Flow)
    → length nodes ≤ length hops
    → length addresses ≤ length dsts
    → length sources ≤ length srcs
    → FlowsAt (plan nodes addresses sources) sources ps fs
    → FlowsAt (arrays hops nodes dsts addresses sources) (store_all srcs 0 sources) ps fs
FlowsAt-arrays hops nodes dsts addresses srcs sources [] [] h1 h2 h3 at = tt
FlowsAt-arrays hops nodes dsts addresses srcs sources [] (f ∷ fs) h1 h2 h3 at = at
FlowsAt-arrays hops nodes dsts addresses srcs sources (p ∷ ps) [] h1 h2 h3 at = at
FlowsAt-arrays hops nodes dsts addresses srcs sources ((i, j) ∷ ps) (f ∷ fs) h1 h2 h3 (e, at) = (
  flow_at-arrays hops nodes dsts addresses srcs sources i j f h1 h2 h3 e,
  FlowsAt-arrays hops nodes dsts addresses srcs sources ps fs h1 h2 h3 at,
)

abbrev Below : ℕ → ℕ → ℕ × ℕ → Type 0
Below n w p = (p.0 < n) × (p.1 < w)

row-Below : (n w i from m : ℕ) → i < n → from + m ≤ w → All (Below n w) (row i from m)
row-Below n w i from zero h1 h2 = tt
row-Below n w i from (suc m) h1 h2 =
    ((h1, omega arith), row-Below n w i (from + 1) m h1 (omega arith))

grid-Below : (n w from m : ℕ) → from + m ≤ n → All (Below n w) (grid w from m)
grid-Below n w from zero h = tt
grid-Below n w from (suc m) h =
    All-append (Below n w) (row from 0 w) (grid w (from + 1) m)
      (row-Below n w from 0 w (omega arith) (omega arith))
      (grid-Below n w (from + 1) m (omega arith))

flow_at-plan :
    (nodes addresses sources : List Bytes) (i j : ℕ)
    → 0 < length nodes
    → i < length sources
    → j < length addresses
    → (f : Flow) × (flow_at (plan nodes addresses sources) sources i j ≡ some f)
unfolding hop_index
flow_at-plan nodes addresses sources i j some_node h1 h2 =
    let h = (i * length addresses + j) % length nodes in
    let (src, s) = get_elem?-some sources i h1 in
    let (dst, d) = get_elem?-some addresses j h2 in
    let (hop, n) = get_elem?-some nodes h (omega arith) in
    (
      record { src = src; dst = dst; hop = hop; index = h },
      rw (==_ne (length nodes) 0 (omega arith), s, d, n) refl,
    )

FlowsAt-plan :
    (nodes addresses sources : List Bytes) (ps : List (ℕ × ℕ))
    → 0 < length nodes
    → All (Below (length sources) (length addresses)) ps
    → (fs : List Flow) × FlowsAt (plan nodes addresses sources) sources ps fs
FlowsAt-plan nodes addresses sources [] some_node h = ([], tt)
FlowsAt-plan nodes addresses sources ((i, j) ∷ ps) some_node ((h1, h2), h) =
    let (f, e) = flow_at-plan nodes addresses sources i j some_node h1 h2 in
    let (fs, at) = FlowsAt-plan nodes addresses sources ps some_node h in (f ∷ fs, (e, at))

-- Every pair of a source and a destination has its flow.
pub planned_flows :
    (nodes addresses sources : List Bytes)
    → 0 < length nodes
    → (fs : List Flow) × FlowsAt
        (plan nodes addresses sources)
        sources
        (grid (length addresses) 0 (length sources))
        fs
planned_flows nodes addresses sources some_node =
    FlowsAt-plan nodes addresses sources _ some_node
      (grid-Below (length sources) (length addresses) 0 (length sources) (omega arith))
