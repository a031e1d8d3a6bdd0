-- ===== src/Sender/Interfaces/Loop.antt =====
-- The loop that creates source addresses until there are as many flows as overlay nodes.
use premium.Base.{
  ℕ, zero, suc, ◌+◌, ◌*◌, ◌≤◌, ◌<◌, List, [], ◌∷◌, ◌++◌, ◌≡◌, ◌⊎◌, inl, inr, refl, sym, true, false,
  none, some, arith, ltb, ltb→lt, ltb-false, lt→ltb, Bool-cases, bind_none, length, length-append,
}
use premium.Text.{Bytes, codes, strcat_all, Token}
use premium.Text.Decimal.{decimal}
use premium.Sender.Interfaces.{Machine, strchr, dot, primary_addr, create, create_sources}
use premium.Sender.Interfaces.Alias.{candidate, address_with, create_virtual_ifconfig-candidate}

≤-cases : (a b : ℕ) → a ≤ b → (a ≡ b) ⊎ (a + 1 ≤ b)
≤-cases a b h = omega arith

-- That sources can be created from one number up to another: the name of the primary interface holds an e, its
-- address has four parts, and for each new source the search comes to a last part below 1000 whose
-- address answers no ping, with fuel for the addresses in front of it that do.
pub record CanCreate (machine : Machine) (primary : Bytes) (first limit : ℕ) : Type 0 where
  pub has_e : strchr primary b'e' ≡ true
  pub pt1 : Bytes
  pub pt2 : Bytes
  pub pt3 : Bytes
  pub part : ℕ
  pub tries : ℕ → ℕ
  pub pt1_token : Token dot pt1
  pub pt2_token : Token dot pt2
  pub pt3_token : Token dot pt3
  pub has_address :
      (n : ℕ)
      → first ≤ n
      → n < limit
      → primary_addr (machine.interfaces n) primary (machine.stack n)
        ≡ some (pt1 ++ dot ∷ (pt2 ++ dot ∷ (pt3 ++ dot ∷ decimal part)))
  pub taken :
      (n : ℕ)
      → first ≤ n
      → n < limit
      → (i : ℕ) → i < tries n
      → machine.answers n (address_with pt1 pt2 pt3 (candidate part n i)) ≡ true
  pub free :
      (n : ℕ)
      → first ≤ n
      → n < limit
      → machine.answers n (address_with pt1 pt2 pt3 (candidate part n (tries n))) ≡ false
  pub small : (n : ℕ) → first ≤ n → n < limit → candidate part n (tries n) < 1000
  pub fueled : (n : ℕ) → first ≤ n → n < limit → tries n < machine.alias_fuel

abbrev alias_command : Bytes → Bytes → ℕ → Bytes
alias_command primary addr part =
    strcat_all (codes "ifconfig " ∷ primary ∷ codes ":" ∷ decimal part ∷ codes " " ∷ addr ∷ [])

create-alias :
    (machine : Machine) (primary : Bytes) (first limit n : ℕ)
    → CanCreate machine primary first limit
    → first ≤ n
    → n < limit
    → (command : Bytes) × (create machine primary n ≡ some (command ∷ []))
unfolding create
create-alias machine primary first limit n h ge lt = (
  alias_command primary (address_with h.pt1 h.pt2 h.pt3 (candidate h.part n (h.tries n)))
      (candidate h.part n (h.tries n)),
  rw
      (
        h.has_e,
        h.has_address n ge lt,
        create_virtual_ifconfig-candidate h.pt1 h.pt2 h.pt3 (machine.answers n) (h.tries n)
            machine.alias_fuel n h.part primary h.pt1_token h.pt2_token h.pt3_token
            (h.taken n ge lt) (h.free n ge lt) (h.small n ge lt) (h.fueled n ge lt),
      )
      refl,
)

below_limit : (n d limit : ℕ) → 0 < d → n * d < limit → n < limit
below_limit n zero limit pos lt = absurd (omega arith)
below_limit n (suc d) limit pos lt = grind arith

-- With at least one destination, as many nodes as flows and some more at most, and sources that can be
-- created if any is missing, the loop ends within one round more than that number. It ends with the
-- least number of sources, not below the one it began with, that gives each node a flow, and it has
-- run one command for each that was missing.
pub create_sources-least :
    (machine : Machine) (fuel : ℕ) (primary : Bytes) (first num_srcs num_dsts num_hops : ℕ)
    (made : List Bytes)
    → (num_srcs * num_dsts < num_hops → CanCreate machine primary first num_hops)
    → first ≤ num_srcs
    → 0 < num_dsts
    → num_hops ≤ num_srcs * num_dsts + fuel
    → (n : ℕ) × (done : List Bytes) × (create_sources machine
          (suc fuel)
          primary
          num_srcs
          num_dsts
          num_hops
          made
        ≡ some (n, done))
      × (num_hops ≤ n * num_dsts)
      × (num_srcs ≤ n)
      × ((k : ℕ) → num_srcs ≤ k → k < n → k * num_dsts < num_hops)
      × (length done + num_srcs ≡ length made + n)
unfolding create_sources
create_sources-least machine zero primary first num_srcs num_dsts num_hops made can ge pos enough =
    (
      num_srcs,
      made,
      rw (ltb-false (num_srcs * num_dsts) num_hops (omega arith)) refl,
      omega arith,
      omega arith,
      λ k ge lt. absurd (omega arith),
      refl,
    )
create_sources-least machine (suc fuel) primary first num_srcs num_dsts num_hops made can from pos
      enough =
    elim (Bool-cases (ltb (num_srcs * num_dsts) num_hops)) [
      | inl is_below ↦
          let below = ltb→lt (num_srcs * num_dsts) num_hops is_below in
          let (command, ran) =
            create-alias machine primary first num_hops num_srcs (can below) from
              (below_limit num_srcs num_dsts num_hops pos below) in
          let (n, done, e, all, ge, least, count) =
            create_sources-least machine fuel primary first (num_srcs + 1) num_dsts num_hops
              (made ++ command ∷ []) (λ still. can below) (omega arith) pos (grind arith) in
          (
            n,
            done,
            rw (is_below, ran) e,
            all,
            omega arith,
            λ k le lt. elim (≤-cases num_srcs k le) [
              | inl e ↦ rw (sym e) below
              | inr lt' ↦ least k lt' lt
            ],
            grind (arith, length-append),
          )
      | inr is_enough ↦ (
        num_srcs,
        made,
        rw is_enough refl,
        grind arith,
        omega arith,
        λ k ge lt. absurd (omega arith),
        refl,
      )
    ]

-- With no destination the loop never ends if there is a node, or creating a source fails.
pub create_sources_forever :
    (machine : Machine) (fuel : ℕ) (primary : Bytes) (num_srcs num_hops : ℕ) (made : List Bytes)
    → 0 < num_hops
    → create_sources machine fuel primary num_srcs 0 num_hops made ≡ none
unfolding create_sources
create_sources_forever machine zero primary num_srcs num_hops made pos = refl
create_sources_forever machine (suc fuel) primary num_srcs num_hops made pos =
    rw (lt→ltb (num_srcs * 0) num_hops (omega arith)) (
      bind_none (create machine primary num_srcs) _
        (λ commands. create_sources_forever machine fuel primary (num_srcs + 1) num_hops _ pos))
