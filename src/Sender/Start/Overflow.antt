-- ===== src/Sender/Start/Overflow.antt =====
-- A sender that has to create a source on an interface whose name holds no e.
use premium.Base.{
  ℕ, zero, suc, ◌+◌, ◌*◌, ◌≤◌, ◌<◌, List, [], ◌∷◌, ◌≡◌, ◌≢◌, refl, false, none, arith, ltb-false,
  lt→ltb, length,
}
use premium.Text.{Bytes}
use premium.Text.Decimal.{decimal, decimal-ne-nil}
use premium.Dar.Receiver.{Dar}
use premium.Sender.Interfaces.{
  Machine, strchr, create_virtual_interface, create, create_sources, setup_machete_info,
}
use premium.Sender.Interfaces.Local.{local_addresses, get_local_interfaces-local_addresses}
use premium.Sender.Session.{SetupSenderArg}
use premium.Sender.Start.{Environment, setup_sender}
use premium.Sender.Start.Ready.{IsAnswered, primary_of, TooFew, goes_on}
use premium.Sender.Start.Run.{nodes_found, receiver_found}

length-pos : (s : Bytes) → s ≢ [] → 1 ≤ length s
length-pos [] ne = absurd (ne refl)
length-pos (c ∷ s) ne = omega arith

create_virtual_interface_overflows :
    (time : ℕ) (primary : Bytes) → create_virtual_interface time primary ≡ none
unfolding create_virtual_interface
create_virtual_interface_overflows time primary =
    rw (ltb-false (length (decimal time)) 1 (length-pos (decimal time) (decimal-ne-nil time))) refl

create_sources_overflows :
    (machine : Machine) (fuel : ℕ) (primary : Bytes) (num_srcs num_dsts num_hops : ℕ)
    (made : List Bytes)
    → strchr primary b'e' ≡ false
    → num_srcs * num_dsts < num_hops
    → create_sources machine fuel primary num_srcs num_dsts num_hops made ≡ none
unfolding create_sources create
create_sources_overflows machine zero primary num_srcs num_dsts num_hops made no_e few = refl
create_sources_overflows machine (suc fuel) primary num_srcs num_dsts num_hops made no_e few =
    rw
      (
        lt→ltb (num_srcs * num_dsts) num_hops few,
        no_e,
        create_virtual_interface_overflows (machine.time num_srcs) primary,
      )
      refl

-- If what a sender asks before it creates sources answers and fits, it has too few sources for the
-- nodes and the receiver's addresses, and the name of its last interface besides the loopback holds no
-- e, as wlan0 does, then it is not set up, whatever fuel its loop is given: create_virtual_interface,
-- which it calls first, writes past its one byte of memory at any time. The probe has one round of
-- fuel more than nodes, and the manager prints all tuples behind the same label.
pub setup_sender_overflows :
    (env : Environment) (args : SetupSenderArg) (label node : Bytes) (nodes : List Bytes)
    (address : Bytes) (addresses : List Bytes) (fuel : ℕ) (dar : Dar)
    → IsAnswered env args label node nodes address addresses
    → TooFew env (address ∷ addresses) (node ∷ nodes)
    → strchr (primary_of env) b'e' ≡ false
    → ((time : ℕ) → create_virtual_interface time (primary_of env) ≡ none)
      × (setup_machete_info env.machine fuel env.interfaces_before env.interfaces_after
            (length (address ∷ addresses))
            (length (node ∷ nodes))
            env.reserved_interface
            env.reserved_srcs
          ≡ none)
      × (setup_sender (length (node ∷ nodes) + 1) fuel env args dar ≡ none)
unfolding setup_sender setup_machete_info
setup_sender_overflows env args label node nodes address addresses fuel dar r few no_e =
    let before = local_addresses env.interfaces_before in
    let (asked, probed) = nodes_found env args label node nodes address addresses r in
    let learnt = receiver_found env args label node nodes address addresses r in
    let taken =
      get_local_interfaces-local_addresses env.interfaces_before env.reserved_interface 0
        env.reserved_srcs r.usable_before (omega (arith, r.srcs_reserved, r.before_fits)) in
    let overflows =
      create_sources_overflows env.machine fuel (primary_of env) (0 + length before)
        (length (address ∷ addresses)) (length (node ∷ nodes)) [] no_e (grind arith) in
    (
      λ time. create_virtual_interface_overflows time (primary_of env),
      rw (taken, overflows) refl,
      rw
          (
            asked,
            probed,
            goes_on (length (node ∷ nodes)) args.min_number_of_nodes r.min_nodes,
            learnt,
            taken,
            overflows,
          )
          refl,
    )
