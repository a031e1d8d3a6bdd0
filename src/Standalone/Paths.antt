-- ===== src/Standalone/Paths.antt =====
-- Darshana/dar/monitored_paths_handler.c, apart from what it prints. new_path_status writes neither
-- time pointer, so that both are what malloc left.
use premium.Base.{
  ℕ, List, [], ◌∷◌, ◌≡◌, Bool, true, false, Option, some, ◌==◌, if◌then◌else◌, ◌>>=◌,
}
use premium.Text.{Bytes, codes, str_eq}
use premium.Dar.Time.{Tm, duplicate_time_structure}
use premium.Dar.Alerts.{HijackAlert}
use premium.Dar.Chain.{Ptr, null, Memory, insert_begin, insert_end, new_node, find_node}
use premium.Dar.Chain.Shape.{Holds}
use premium.Dar.Chain.Insert.{insert_three-Holds}
use premium.Dar.Chain.Change.{change}
use premium.Dar.Chain.Either.{change_either, change_first_either, change_either-Holds}
use premium.Dar.Paths.{bool_eq}

-- A pointer to a struct tm: NULL, to a time, or to anywhere.
pub data TimePointer : Type 0 where
  no_time : TimePointer
  at_time : Tm → TimePointer
  wild : TimePointer

pub record PathStatus : Type 0 where
  pub previous_time_info : TimePointer
  pub last_time_info : TimePointer
  pub source_ip : Bytes
  pub relay_ip : Bytes
  pub destination_ip : Bytes
  pub was_hijacked : Bool

-- What malloc left in the two pointers of a struct: zero bytes or others.
pub record Leftover : Type 0 where
  pub previous_zero : Bool
  pub last_zero : Bool

abbrev pub left_pointer : Bool → TimePointer
left_pointer zero_bytes = if zero_bytes then no_time else wild

unfoldable pub new_path_status : Leftover → Bytes → Bytes → Bytes → PathStatus
new_path_status left source_ip relay_ip destination_ip = record {
  previous_time_info = left_pointer left.previous_zero;
  last_time_info = left_pointer left.last_zero;
  source_ip = source_ip;
  relay_ip = relay_ip;
  destination_ip = destination_ip;
  was_hijacked = false;
}

unfoldable pub new_node_p : PathStatus → Memory PathStatus → Ptr × Memory PathStatus
new_node_p = new_node

unfoldable pub insert_begin_p :
    Ptr → PathStatus → Memory PathStatus → Option (Ptr × Memory PathStatus)
insert_begin_p = insert_begin

unfoldable pub insert_end_p :
    Ptr → PathStatus → Memory PathStatus → Option (Ptr × Memory PathStatus)
insert_end_p = insert_end

unfoldable pub save_path_status :
    Ptr → PathStatus → Memory PathStatus → Option (Ptr × Memory PathStatus)
unfolding insert_end_p
save_path_status monitored_paths_list_head path_status_struct m =
    insert_end_p monitored_paths_list_head path_status_struct m

abbrev pub has_relay : Bytes → PathStatus → Bool
has_relay relay_ip path = str_eq path.relay_ip relay_ip

unfoldable pub lookup_path_by_relay_ip_recursive : Ptr → Bytes → Memory PathStatus → Option Ptr
lookup_path_by_relay_ip_recursive starting_point relay_ip m =
    find_node (has_relay relay_ip) m.fresh starting_point m

unfoldable pub lookup_path_by_relay_ip : Ptr → Bytes → Memory PathStatus → Option Ptr
unfolding lookup_path_by_relay_ip_recursive
lookup_path_by_relay_ip monitored_paths_list_head relay_ip m =
    lookup_path_by_relay_ip_recursive monitored_paths_list_head relay_ip m

abbrev pub with_value : Bool → PathStatus → Bool
with_value was_hijacked path = bool_eq path.was_hijacked was_hijacked

unfoldable pub lookup_path_by_hijack_value_recursive : Ptr → Bool → Memory PathStatus → Option Ptr
lookup_path_by_hijack_value_recursive starting_point was_hijacked m =
    find_node (with_value was_hijacked) m.fresh starting_point m

unfoldable pub lookup_path_by_hijack_value : Ptr → Bool → Memory PathStatus → Option Ptr
unfolding lookup_path_by_hijack_value_recursive
lookup_path_by_hijack_value monitored_paths_list_head was_hijacked m =
    lookup_path_by_hijack_value_recursive monitored_paths_list_head was_hijacked m

-- The previous pointer behind an alert, from the last one and the previous one.
abbrev pub moved_pointer : TimePointer → TimePointer → TimePointer
moved_pointer no_time previous = previous
moved_pointer (at_time t) previous = at_time t
moved_pointer wild previous = wild

-- The fields that update_path_status writes: a wild last pointer is not NULL and is kept as the
-- previous one.
unfoldable pub updated : HijackAlert → PathStatus → PathStatus
updated alert path = record path {
  previous_time_info = moved_pointer path.last_time_info path.previous_time_info;
  last_time_info = at_time (duplicate_time_structure alert.time_info);
  was_hijacked = true;
}

unfoldable pub update_path_status :
    Ptr → HijackAlert → Memory PathStatus → Option (Memory PathStatus)
unfolding updated change
update_path_status path_link alert m = change (updated alert) path_link m

unfoldable pub analyse_hijack_alert :
    Ptr → HijackAlert → Memory PathStatus → Option (Memory PathStatus)
unfolding lookup_path_by_relay_ip update_path_status
analyse_hijack_alert monitored_paths_list_head alert m = do
  path_node ← lookup_path_by_relay_ip monitored_paths_list_head alert.source_ip m
  if path_node == null
      then (do
        path_node' ← lookup_path_by_relay_ip monitored_paths_list_head alert.destination_ip m
        if path_node' == null then some m else update_path_status path_node' alert m)
      else update_path_status path_node alert m

-- The paths that init_test_path_values inserts; `left n` is what malloc left for the n-th of them.
abbrev pub test_path : ℕ → (ℕ → Leftover) → PathStatus
test_path n left =
    if n == 0
    then new_path_status (left 0) (codes "10.23.44.1") (codes "101.0.2.1") (codes "30.123.2.1")
    else if n == 1
    then new_path_status (left 1) (codes "10.23.44.2") (codes "10.0.2.30") (codes "30.123.2.2")
    else new_path_status (left 2) (codes "10.23.44.3") (codes "101.0.2.3") (codes "30.123.2.3")

unfoldable pub init_test_path_values :
    (ℕ → Leftover) → Ptr → Memory PathStatus → Option (Ptr × Memory PathStatus)
init_test_path_values left head m = do
  (h1, m1) ← insert_end_p head (test_path 0 left) m
  (h2, m2) ← insert_end_p h1 (test_path 1 left) m1
  insert_end_p h2 (test_path 2 left) m2

abbrev pub test_paths : (ℕ → Leftover) → List PathStatus
test_paths left = test_path 0 left ∷ test_path 1 left ∷ test_path 2 left ∷ []

pub init_test_path_values-Holds :
    (left : ℕ → Leftover) (m : Memory PathStatus) (head : Ptr)
    → Holds m head []
    → (r : Ptr × Memory PathStatus) × (init_test_path_values left head m ≡ some r)
      × Holds r.1 r.0 (test_paths left)
unfolding init_test_path_values insert_end_p
init_test_path_values-Holds left m head h =
    insert_three-Holds m (test_path 0 left) (test_path 1 left) (test_path 2 left) head h

-- An alert marks the first path whose overlay node is the alert's source, and if there is none the
-- first whose overlay node is its destination.
abbrev pub mark : HijackAlert → List PathStatus → List PathStatus
mark alert paths =
    change_first_either (has_relay alert.source_ip) (has_relay alert.destination_ip) (updated alert)
      paths

pub analyse_hijack_alert-mark :
    (m : Memory PathStatus) (head : Ptr) (paths : List PathStatus) (alert : HijackAlert)
    → Holds m head paths
    → (m' : Memory PathStatus) × (analyse_hijack_alert head alert m ≡ some m')
      × Holds m' head (mark alert paths)
unfolding analyse_hijack_alert change_either
analyse_hijack_alert-mark m head paths alert h =
    change_either-Holds (has_relay alert.source_ip) (has_relay alert.destination_ip) (updated alert)
      m head paths h
