-- ===== src/Dar/Paths.antt =====
-- SCMultipath/dar/monitored_paths_handler.c: the paths that are monitored, and what an alert does to
-- them. Strings are copied on insertion and never written later, so they are values here.
pub mod Refinement
pub mod Show
use premium.Base.{
  ℕ, List, [], ◌∷◌, ◌≡◌, Bool, true, false, Option, none, some, ◌==◌, if◌then◌else◌, ◌>>=◌,
}
use premium.Text.{Bytes, str_eq}
use premium.Dar.Time.{Tm, duplicate_time_structure}
use premium.Dar.Alerts.{HijackAlert}
use premium.Dar.Chain.{Ptr, null, Memory, load, insert_begin, insert_end, new_node, find_node}
use premium.Dar.Chain.Change.{change}

-- TRUE and FALSE are the only values that was_hijacked takes. A NULL time is `none`.
pub record PathStatus : Type 0 where
  pub previous_time_info : Option Tm
  pub last_time_info : Option Tm
  pub source_ip : Bytes
  pub relay_ip : Bytes
  pub destination_ip : Bytes
  pub was_hijacked : Bool

unfoldable pub new_path_status : Bytes → Bytes → Bytes → PathStatus
new_path_status source_ip relay_ip destination_ip = record {
  previous_time_info = none;
  last_time_info = none;
  source_ip = source_ip;
  relay_ip = relay_ip;
  destination_ip = destination_ip;
  was_hijacked = false;
}

unfoldable pub new_node_p : PathStatus → Memory PathStatus → Ptr × Memory PathStatus
new_node_p = new_node

unfoldable pub insert_begin_p :
    Ptr → PathStatus → Memory PathStatus → Option (Ptr × Memory PathStatus)
insert_begin_p = insert_begin

unfoldable pub insert_end_p :
    Ptr → PathStatus → Memory PathStatus → Option (Ptr × Memory PathStatus)
insert_end_p = insert_end

-- monitored_paths_list_head is the first argument; the new head is the first result.
unfoldable pub save_path_status :
    Ptr → PathStatus → Memory PathStatus → Option (Ptr × Memory PathStatus)
unfolding insert_end_p
save_path_status monitored_paths_list_head path_status_struct m =
    insert_end_p monitored_paths_list_head path_status_struct m

unfoldable pub save_unstructured_path :
    Ptr → Bytes → Bytes → Bytes → Memory PathStatus → Option (Ptr × Memory PathStatus)
unfolding save_path_status
save_unstructured_path monitored_paths_list_head source_ip relay_ip destination_ip m =
    save_path_status monitored_paths_list_head (new_path_status source_ip relay_ip destination_ip) m

abbrev pub has_relay : Bytes → PathStatus → Bool
has_relay relay_ip path = str_eq path.relay_ip relay_ip

unfoldable pub lookup_path_by_relay_ip_recursive : Ptr → Bytes → Memory PathStatus → Option Ptr
lookup_path_by_relay_ip_recursive starting_point relay_ip m =
    find_node (has_relay relay_ip) m.fresh starting_point m

unfoldable pub lookup_path_by_relay_ip : Ptr → Bytes → Memory PathStatus → Option Ptr
unfolding lookup_path_by_relay_ip_recursive
lookup_path_by_relay_ip monitored_paths_list_head relay_ip m =
    lookup_path_by_relay_ip_recursive monitored_paths_list_head relay_ip m

abbrev pub bool_eq : Bool → Bool → Bool
bool_eq true b = b
bool_eq false true = false
bool_eq false false = true

unfoldable pub lookup_path_by_hijack_value_recursive : Ptr → Bool → Memory PathStatus → Option Ptr
lookup_path_by_hijack_value_recursive starting_point was_hijacked m =
    find_node (λ path. bool_eq path.was_hijacked was_hijacked) m.fresh starting_point m

unfoldable pub lookup_path_by_hijack_value : Ptr → Bool → Memory PathStatus → Option Ptr
unfolding lookup_path_by_hijack_value_recursive
lookup_path_by_hijack_value monitored_paths_list_head was_hijacked m =
    lookup_path_by_hijack_value_recursive monitored_paths_list_head was_hijacked m

-- The fields that update_path_status writes: a second alert moves the last time to the previous one.
unfoldable pub updated : HijackAlert → PathStatus → PathStatus
updated alert path = elim path.last_time_info [
  | none ↦ record path {
    last_time_info = some (duplicate_time_structure alert.time_info);
    was_hijacked = true;
  }
  | some last ↦ record path {
    previous_time_info = some last;
    last_time_info = some (duplicate_time_structure alert.time_info);
    was_hijacked = true;
  }
]

unfoldable pub update_path_status :
    Ptr → HijackAlert → Memory PathStatus → Option (Memory PathStatus)
unfolding updated change
update_path_status path_link alert m = change (updated alert) path_link m

unfoldable pub analyse_hijack_alert :
    Ptr → HijackAlert → Memory PathStatus → Option (Memory PathStatus)
unfolding lookup_path_by_relay_ip update_path_status
analyse_hijack_alert monitored_paths_list_head alert m = do
  path_node ← lookup_path_by_relay_ip monitored_paths_list_head alert.source_ip m
  if path_node == null
      then (do
        path_node' ← lookup_path_by_relay_ip monitored_paths_list_head alert.destination_ip m
        if path_node' == null then some m else update_path_status path_node' alert m)
      else update_path_status path_node alert m
