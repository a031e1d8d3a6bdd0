-- ===== src/Dar/Paths/Refinement.antt =====
-- The monitored paths as a list: what the functions of monitored_paths_handler.c do to it.
use premium.Base.{◌++◌, List, [], ◌∷◌, ◌≡◌, some}
use premium.Text.{Bytes}
use premium.Dar.Alerts.{HijackAlert}
use premium.Dar.Chain.{Ptr, Memory}
use premium.Dar.Chain.Shape.{Holds}
use premium.Dar.Chain.Insert.{insert_end-Holds}
use premium.Dar.Chain.Either.{change_either, change_first_either, change_either-Holds}
use premium.Dar.Paths.{
  PathStatus, new_path_status, save_unstructured_path, has_relay, updated, analyse_hijack_alert,
}

-- An alert marks the first path whose overlay node is the alert's source, and if there is none the
-- first whose overlay node is its destination.
abbrev pub mark : HijackAlert → List PathStatus → List PathStatus
mark alert paths =
    change_first_either (has_relay alert.source_ip) (has_relay alert.destination_ip) (updated alert)
      paths

-- Saving a path appends it, not hijacked and with no alert times, to the list on the heap.
pub save_unstructured_path-Holds :
    (m : Memory PathStatus) (head : Ptr) (paths : List PathStatus)
    (source_ip relay_ip destination_ip : Bytes)
    → Holds m head paths
    → (r : Ptr × Memory PathStatus) × (save_unstructured_path head source_ip relay_ip destination_ip
          m
        ≡ some r)
      × Holds r.1 r.0 (paths ++ new_path_status source_ip relay_ip destination_ip ∷ [])
unfolding save_unstructured_path
save_unstructured_path-Holds m head paths source_ip relay_ip destination_ip h =
    insert_end-Holds m (new_path_status source_ip relay_ip destination_ip) head paths h

-- Analysing an alert on a list of monitored paths on the heap runs to its end, marks in it exactly
-- the path that the alert names, and leaves every other path and the order as they are.
pub analyse_hijack_alert-Holds :
    (m : Memory PathStatus) (head : Ptr) (paths : List PathStatus) (alert : HijackAlert)
    → Holds m head paths
    → (m' : Memory PathStatus) × (analyse_hijack_alert head alert m ≡ some m')
      × Holds m' head (mark alert paths)
unfolding analyse_hijack_alert change_either
analyse_hijack_alert-Holds m head paths alert h =
    change_either-Holds (has_relay alert.source_ip) (has_relay alert.destination_ip) (updated alert)
      m head paths h
