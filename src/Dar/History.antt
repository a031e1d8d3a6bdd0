-- ===== src/Dar/History.antt =====
-- What SCMultipath/dar/hijack_alert_handler.c prints of the alerts that it keeps. `time_string`
-- stands for get_time_custom_string, which calls strftime.
use premium.Base.{ℕ, [], ◌∷◌, Option}
use premium.Text.{Bytes, codes, strcat_all}
use premium.Dar.Time.{Tm}
use premium.Dar.Alerts.{HijackAlert}
use premium.Dar.Chain.{Ptr, null, Memory}
use premium.Dar.Chain.Show.{show_nodes}
use premium.Dar.Receiver.{Dar}

unfoldable pub show_hijack_alert_simple : (Tm → Bytes) → HijackAlert → Bytes
show_hijack_alert_simple time_string alert = strcat_all (
    time_string alert.time_info
    ∷ codes ","
    ∷ alert.alert_type
    ∷ codes ","
    ∷ alert.source_ip
    ∷ codes ","
    ∷ alert.destination_ip
    ∷ codes ","
    ∷ alert.metric_name
    ∷ codes "\n"
    ∷ [])

unfoldable pub show_all_nodes_h : (Tm → Bytes) → ℕ → Ptr → Memory HijackAlert → Option Bytes
show_all_nodes_h time_string = show_nodes (show_hijack_alert_simple time_string)

unfoldable pub show_all_hijack_alerts : (Tm → Bytes) → Dar → Option Bytes
unfolding show_all_nodes_h
show_all_hijack_alerts time_string d =
    show_all_nodes_h time_string d.alerts.fresh d.alerts_history_head d.alerts

unfoldable pub init_alerts_history_head : Dar → Dar
init_alerts_history_head d = record d { alerts_history_head = null }
