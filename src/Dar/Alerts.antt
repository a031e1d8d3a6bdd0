-- ===== src/Dar/Alerts.antt =====
-- SCMultipath/dar/hijack_alert_handler.c: an alert is one line "type,source,destination,metric".
-- `none` is the crash of duplicate_string on the NULL of a missing field. The field `timestamp` of
-- the struct is never written or read by the code and is left out.
use premium.Base.{ℕ, [], ◌∷◌, ◌++◌, ◌≡◌, refl, Option, none, some, ◌>>=◌}
use premium.Text.{Bytes, Token}
use premium.Text.Token.{next_token-nil, next_token, next_token_step, next_token_last}
use premium.Dar.Time.{Tm, get_current_time}
use premium.Dar.Chain.{Ptr, Memory, insert_begin, insert_end, new_node}

pub record HijackAlert : Type 0 where
  pub time_info : Tm
  pub alert_type : Bytes
  pub source_ip : Bytes
  pub destination_ip : Bytes
  pub metric_name : Bytes

abbrev pub comma : ℕ
comma = b','

unfoldable pub new_hijack_alert : Tm → Bytes → Bytes → Bytes → Bytes → HijackAlert
unfolding get_current_time
new_hijack_alert now alert_type source_ip destination_ip metric_name = record {
  time_info = get_current_time now;
  alert_type = alert_type;
  source_ip = source_ip;
  destination_ip = destination_ip;
  metric_name = metric_name;
}

unfoldable pub parse_hijack_alert : Tm → Bytes → Option HijackAlert
unfolding new_hijack_alert
parse_hijack_alert now data_received = do
  let (tok1, r1) = next_token comma data_received
  alert_type ← tok1
  let (tok2, r2) = next_token comma r1
  source_ip ← tok2
  let (tok3, r3) = next_token comma r2
  destination_ip ← tok3
  let (tok4, r4) = next_token comma r3
  metric_name ← tok4
  some (new_hijack_alert now alert_type source_ip destination_ip metric_name)

unfoldable pub new_node_h : HijackAlert → Memory HijackAlert → Ptr × Memory HijackAlert
new_node_h = new_node

unfoldable pub insert_begin_h :
    Ptr → HijackAlert → Memory HijackAlert → Option (Ptr × Memory HijackAlert)
insert_begin_h = insert_begin

unfoldable pub insert_end_h :
    Ptr → HijackAlert → Memory HijackAlert → Option (Ptr × Memory HijackAlert)
insert_end_h = insert_end

-- The line that a Darshana client sends.
abbrev pub alert_line : Bytes → Bytes → Bytes → Bytes → Bytes
alert_line alert_type source_ip destination_ip metric_name =
    alert_type ++ comma ∷ (source_ip ++ comma ∷ (destination_ip ++ comma ∷ metric_name))

-- A line of four fields is parsed into exactly those fields and the current time, for fields that
-- are not empty and hold no comma.
pub parse_hijack_alert-alert_line :
    (now : Tm) (alert_type source_ip destination_ip metric_name : Bytes)
    → Token comma alert_type
    → Token comma source_ip
    → Token comma destination_ip
    → Token comma metric_name
    → parse_hijack_alert now (alert_line alert_type source_ip destination_ip metric_name)
      ≡ some (new_hijack_alert now alert_type source_ip destination_ip metric_name)
unfolding parse_hijack_alert
parse_hijack_alert-alert_line now alert_type source_ip destination_ip metric_name ht hs hd hm =
    rw
      (
        next_token_step comma alert_type _ ht,
        next_token_step comma source_ip _ hs,
        next_token_step comma destination_ip _ hd,
        next_token_last comma metric_name hm,
      )
      refl

-- A line with fewer than four fields, an empty one for example, crashes the receiver: its number of
-- fields is 0, or 1, 2 or 3 as here, each not empty and without comma.
pub parse_hijack_alert_short :
    (now : Tm) (alert_type source_ip destination_ip : Bytes)
    → Token comma alert_type
    → Token comma source_ip
    → Token comma destination_ip
    → (parse_hijack_alert now [] ≡ none)
      × (parse_hijack_alert now alert_type ≡ none)
      × (parse_hijack_alert now (alert_type ++ comma ∷ source_ip) ≡ none)
      × (parse_hijack_alert now (alert_type ++ comma ∷ (source_ip ++ comma ∷ destination_ip))
          ≡ none)
unfolding parse_hijack_alert
parse_hijack_alert_short now t s d ht hs hd = (
  rw (next_token-nil comma),
  rw (next_token_last comma t ht, next_token-nil comma),
  rw (next_token_step comma t _ ht, next_token_last comma s hs, next_token-nil comma),
  rw (
    next_token_step comma t _ ht,
    next_token_step comma s _ hs,
    next_token_last comma d hd,
    next_token-nil comma,
  ),
)
