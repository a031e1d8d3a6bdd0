-- ===== src/Dar/Receiver/Loop.antt =====
-- What the receiver's state holds, one alert, and the whole loop.
use premium.Base.{
  ◌∙◌, ℕ, ◌+◌, ℤ, reaches, List, [], ◌∷◌, ◌++◌, ◌≡◌, refl, true, some, arith, append_assoc,
  append-nil, if◌then◌else◌, Bool-cases, inl, inr,
}
use premium.Text.{Bytes, c_string}
use premium.Dar.Time.{Tm}
use premium.Dar.Alerts.{HijackAlert, parse_hijack_alert, insert_end_h}
use premium.Dar.Chain.Shape.{Holds}
use premium.Dar.Chain.Insert.{insert_end-Holds}
use premium.Dar.Paths.{PathStatus, new_path_status}
use premium.Dar.Paths.Refinement.{mark, analyse_hijack_alert-Holds, save_unstructured_path-Holds}
use premium.Dar.Receiver.{
  Dar, Read, failed, got, waiting, handle_client_alert, handle_darshana_client_loop,
  alert_machete_of_compromised_path, add_monitored_path,
}

-- The receiver as its clients see it: the alerts received, oldest first, and the monitored paths.
pub record IsDar (d : Dar) (alerts : List HijackAlert) (paths : List PathStatus) : Type 0 where
  pub alerts_held : Holds d.alerts d.alerts_history_head alerts
  pub paths_held : Holds d.paths d.monitored_paths_list_head paths

-- Monitoring a path appends it to the monitored paths and touches nothing else.
pub add_monitored_path-IsDar :
    (d : Dar) (alerts : List HijackAlert) (paths : List PathStatus)
    (source_ip relay_ip destination_ip : Bytes)
    → IsDar d alerts paths
    → (d' : Dar) × (add_monitored_path source_ip relay_ip destination_ip d ≡ some d')
      × IsDar d' alerts (paths ++ new_path_status source_ip relay_ip destination_ip ∷ [])
unfolding add_monitored_path
add_monitored_path-IsDar d alerts paths source_ip relay_ip destination_ip v =
    let (r, ran, held) =
      save_unstructured_path-Holds d.paths d.monitored_paths_list_head paths source_ip relay_ip
        destination_ip v.paths_held in
    (
      record d { monitored_paths_list_head = r.0; paths = r.1 },
      rw ran,
      record { alerts_held = v.alerts_held; paths_held = held },
    )

-- From intact lists, an alert that parses is appended to the history and marks the path that it
-- names, and the threshold and the count of signals stay as they are.
pub handle_client_alert-IsDar :
    (now : Tm) (buffer : Bytes) (alert : HijackAlert) (d : Dar) (alerts : List HijackAlert)
    (paths : List PathStatus)
    → IsDar d alerts paths
    → parse_hijack_alert now buffer ≡ some alert
    → (d' : Dar) × (handle_client_alert now buffer d ≡ some d')
      × IsDar d' (alerts ++ alert ∷ []) (mark alert paths)
      × (d'.max_dar_alerts ≡ d.max_dar_alerts)
      × (d'.signals ≡ d.signals)
unfolding handle_client_alert insert_end_h
handle_client_alert-IsDar now buffer alert d alerts paths v parsed =
    let (r, ran, held) =
      insert_end-Holds d.alerts alert d.alerts_history_head alerts v.alerts_held in
    let (m, analysed, marked) =
      analyse_hijack_alert-Holds d.paths d.monitored_paths_list_head paths alert v.paths_held in
    (
      record d { alerts_history_head = r.0; alerts = r.1; paths = m },
      rw (parsed, ran, analysed),
      record { alerts_held = held; paths_held = marked },
      refl,
      refl,
    )

-- Marks for a list of alerts, in the order in which they came.
abbrev pub mark_all : List HijackAlert → List PathStatus → List PathStatus
mark_all [] paths = paths
mark_all (alert ∷ alerts) paths = mark_all alerts (mark alert paths)

-- Reads that each return a line which parses into an alert.
abbrev pub Parse : List Read → List HijackAlert → Type 0
Parse [] [] = Unit
Parse [] (alert ∷ alerts) = ⊥
Parse (failed ∷ reads) alerts = ⊥
Parse (got now buffer ∷ reads) [] = ⊥
Parse (got now buffer ∷ reads) (alert ∷ alerts) =
    (parse_hijack_alert now (c_string buffer) ≡ some alert) × Parse reads alerts

-- How many of the alerts with the numbers from `count + 1` on reach the threshold `k`.
abbrev pub signals_due : ℕ → ℤ → List HijackAlert → ℕ
signals_due count k [] = 0
signals_due count k (alert ∷ alerts) =
    (if reaches (count + 1) k then 1 else 0) + signals_due (count + 1) k alerts

signals_step :
    (alert : HijackAlert) (received : List HijackAlert) (count : ℕ) (d d' e : Dar) (n : ℕ)
    → d'.max_dar_alerts ≡ d.max_dar_alerts
    → d'.signals ≡ d.signals
    → (if reaches (count + 1) d'.max_dar_alerts then 1 else 0) ≡ n
    → e.signals ≡ d'.signals + n + signals_due (count + 1) d'.max_dar_alerts received
    → e.signals ≡ d.signals + signals_due count d.max_dar_alerts (alert ∷ received)
signals_step alert received count d d' e n limit still due raised =
    rw (← limit, ← still, due, raised) (omega arith)

loop_step :
    (now : Tm) (buffer : Bytes) (reads : List Read) (count : ℕ) (d d' : Dar)
    → handle_client_alert now (c_string buffer) d ≡ some d'
    → handle_darshana_client_loop true count (got now buffer ∷ reads) d ≡ (
        if reaches (count + 1) d'.max_dar_alerts
        then handle_darshana_client_loop true
            (count + 1)
            reads
            (alert_machete_of_compromised_path d')
        else handle_darshana_client_loop true (count + 1) reads d')
unfolding handle_darshana_client_loop
loop_step now buffer reads count d d' ran = rw (ran, handle_darshana_client_loop)

-- From intact lists, alerts that all parse are appended to the history in order, each marks its
-- path, and SIGUSR1 is raised for each one whose number, counted from `count` on, reaches the
-- threshold. The thread then waits for more: it neither crashes nor ends, if the signal's handler
-- returns.
pub loop-IsDar :
    (reads : List Read) (received : List HijackAlert) (count : ℕ) (d : Dar)
    (alerts : List HijackAlert) (paths : List PathStatus)
    → IsDar d alerts paths
    → Parse reads received
    → (d' : Dar) × (handle_darshana_client_loop true count reads d ≡ (waiting, d'))
      × IsDar d' (alerts ++ received) (mark_all received paths)
      × (d'.signals ≡ d.signals + signals_due count d.max_dar_alerts received)
unfolding alert_machete_of_compromised_path
loop-IsDar [] [] count d alerts paths v p =
    (d, unfold handle_darshana_client_loop in refl, rw append-nil v, omega arith)
loop-IsDar [] (alert ∷ received) count d alerts paths v p = elim p [ ]
loop-IsDar (failed ∷ reads) received count d alerts paths v p = elim p [ ]
loop-IsDar (got now buffer ∷ reads) [] count d alerts paths v p = elim p [ ]
loop-IsDar (got now buffer ∷ reads) (alert ∷ received) count d alerts paths v (parsed, rest) =
    let (d', ran, kept, limit, still) =
      handle_client_alert-IsDar now (c_string buffer) alert d alerts paths v parsed in
    elim (Bool-cases (reaches (count + 1) d'.max_dar_alerts)) [
      | inl due ↦
          let (e, looped, held, raised) =
            loop-IsDar reads received (count + 1) (alert_machete_of_compromised_path d')
              (alerts ++ alert ∷ []) (mark alert paths)
              (record { alerts_held = kept.alerts_held; paths_held = kept.paths_held }) rest in
          (
            e,
            loop_step now buffer reads count d d' ran ∙ rw due looped,
            rw (append_assoc alerts (alert ∷ []) received) at held,
            signals_step alert received count d d' e 1 limit still (rw due) raised,
          )
      | inr not_due ↦
          let (e, looped, held, raised) =
            loop-IsDar reads received (count + 1) d' (alerts ++ alert ∷ []) (mark alert paths) kept
              rest in
          (
            e,
            loop_step now buffer reads count d d' ran ∙ rw not_due looped,
            rw (append_assoc alerts (alert ∷ []) received) at held,
            signals_step alert received count d d' e 0 limit still (rw not_due)
                (raised ∙ omega arith),
          )
    ]
