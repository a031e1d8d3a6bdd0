-- ===== src/Standalone/Receiver/Loop.antt =====
-- main of Darshana/dar/alerts_receiver.c as a whole: what it keeps and prints, and what becomes of it
-- when malloc does not return zero bytes.
use premium.Base.{
  ℕ, ◌<◌, ◌^◌, List, [], ◌∷◌, ◌++◌, ◌≡◌, refl, ap, ◌∙◌, true, Option, none, some, append_assoc,
  append-nil, length, ◌>>=◌, All,
}
use premium.Text.{Bytes, c_string}
use premium.Text.Decimal.{decimal, atoi-decimal}
use premium.Manager.Register.{within_fits}
use premium.Dar.Time.{Tm}
use premium.Dar.Alerts.{HijackAlert, parse_hijack_alert, insert_end_h}
use premium.Dar.Chain.{null}
use premium.Dar.Chain.Shape.{Holds, Holds-nil}
use premium.Dar.Chain.Insert.{insert_end-Holds}
use premium.Dar.Receiver.{Read, failed, got}
use premium.Dar.Receiver.Loop.{Parse}
use premium.Standalone.Paths.{
  PathStatus, test_paths, init_test_path_values-Holds, mark, analyse_hijack_alert-mark,
}
use premium.Standalone.Show.{
  shown_all, show_all_paths-Holds, AnySpoilt, Clean, mark-Clean, all_shown, mark-unshown,
}
use premium.Standalone.Receiver.{
  Receiver, Machine, handle_client_alert, alert_announced, listening, fell, receive_loop, init,
  receiver_main,
}

pub record IsReceiver (d : Receiver) (alerts : List HijackAlert) (paths : List PathStatus)
    : Type 0 where
  pub alerts_held : Holds d.alerts d.alerts_history_head alerts
  pub paths_held : Holds d.paths d.monitored_paths_list_head paths

-- Marks for a list of alerts, in the order in which they came.
abbrev pub mark_all : List HijackAlert → List PathStatus → List PathStatus
mark_all [] paths = paths
mark_all (alert ∷ received) paths = mark_all received (mark alert paths)

module _ (time_string : Tm → Bytes) where
  handle_client_alert-shown :
      (now : Tm) (buffer : Bytes) (alert : HijackAlert) (d : Receiver) (alerts : List HijackAlert)
      (paths : List PathStatus)
      → IsReceiver d alerts paths
      → parse_hijack_alert now buffer ≡ some alert
      → (d' : Receiver) × (handle_client_alert time_string now buffer d
          ≡ (do listing ← shown_all time_string (mark alert paths); some (listing, d')))
        × IsReceiver d' (alerts ++ alert ∷ []) (mark alert paths)
  unfolding handle_client_alert insert_end_h
  handle_client_alert-shown now buffer alert d alerts paths v parsed =
      let (r, ran, held) =
        insert_end-Holds d.alerts alert d.alerts_history_head alerts v.alerts_held in
      let (m, analysed, marked) =
        analyse_hijack_alert-mark d.paths d.monitored_paths_list_head paths alert v.paths_held in
      (
        record d { alerts_history_head = r.0; alerts = r.1; paths = m },
        rw
            (
              parsed,
              ran,
              analysed,
              show_all_paths-Holds time_string m d.monitored_paths_list_head (mark alert paths)
                  marked,
            )
            refl,
        record { alerts_held = held; paths_held = marked },
      )

  -- What is printed for alerts that all parse: each alert, and behind it all paths as they then are.
  abbrev pub report : List Read → List HijackAlert → List PathStatus → Option Bytes
  report [] received paths = some []
  report (failed ∷ reads) received paths = none
  report (got now buffer ∷ reads) [] paths = none
  report (got now buffer ∷ reads) (alert ∷ received) paths = do
    listing ← shown_all time_string (mark alert paths)
    rest ← report reads received (mark alert paths)
    some ((alert_announced (c_string buffer) ++ listing) ++ rest)

  receive_loop_shown :
      (now : Tm) (buffer : Bytes) (reads : List Read) (printed listing : Bytes) (d d' : Receiver)
      → handle_client_alert time_string now (c_string buffer) d ≡ some (listing, d')
      → receive_loop time_string (got now buffer ∷ reads) printed d
        ≡ receive_loop time_string reads
            ((printed ++ alert_announced (c_string buffer)) ++ listing)
            d'
  unfolding receive_loop
  receive_loop_shown now buffer reads printed listing d d' h = rw (h, receive_loop) refl

  receive_loop_fell :
      (now : Tm) (buffer : Bytes) (reads : List Read) (printed : Bytes) (d : Receiver)
      → handle_client_alert time_string now (c_string buffer) d ≡ none
      → receive_loop time_string (got now buffer ∷ reads) printed d
        ≡ (fell, printed ++ alert_announced (c_string buffer), d)
  unfolding receive_loop
  receive_loop_fell now buffer reads printed d h = rw (h, receive_loop) refl

  receive_loop-report :
      (reads : List Read) (received : List HijackAlert) (printed : Bytes) (d : Receiver)
      (alerts : List HijackAlert) (paths : List PathStatus)
      → IsReceiver d alerts paths
      → Parse reads received
      → All Clean paths
      → (d' : Receiver) × (text : Bytes) × (report reads received paths ≡ some text)
        × (receive_loop time_string reads printed d ≡ (listening, printed ++ text, d'))
        × IsReceiver d' (alerts ++ received) (mark_all received paths)
  receive_loop-report [] [] printed d alerts paths v p c =
      (d, [], refl, unfold receive_loop in rw append-nil refl, rw append-nil v)
  receive_loop-report [] (alert ∷ received) printed d alerts paths v p c = elim p [ ]
  receive_loop-report (failed ∷ reads) received printed d alerts paths v p c = elim p [ ]
  receive_loop-report (got now buffer ∷ reads) [] printed d alerts paths v p c = elim p [ ]
  receive_loop-report (got now buffer ∷ reads) (alert ∷ received) printed d alerts paths v
        (parsed, rest) c =
      let line = alert_announced (c_string buffer) in
      let marked = mark alert paths in
      let clean = mark-Clean alert paths c in
      let (d1, ran, kept) =
        handle_client_alert-shown now (c_string buffer) alert d alerts paths v parsed in
      let (listing, shown) = all_shown time_string marked clean in
      let (d', text, told, looped, held) =
        receive_loop-report reads received ((printed ++ line) ++ listing) d1 (alerts ++ alert ∷ [])
          marked kept rest clean in
      (
        d',
        (line ++ listing) ++ text,
        rw (shown, told) refl,
        receive_loop_shown now buffer reads printed listing d d1 (ran ∙ rw shown refl)
            ∙ (looped
                ∙ ap (λ out. (listening, out, d'))
                    (ap (λ out. out ++ text) (append_assoc printed line listing)
                      ∙ append_assoc printed (line ++ listing) text)),
        rw (append_assoc alerts (alert ∷ []) received) at held,
      )

  -- The program with two arguments that opens and binds its socket comes to its loop, with no alert
  -- and the three test paths.
  receiver_main-loop :
      (machine : Machine) (ip : Bytes) (port : ℕ) (more : List Bytes) (d : Receiver)
      → IsReceiver d [] []
      → length ip < 20
      → port < 10 ^ 10
      → machine.opens ≡ true
      → machine.binds ip port ≡ true
      → (d' : Receiver) × (receiver_main time_string machine (ip ∷ decimal port ∷ more) d
          ≡ some (receive_loop time_string machine.reads [] d'))
        × IsReceiver d' [] (test_paths machine.left)
  unfolding receiver_main init
  receiver_main-loop machine ip port more d v fits small opens binds =
      let (r, ran, held) =
        init_test_path_values-Holds machine.left d.paths null (Holds-nil v.paths_held) in
      (
        record d { alerts_history_head = null; monitored_paths_list_head = r.0; paths = r.1 },
        rw (ran, within_fits 20 ip fits, opens, atoi-decimal port small, binds) refl,
        record { alerts_held = Holds-nil v.alerts_held; paths_held = held },
      )

  -- With two arguments, an address that fits its array and a port, a socket that opens and binds, and
  -- zero bytes from malloc for the time pointers of the three test paths: from alerts that all parse
  -- the program keeps all in order, marks the test paths that they name, prints each alert and behind
  -- it all paths as they then are, and waits for more.
  pub receiver_main-report :
      (machine : Machine) (ip : Bytes) (port : ℕ) (more : List Bytes) (d : Receiver)
      (received : List HijackAlert)
      → IsReceiver d [] []
      → length ip < 20
      → port < 10 ^ 10
      → machine.opens ≡ true
      → machine.binds ip port ≡ true
      → All Clean (test_paths machine.left)
      → Parse machine.reads received
      → (d' : Receiver) × (text : Bytes) × (report machine.reads received (test_paths machine.left)
          ≡ some text)
        × (receiver_main time_string machine (ip ∷ decimal port ∷ more) d
            ≡ some (listening, text, d'))
        × IsReceiver d' received (mark_all received (test_paths machine.left))
  receiver_main-report machine ip port more d received v fits small opens binds clean parsed =
      let (d1, ran, kept) = receiver_main-loop machine ip port more d v fits small opens binds in
      let (d', text, told, looped, held) =
        receive_loop-report machine.reads received [] d1 [] (test_paths machine.left) kept parsed
          clean in
      (d', text, told, ran ∙ ap some looped, held)

  -- In the same program, if malloc left other bytes in a time pointer of one of the test paths, so that
  -- it points anywhere, the first alert crashes the program, whatever path it names and whatever
  -- follows: the alert is printed, and showing the paths then reads through that pointer.
  pub receiver_main-AnySpoilt :
      (machine : Machine) (ip : Bytes) (port : ℕ) (more : List Bytes) (d : Receiver) (now : Tm)
      (buffer : Bytes) (alert : HijackAlert) (reads : List Read)
      → IsReceiver d [] []
      → length ip < 20
      → port < 10 ^ 10
      → machine.opens ≡ true
      → machine.binds ip port ≡ true
      → AnySpoilt (test_paths machine.left)
      → machine.reads ≡ got now buffer ∷ reads
      → parse_hijack_alert now (c_string buffer) ≡ some alert
      → (d' : Receiver) × (receiver_main time_string machine (ip ∷ decimal port ∷ more) d
          ≡ some (fell, alert_announced (c_string buffer), d'))
  receiver_main-AnySpoilt machine ip port more d now buffer alert reads v fits small opens binds
        spoilt at parsed =
      let (d1, ran, kept) = receiver_main-loop machine ip port more d v fits small opens binds in
      let (d', handled, held) =
        handle_client_alert-shown now (c_string buffer) alert d1 [] (test_paths machine.left) kept
          parsed in
      (
        d1,
        ran
            ∙ ap (λ rs. some (receive_loop time_string rs [] d1)) at
            ∙ ap some (
                receive_loop_fell now buffer reads [] d1 (
                  handled
                  ∙ rw (mark-unshown time_string alert (test_paths machine.left) spoilt) refl)),
      )
