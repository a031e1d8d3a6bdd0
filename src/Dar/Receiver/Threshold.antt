-- ===== src/Dar/Receiver/Threshold.antt =====
-- The receiver of a session whose handler of SIGUSR1 ends the process.
use premium.Base.{
  ℕ, ◌+◌, ◌<◌, pos, reaches, List, [], ◌∷◌, ◌++◌, ◌≡◌, refl, sym, ap, ◌∙◌, true, false, some, arith,
  append_assoc, append-nil, length,
}
use premium.Text.{Bytes, c_string}
use premium.Dar.Time.{Tm}
use premium.Dar.Alerts.{HijackAlert, parse_hijack_alert}
use premium.Dar.Paths.{PathStatus}
use premium.Dar.Paths.Refinement.{mark}
use premium.Dar.Receiver.{
  Dar, Read, failed, got, waiting, exited, handle_client_alert, handle_darshana_client_loop,
  alert_machete_of_compromised_path,
}
use premium.Dar.Receiver.Loop.{IsDar, handle_client_alert-IsDar, mark_all, Parse}

reaches_below : (n k : ℕ) → n < k → reaches n (pos k) ≡ false
reaches_below n k h = ground arith

reaches_at : (n k : ℕ) → n ≡ k → reaches n (pos k) ≡ true
reaches_at n k h = ground arith

-- One alert below the threshold, and the one that reaches it.
quiet_step :
    (now : Tm) (buffer : Bytes) (reads : List Read) (count : ℕ) (d d' : Dar)
    → handle_client_alert now (c_string buffer) d ≡ some d'
    → reaches (count + 1) d'.max_dar_alerts ≡ false
    → handle_darshana_client_loop false count (got now buffer ∷ reads) d
      ≡ handle_darshana_client_loop false (count + 1) reads d'
unfolding handle_darshana_client_loop
quiet_step now buffer reads count d d' ran below = rw (ran, below, handle_darshana_client_loop)

last_step :
    (now : Tm) (buffer : Bytes) (reads : List Read) (count : ℕ) (d d' : Dar)
    → handle_client_alert now (c_string buffer) d ≡ some d'
    → reaches (count + 1) d'.max_dar_alerts ≡ true
    → handle_darshana_client_loop false count (got now buffer ∷ reads) d
      ≡ (exited, alert_machete_of_compromised_path d')
unfolding handle_darshana_client_loop
last_step now buffer reads count d d' ran at = rw (ran, at, handle_darshana_client_loop)

-- Alerts that stay below the threshold k.
below_threshold :
    (reads : List Read) (received : List HijackAlert) (count k : ℕ) (later : List Read) (d : Dar)
    (alerts : List HijackAlert) (paths : List PathStatus)
    → IsDar d alerts paths
    → Parse reads received
    → d.max_dar_alerts ≡ pos k
    → count + length received < k
    → (d' : Dar) × (handle_darshana_client_loop false count (reads ++ later) d
        ≡ handle_darshana_client_loop false (count + length received) later d')
      × IsDar d' (alerts ++ received) (mark_all received paths)
      × (d'.max_dar_alerts ≡ pos k)
      × (d'.signals ≡ d.signals)
below_threshold [] [] count k later d alerts paths v p limit below = (
  d,
  ap (λ c. handle_darshana_client_loop false c later d) (omega arith),
  rw append-nil v,
  limit,
  refl,
)
below_threshold [] (alert ∷ received) count k later d alerts paths v p limit below = elim p [ ]
below_threshold (failed ∷ reads) received count k later d alerts paths v p limit below = elim p [ ]
below_threshold (got now buffer ∷ reads) [] count k later d alerts paths v p limit below =
    elim p [ ]
below_threshold (got now buffer ∷ reads) (alert ∷ received) count k later d alerts paths v
      (parsed, rest) limit below =
    let (d1, ran, kept, limit1, still) =
      handle_client_alert-IsDar now (c_string buffer) alert d alerts paths v parsed in
    let (d', looped, held, limit', still') =
      below_threshold reads received (count + 1) k later d1 (alerts ++ alert ∷ [])
        (mark alert paths) kept rest (limit1 ∙ limit) (omega arith) in
    (
      d',
      quiet_step now buffer (reads ++ later) count d d1 ran
            (ap (reaches (count + 1)) (limit1 ∙ limit) ∙ reaches_below (count + 1) k (omega arith))
          ∙ looped
          ∙ ap (λ c. handle_darshana_client_loop false c later d') (omega arith),
      rw (append_assoc alerts (alert ∷ []) received) at held,
      limit',
      still' ∙ still,
    )

-- From intact lists, when the handler of SIGUSR1 ends the process: alerts that parse, fewer than the
-- threshold of one or more, are kept and mark their paths, and the thread waits for more without a
-- signal. The alert that makes their number the threshold is kept and marks its path too, SIGUSR1 is
-- raised once and the process ends, whatever would be read after it.
pub handle_darshana_client_loop-threshold :
    (reads : List Read) (received : List HijackAlert) (now : Tm) (buffer : Bytes)
    (alert : HijackAlert) (later : List Read) (d : Dar) (alerts : List HijackAlert)
    (paths : List PathStatus)
    → IsDar d alerts paths
    → Parse reads received
    → parse_hijack_alert now (c_string buffer) ≡ some alert
    → d.max_dar_alerts ≡ pos (length received + 1)
    → ((d' : Dar) × (handle_darshana_client_loop false 0 reads d ≡ (waiting, d'))
        × IsDar d' (alerts ++ received) (mark_all received paths)
        × (d'.signals ≡ d.signals))
      × ((d' : Dar) × (handle_darshana_client_loop false 0 (reads ++ got now buffer ∷ later) d
            ≡ (exited, d'))
          × IsDar d' ((alerts ++ received) ++ alert ∷ []) (mark alert (mark_all received paths))
          × (d'.signals ≡ d.signals + 1))
unfolding alert_machete_of_compromised_path
handle_darshana_client_loop-threshold reads received now buffer alert later d alerts paths v p
      parsed limit =
    let k = length received + 1 in
    let (d1, ran1, held1, limit1, still1) =
      below_threshold reads received 0 k [] d alerts paths v p limit (omega arith) in
    let (d2, ran2, held2, limit2, still2) =
      below_threshold reads received 0 k (got now buffer ∷ later) d alerts paths v p limit
        (omega arith) in
    let (d3, handled, kept, limit3, still3) =
      handle_client_alert-IsDar now (c_string buffer) alert d2 _ _ held2 parsed in
    (
      (
        d1,
        ap (λ r. handle_darshana_client_loop false 0 r d) (sym (append-nil reads))
            ∙ ran1
            ∙ unfold handle_darshana_client_loop in refl,
        held1,
        still1,
      ),
      (
        alert_machete_of_compromised_path d3,
        ran2
            ∙ last_step now buffer later (0 + length received) d2 d3 handled (
                ap (reaches (0 + length received + 1)) (limit3 ∙ limit2)
                ∙ reaches_at (0 + length received + 1) k (omega arith)),
        record { alerts_held = kept.alerts_held; paths_held = kept.paths_held },
        ap (λ n. n + 1) (still3 ∙ still2),
      ),
    )
