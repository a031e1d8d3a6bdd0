-- ===== src/Log/Phases.antt =====
-- The times that the log gives for phases that lie in one another.
use premium.Base.{
  ℕ, ◌+◌, ◌-◌, ◌*◌, ◌/◌, ◌≤◌, ◌<◌, pos, List, [], ◌∷◌, ◌++◌, ◌≡◌, refl, true, Option, some, arith,
  append-nil, append_assoc, ap, sym, ◌∙◌, ◌>>=◌,
}
use premium.Text.{Bytes}
use premium.Log.{
  LogFile, fprintf, Timeval, milliseconds, difference, duration_line, duration_shown, end_clock,
}

-- The time of day in microseconds.
abbrev pub micros : Timeval → ℕ
micros t = t.tv_sec * 1000000 + t.tv_usec

-- What gettimeofday returns before the year 285 million.
abbrev pub IsTime : Timeval → Type 0
IsTime t = (t.tv_usec < 1000000) × (t.tv_sec < 9000000000000000)

-- The milliseconds that are logged.
abbrev pub logged_ms : Timeval → Timeval → ℕ
logged_ms begin end =
    (end.tv_sec * 1000 + end.tv_usec / 1000) - (begin.tv_sec * 1000 + begin.tv_usec / 1000)

milliseconds_fit :
    (t : Timeval) → IsTime t → milliseconds t ≡ some (t.tv_sec * 1000 + t.tv_usec / 1000)
unfolding milliseconds
milliseconds_fit t (u, s) = ground arith

difference_lem : (e b : ℕ) → b ≤ e → difference e b ≡ pos (e - b)
unfolding difference
difference_lem e b le = ground arith

end_clock_logs :
    (begin end : Timeval) (log_text : Bytes) (l : LogFile)
    → l.is_open ≡ true
    → IsTime begin
    → IsTime end
    → micros begin ≤ micros end
    → end_clock end begin log_text l
      ≡ some (
        duration_shown log_text (pos (logged_ms begin end)),
        record l { contents = l.contents ++ duration_line log_text (pos (logged_ms begin end)) },
      )
unfolding end_clock fprintf
end_clock_logs begin end log_text l opened (ub, sb) (ue, se) le =
    rw
      (
        milliseconds_fit end (ue, se),
        milliseconds_fit begin (ub, sb),
        difference_lem (end.tv_sec * 1000 + end.tv_usec / 1000)
            (begin.tv_sec * 1000 + begin.tv_usec / 1000) (omega arith),
        opened,
      )
      refl

logged_ms_bounds :
    (begin end : Timeval)
    → IsTime begin
    → IsTime end
    → micros begin ≤ micros end
    → (micros end < micros begin + 1000 * logged_ms begin end + 1000)
      × (micros begin + 1000 * logged_ms begin end < micros end + 1000)
logged_ms_bounds begin end (ub, sb) (ue, se) le = (omega arith, omega arith)

-- A phase: its name and the times when it begins and ends.
pub record TimedPhase : Type 0 where
  pub name : Bytes
  pub begins : Timeval
  pub ends : Timeval

-- Each phase begins and ends in turn, none before `from` or after `to`.
abbrev pub InTurn : Timeval → Timeval → List TimedPhase → Type 0
InTurn from to [] = micros from ≤ micros to
InTurn from to (p ∷ ps) =
    (micros from ≤ micros p.begins)
    × (micros p.begins ≤ micros p.ends)
    × IsTime p.begins
    × IsTime p.ends
    × InTurn p.ends to ps

abbrev pub run_clocks : List TimedPhase → LogFile → Option LogFile
run_clocks [] l = some l
run_clocks (p ∷ ps) l = do (shown, l') ← end_clock p.ends p.begins p.name l; run_clocks ps l'

abbrev pub phase_lines : List TimedPhase → Bytes
phase_lines [] = []
phase_lines (p ∷ ps) = duration_line p.name (pos (logged_ms p.begins p.ends)) ++ phase_lines ps

phase_lines-append :
    (ps : List TimedPhase) (p : TimedPhase)
    → phase_lines (ps ++ p ∷ [])
      ≡ phase_lines ps ++ duration_line p.name (pos (logged_ms p.begins p.ends))
phase_lines-append [] p = append-nil (duration_line p.name (pos (logged_ms p.begins p.ends)))
phase_lines-append (q ∷ ps) p =
    ap (λ text. duration_line q.name (pos (logged_ms q.begins q.ends)) ++ text)
      (phase_lines-append ps p)
    ∙ sym (append_assoc (duration_line q.name (pos (logged_ms q.begins q.ends))) (phase_lines ps) _)

abbrev pub total_ms : List TimedPhase → ℕ
total_ms [] = 0
total_ms (p ∷ ps) = logged_ms p.begins p.ends + total_ms ps

run_clocks-lines :
    (from to : Timeval) (ps : List TimedPhase) (l : LogFile)
    → l.is_open ≡ true
    → InTurn from to ps
    → run_clocks ps l ≡ some (record l { contents = l.contents ++ phase_lines ps })
run_clocks-lines from to [] l opened h = rw append-nil refl
run_clocks-lines from to (p ∷ ps) l opened (after, le, b, e, rest) =
    let line = duration_line p.name (pos (logged_ms p.begins p.ends)) in
    let l' : LogFile = record l { contents = l.contents ++ line } in
    rw (end_clock_logs p.begins p.ends p.name l opened b e le) (
      run_clocks-lines p.ends to ps l' opened rest
      ∙ ap (λ text. some (record l { contents = text }))
          (append_assoc l.contents line (phase_lines ps)))

InTurn-le : (from to : Timeval) (ps : List TimedPhase) → InTurn from to ps → micros from ≤ micros to
InTurn-le from to [] h = h
InTurn-le from to (p ∷ ps) (after, le, b, e, rest) = omega (arith, InTurn-le p.ends to ps rest)

total_ms_le :
    (from to : Timeval) (ps : List TimedPhase)
    → from.tv_usec < 1000000
    → to.tv_usec < 1000000
    → InTurn from to ps
    → total_ms ps ≤ logged_ms from to
total_ms_le from to [] f t h = omega arith
total_ms_le from to (p ∷ ps) f t (after, le, (ub, sb), (ue, se), rest) =
    omega (arith, total_ms_le p.ends to ps ue t rest, InTurn-le p.ends to ps rest)

-- Phases that begin and end in turn within a phase that ends behind them, on an open log: each is
-- logged with its number of milliseconds and the whole behind them, in order and behind what the log
-- held; the number of the whole is less than one millisecond away from its time, and the numbers of
-- its parts do not add up to more.
pub end_clock-phases :
    (ps : List TimedPhase) (whole : TimedPhase) (l : LogFile)
    → l.is_open ≡ true
    → IsTime whole.begins
    → IsTime whole.ends
    → InTurn whole.begins whole.ends ps
    → (do l' ← run_clocks ps l; end_clock whole.ends whole.begins whole.name l')
        ≡ some (
          duration_shown whole.name (pos (logged_ms whole.begins whole.ends)),
          record l { contents = l.contents ++ phase_lines (ps ++ whole ∷ []) },
        )
      × (total_ms ps ≤ logged_ms whole.begins whole.ends)
      × (micros whole.ends < micros whole.begins + 1000 * logged_ms whole.begins whole.ends + 1000)
      × (micros whole.begins + 1000 * logged_ms whole.begins whole.ends < micros whole.ends + 1000)
end_clock-phases ps whole l opened (ub, sb) (ue, se) h =
    let lines = phase_lines ps in
    let l' : LogFile = record l { contents = l.contents ++ lines } in
    let le = InTurn-le whole.begins whole.ends ps h in
    let (above, below) = logged_ms_bounds whole.begins whole.ends (ub, sb) (ue, se) le in
    (
      rw
          (
            run_clocks-lines whole.begins whole.ends ps l opened h,
            end_clock_logs whole.begins whole.ends whole.name l' opened (ub, sb) (ue, se) le,
            append_assoc l.contents lines
                (duration_line whole.name (pos (logged_ms whole.begins whole.ends))),
            phase_lines-append ps whole,
          )
          refl,
      total_ms_le whole.begins whole.ends ps ub ue h,
      above,
      below,
    )
