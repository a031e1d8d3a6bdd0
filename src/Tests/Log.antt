-- ===== src/Tests/Log.antt =====
-- Two phases of a setup that takes a second and a half.
use premium.Base.{◌≤◌, ◌<◌, ◌+◌, ◌*◌, pos, [], ◌∷◌, ◌++◌, ◌≡◌, refl, true, some, arith, ◌>>=◌}
use premium.Text.{codes}
use premium.Log.{LogFile, duration_shown, end_clock}
use premium.Log.Phases.{
  TimedPhase, run_clocks, phase_lines, total_ms, logged_ms, micros, end_clock-phases,
}

abbrev log_file : LogFile
log_file = record { contents = codes "-> <--------- Setup TimedPhase -------- \n"; is_open = true }

abbrev nodes_phase : TimedPhase
nodes_phase = record {
  name = codes "Getting Overlay Nodes from Manager time";
  begins = record { tv_sec = 1464782400; tv_usec = 1700 };
  ends = record { tv_sec = 1464782400; tv_usec = 204300 };
}

abbrev probe_phase : TimedPhase
probe_phase = record {
  name = codes "Probing Overlay Nodes time";
  begins = record { tv_sec = 1464782400; tv_usec = 204900 };
  ends = record { tv_sec = 1464782401; tv_usec = 499999 };
}

abbrev setup_phase : TimedPhase
setup_phase = record {
  name = codes "Setup time";
  begins = record { tv_sec = 1464782400; tv_usec = 1650 };
  ends = record { tv_sec = 1464782401; tv_usec = 502000 };
}

end_clock-phases_example :
    ((do
      l' ← run_clocks (nodes_phase ∷ probe_phase ∷ []) log_file
      end_clock setup_phase.ends setup_phase.begins setup_phase.name l')
      ≡ some (
        duration_shown setup_phase.name (pos (logged_ms setup_phase.begins setup_phase.ends)),
        record log_file {
          contents =
              log_file.contents ++ phase_lines (nodes_phase ∷ probe_phase ∷ setup_phase ∷ []);
        },
      ))
    × (total_ms (nodes_phase ∷ probe_phase ∷ []) ≤ logged_ms setup_phase.begins setup_phase.ends)
    × (micros setup_phase.ends
        < micros setup_phase.begins + 1000 * logged_ms setup_phase.begins setup_phase.ends + 1000)
    × (micros setup_phase.begins + 1000 * logged_ms setup_phase.begins setup_phase.ends
        < micros setup_phase.ends + 1000)
end_clock-phases_example =
    end_clock-phases (nodes_phase ∷ probe_phase ∷ []) setup_phase log_file refl
      (omega arith, omega arith) (omega arith, omega arith)
      (
        omega arith,
        omega arith,
        (omega arith, omega arith),
        (omega arith, omega arith),
        (
          omega arith,
          omega arith,
          (omega arith, omega arith),
          (omega arith, omega arith),
          omega arith,
        ),
      )
