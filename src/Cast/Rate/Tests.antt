-- ===== src/Cast/Rate/Tests.antt =====
-- Runs of rate.rs, and its theorems at concrete sessions.
use big_net_screen.Base.{
  ◌-◌, ◌^◌, ◌≤◌, ◌≡◌, ◌≢◌, refl, true, false, none, some, List, [], ◌∷◌, replicate, All, arith,
}
use big_net_screen.Cast.Rate.{Window, RateControl, congested, observe, run}
use big_net_screen.Cast.Rate.Bounds.{IsValid, observe_direction, run_bounded}
use big_net_screen.Cast.Rate.Recovery.{congestion_floor}
use big_net_screen.Cast.Rate.Counters.{Totals, counters, taken, taken_exact}

abbrev quiet : Window
quiet = record { packets_sent = 1000; packets_resent = 20; frames_dropped = 0 }

abbrev lossy : Window
lossy = record { packets_sent = 1000; packets_resent = 21; frames_dropped = 0 }

abbrev behind : Window
behind = record { packets_sent = 0; packets_resent = 0; frames_dropped = 1 }

quiet_run : congested quiet ≡ false
unfolding congested
quiet_run = refl

lossy_run : congested lossy ≡ true
unfolding congested
lossy_run = refl

behind_run : congested behind ≡ true
unfolding congested
behind_run = refl

abbrev started : RateControl
started = record { ceiling_kbps = 400; current_kbps = 400; healthy_windows = 0 }

lowered_run : observe lossy started ≡ (some 320, record started { current_kbps = 320 })
unfolding observe
lowered_run = refl

abbrev lowered : RateControl
lowered = record { ceiling_kbps = 400; current_kbps = 320; healthy_windows = 1 }

lossy_moves :
    let (told, r') = observe lossy started in
    (congested lossy ≡ true → r'.current_kbps ≤ 400)
    × (congested lossy ≡ false → 400 ≤ r'.current_kbps)
    × (r'.current_kbps ≡ 400 → told ≡ none)
    × (r'.current_kbps ≢ 400 → told ≡ some r'.current_kbps)
lossy_moves = observe_direction lossy started (omega arith)

run_bounded_example :
    IsValid (run (lossy ∷ quiet ∷ []) started)
    × ((run (lossy ∷ quiet ∷ []) started).ceiling_kbps ≡ started.ceiling_kbps)
run_bounded_example = run_bounded (lossy ∷ quiet ∷ []) started (omega arith)

congestion_floor_example : (run (lossy ∷ behind ∷ []) started).current_kbps ≡ 300
congestion_floor_example =
    congestion_floor (lossy ∷ behind ∷ []) started (omega arith) (lossy_run, (behind_run, tt))
      (omega arith)

abbrev quiet_spell : List Window
quiet_spell = replicate 12 quiet

quiet_spell_run : All (λ w. congested w ≡ false) quiet_spell
quiet_spell_run = (
  quiet_run,
  (
    quiet_run,
    (
      quiet_run,
      (
        quiet_run,
        (
          quiet_run,
          (
            quiet_run,
            (quiet_run, (quiet_run, (quiet_run, (quiet_run, (quiet_run, (quiet_run, tt)))))),
          ),
        ),
      ),
    ),
  ),
)

abbrev long_session : Totals
long_session = record { packets_sent = 2 ^ 32 - 500; packets_resent = 77; frames_dropped = 3 }

taken_exact_example :
    taken (quiet ∷ lossy ∷ []) long_session (counters long_session) ≡ quiet ∷ lossy ∷ []
taken_exact_example = taken_exact (quiet ∷ lossy ∷ []) long_session (omega arith, (omega arith, tt))
