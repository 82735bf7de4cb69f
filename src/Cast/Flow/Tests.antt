-- ===== src/Cast/Flow/Tests.antt =====
-- Runs of flow.rs, and its theorems at concrete windows.
use big_net_screen.Base.{◌≤◌, ◌≡◌, ◌≢◌, ◌⊎◌, refl, true, false, none, some, arith}
use big_net_screen.Base.Int.{ℤ, pos, ◌≤ℤ◌, ◌+ℤ◌}
use big_net_screen.Cast.Flow.{
  AckWindow, max_unacked_frames, new, pending, can_send, sent, is_stale, newer, acknowledge,
}
use big_net_screen.Cast.Flow.Window.{IsValid, Reach, here, next, send, feedback, Reach-bounded}
use big_net_screen.Cast.Flow.Expand.{low_byte, InWindow, acknowledge_exact, acknowledge_cases}

-- 250 is acknowledged, and the ids up to 300 are on their way.
abbrev wrapped : AckWindow
wrapped = record {
  last_sent = pos 300;
  checkpoint = pos 250;
  newest_reference_time = some 7;
  last_progress = 1;
}

-- The wire byte 4 is frame 260, behind the low byte of the last frame.
wrapped_run :
    acknowledge 9 4 none wrapped
    ≡ (true, record wrapped { checkpoint = pos 260; last_progress = 9 })
unfolding acknowledge
wrapped_run = refl

future_refused : acknowledge 9 45 none wrapped ≡ (false, wrapped)
unfolding acknowledge
future_refused = refl

first_frame :
    acknowledge 9 0 none (sent 5 0 (new 3))
    ≡ (true, record (new 9) { last_sent = pos 0; checkpoint = pos 0 })
unfolding acknowledge sent new
first_frame = refl

acknowledge_260 :
    ((acknowledge 9 4 (some 8) wrapped).0 ≡ true)
    × ((acknowledge 9 4 (some 8) wrapped).1.checkpoint ≡ pos 260)
    × ((acknowledge 9 4 (some 8) wrapped).1.last_sent ≡ pos 300)
    × ((acknowledge 9 4 (some 8) wrapped).1.newest_reference_time ≡ newer (some 8) (some 7))
unfolding is_stale
acknowledge_260 = acknowledge_exact 9 (some 8) wrapped (pos 260) (omega arith) (omega arith) refl

acknowledge_cases_example :
    let (accepted, w') = acknowledge 9 45 none wrapped in
    ((accepted ≡ true)
      × (is_stale none (some 7) ≡ false)
      × InWindow wrapped w'.checkpoint
      × (low_byte w'.checkpoint ≡ 45))
    ⊎ ((accepted ≡ false)
        × (w' ≡ wrapped)
        × (is_stale none (some 7) ≡ false → (f : ℤ) → InWindow wrapped f → low_byte f ≢ 45))
acknowledge_cases_example = acknowledge_cases 9 45 none wrapped (omega arith) (omega arith)

abbrev one_more : AckWindow
one_more = sent 5 301 wrapped

Reach-one_more : Reach wrapped (acknowledge 9 44 none one_more).1
unfolding can_send ◌+ℤ◌
Reach-one_more = next (next here (send 5 301 refl refl)) (feedback 9 44 none (omega arith))

Reach-bounded_example :
    let w = (acknowledge 9 44 none one_more).1 in
    IsValid w × (pending w ≤ max_unacked_frames) × (pos 250 ≤ℤ w.checkpoint)
Reach-bounded_example = Reach-bounded {s = wrapped} (omega arith) Reach-one_more
