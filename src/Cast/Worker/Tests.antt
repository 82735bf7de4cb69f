-- ===== src/Cast/Worker/Tests.antt =====
-- Runs of worker.rs, and its theorems there.
use big_net_screen.Base.{◌-◌, ◌≤◌, All, ◌≡◌, refl, true, false, none, some, List, [], ◌∷◌, arith}
use big_net_screen.Cast.Worker.{ok, err, new, failed, over, reports, KeyFrames, request_key_frame}
use big_net_screen.Cast.Worker.Verdict.{reports-verdict}
use big_net_screen.Cast.Sender.Track.{receiver_silence_timeout}
use big_net_screen.Cast.Worker.Upkeep.{Alive, receiver_went_quiet}
use big_net_screen.Cast.Worker.Upkeep.Silence.{Reading, watched, quiet_unchanged}
use big_net_screen.Cast.Worker.Spacing.{Turn, forced}

-- The audio track ends, then the video track fails.
audio_over : (reports (over ∷ []) (new 2)).finished ≡ none
unfolding reports new
audio_over = refl

reports-verdict_example : (reports (over ∷ failed 7 ∷ []) (new 2)).finished ≡ some (err 7)
reports-verdict_example =
    reports-verdict 2 (over ∷ failed 7 ∷ []) (omega arith) (omega arith) (omega arith)

both_over : (reports (over ∷ over ∷ []) (new 2)).finished ≡ some ok
unfolding reports new
both_over = refl

-- A resync forces a key frame at once and leaves the receiver's wish for later.
resync_run :
    request_key_frame 100 true (record { last_key_frame = some 50; key_frame_wanted = true })
    ≡ (true, record { last_key_frame = some 100; key_frame_wanted = true })
unfolding request_key_frame
resync_run = refl

abbrev turns : List Turn
turns =
    record { now = 1_000_000_000; asks = true }
    ∷ record { now = 1_200_000_000; asks = true }
    ∷ record { now = 1_500_000_000; asks = false }
    ∷ []

abbrev quiet : KeyFrames
quiet = record { last_key_frame = none; key_frame_wanted = false }

forced_run : forced turns quiet ≡ 2
unfolding request_key_frame
forced_run = refl

abbrev readings : List Reading
readings = record { now = 5_000_000_000; seen = 7 } ∷ record { now = 1_000_000_000; seen = 7 } ∷ []

abbrev last_sign : Alive
last_sign = record { seen = 6; since = 0 }

gone : (receiver_went_quiet 9_500_000_000 7 (watched readings last_sign)).0 ≡ true
unfolding receiver_went_quiet
gone = refl

quiet_unchanged_example :
    All (λ r. 9_500_000_000 - r.now ≤ receiver_silence_timeout → r.seen ≡ 7) readings
quiet_unchanged_example =
    quiet_unchanged readings last_sign 9_500_000_000 7 ((omega arith, tt), (tt, tt)) gone
