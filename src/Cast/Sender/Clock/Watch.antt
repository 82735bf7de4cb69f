-- ===== src/Cast/Sender/Clock/Watch.antt =====
-- The figures that the flow watch of sender.rs reports.
use big_net_screen.Base.{
  ℕ, suc, ◌+◌, ◌-◌, ◌*◌, ◌/◌, ◌%◌, ◌^◌, ◌<◌, ◌≡◌, refl, ap, ◌∙◌, max, Bool, true, false, Option,
  none, some, List, [], ◌∷◌, length, ltb, arith, if◌then◌else◌,
}
use big_net_screen.Cast.Sender.Clock.{
  FlowWatch, jump, count_jump, widest_gap, record_frame, take_figures,
}

-- Frames as they are sent: the timestamp and the clock.
pub record Shot : Type 0 where
  pub pts_ns : ℕ
  pub now : ℕ

abbrev pub record_all : ℕ → List Shot → FlowWatch → FlowWatch
record_all expected [] w = w
record_all expected (s ∷ ss) w = record_all expected ss (record_frame s.now s.pts_ns expected w)

-- The gaps between timestamps that are over twice the expected interval.
abbrev pub wide : ℕ → ℕ → List Shot → List ℕ
wide expected prev [] = []
wide expected prev (s ∷ ss) =
    let more = wide expected s.pts_ns ss in
    if ltb (2 * expected) (s.pts_ns - prev) then (s.pts_ns - prev) ∷ more else more

abbrev pub worst_ms : List ℕ → ℕ
worst_ms [] = 0
worst_ms (gap ∷ gaps) = max (gap / 1_000_000) (worst_ms gaps)

-- What a run adds to the figures.
record Adds (n jumps worst : ℕ) (w end : FlowWatch) : Type 0 where
  frames : end.frames ≡ w.frames + n
  pts_jumps : end.pts_jumps ≡ w.pts_jumps + jumps
  worst_pts_jump_ms : end.worst_pts_jump_ms ≡ max w.worst_pts_jump_ms worst

record Room (n : ℕ) (w : FlowWatch) : Type 0 where
  frames : w.frames + n < 2 ^ 64
  pts_jumps : w.pts_jumps + n < 2 ^ 64

jump-some :
    (pts_ns expected prev : ℕ)
    → expected * 2 < 2 ^ 64
    → jump pts_ns expected (some prev)
      ≡ (if ltb (2 * expected) (pts_ns - prev) then some (pts_ns - prev) else none)
unfolding jump
jump-some pts_ns expected prev h =
    ap (λ (l : ℕ). if ltb l (pts_ns - prev) then some (pts_ns - prev) else none) (omega arith)

-- A frame whose gap `seen` is, if it is wide.
after : ℕ → ℕ → Option ℕ → FlowWatch → FlowWatch
after now pts_ns seen w =
    let w' = count_jump seen w in
    record w' {
      worst_send_gap_ms = widest_gap now w.last_send w.worst_send_gap_ms;
      last_pts_ns = some pts_ns;
      last_send = some now;
      frames = (w.frames + 1) % 2 ^ 64;
    }

record_frame-after :
    (now pts_ns expected : ℕ) (w : FlowWatch)
    → record_frame now pts_ns expected w ≡ after now pts_ns (jump pts_ns expected w.last_pts_ns) w
unfolding record_frame after
record_frame-after now pts_ns expected w = refl

last-after :
    (now pts_ns : ℕ) (seen : Option ℕ) (w : FlowWatch)
    → (after now pts_ns seen w).last_pts_ns ≡ some pts_ns
unfolding after
last-after now pts_ns seen w = refl

after-Room :
    (now pts_ns n : ℕ) (seen : Option ℕ) (w : FlowWatch)
    → Room (suc n) w
    → Room n (after now pts_ns seen w)
unfolding after count_jump
after-Room now pts_ns n none w r = omega arith
after-Room now pts_ns n (some delta) w r = omega arith

after-Adds :
    (now pts_ns prev n : ℕ) (large : Bool) (more : List ℕ) (w end : FlowWatch)
    → Room (suc n) w
    → Adds n
        (length more)
        (worst_ms more)
        (after now pts_ns (if large then some (pts_ns - prev) else none) w)
        end
    → Adds
        (suc n)
        (length (if large then (pts_ns - prev) ∷ more else more))
        (worst_ms (if large then (pts_ns - prev) ∷ more else more))
        w
        end
unfolding after count_jump
after-Adds now pts_ns prev n true more w end r a = record {
  frames = omega (arith, a.frames);
  pts_jumps = omega (arith, a.pts_jumps);
  worst_pts_jump_ms = omega (arith, a.worst_pts_jump_ms);
}
after-Adds now pts_ns prev n false more w end r a = record {
  frames = omega (arith, a.frames);
  pts_jumps = omega (arith, a.pts_jumps);
  worst_pts_jump_ms = omega (arith, a.worst_pts_jump_ms);
}

module _ (expected : ℕ) (fits : expected * 2 < 2 ^ 64) where
  record_all-Adds :
      (shots : List Shot) (prev : ℕ) (w : FlowWatch)
      → w.last_pts_ns ≡ some prev
      → Room (length shots) w
      → Adds
          (length shots)
          (length (wide expected prev shots))
          (worst_ms (wide expected prev shots))
          w
          (record_all expected shots w)
  record_all-Adds [] prev w last room = omega arith
  record_all-Adds (s ∷ ss) prev w last room =
      let seen = (if ltb (2 * expected) (s.pts_ns - prev) then some (s.pts_ns - prev) else none) in
      let step : record_frame s.now s.pts_ns expected w ≡ after s.now s.pts_ns seen w =
        record_frame-after s.now s.pts_ns expected w
        ∙ ap (λ o. after s.now s.pts_ns o w)
            (ap (jump s.pts_ns expected) last ∙ jump-some s.pts_ns expected prev fits) in
      after-Adds s.now s.pts_ns prev (length ss) (ltb (2 * expected) (s.pts_ns - prev))
        (wide expected s.pts_ns ss) w _ room
        (rw step (
          record_all-Adds ss s.pts_ns (after s.now s.pts_ns seen w)
            (last-after s.now s.pts_ns seen w) (after-Room s.now s.pts_ns (length ss) seen w room)))

-- Between two reports the watch counts the frames, the gaps of the timestamps that are over twice
-- the expected interval, and the widest of those, whatever it had counted before.
pub figures_exact :
    (expected prev : ℕ) (shots : List Shot) (w : FlowWatch)
    → expected * 2 < 2 ^ 64
    → length shots < 2 ^ 64
    → w.last_pts_ns ≡ some prev
    → let figures = (take_figures (record_all expected shots (take_figures w).1)).0 in
      (figures.frames ≡ length shots)
      × (figures.pts_jumps ≡ length (wide expected prev shots))
      × (figures.worst_pts_jump_ms ≡ worst_ms (wide expected prev shots))
unfolding take_figures
figures_exact expected prev shots w fits few last =
    let a =
      record_all-Adds expected fits shots prev (take_figures w).1 last
        (record { frames = omega arith; pts_jumps = omega arith }) in
    (omega (arith, a.frames), omega (arith, a.pts_jumps), omega (arith, a.worst_pts_jump_ms))
