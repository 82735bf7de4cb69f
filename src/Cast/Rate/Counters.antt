-- ===== src/Cast/Rate/Counters.antt =====
-- The windows that rate.rs takes from the running totals.
use big_net_screen.Base.{◌+◌, ◌-◌, ◌%◌, ◌^◌, ◌<◌, ◌≡◌, refl, List, [], ◌∷◌, All, arith}
use big_net_screen.Cast.Rate.{Window, Baseline, advance}

-- The totals of the whole session: exact numbers, which no counter holds.
abbrev pub Totals : Type 0
Totals = Window

abbrev pub add : Totals → Window → Totals
add t w = record {
  packets_sent = t.packets_sent + w.packets_sent;
  packets_resent = t.packets_resent + w.packets_resent;
  frames_dropped = t.frames_dropped + w.frames_dropped;
}

-- What the sender keeps of the totals: the report's packet counter has 32 bits.
abbrev pub counters : Totals → Baseline
counters t = record {
  packets = t.packets_sent % 2 ^ 32;
  resent = t.packets_resent;
  dropped = t.frames_dropped;
}

-- Each window's activity happens, and then the window is taken.
abbrev pub taken : List Window → Totals → Baseline → List Window
taken [] t b = []
taken (w ∷ ws) t b =
    let t' = add t w in
    let c = counters t' in
    let (seen, b') = advance c.packets c.resent c.dropped b in seen ∷ taken ws t' b'

advance_exact :
    (t : Totals) (w : Window)
    → w.packets_sent < 2 ^ 32
    → let c = counters (add t w) in advance c.packets c.resent c.dropped (counters t) ≡ (w, c)
unfolding advance
advance_exact t w h =
    let packets : (((t.packets_sent + w.packets_sent) % 2 ^ 32 + 2 ^ 32 - t.packets_sent % 2 ^ 32)
          % 2 ^ 32)
        ≡ w.packets_sent =
      omega arith in
    let resent : (t.packets_resent + w.packets_resent - t.packets_resent) ≡ w.packets_resent =
      omega arith in
    let dropped : (t.frames_dropped + w.frames_dropped - t.frames_dropped) ≡ w.frames_dropped =
      omega arith in
    rw (packets, resent, dropped)

-- The windows are exact over a session of any length, across every wrap of the packet counter, as
-- long as no one window sends 2 ^ 32 packets.
pub taken_exact :
    (windows : List Window) (t : Totals)
    → All (λ w. w.packets_sent < 2 ^ 32) windows
    → taken windows t (counters t) ≡ windows
taken_exact [] t h = refl
taken_exact (w ∷ ws) t h = rw (advance_exact t w h.0, taken_exact ws (add t w) h.1)
