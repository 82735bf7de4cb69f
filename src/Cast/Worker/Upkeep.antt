-- ===== src/Cast/Worker/Upkeep.antt =====
-- What a turn of `Worker::run` in worker.rs does beside the sending: it empties the inbox of the
-- track, watches for the receiver's silence, and adapts the bitrate. Times are in nanoseconds.
pub mod Inbox
pub mod Silence
pub mod Encoder
use big_net_screen.Base.{
  ℕ, ◌-◌, ◌*◌, Bool, true, false, not, Option, none, some, List, [], ◌∷◌, ◌++◌, length, ltb, ◌==◌,
  if◌then◌else◌,
}
use big_net_screen.Cast.Rtcp.Feedback.{Nack}
use big_net_screen.Cast.Sender.Track.{receiver_silence_timeout}
use big_net_screen.Cast.Rate.{Window, Baseline, RateControl, advance, observe}

abbrev pub max_nacks_per_turn : ℕ
max_nacks_per_turn = 256

-- The loop over the batches, with those that are taken so far. What is left stays in the inbox.
unfoldable pub take_batches : List (List Nack) → List Nack → List Nack × List (List Nack)
take_batches [] pending = (pending, [])
take_batches (nacks ∷ inbox) pending =
    let more = take_batches inbox (pending ++ nacks) in
    if ltb max_nacks_per_turn (length (pending ++ nacks)) then (pending ++ nacks, inbox) else more

-- The receiver's sign of life as last read, and when it last moved.
pub record Alive : Type 0 where
  pub seen : ℕ
  pub since : ℕ

unfoldable pub receiver_went_quiet : ℕ → ℕ → Alive → Bool × Alive
receiver_went_quiet now seen a =
    if not (seen == a.seen)
    then (false, record { seen = seen; since = now })
    else (ltb receiver_silence_timeout (now - a.since), a)

abbrev pub update_interval : ℕ
update_interval = 500_000_000

-- The part of `VideoControl` that follows the link.
pub record Adapting : Type 0 where
  pub rate : RateControl
  pub baseline : Baseline
  pub last_rate : ℕ

-- The bitrate to set, if it changes. The counts are those of the sender and the repairs.
unfoldable pub adapt_bitrate : ℕ → ℕ → ℕ → ℕ → Adapting → Option ℕ × Adapting
unfolding advance observe
adapt_bitrate now packets resent dropped a =
    if ltb (now - a.last_rate) update_interval
    then (none, a)
    else let (seen, baseline) = advance packets resent dropped a.baseline in
      let (kbps, rate) = observe seen a.rate in
      (kbps, record { rate = rate; baseline = baseline; last_rate = now })
