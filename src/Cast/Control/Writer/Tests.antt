-- ===== src/Cast/Control/Writer/Tests.antt =====
-- Runs of writer.rs, and its theorem at concrete calls.
use big_net_screen.Base.{◌≡◌, refl, true, false, some, List, [], ◌∷◌}
use big_net_screen.Base.Text.{codes}
use big_net_screen.Cast.Control.Writer.{new, send, completes, breaks, begin_close, end_close}
use big_net_screen.Cast.Control.Writer.Calls.{
  Call, sends, begins_close, ends_close, run, all_puts, IsStill,
}
use big_net_screen.Cast.Control.Writer.Whole.{GrewBy, run-Steps}

-- A heartbeat after the close has begun is not written, and nothing follows the close.
abbrev closing_calls : List Call
closing_calls =
    sends completes (some (codes "STOP")) false
    ∷ begins_close
    ∷ sends completes (some (codes "PING")) true
    ∷ ends_close completes (some (codes "CLOSE"))
    ∷ sends completes (some (codes "LOAD")) false
    ∷ []

closing_run : (run closing_calls new).stream ≡ codes "STOPCLOSE"
unfolding send begin_close end_close new
closing_run = refl

abbrev cut_calls : List Call
cut_calls =
    sends (breaks 4) (some (codes "partial")) false
    ∷ sends completes (some (codes "STOP")) false
    ∷ []

cut_run : (run cut_calls new).stream ≡ codes "part"
unfolding send new
cut_run = refl

run-Steps_example :
    GrewBy cut_calls (all_puts cut_calls new) new (run cut_calls new)
    × IsStill new (run cut_calls new)
run-Steps_example = run-Steps cut_calls new
