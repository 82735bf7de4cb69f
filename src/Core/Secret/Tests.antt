-- ===== src/Core/Secret/Tests.antt =====
-- Runs of `same_secret`, and its theorem at a concrete guess.
use big_net_screen.Base.{◌≡◌, refl, false}
use big_net_screen.Base.Text.{codes}
use big_net_screen.Core.Secret.{same_secret}

wrong_guess : same_secret (codes "feedfacf") (codes "feedface") ≡ false
unfolding same_secret
wrong_guess = refl

short_guess : same_secret (codes "feed") (codes "feedface") ≡ false
unfolding same_secret
short_guess = refl
