-- ===== src/Core/Status/Tests.antt =====
-- Runs of `SinkStatus`, and its theorems at concrete sessions.
use big_net_screen.Base.{◌≡◌, refl, none, some, List, [], ◌∷◌}
use big_net_screen.Core.Status.{
  disconnected, connecting, streaming, error, StreamLink, default, set_link, set, fail, Call,
  call_set_link, call_set_receivers, call_set, run,
}
use big_net_screen.Core.Status.Errors.{Shows, fail_stays, run_explained}
use big_net_screen.Core.Status.Links.{Reach, here, next, negotiated, state_set, failed}

abbrev full_hd : StreamLink
full_hd = record { width = 1920; height = 1080; fps = 60; endpoint = none; receivers = none }

abbrev session : List Call
session =
    call_set connecting ∷ call_set_link full_hd ∷ call_set streaming ∷ call_set_receivers 2 ∷ []

streaming_session : run session default ≡ record {
  state = streaming;
  message = none;
  link = some (record full_hd { receivers = some 2 });
}
unfolding run
streaming_session = refl

abbrev wind_down : List Call
wind_down =
    call_set_receivers 0 ∷ call_set disconnected ∷ call_set error ∷ call_set disconnected ∷ []

fail_stays_example : Shows (1 ∷ 2 ∷ []) (run wind_down (fail (1 ∷ 2 ∷ []) (run session default)))
fail_stays_example =
    fail_stays wind_down (1 ∷ 2 ∷ []) (run session default) (tt, (tt, (tt, (tt, tt))))

session_explained : (run session default).message ≡ none
unfolding run
session_explained = run_explained session refl

ended_session : Reach default (fail (1 ∷ []) (set_link full_hd (set connecting default)))
unfolding set
ended_session =
    next (next (next here (state_set connecting)) (negotiated full_hd refl)) (failed (1 ∷ []))
