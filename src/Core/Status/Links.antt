-- ===== src/Core/Status/Links.antt =====
-- The negotiated mode is on show only while a session runs.
use big_net_screen.Base.{ℕ, ◌≡◌, refl, Bool, true, false, ◌&&◌, ◌||◌, none, List, if-holds}
use big_net_screen.Core.Status.{
  SinkState, StatusInner, StreamLink, default, is_error, is_disconnected, set_link, set_receivers,
  set, fail, reset,
}

-- The session is over, or has not begun.
abbrev pub is_idle : SinkState → Bool
is_idle state = is_disconnected state || is_error state

-- A call as the protocols make it: the mode is recorded after the negotiation, so not while idle.
-- The rest is called in any state.
pub data Step : StatusInner → StatusInner → Type 0 where
  negotiated :
      {s : StatusInner} (link : StreamLink) → is_idle s.state ≡ false → Step s (set_link link s)
  receivers_changed : {s : StatusInner} (receivers : ℕ) → Step s (set_receivers receivers s)
  state_set : {s : StatusInner} (state : SinkState) → Step s (set state s)
  failed : {s : StatusInner} (message : List ℕ) → Step s (fail message s)
  was_reset : {s : StatusInner} → Step s (reset s)

pub data Reach (s : StatusInner) : StatusInner → Type 0 where
  here : Reach s s
  next : {t u : StatusInner} → Reach s t → Step t u → Reach s u

-- An idle receiver has no mode beside it.
abbrev pub IsClear : StatusInner → Type 0
IsClear s = is_idle s.state ≡ true → s.link ≡ none

set-IsClear : (state : SinkState) (s : StatusInner) → IsClear s → IsClear (set state s)
unfolding set
set-IsClear state s v =
    if-holds IsClear (is_error s.state && is_disconnected state) s _ (λ _. v) (λ _ e. rw e refl)

not_both : (b : Bool) → b ≡ false → b ≡ true → ⊥
not_both b f t = cc

Step-IsClear : {s t : StatusInner} → Step s t → IsClear s → IsClear t
unfolding set_link set_receivers fail reset
Step-IsClear (negotiated {s} link running) v =
    λ idle. absurd (not_both (is_idle s.state) running idle)
Step-IsClear (receivers_changed {s} receivers) v = λ idle. rw (v idle) refl
Step-IsClear (state_set {s} state) v = set-IsClear state s v
Step-IsClear (failed {s} message) v = λ idle. refl
Step-IsClear (was_reset {s}) v = λ idle. refl

Reach-IsClear : {s : StatusInner} → Reach default s → IsClear s
Reach-IsClear here = λ idle. refl
Reach-IsClear (next r st) = Step-IsClear st (Reach-IsClear r)

-- In every idle state that the shared state reaches from its start, by calls in any order of which
-- only the negotiated mode waits for a session, no mode is left on show.
pub Reach-idle : {s : StatusInner} → Reach default s → is_idle s.state ≡ true → s.link ≡ none
Reach-idle r idle = Reach-IsClear r idle
