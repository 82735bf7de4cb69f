-- ===== src/Core/Status/Errors.antt =====
-- How long the reason of a failure stays on show.
use big_net_screen.Base.{ℕ, ◌≡◌, refl, true, false, ◌&&◌, none, some, List, [], ◌∷◌, All, if-holds}
use big_net_screen.Core.Status.{
  SinkState, disconnected, connecting, ensuring_firewall, wait_socket, wait_streaming, streaming,
  error, StatusInner, default, is_error, is_disconnected, set, fail, Call, call_set_link,
  call_set_receivers, call_set, call_fail, call_reset, apply, run,
}

abbrev pub IsEnd : SinkState → Type 0
IsEnd disconnected = Unit
IsEnd error = Unit
IsEnd _ = ⊥

-- A call by which a session winds down or reports on itself: it starts nothing, and gives no other
-- reason.
abbrev pub IsQuiet : Call → Type 0
IsQuiet (call_set_link link) = Unit
IsQuiet (call_set_receivers receivers) = Unit
IsQuiet (call_set state) = IsEnd state
IsQuiet (call_fail message) = ⊥
IsQuiet call_reset = ⊥

-- The failure is on show.
pub record Shows (message : List ℕ) (s : StatusInner) : Type 0 where
  pub state : s.state ≡ error
  pub message_shown : s.message ≡ some message

failed_not_ended : (state : SinkState) → state ≡ error → (is_error state && true) ≡ false → ⊥
failed_not_ended state e h = cc

set-Shows :
    (state : SinkState) (message : List ℕ) (s : StatusInner)
    → IsEnd state
    → Shows message s
    → Shows message (set state s)
unfolding set
set-Shows disconnected message s q v =
    if-holds (Shows message) (is_error s.state && true) s _ (λ _. v)
      (λ h. absurd (failed_not_ended s.state v.state h))
set-Shows error message s q v =
    if-holds (Shows message) (is_error s.state && false) s _ (λ _. v)
      (λ _. record { state = refl; message_shown = v.message_shown })
set-Shows connecting message s q v = absurd q
set-Shows ensuring_firewall message s q v = absurd q
set-Shows wait_socket message s q v = absurd q
set-Shows wait_streaming message s q v = absurd q
set-Shows streaming message s q v = absurd q

apply-Shows :
    (call : Call) (message : List ℕ) (s : StatusInner)
    → IsQuiet call
    → Shows message s
    → Shows message (apply call s)
unfolding apply
apply-Shows (call_set_link link) message s q v = record {
  state = v.state;
  message_shown = v.message_shown;
}
apply-Shows (call_set_receivers receivers) message s q v = record {
  state = v.state;
  message_shown = v.message_shown;
}
apply-Shows (call_set state) message s q v = set-Shows state message s q v
apply-Shows (call_fail m) message s q v = absurd q
apply-Shows call_reset message s q v = absurd q

run-Shows :
    (calls : List Call) (message : List ℕ) (s : StatusInner)
    → All IsQuiet calls
    → Shows message s
    → Shows message (run calls s)
unfolding run
run-Shows [] message s q v = v
run-Shows (c ∷ cs) message s q v =
    run-Shows cs message (apply c s) q.1 (apply-Shows c message s q.0 v)

-- After a failure the state stays an error and its cause stays on show, whatever a session still
-- does as it winds down, until a new attempt starts, another failure comes or it is reset.
pub fail_stays :
    (calls : List Call) (message : List ℕ) (s : StatusInner)
    → All IsQuiet calls
    → Shows message (run calls (fail message s))
unfolding fail
fail_stays calls message s q =
    run-Shows calls message (fail message s) q (record { state = refl; message_shown = refl })

-- There is no message unless the state is an error.
abbrev pub IsExplained : StatusInner → Type 0
IsExplained s = is_error s.state ≡ false → s.message ≡ none

set-IsExplained : (state : SinkState) (s : StatusInner) → IsExplained s → IsExplained (set state s)
unfolding set
set-IsExplained state s v =
    if-holds IsExplained (is_error s.state && is_disconnected state) s _ (λ _. v) (λ _ e. rw e refl)

apply-IsExplained : (call : Call) (s : StatusInner) → IsExplained s → IsExplained (apply call s)
unfolding apply
apply-IsExplained (call_set_link link) s v = v
apply-IsExplained (call_set_receivers receivers) s v = v
apply-IsExplained (call_set state) s v = set-IsExplained state s v
apply-IsExplained (call_fail message) s v = λ e. absurd (differ e)
  where
    differ : true ≡ false → ⊥
    differ e = cc
apply-IsExplained call_reset s v = λ e. refl

run-IsExplained : (calls : List Call) (s : StatusInner) → IsExplained s → IsExplained (run calls s)
unfolding run
run-IsExplained [] s v = v
run-IsExplained (c ∷ cs) s v = run-IsExplained cs (apply c s) (apply-IsExplained c s v)

-- Whatever the calls, no message is on show in a state that is no error.
pub run_explained :
    (calls : List Call)
    → is_error (run calls default).state ≡ false
    → (run calls default).message ≡ none
run_explained calls fine = run-IsExplained calls default (λ _. refl) fine
