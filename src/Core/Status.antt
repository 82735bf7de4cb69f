-- ===== src/Core/Status.antt =====
-- `SinkStatus` of crates/nd-core/src/sink.rs: what the interface shows of a session. A message is
-- its bytes, and an endpoint the number that stands for it.
pub mod Errors
pub mod Links
mod Tests
use big_net_screen.Base.{
  ℕ, Bool, true, false, not, ◌&&◌, ◌||◌, Option, none, some, List, [], ◌∷◌, ◌==◌, if◌then◌else◌,
}

pub data SinkState : Type 0 where
  disconnected : SinkState
  connecting : SinkState
  ensuring_firewall : SinkState
  wait_socket : SinkState
  wait_streaming : SinkState
  streaming : SinkState
  error : SinkState

abbrev pub is_busy : SinkState → Bool
is_busy connecting = true
is_busy ensuring_firewall = true
is_busy wait_socket = true
is_busy wait_streaming = true
is_busy _ = false

pub record StreamLink : Type 0 where
  pub width : ℕ
  pub height : ℕ
  pub fps : ℕ
  pub endpoint : Option ℕ
  pub receivers : Option ℕ

pub record StatusInner : Type 0 where
  pub state : SinkState
  pub message : Option (List ℕ)
  pub link : Option StreamLink

abbrev pub default : StatusInner
default = record { state = disconnected; message = none; link = none }

unfoldable pub set_link : StreamLink → StatusInner → StatusInner
set_link link s = record s { link = some link }

abbrev pub with_receivers : ℕ → Option StreamLink → Option StreamLink
with_receivers receivers none = none
with_receivers receivers (some link) = some (record link { receivers = some receivers })

-- The link is written only when the number changes, which is to the same value.
unfoldable pub set_receivers : ℕ → StatusInner → StatusInner
set_receivers receivers s = record s { link = with_receivers receivers s.link }

abbrev pub is_error : SinkState → Bool
is_error error = true
is_error _ = false

abbrev pub is_disconnected : SinkState → Bool
is_disconnected disconnected = true
is_disconnected _ = false

unfoldable pub set : SinkState → StatusInner → StatusInner
set state s = if is_error s.state && is_disconnected state then s else record {
  state = state;
  message = if not (is_error state) then none else s.message;
  link = if is_disconnected state || is_error state then none else s.link;
}

unfoldable pub fail : List ℕ → StatusInner → StatusInner
fail message s = record s { state = error; message = some message; link = none }

unfoldable pub reset : StatusInner → StatusInner
reset s = record s { state = disconnected; message = none; link = none }

-- A call of the shared state; each holds its lock for as long as it runs.
pub data Call : Type 0 where
  call_set_link : StreamLink → Call
  call_set_receivers : ℕ → Call
  call_set : SinkState → Call
  call_fail : List ℕ → Call
  call_reset : Call

unfoldable pub apply : Call → StatusInner → StatusInner
unfolding set_link set_receivers set fail reset
apply (call_set_link link) s = set_link link s
apply (call_set_receivers receivers) s = set_receivers receivers s
apply (call_set state) s = set state s
apply (call_fail message) s = fail message s
apply call_reset s = reset s

-- The calls of all threads, in the order in which they take the lock.
unfoldable pub run : List Call → StatusInner → StatusInner
unfolding apply
run [] s = s
run (c ∷ cs) s = run cs (apply c s)
