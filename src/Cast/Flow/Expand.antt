-- ===== src/Cast/Flow/Expand.antt =====
-- The eight-bit wire id of flow.rs names one frame of the window.
use big_net_screen.Base.{ℕ, ◌-◌, ◌%◌, ◌<◌, ◌≡◌, ◌≢◌, ap, ◌⊎◌, inl, inr, true, false, Option, arith}
use big_net_screen.Base.Int.{ℤ, pos, negsuc, ◌≤ℤ◌}
use big_net_screen.Cast.Flow.{AckWindow, expand, is_stale, newer, acknowledge}
use big_net_screen.Cast.Flow.Window.{IsValid}

-- `id as u8` in two's complement.
abbrev pub low_byte : ℤ → ℕ
low_byte (pos n) = n % 256
low_byte (negsuc n) = 255 - n % 256

abbrev pub InWindow : AckWindow → ℤ → Type 0
InWindow w f = (w.checkpoint ≤ℤ f) × (f ≤ℤ w.last_sent)

expand_exact :
    (w : AckWindow) (f : ℤ) → IsValid w → InWindow w f → expand w.last_sent (low_byte f) ≡ f
unfolding expand
expand_exact w f v h = ground arith

low_byte-expand :
    (last : ℤ) (wire : ℕ)
    → wire < 256
    → (low_byte (expand last wire) ≡ wire) × (expand last wire ≤ℤ last)
unfolding expand
low_byte-expand last wire byte = ground arith

-- A frame between the checkpoint and the last sent id, acknowledged by its low byte and not by a
-- stale report, becomes the checkpoint itself, whatever its full id: no other frame of the window
-- has that byte. Nothing else moves but the reference time.
pub acknowledge_exact :
    (now : ℕ) (time : Option ℕ) (w : AckWindow) (f : ℤ)
    → IsValid w
    → InWindow w f
    → is_stale time w.newest_reference_time ≡ false
    → ((acknowledge now (low_byte f) time w).0 ≡ true)
      × ((acknowledge now (low_byte f) time w).1.checkpoint ≡ f)
      × ((acknowledge now (low_byte f) time w).1.last_sent ≡ w.last_sent)
      × ((acknowledge now (low_byte f) time w).1.newest_reference_time
          ≡ newer time w.newest_reference_time)
unfolding acknowledge
acknowledge_exact now time w f v h fresh = ground arith

acknowledge_outcome :
    (now wire : ℕ) (time : Option ℕ) (w : AckWindow)
    → wire < 256
    → let (accepted, w') = acknowledge now wire time w in
      ((accepted ≡ true)
        × (is_stale time w.newest_reference_time ≡ false)
        × InWindow w w'.checkpoint
        × (low_byte w'.checkpoint ≡ wire))
      ⊎ ((accepted ≡ false) × (w' ≡ w))
unfolding acknowledge
acknowledge_outcome now wire time w byte = ground arith

-- A report is accepted exactly when it is not stale and its byte names a frame between the
-- checkpoint and the last sent one; that frame is the new checkpoint. A refused report changes
-- nothing.
pub acknowledge_cases :
    (now wire : ℕ) (time : Option ℕ) (w : AckWindow)
    → IsValid w
    → wire < 256
    → let (accepted, w') = acknowledge now wire time w in
      ((accepted ≡ true)
        × (is_stale time w.newest_reference_time ≡ false)
        × InWindow w w'.checkpoint
        × (low_byte w'.checkpoint ≡ wire))
      ⊎ ((accepted ≡ false)
          × (w' ≡ w)
          × (is_stale time w.newest_reference_time ≡ false
              → (f : ℤ) → InWindow w f
              → low_byte f ≢ wire))
acknowledge_cases now wire time w v byte = elim (acknowledge_outcome now wire time w byte) [
  | inl ok ↦ inl ok
  | inr (no_, same) ↦ inr (no_, same, λ fresh f h e. names fresh f h e no_)
]
  where
    names :
        is_stale time w.newest_reference_time ≡ false
        → (f : ℤ) → InWindow w f
        → low_byte f ≡ wire
        → (acknowledge now wire time w).0 ≡ false
        → ⊥
    names fresh f h e refused = cc (
      ap (λ (b : ℕ). (acknowledge now b time w).0) e,
      (acknowledge_exact now time w f v h fresh).0,
    )
