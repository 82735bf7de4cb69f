-- ===== src/Cast/Sender/Gate/Decoding.antt =====
-- The frames that sender.rs sends can be decoded.
use big_net_screen.Base.{
  ℕ, suc, ◌+◌, ◌%◌, ◌^◌, ◌≡◌, refl, ◌∙◌, Bool, true, false, ◌&&◌, ◌||◌, List, [], ◌∷◌, arith,
  if◌then◌else◌,
}
use big_net_screen.Cast.Sender.Gate.{
  Gate, Offered, Fate, new, skip_while_receiver_catches_up, offer,
}

-- A receiver can decode a frame that is sent if it is a key frame, or if the frame before it, the
-- one it references, was sent and could be decoded. `chain` says so of the frame before.
abbrev pub decodes : Bool → List Fate → Bool
decodes chain [] = true
decodes chain (f ∷ fs) = (if f.sent then f.is_key || chain else true) && decodes f.sent fs

decode_step :
    (key room chain : Bool) (g : Gate) (rest : Bool → Bool)
    → g.is_video ≡ true
    → (g.resyncing ≡ false → chain ≡ true)
    → let (skipped, g') = skip_while_receiver_catches_up key room g in
      let sent = if skipped then false else true in
      (g'.is_video ≡ true)
      × (g'.resyncing ≡ false → sent ≡ true)
      × (rest sent ≡ true → ((if sent then key || chain else true) && rest sent) ≡ true)
unfolding skip_while_receiver_catches_up
decode_step key room chain g rest v h = ground arith

decodes-offer :
    (frames : List Offered) (chain : Bool) (g : Gate)
    → g.is_video ≡ true
    → (g.resyncing ≡ false → chain ≡ true)
    → decodes chain (offer frames g).0 ≡ true
unfolding offer
decodes-offer [] chain g v h = refl
decodes-offer (f ∷ fs) chain g v h =
    let (v', h', done) =
      decode_step f.is_key f.has_room chain g
        (λ sent. decodes sent (offer fs (skip_while_receiver_catches_up f.is_key f.has_room g).1).0)
        v h in
    done (decodes-offer fs _ (skip_while_receiver_catches_up f.is_key f.has_room g).1 v' h')

-- On a video track, whatever frames come and however often the window is full, every frame that is
-- sent can be decoded: a key frame, or one right after a frame that was sent and can be.
pub video_decodes : (frames : List Offered) → decodes false (offer frames (new true)).0 ≡ true
unfolding new
video_decodes frames = decodes-offer frames false (new true) refl (λ bad. cc)

abbrev pub unsent : List Fate → ℕ
unsent [] = 0
unsent (f ∷ fs) = if f.sent then unsent fs else suc (unsent fs)

drop_step :
    (key room : Bool) (g : Gate) (more : ℕ)
    → let (skipped, g') = skip_while_receiver_catches_up key room g in
      let sent = if skipped then false else true in
      (g'.frames_dropped + more) % 2 ^ 64
      ≡ (g.frames_dropped + (if sent then more else suc more)) % 2 ^ 64
unfolding skip_while_receiver_catches_up
drop_step key room g more = ground arith

-- The counter of dropped frames advances by the frames that are not sent, on either track.
pub frames_dropped-offer :
    (frames : List Offered) (g : Gate)
    → (offer frames g).1.frames_dropped % 2 ^ 64
      ≡ (g.frames_dropped + unsent (offer frames g).0) % 2 ^ 64
unfolding offer
frames_dropped-offer [] g = omega arith
frames_dropped-offer (f ∷ fs) g =
    frames_dropped-offer fs (skip_while_receiver_catches_up f.is_key f.has_room g).1
    ∙ drop_step f.is_key f.has_room g _
