-- ===== src/Cast/Worker/Spacing.antt =====
-- How often the video thread of worker.rs forces a key frame because the receiver asks.
use big_net_screen.Base.{
  ℕ, suc, ◌+◌, ◌-◌, ◌*◌, ◌/◌, ◌⊎◌, inl, inr, ◌≤◌, ◌≡◌, Bool, true, false, ◌||◌, Option, none, some,
  List, [], ◌∷◌, if◌then◌else◌, arith,
}
use big_net_screen.Cast.Worker.{key_frame_request_interval, KeyFrames, request_key_frame}

-- A turn of the thread: its clock, and whether the receiver has asked since the turn before.
pub record Turn : Type 0 where
  pub now : ℕ
  pub asks : Bool

abbrev pub wish : Bool → KeyFrames → KeyFrames
wish asks k = record k { key_frame_wanted = asks || k.key_frame_wanted }

-- The key frames that turns without a resync force.
abbrev pub forced : List Turn → KeyFrames → ℕ
forced [] k = 0
forced (t ∷ ts) k =
    let (force, k') = request_key_frame t.now false (wish t.asks k) in
    let more = forced ts k' in if force then suc more else more

-- All readings of the clock lie between two instants.
abbrev pub IsWithin : ℕ → ℕ → List Turn → Type 0
IsWithin start end [] = start ≤ end
IsWithin start end (t ∷ ts) = (start ≤ t.now) × (t.now ≤ end) × IsWithin start end ts

-- A key frame that was forced before leaves less room for the next ones.
abbrev Earned : ℕ → ℕ → Option ℕ → ℕ → Type 0
Earned start end none n = start + n * key_frame_request_interval ≤ end + key_frame_request_interval
Earned start end (some at) n =
    (n ≡ 0)
    ⊎ ((at + n * key_frame_request_interval ≤ end)
        × (start + n * key_frame_request_interval ≤ end + key_frame_request_interval))

Earned-le :
    (start end n : ℕ) (last : Option ℕ)
    → start ≤ end
    → Earned start end last n
    → n ≤ 1 + (end - start) / key_frame_request_interval
Earned-le start end n none p h = omega arith
Earned-le start end n (some at) p h = elim h [ inl e ↦ omega arith | inr l ↦ omega (arith, l.1) ]

IsWithin-le : (ts : List Turn) (start end : ℕ) → IsWithin start end ts → start ≤ end
IsWithin-le [] start end h = h
IsWithin-le (t ∷ ts) start end h = IsWithin-le ts start end h.2

turn :
    (start now end more : ℕ) (last : Option ℕ) (wanted : Bool)
    → start ≤ now
    → now ≤ end
    → let (force, k') =
        request_key_frame now false (record { last_key_frame = last; key_frame_wanted = wanted }) in
      (Earned start end k'.last_key_frame more
        → Earned start end last (if force then suc more else more))
unfolding request_key_frame
turn start now end more none true p q h = ground arith
turn start now end more none false p q h = h
turn start now end more (some at) true p q h = ground arith
turn start now end more (some at) false p q h = ground arith

none_left : (start end : ℕ) (last : Option ℕ) → start ≤ end → Earned start end last 0
none_left start end none h = omega arith
none_left start end (some at) h = inl (omega arith)

earned :
    (ts : List Turn) (start end : ℕ) (k : KeyFrames)
    → IsWithin start end ts
    → Earned start end k.last_key_frame (forced ts k)
earned [] start end k h = none_left start end k.last_key_frame h
earned (t ∷ ts) start end k h =
    turn start t.now end (forced ts (request_key_frame t.now false (wish t.asks k)).1)
      k.last_key_frame (t.asks || k.key_frame_wanted) h.0 h.1
      (earned ts start end (request_key_frame t.now false (wish t.asks k)).1 h.2)

-- However often the receiver asks, the key frames that are forced for it between two instants are
-- one for each interval of half a second that fits between them, and one more.
pub forced_bounded :
    (ts : List Turn) (start end : ℕ) (k : KeyFrames)
    → IsWithin start end ts
    → forced ts k ≤ 1 + (end - start) / key_frame_request_interval
forced_bounded ts start end k h =
    Earned-le start end (forced ts k) k.last_key_frame (IsWithin-le ts start end h)
      (earned ts start end k h)
