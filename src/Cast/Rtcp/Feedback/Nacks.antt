-- ===== src/Cast/Rtcp/Feedback/Nacks.antt =====
-- Which packets a retransmission request of rtcp.rs covers.
use Prim.Native.Nat.{bit_and}
use native.Mathlib.Decide.{ℕ_discrete}
use big_net_screen.Base.{
  ap, ◌∙◌, ℕ, zero, suc, ◌+◌, ◌-◌, ◌/◌, ◌%◌, ◌^◌, ◌≤◌, ◌<◌, ◌≡◌, ◌≢◌, refl, Bool, true, false, not,
  ◌&&◌, ◌||◌, none, some, List, [], ◌∷◌, length, ltb, leb, ◌==◌, if◌then◌else◌, arith,
}
use big_net_screen.Base.Bits.{passes, passes-below}
use big_net_screen.Base.Bytes.{IsByte}
use big_net_screen.Cast.Rtcp.Feedback.{Nack, masked_ids, packet_ids}

abbrev pub mem : ℕ → List ℕ → Bool
mem id [] = false
mem id (x ∷ xs) = (id == x) || mem id xs

abbrev bit_of : ℕ → ℕ → ℕ
bit_of mask bit = mask / 2 ^ bit % 2

-- Whether the request covers a packet: its first one, and each of the eight after it whose bit is
-- set, below the id that stands for a whole frame.
abbrev pub covers : Nack → ℕ → Bool
covers nack id =
    (id == nack.packet_id)
    || (ltb nack.packet_id id
        && (ltb id 0xffff
            && (leb id (nack.packet_id + 8)
                && (bit_of nack.bitmask (id - nack.packet_id - 1) == 1))))

same : Bool → Bool → Bool
same true b = b
same false b = not b

same-eq : (a b : Bool) → same a b ≡ true → a ≡ b
unfolding same
same-eq a b h = ground arith

-- The two readings of bit `b` of a mask `m` agree.
bits_agree : ℕ → ℕ → Bool
bits_agree m b = same (not (bit_and m (2 ^ b) == 0)) (bit_of m b == 1)

mask_table : passes (λ m. passes (bits_agree m) 8) 256 ≡ true
unfolding passes same bits_agree
mask_table = refl

mask_bit : (m b : ℕ) → m < 256 → b < 8 → not (bit_and m (2 ^ b) == 0) ≡ (bit_of m b == 1)
unfolding bits_agree
mask_bit m b hm hb = same-eq _ _ (
    passes-below (bits_agree m) 8 b hb
      (passes-below (λ m. passes (bits_agree m) 8) 256 m hm mask_table))

-- The same test from bit `bit` on, over any reading of the bits.
masked : (ℕ → Bool) → ℕ → ℕ → ℕ → Bool
masked f first bit id =
    leb (first + (bit + 1)) id && (ltb id 0xffff && (leb id (first + 8) && f (id - first - 1)))

masked_step :
    (f : ℕ → Bool) (first bit id : ℕ) (rest : Bool)
    → bit < 8
    → rest ≡ masked f first (bit + 1) id
    → (if f bit && ltb (first + (bit + 1)) 0xffff
        then (id == (first + (bit + 1))) || rest
        else rest)
      ≡ masked f first bit id
unfolding masked
masked_step f first bit id rest h e = elim (ℕ_discrete id (first + (bit + 1))) [
  | yes same_ ↦
      let at_bit : f (id - first - 1) ≡ f bit = ap f (omega arith) in ground (arith, at_bit)
  | no other ↦ ground arith
]

mem-if :
    (id x : ℕ) (xs : List ℕ) (test : Bool)
    → mem id (if test then x ∷ xs else xs) ≡ (if test then (id == x) || mem id xs else mem id xs)
mem-if id x xs true = refl
mem-if id x xs false = refl

masked_ids-masked :
    (rounds bit : ℕ) (nack : Nack) (id : ℕ)
    → IsByte nack.bitmask
    → bit + rounds ≡ 8
    → mem id (masked_ids rounds bit nack)
      ≡ masked (λ b. bit_of nack.bitmask b == 1) nack.packet_id bit id
unfolding masked_ids masked
masked_ids-masked zero bit nack id byte h = ground arith
masked_ids-masked (suc rounds) bit nack id byte h =
    mem-if id (nack.packet_id + (bit + 1)) (masked_ids rounds (bit + 1) nack) _
    ∙ rw (mask_bit nack.bitmask bit byte (omega arith)) (
        masked_step (λ b. bit_of nack.bitmask b == 1) nack.packet_id bit id
          (mem id (masked_ids rounds (bit + 1) nack)) (omega arith)
          (masked_ids-masked rounds (bit + 1) nack id byte (omega arith)))

length-masked_ids : (rounds bit : ℕ) (nack : Nack) → length (masked_ids rounds bit nack) ≤ rounds
unfolding masked_ids
length-masked_ids zero bit nack = omega arith
length-masked_ids (suc rounds) bit nack = ground (arith, length-masked_ids rounds (bit + 1) nack)

from_first :
    (f : ℕ → Bool) (first id : ℕ)
    → ((id == first) || masked f first 0 id) ≡ (
        (id == first)
        || (ltb first id && (ltb id 0xffff && (leb id (first + 8) && f (id - first - 1)))))
unfolding masked
from_first f first id = ground arith

-- A request lists a packet exactly when it covers it; a request for a whole frame, and no other,
-- lists none. No list has more than nine ids.
pub packet_ids-covers :
    (nack : Nack) (id : ℕ)
    → IsByte nack.bitmask
    → ((nack.packet_id ≡ 0xffff → packet_ids nack ≡ none)
        × (nack.packet_id ≢ 0xffff
            → (ids : List ℕ) × (packet_ids nack ≡ some ids)
              × (mem id ids ≡ covers nack id)
              × (length ids ≤ 9)))
unfolding packet_ids
packet_ids-covers nack id byte = (
  λ e. ground arith,
  λ ne. (
    nack.packet_id ∷ masked_ids 8 0 nack,
    ground arith,
    ap (λ (b : Bool). (id == nack.packet_id) || b) (masked_ids-masked 8 0 nack id byte refl)
        ∙ from_first (λ b. bit_of nack.bitmask b == 1) nack.packet_id id,
    omega (arith, length-masked_ids 8 0 nack),
  ),
)
