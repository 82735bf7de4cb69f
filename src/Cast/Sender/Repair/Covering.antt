-- ===== src/Cast/Sender/Repair/Covering.antt =====
-- What a request makes sender.rs queue.
use big_net_screen.Base.Bytes.{IsByte}
use big_net_screen.Base.{
  zero, refl, ◌≢◌, ◌⊎◌, ℕ, suc, ◌+◌, ◌≤◌, ◌<◌, ◌≡◌, sym, ap, ◌∙◌, Bool, true, false, not, ◌&&◌,
  ◌||◌, Option, none, some, List, [], ◌∷◌, length, length-append, ltb, leb, ◌==◌, ==_refl, ==_iff,
  arith, if◌then◌else◌, if-holds, Bool-cases, inl, inr, lt→ltb,
}
use big_net_screen.Base.Int.{ℤ, pos, ltb_ℤ}
use big_net_screen.Cast.Rtcp.Feedback.{Nack, packet_ids}
use big_net_screen.Cast.Rtcp.Feedback.Nacks.{mem, covers, packet_ids-covers}
use big_net_screen.Cast.Sender.History.{HistoryEntry, find_wire}
use big_net_screen.Cast.Sender.Repair.{
  Key, Repairs, contains, indices, push, enqueue, wanted_ids, serve_found, serve, max_repair_queue,
}
use big_net_screen.Cast.Sender.Repair.Queue.{IsValid, serve_found-IsValid}

kept : (s c : Bool) → c ≡ true → (s || c) ≡ true
kept s c h = ground arith

contains-push :
    (k key : Key) (r : Repairs)
    → contains k r.queued_repairs ≡ true
    → contains k (push key r).queued_repairs ≡ true
unfolding push contains
contains-push k key r h = kept _ _ h

-- One round: an id in range waits afterwards, what waited still does, and the queue grows by one
-- at most.
record Round (frame_id count id : ℕ) (r r' : Repairs) : Type 0 where
  has : id < count → contains (record { frame_id = frame_id; packet = id }) r'.queued_repairs ≡ true
  keeps : (k : Key) → contains k r.queued_repairs ≡ true → contains k r'.queued_repairs ≡ true
  grows : length r'.repair_queue ≤ length r.repair_queue + 1

pushed :
    (frame_id count id : ℕ) (r : Repairs)
    → Round frame_id count id r (push (record { frame_id = frame_id; packet = id }) r)
unfolding push contains
pushed frame_id count id r = record {
  has = λ _. rw (==_refl frame_id, ==_refl id, contains);
  keeps = λ k h. kept _ _ h;
  grows =
      omega
        (arith, length-append r.repair_queue (record { frame_id = frame_id; packet = id } ∷ []));
}

in_already : (a b : Bool) → (a && not b) ≡ false → a ≡ true → b ≡ true
in_already a b h k = ground arith

round :
    (frame_id count id : ℕ) (r : Repairs)
    → Round frame_id count id r (
        if ltb id count
          && not (contains (record { frame_id = frame_id; packet = id }) r.queued_repairs)
        then push (record { frame_id = frame_id; packet = id }) r
        else r)
round frame_id count id r =
    if-holds (Round frame_id count id r)
      (ltb id count
        && not (contains (record { frame_id = frame_id; packet = id }) r.queued_repairs))
      _ r (λ _. pushed frame_id count id r)
      (λ off. record {
        has = λ low. in_already (ltb id count) _ off (lt→ltb id count low);
        keeps = λ k h. h;
        grows = omega arith;
      })

enqueue-keeps :
    (frame_id count : ℕ) (ids : List ℕ) (r : Repairs) (k : Key)
    → contains k r.queued_repairs ≡ true
    → contains k (enqueue frame_id count ids r).queued_repairs ≡ true
unfolding enqueue
enqueue-keeps frame_id count [] r k h = h
enqueue-keeps frame_id count (id ∷ ids) r k h =
    if-holds (λ (r' : Repairs). contains k r'.queued_repairs ≡ true)
      (leb max_repair_queue (length r.repair_queue)) r _ (λ _. h)
      (λ _. enqueue-keeps frame_id count ids _ k ((round frame_id count id r).keeps k h))

full : (n m : ℕ) → leb max_repair_queue n ≡ true → n + suc m ≤ max_repair_queue → ⊥
full n m h k = ground arith

either : (a b : Bool) → (a || b) ≡ true → b ≡ false → a ≡ true
either a b h k = ground arith

false-true : false ≡ true → ⊥
false-true h = cc

of_same :
    (frame_id : ℕ) {id x : ℕ} (set : List Key)
    → id ≡ x
    → contains (record { frame_id = frame_id; packet = x }) set ≡ true
    → contains (record { frame_id = frame_id; packet = id }) set ≡ true
of_same frame_id set e h =
    ap (λ (y : ℕ). contains (record { frame_id = frame_id; packet = y }) set) e ∙ h

enqueue-covers :
    (frame_id count : ℕ) (ids : List ℕ) (r : Repairs) (id : ℕ)
    → mem id ids ≡ true
    → id < count
    → length r.repair_queue + length ids ≤ max_repair_queue
    → contains
        (record { frame_id = frame_id; packet = id })
        (enqueue frame_id count ids r).queued_repairs
      ≡ true
unfolding enqueue
enqueue-covers frame_id count [] r id m low room = absurd (false-true m)
enqueue-covers frame_id count (x ∷ xs) r id m low room =
    if-holds
      (λ (r' : Repairs).
        contains (record { frame_id = frame_id; packet = id }) r'.queued_repairs ≡ true)
      (leb max_repair_queue (length r.repair_queue)) r _ (λ over. absurd (full _ _ over room))
      (λ _. elim (Bool-cases (mem id xs)) [
        | inl later ↦
            enqueue-covers frame_id count xs _ id later low
              (omega (arith, (round frame_id count x r).grows))
        | inr not_later ↦
            let same : id ≡ x = (==_iff id x).0 (either (id == x) (mem id xs) m not_later) in
            enqueue-keeps frame_id count xs _ _
              (of_same frame_id _ same ((round frame_id count x r).has (omega (arith, same))))
      ])

-- The request is for the whole frame, or covers the packet.
abbrev pub Asks : Nack → ℕ → Type 0
Asks nack id = (nack.packet_id ≡ 0xffff) ⊎ (covers nack id ≡ true)

-- As many packets as a request can name of a frame: nine, or all for a whole frame.
abbrev pub demand : Nack → ℕ → ℕ
demand nack count = if nack.packet_id == 0xffff then count else 9

mem-indices : (id from n : ℕ) → from ≤ id → id < from + n → mem id (indices from n) ≡ true
mem-indices id from zero h k = absurd (omega (arith, h, k))
mem-indices id from (suc n) h k = elim (Bool-cases (id == from)) [
  | inl t ↦ rw t refl
  | inr f ↦
      rw f (mem-indices id (suc from) n (omega (arith, h, differs id from f)) (omega (arith, k)))
]
  where
    differs : (a b : ℕ) → (a == b) ≡ false → a ≢ b
    differs a b h = ground arith

length-indices : (from n : ℕ) → length (indices from n) ≡ n
length-indices from zero = refl
length-indices from (suc n) = ap suc (length-indices (suc from) n)

-- What is wanted is what the request asks for, and no more than it can name.
record Wanted (nack : Nack) (count id : ℕ) : Type 0 where
  listed : Asks nack id → id < count → mem id (wanted_ids nack count) ≡ true
  few : length (wanted_ids nack count) ≤ demand nack count

wanted_by :
    (nack : Nack) (count : ℕ) (o : Option (List ℕ))
    → packet_ids nack ≡ o
    → wanted_ids nack count ≡ elim o as (λ _. List ℕ) [ none ↦ indices 0 count | some ids ↦ ids ]
unfolding wanted_ids
wanted_by nack count o e =
    ap (λ o. elim o as (λ _. List ℕ) [ none ↦ indices 0 count | some ids ↦ ids ]) e

wanted : (nack : Nack) (count id : ℕ) → IsByte nack.bitmask → Wanted nack count id
wanted nack count id byte = elim (Bool-cases (nack.packet_id == 0xffff)) [
  | inl t ↦
      let whole = (packet_ids-covers nack id byte).0 ((==_iff nack.packet_id 0xffff).0 t) in
      let all = wanted_by nack count none whole in
      record {
        listed =
            λ _ low. ap (mem id) all ∙ mem-indices id 0 count (omega arith) (omega (arith, low));
        few = rw (all, t) (omega (arith, length-indices 0 count));
      }
  | inr f ↦
      let ne = differs nack.packet_id 0xffff f in
      let (ids, e, m, small) = (packet_ids-covers nack id byte).1 ne in
      let given = wanted_by nack count (some ids) e in
      record { listed = λ a _. ap (mem id) given ∙ (m ∙ asked ne a); few = rw (given, f) small }
]
  where
    differs : (a b : ℕ) → (a == b) ≡ false → a ≢ b
    differs a b h = ground arith

    asked : nack.packet_id ≢ 0xffff → Asks nack id → covers nack id ≡ true
    asked ne (inl e) = absurd (ne e)
    asked ne (inr c) = c

-- While the queue has room for all that a request can name of a frame, every packet that the request
-- covers, by its id or its bitmask, or any packet if it is for the whole frame, waits to be resent,
-- where the frame is kept and not acknowledged.
pub serve-covers :
    (history : List HistoryEntry) (acknowledged : ℤ) (nack : Nack) (e : HistoryEntry)
    (id expired : ℕ) (r : Repairs)
    → IsValid r
    → find_wire nack.frame_id history ≡ some e
    → ltb_ℤ acknowledged (pos e.frame_id) ≡ true
    → IsByte nack.bitmask
    → Asks nack id
    → id < length e.packets
    → length r.repair_queue + demand nack (length e.packets) ≤ max_repair_queue
    → contains
        (record { frame_id = e.frame_id; packet = id })
        (serve history acknowledged nack (expired, r)).1.repair_queue
      ≡ true
unfolding serve
serve-covers history acknowledged nack e id expired r v found unacked byte asks low room =
    rw found (
      sym (
        (serve_found-IsValid acknowledged nack (some e) expired r v).in_step
          (record { frame_id = e.frame_id; packet = id }))
      ∙ rw (serve_found, unacked)
          (enqueue-covers e.frame_id (length e.packets) (wanted_ids nack (length e.packets)) r id
            ((wanted nack (length e.packets) id byte).listed asks low) low
            (omega (arith, room, (wanted nack (length e.packets) id byte).few))))
