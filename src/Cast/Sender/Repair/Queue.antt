-- ===== src/Cast/Sender/Repair/Queue.antt =====
-- The repair queue of sender.rs and the set beside it.
use big_net_screen.Base.{
  ℕ, ◌≤◌, ◌<◌, ◌≡◌, refl, sym, ap, ◌∙◌, Bool, true, false, not, ◌&&◌, ◌||◌, Option, none, some,
  List, [], ◌∷◌, ◌++◌, length, length-append, ltb, leb, arith, if-holds, Bool-cases, inl, inr,
}
use big_net_screen.Base.Int.{ℤ, pos, ltb_ℤ}
use big_net_screen.Cast.Sender.History.{HistoryEntry, find_wire}
use big_net_screen.Cast.Rtcp.Feedback.{Nack}
use big_net_screen.Cast.Sender.Repair.{
  Key, Repairs, same_key, contains, remove, push, enqueue, serve_found, serve, serve_all,
  max_repair_queue,
}

abbrev pub Distinct : List Key → Type 0
Distinct [] = Unit
Distinct (k ∷ ks) = (contains k ks ≡ false) × Distinct ks

-- A packet waits once, the set holds the packets that wait, and they are no more than the cap.
pub record IsValid (r : Repairs) : Type 0 where
  pub distinct : Distinct r.repair_queue
  pub in_step : (k : Key) → contains k r.queued_repairs ≡ contains k r.repair_queue
  pub bounded : length r.repair_queue ≤ max_repair_queue

pub same_key-eq : (a b : Key) → same_key a b ≡ true → a ≡ b
same_key-eq a b h = ground arith

same_key_sym : (a b : Key) → same_key a b ≡ same_key b a
same_key_sym a b = ground arith

or_false : (a b : Bool) → (a || b) ≡ false → (a ≡ false) × (b ≡ false)
or_false a b h = ground arith

or_assoc : (a b c : Bool) → (a || (b || c)) ≡ ((a || b) || c)
or_assoc a b c = ground arith

or_comm : (a b : Bool) → (a || b) ≡ (b || a)
or_comm a b = ground arith

contains-append :
    (k x : Key) (xs : List Key) → contains k (xs ++ (x ∷ [])) ≡ (contains k xs || same_key k x)
unfolding contains
contains-append k x [] = or_comm (same_key k x) false
contains-append k x (y ∷ ys) =
    ap (λ b. same_key k y || b) (contains-append k x ys)
    ∙ or_assoc (same_key k y) (contains k ys) (same_key k x)

Distinct-append :
    (x : Key) (xs : List Key) → Distinct xs → contains x xs ≡ false → Distinct (xs ++ (x ∷ []))
unfolding contains
Distinct-append x [] d h = (refl, tt)
Distinct-append x (y ∷ ys) d h =
    let (ne, h') = or_false (same_key x y) (contains x ys) h in
    (contains-append y x ys ∙ rw (d.0, same_key_sym y x) ne, Distinct-append x ys d.1 h')

push-IsValid :
    (key : Key) (r : Repairs)
    → IsValid r
    → contains key r.queued_repairs ≡ false
    → length r.repair_queue < max_repair_queue
    → IsValid (push key r)
unfolding push contains
push-IsValid key r v new room = record {
  distinct = Distinct-append key r.repair_queue v.distinct (sym (v.in_step key) ∙ new);
  in_step = λ k.
      ap (λ b. same_key k key || b) (v.in_step k)
      ∙ or_comm (same_key k key) (contains k r.repair_queue)
      ∙ sym (contains-append k key r.repair_queue);
  bounded = omega (arith, length-append r.repair_queue (key ∷ []));
}

new_key : (a b : Bool) → (a && not b) ≡ true → b ≡ false
new_key a b h = ground arith

enqueue-IsValid :
    (frame_id count : ℕ) (ids : List ℕ) (r : Repairs)
    → IsValid r
    → IsValid (enqueue frame_id count ids r)
unfolding enqueue
enqueue-IsValid frame_id count [] r v = v
enqueue-IsValid frame_id count (id ∷ ids) r v =
    if-holds IsValid (leb max_repair_queue (length r.repair_queue)) r _ (λ _. v)
      (λ room. enqueue-IsValid frame_id count ids _ (
        if-holds IsValid
          (ltb id count
            && not (contains (record { frame_id = frame_id; packet = id }) r.queued_repairs))
          _ r
          (λ new.
            push-IsValid (record { frame_id = frame_id; packet = id }) r v (new_key _ _ new)
              (below _ room))
          (λ _. v)))
  where
    below : (n : ℕ) → leb max_repair_queue n ≡ false → n < max_repair_queue
    below n h = ground arith

pub serve_found-IsValid :
    (acknowledged : ℤ) (nack : Nack) (o : Option HistoryEntry) (expired : ℕ) (r : Repairs)
    → IsValid r
    → IsValid (serve_found acknowledged nack o (expired, r)).1
unfolding serve_found
serve_found-IsValid acknowledged nack none expired r v = v
serve_found-IsValid acknowledged nack (some e) expired r v =
    if-holds (λ (s : ℕ × Repairs). IsValid s.1) (not (ltb_ℤ acknowledged (pos e.frame_id)))
      (expired, r) _ (λ _. v) (λ _. enqueue-IsValid _ _ _ r v)

pub serve_all-IsValid :
    (history : List HistoryEntry) (acknowledged : ℤ) (nacks : List Nack) (expired : ℕ) (r : Repairs)
    → IsValid r
    → IsValid (serve_all history acknowledged nacks (expired, r)).1
unfolding serve_all serve
serve_all-IsValid history acknowledged [] expired r v = v
serve_all-IsValid history acknowledged (nack ∷ nacks) expired r v =
    serve_all-IsValid history acknowledged nacks _ _
      (serve_found-IsValid acknowledged nack (find_wire nack.frame_id history) expired r v)

gone : (c s : Bool) → (c && not s) ≡ ((s || c) && not s)
gone c s = ground arith

stays : (a c s : Bool) → (a ≡ true → s ≡ false) → (a || (c && not s)) ≡ ((a || c) && not s)
stays a c s h = ground arith

contains-remove :
    (k key : Key) (xs : List Key)
    → contains k (remove key xs) ≡ (contains k xs && not (same_key k key))
unfolding contains remove
contains-remove k key [] = refl
contains-remove k key (x ∷ xs) = elim (Bool-cases (same_key key x)) [
  | inl t ↦
      rw t (contains-remove k key xs)
      ∙ gone (contains k xs) (same_key k key)
      ∙ ap (λ y. (same_key k y || contains k xs) && not (same_key k key)) (same_key-eq key x t)
  | inr f ↦
      rw (f, contains, contains-remove k key xs)
        (stays (same_key k x) (contains k xs) (same_key k key)
          λ e. ap (λ y. same_key y key) (same_key-eq k x e) ∙ same_key_sym x key ∙ f)
]

out : (s c : Bool) → (s ≡ true → c ≡ false) → ((s || c) && not s) ≡ c
out s c h = ground arith

-- The head of the queue leaves both.
pub pop-IsValid :
    (key : Key) (queue set : List Key)
    → IsValid (record { repair_queue = key ∷ queue; queued_repairs = set })
    → IsValid (record { repair_queue = queue; queued_repairs = remove key set })
unfolding contains
pop-IsValid key queue set v = record {
  distinct = v.distinct.1;
  in_step = λ k.
      contains-remove k key set
      ∙ ap (λ b. b && not (same_key k key)) (v.in_step k)
      ∙ out (same_key k key) (contains k queue)
          (λ e. ap (λ y. contains y queue) (same_key-eq k key e) ∙ v.distinct.0);
  bounded = omega (arith, v.bounded);
}
