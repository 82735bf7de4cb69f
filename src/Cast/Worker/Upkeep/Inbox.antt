-- ===== src/Cast/Worker/Upkeep/Inbox.antt =====
-- The requests that a turn of worker.rs takes from its inbox.
use big_net_screen.Base.{
  ℕ, ◌+◌, ◌≤◌, ◌<◌, ◌≡◌, ◌≢◌, refl, ◌∙◌, true, false, List, [], ◌∷◌, ◌++◌, append_assoc, length,
  length-append, ltb, if-holds, All, arith,
}
use big_net_screen.Cast.Rtcp.Feedback.{Nack}
use big_net_screen.Cast.Worker.Upkeep.{max_nacks_per_turn, take_batches}

abbrev pub joined : List (List Nack) → List Nack
joined [] = []
joined (nacks ∷ inbox) = nacks ++ joined inbox

-- Of the requests there were, `taken` are taken and the others left.
pub record IsSplit (size : ℕ) (there : List Nack) (r : List Nack × List (List Nack)) : Type 0 where
  pub whole : r.0 ++ joined r.1 ≡ there
  pub bounded : length r.0 ≤ max_nacks_per_turn + size
  pub eager : r.1 ≢ [] → max_nacks_per_turn < length r.0

-- A turn takes the requests in their order and loses none: it empties the inbox, or takes more than
-- 256 of them; and it takes at most 256 and the entries of one batch.
pub take_batches-IsSplit :
    (size : ℕ) (inbox : List (List Nack)) (pending : List Nack)
    → All (λ nacks. length nacks ≤ size) inbox
    → length pending ≤ max_nacks_per_turn
    → IsSplit size (pending ++ joined inbox) (take_batches inbox pending)
unfolding take_batches
take_batches-IsSplit size [] pending h k = record {
  whole = refl;
  bounded = omega (arith, k);
  eager = λ n. absurd (n refl);
}
take_batches-IsSplit size (nacks ∷ inbox) pending h k =
    if-holds (IsSplit size (pending ++ (nacks ++ joined inbox)))
      (ltb max_nacks_per_turn (length (pending ++ nacks))) (pending ++ nacks, inbox)
      (take_batches inbox (pending ++ nacks))
      (λ t. record {
        whole = append_assoc pending nacks (joined inbox);
        bounded = omega (arith, k, h.0, length-append pending nacks);
        eager = λ _. above (length (pending ++ nacks)) t;
      })
      (λ f.
        let i =
          take_batches-IsSplit size inbox (pending ++ nacks) h.1
            (below (length (pending ++ nacks)) f) in
        record {
          whole = i.whole ∙ append_assoc pending nacks (joined inbox);
          bounded = i.bounded;
          eager = i.eager;
        })
  where
    above : (n : ℕ) → ltb max_nacks_per_turn n ≡ true → max_nacks_per_turn < n
    above n h = ground arith

    below : (n : ℕ) → ltb max_nacks_per_turn n ≡ false → n ≤ max_nacks_per_turn
    below n h = ground arith
