-- ===== src/Cast/Sender/History/Window.antt =====
-- The history of sender.rs is a window of consecutive frames, and names each of them in one byte.
use big_net_screen.Base.{
  ℕ, suc, ◌+◌, ◌-◌, ◌≤◌, ◌<◌, ◌≡◌, ap, ◌∙◌, ◌⊎◌, inl, inr, Bool, true, false, ◌||◌, List, [], ◌∷◌,
  ◌++◌, length, length-append, ltb, arith, if-holds, sym,
}
use big_net_screen.Base.Int.{ℤ, pos, pos_part, neg_part, ◌≤ℤ◌, ◌+ℤ◌, +ℤ_parts}
use big_net_screen.Cast.Flow.{AckWindow}
use big_net_screen.Cast.Flow.Window.{IsValid}
use mathlib.Core.Path.{subst}
use big_net_screen.Cast.Sender.History.{
  HistoryEntry, retransmit_history_max, is_expired, prune_history, keep,
}

-- The ids are those from `first` on, one each, up to the last frame sent.
abbrev pub Consecutive : ℕ → List HistoryEntry → Type 0
Consecutive first [] = Unit
Consecutive first (e ∷ es) = (e.frame_id ≡ first) × Consecutive (suc first) es

-- What the history is between two frames: `next` is the id of the next one.
pub record IsWindow (next : ℕ) (history : List HistoryEntry) : Type 0 where
  pub small : length history ≤ retransmit_history_max
  pub old : length history ≤ next
  pub consecutive : Consecutive (next - length history) history

-- The entry of a frame is in the history.
abbrev pub Has : HistoryEntry → List HistoryEntry → Type 0
Has e [] = ⊥
Has e (x ∷ xs) = (e ≡ x) ⊎ Has e xs

Consecutive-append :
    (first : ℕ) (history : List HistoryEntry) (e : HistoryEntry)
    → Consecutive first history
    → e.frame_id ≡ first + length history
    → Consecutive first (history ++ (e ∷ []))
Consecutive-append first [] e c h = (omega arith, tt)
Consecutive-append first (x ∷ xs) e c h =
    (c.0, Consecutive-append (suc first) xs e c.1 (omega arith))

record Pruned (end : ℕ) (whole pruned : List HistoryEntry) : Type 0 where
  small : length pruned ≤ retransmit_history_max
  shorter : length pruned ≤ length whole
  consecutive : Consecutive (end - length pruned) pruned

stays :
    (old : Bool) (n : ℕ)
    → (old || ltb retransmit_history_max n) ≡ false
    → (old ≡ false) × (n ≤ retransmit_history_max)
stays old n h = ground arith

goes :
    (old : Bool) (n : ℕ)
    → (old || ltb retransmit_history_max n) ≡ true
    → (old ≡ true) ⊎ (retransmit_history_max < n)
goes old n h = ground arith

-- Pruning drops a prefix.
prune-Pruned :
    (now : ℕ) (acknowledged : ℤ) (first : ℕ) (history : List HistoryEntry)
    → Consecutive first history
    → Pruned (first + length history) history (prune_history now acknowledged history)
unfolding prune_history
prune-Pruned now acknowledged first [] c = record {
  small = omega arith;
  shorter = omega arith;
  consecutive = tt;
}
prune-Pruned now acknowledged first (e ∷ es) c =
    if-holds (Pruned (first + length (e ∷ es)) (e ∷ es))
      (is_expired now acknowledged e || ltb retransmit_history_max (length (e ∷ es))) _ _
      (λ _.
        let p = prune-Pruned now acknowledged (suc first) es c.1 in
        record {
          small = p.small;
          shorter = omega (arith, p.shorter);
          consecutive =
              subst
                (λ (end : ℕ).
                  Consecutive (end - length (prune_history now acknowledged es))
                    (prune_history now acknowledged es))
                (omega arith) p.consecutive;
        })
      (λ h. record {
        small = (stays _ _ h).1;
        shorter = omega arith;
        consecutive = subst (λ (from : ℕ). Consecutive from (e ∷ es)) (omega arith) c;
      })

-- A new frame is kept under its id, and the history stays the window of the last frames: their ids
-- are consecutive and end with the new one, and they are 120 at most.
pub keep-IsWindow :
    (entry : HistoryEntry) (now : ℕ) (acknowledged : ℤ) (history : List HistoryEntry)
    → IsWindow entry.frame_id history
    → IsWindow (suc entry.frame_id) (keep entry now acknowledged history)
unfolding keep
keep-IsWindow entry now acknowledged history w =
    let c =
      Consecutive-append (entry.frame_id - length history) history entry w.consecutive
        (omega (arith, w.old)) in
    let p =
      prune-Pruned now acknowledged (entry.frame_id - length history) (history ++ (entry ∷ [])) c in
    let all : (entry.frame_id - length history) + length (history ++ (entry ∷ []))
        ≡ suc entry.frame_id =
      omega (arith, w.old, length-append history (entry ∷ [])) in
    record {
      small = p.small;
      old = omega (arith, p.shorter, all, w.old, length-append history (entry ∷ []));
      consecutive =
          subst
            (λ (end : ℕ).
              Consecutive (end - length (keep entry now acknowledged history))
                (keep entry now acknowledged history))
            all p.consecutive;
    }

pub Has-range :
    (first : ℕ) (e : HistoryEntry) (history : List HistoryEntry)
    → Consecutive first history
    → Has e history
    → (first ≤ e.frame_id) × (e.frame_id < first + length history)
Has-range first e [] c h = absurd h
Has-range first e (x ∷ xs) c (inl same) =
    let id : e.frame_id ≡ first = ap (λ (y : HistoryEntry). y.frame_id) same ∙ c.0 in
    (omega arith, omega arith)
Has-range first e (x ∷ xs) c (inr later) =
    let (low, high) = Has-range (suc first) e xs c.1 later in (omega arith, omega arith)

not_old :
    (now : ℕ) (acknowledged : ℤ) (e : HistoryEntry)
    → acknowledged +ℤ pos 1 ≤ℤ pos e.frame_id
    → is_expired now acknowledged e ≡ false
unfolding is_expired ◌+ℤ◌
not_old now acknowledged e h = ground arith

true-false : true ≡ false → ⊥
true-false bad = cc

prune-Has :
    (now : ℕ) (acknowledged : ℤ) (first : ℕ) (e : HistoryEntry) (history : List HistoryEntry)
    → Consecutive first history
    → Has e history
    → acknowledged +ℤ pos 1 ≤ℤ pos e.frame_id
    → first + length history ≤ e.frame_id + retransmit_history_max
    → Has e (prune_history now acknowledged history)
unfolding prune_history
prune-Has now acknowledged first e [] c h unacked recent = h
prune-Has now acknowledged first e (x ∷ xs) c h unacked recent =
    if-holds (Has e) (is_expired now acknowledged x || ltb retransmit_history_max (length (x ∷ xs)))
      _ _
      (λ dropped. elim h [
        | inl same ↦ absurd (head same dropped)
        | inr later ↦ prune-Has now acknowledged (suc first) e xs c.1 later unacked (omega arith)
      ])
      (λ _. h)
  where
    head :
        e ≡ x
        → (is_expired now acknowledged x || ltb retransmit_history_max (length (x ∷ xs))) ≡ true
        → ⊥
    head same dropped = elim (goes _ _ dropped) [
      | inl old ↦ true-false (
          sym old
          ∙ ap (is_expired now acknowledged) (sym same)
          ∙ not_old now acknowledged e unacked)
      | inr many ↦
          let id : e.frame_id ≡ first = ap (λ (y : HistoryEntry). y.frame_id) same ∙ c.0 in
          omega arith
    ]

-- While the track keeps inside its window (flow.rs), no frame that the receiver has not
-- acknowledged leaves the history, whatever its age.
pub keep-unacked :
    (entry e : HistoryEntry) (now : ℕ) (w : AckWindow) (history : List HistoryEntry)
    → IsWindow entry.frame_id history
    → IsValid w
    → w.last_sent ≡ pos entry.frame_id
    → Has e (history ++ (entry ∷ []))
    → w.checkpoint +ℤ pos 1 ≤ℤ pos e.frame_id
    → Has e (keep entry now w.checkpoint history)
unfolding keep
keep-unacked entry e now w history v valid last h unacked =
    prune-Has now w.checkpoint (entry.frame_id - length history) e (history ++ (entry ∷ []))
      (Consecutive-append (entry.frame_id - length history) history entry v.consecutive
        (omega (arith, v.old)))
      h unacked
      (recent_enough entry.frame_id e.frame_id (length history) (length (history ++ (entry ∷ []))) w
        last valid unacked v.old (length-append history (entry ∷ [])))
  where
    recent_enough :
        (next id len all : ℕ) (w : AckWindow)
        → w.last_sent ≡ pos next
        → IsValid w
        → w.checkpoint +ℤ pos 1 ≤ℤ pos id
        → len ≤ next
        → all ≡ len + 1
        → next - len + all ≤ id + retransmit_history_max
    recent_enough next id len all w last valid unacked old e =
        let b : neg_part w.checkpoint + next ≤ pos_part w.checkpoint + retransmit_history_max =
          rw (← ap pos_part last) valid.bounded in
        omega (arith, +ℤ_parts w.checkpoint (pos 1))
