-- ===== src/Cast/Sender/History/Find.antt =====
-- The search of sender.rs for the frame that a request names by its low byte.
use big_net_screen.Base.{
  ℕ, suc, ◌+◌, ◌-◌, ◌%◌, ◌≤◌, ◌<◌, ◌≡◌, inl, inr, false, some, List, [], ◌∷◌, length, ◌==◌, arith,
  sym, ==_refl,
}
use mathlib.Core.Path.{subst}
use big_net_screen.Cast.Sender.History.{HistoryEntry, find_wire}
use big_net_screen.Cast.Sender.History.Window.{Consecutive, IsWindow, Has, Has-range}

other : (x id : ℕ) → x < id → id < x + 256 → (x % 256 == id % 256) ≡ false
other x id low high = ground arith

first_found :
    (x : HistoryEntry) (xs : List HistoryEntry) → find_wire (x.frame_id % 256) (x ∷ xs) ≡ some x
unfolding find_wire
first_found x xs = rw (==_refl (x.frame_id % 256))

-- In such a window a low byte names one frame: the search by the wire id finds the very frame that
-- the receiver means.
pub find_wire-Has :
    (next : ℕ) (e : HistoryEntry) (history : List HistoryEntry)
    → IsWindow next history
    → Has e history
    → find_wire (e.frame_id % 256) history ≡ some e
unfolding find_wire
find_wire-Has next e history w h =
    search (next - length history) history w.consecutive (omega (arith, w.small)) h
  where
    search :
        (first : ℕ) (entries : List HistoryEntry)
        → Consecutive first entries
        → length entries ≤ 256
        → Has e entries
        → find_wire (e.frame_id % 256) entries ≡ some e
    search first [] c small h = absurd h
    search first (x ∷ xs) c small (inl same) =
        subst (λ (y : HistoryEntry). find_wire (y.frame_id % 256) (x ∷ xs) ≡ some y) (sym same)
          (first_found x xs)
    search first (x ∷ xs) c small (inr later) =
        let (low, high) = Has-range (suc first) e xs c.1 later in
        rw (other x.frame_id e.frame_id (omega (arith, c.0)) (omega (arith, c.0)))
          (search (suc first) xs c.1 (omega arith) later)
