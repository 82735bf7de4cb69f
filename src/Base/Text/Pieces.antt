-- ===== src/Base/Text/Pieces.antt =====
-- What holds of every byte of a text holds of the bytes of its pieces.
use Prim.Native.Nat.{ℕ}
use mathlib.Core.Bool.{true, false}
use mathlib.Core.Option.{Option, none, some}
use mathlib.Core.List.{List, [], ◌∷◌}
use big_net_screen.Base.Lists.{All}
use big_net_screen.Base.Tests.{◌==◌, if-holds}
use big_net_screen.Base.Text.{same_bytes, push, split, is_crlf, split_crlf, strip_suffix, kept}

abbrev pub OfSome {ℓ} : {A : Type ℓ} → (A → Type 0) → Option A → Type 0
OfSome P none = Unit
OfSome P (some a) = P a

module _ (P : ℕ → Type 0) where
  push-All : (c : ℕ) (ls : List (List ℕ)) → P c → All (All P) ls → All (All P) (push c ls)
  push-All c [] p h = ((p, tt), tt)
  push-All c (l ∷ ls) p h = ((p, h.0), h.1)

  pub split-All : (sep : ℕ) (xs : List ℕ) → All P xs → All (All P) (split sep xs)
  split-All sep [] h = (tt, tt)
  split-All sep (x ∷ xs) h =
      let rest = split-All sep xs h.1 in
      if-holds (All (All P)) (x == sep) ([] ∷ split sep xs) (push x (split sep xs))
        (λ _. (tt, rest)) (λ _. push-All x (split sep xs) h.0 rest)

  pub split_crlf-All : (xs : List ℕ) → All P xs → All (All P) (split_crlf xs)
  unfolding split_crlf
  split_crlf-All [] h = (tt, tt)
  split_crlf-All (a ∷ []) h = ((h.0, tt), tt)
  split_crlf-All (a ∷ b ∷ xs) h =
      elim (is_crlf a b)
        as (λ t. All (All P) (elim t as (λ _. List (List ℕ)) [
          | true ↦ [] ∷ split_crlf xs
          | false ↦ push a (split_crlf (b ∷ xs))
        ])) [
          | true ↦ (tt, split_crlf-All xs h.1.1)
          | false ↦ push-All a (split_crlf (b ∷ xs)) h.0 (split_crlf-All (b ∷ xs) h.1)
        ]

  kept-All : (c : ℕ) (o : Option (List ℕ)) → P c → OfSome (All P) o → OfSome (All P) (kept c o)
  kept-All c none p h = tt
  kept-All c (some cs) p h = (p, h)

  pub strip_suffix-All : (suffix xs : List ℕ) → All P xs → OfSome (All P) (strip_suffix suffix xs)
  unfolding strip_suffix
  strip_suffix-All suffix [] h =
      if-holds (OfSome (All P)) (same_bytes suffix []) (some []) none (λ _. tt) (λ _. tt)
  strip_suffix-All suffix (x ∷ xs) h =
      let rest = kept-All x (strip_suffix suffix xs) h.0 (strip_suffix-All suffix xs h.1) in
      if-holds (OfSome (All P)) (same_bytes suffix (x ∷ xs)) (some [])
        (kept x (strip_suffix suffix xs)) (λ _. tt) (λ _. rest)
