-- ===== src/Cast/Worker/Verdict.antt =====
-- The outcome that worker.rs gives a session.
use big_net_screen.Base.{
  ℕ, zero, suc, ap, sym, ◌∙◌, ◌+◌, ◌-◌, ◌%◌, ◌^◌, ◌≤◌, ◌<◌, ◌≡◌, refl, Bool, true, false, Option,
  none, some, List, [], ◌∷◌, ◌==◌, if◌then◌else◌, length, arith,
}
use big_net_screen.Cast.Worker.{
  Finish, ok, err, new, finish, track_ended, Return, failed, over, reports,
}

abbrev pub first_failure : List Return → Option ℕ
first_failure [] = none
first_failure (failed e ∷ rs) = some e
first_failure (over ∷ rs) = first_failure rs

abbrev finish_of : Bool → Option ℕ → Option Finish
finish_of all (some e) = some (err e)
finish_of all none = if all then some ok else none

-- The first failure, or success once every one of `tracks` is over.
abbrev pub verdict : ℕ → List Return → Option Finish
verdict tracks rs = finish_of (length rs == tracks) (first_failure rs)

same {ℓ} : {A : Type ℓ} (b : Bool) (x : A) → (if b then x else x) ≡ x
same true x = refl
same false x = refl

closed :
    (rs : List Return) (n : ℕ) (f : Finish)
    → (reports rs record { outcome = false; running = n; finished = some f }).finished ≡ some f
unfolding reports track_ended finish
closed [] n f = refl
closed (failed e ∷ rs) n f = closed rs n f
closed (over ∷ rs) n f =
    ap (λ s. (reports rs s).finished) (same (n == 1) _) ∙ closed rs ((n + (2 ^ 64 - 1)) % 2 ^ 64) f

count_down : (n : ℕ) → suc n < 2 ^ 64 → (suc n + (2 ^ 64 - 1)) % 2 ^ 64 ≡ n
count_down n fits = omega arith

-- The return of the last thread, and of one before it.
ended-last : track_ended (new 1) ≡ record { outcome = false; running = 0; finished = some ok }
unfolding track_ended finish new
ended-last = refl

ended-before : (n : ℕ) → suc (suc n) < 2 ^ 64 → track_ended (new (suc (suc n))) ≡ new (suc n)
unfolding track_ended finish new
ended-before n fits =
    let e : (suc (suc n) == 1) ≡ false = ground arith in
    let d = count_down (suc n) fits in rw (e, d)

one_less : (k n : ℕ) → (suc k == suc n) ≡ (k == n)
one_less k n = ground arith

-- While no more threads have returned than there are tracks, a session's outcome is the first
-- failure that a thread reported; it is success if all of them returned without one, and there is
-- none otherwise. A session has a track at least, and below 2 ^ 64.
pub reports-verdict :
    (tracks : ℕ) (rs : List Return)
    → 1 ≤ tracks
    → tracks < 2 ^ 64
    → length rs ≤ tracks
    → (reports rs (new tracks)).finished ≡ verdict tracks rs
unfolding reports new finish
reports-verdict tracks [] some_track fits enough = ground arith
reports-verdict tracks (failed e ∷ rs) some_track fits enough = closed rs tracks (err e)
reports-verdict zero (over ∷ rs) some_track fits enough = ground arith
reports-verdict (suc zero) (over ∷ []) some_track fits enough = ap (λ s. s.finished) ended-last
reports-verdict (suc zero) (over ∷ r ∷ rs) some_track fits enough = ground arith
reports-verdict (suc (suc n)) (over ∷ rs) some_track fits enough =
    ap (λ s. (reports rs s).finished) (ended-before n fits)
    ∙ reports-verdict (suc n) rs (omega arith) (omega arith) (omega arith)
    ∙ ap (λ all. finish_of all (first_failure rs)) (sym (one_less (length rs) (suc n)))
