-- ===== src/Core/Http/Bounded.antt =====
-- How http.rs reads a request.
use big_net_screen.Base.{
  ℕ, ◌+◌, ◌≤◌, ◌≡◌, ◌≢◌, sym, ◌∙◌, Bool, true, false, not, none, some, List, [], ◌∷◌, ◌++◌,
  append_assoc, length, length-append, ltb, if-holds, arith, Option-cases, inl, inr,
}
use big_net_screen.Core.Http.{
  max_request_bytes, request_line, Arrival, bytes, expired, broken, Reading, request, too_slow,
  lost, incomplete, too_large, bad_encoding, malformed, waiting, has_end, complete, finish,
  read_from, read_request,
}

-- The bytes that arrive.
abbrev pub received : List Arrival → List ℕ
received [] = []
received (bytes chunk ∷ more) = chunk ++ received more
received (_ ∷ more) = []

abbrev pub IsPrefix : List ℕ → List ℕ → Type 0
IsPrefix xs ys = (rest : List ℕ) × (ys ≡ xs ++ rest)

-- What a reading after `buffer` may be: a request that fits, that ends as requests do and that is
-- read, from the first bytes that arrive; or a wait for more, while each arrival brought a byte at
-- least and all fit; or a refusal.
abbrev pub IsBounded : List ℕ → List Arrival → Reading → Type 0
IsBounded buffer arrivals (request q) =
    (length q ≤ max_request_bytes)
    × (has_end q ≡ true)
    × (request_line q ≢ none)
    × IsPrefix q (buffer ++ received arrivals)
IsBounded buffer arrivals waiting =
    (length buffer ≤ max_request_bytes) → length buffer + length arrivals ≤ max_request_bytes
IsBounded buffer arrivals _ = Unit

ltb_false→le : (a b : ℕ) → ltb a b ≡ false → b ≤ a
ltb_false→le a b h = ground arith

module _ (from_utf8 : List ℕ → Bool) where
  finish-IsBounded :
      (q : List ℕ) (buffer : List ℕ) (arrivals : List Arrival)
      → length q ≤ max_request_bytes
      → has_end q ≡ true
      → IsPrefix q (buffer ++ received arrivals)
      → IsBounded buffer arrivals (finish from_utf8 q)
  finish-IsBounded q buffer arrivals le e p =
      if-holds (IsBounded buffer arrivals) (not (from_utf8 q)) bad_encoding
        (complete from_utf8 q (request_line q)) (λ _. tt)
        (λ _. elim (Option-cases (request_line q)) [
          | inl n ↦ rw n tt
          | inr (a, s) ↦ rw s (le, e, λ n. absurd (some_none (rw s at n)), p)
        ])
    where
      some_none : {a : List ℕ × List ℕ} → some a ≡ none → ⊥
      some_none e = cc

  -- A chunk that fits goes to the buffer.
  later :
      (c : ℕ) (buffer chunk : List ℕ) (more : List Arrival) (r : Reading)
      → length (buffer ++ (c ∷ chunk)) ≤ max_request_bytes
      → IsBounded (buffer ++ (c ∷ chunk)) more r
      → IsBounded buffer (bytes (c ∷ chunk) ∷ more) r
  later c buffer chunk more (request q) le (a, b, n, (rest, e)) =
      (a, b, n, (rest, sym (append_assoc buffer (c ∷ chunk) (received more)) ∙ e))
  later c buffer chunk more waiting le h =
      λ _. omega (arith, h le, length-append buffer (c ∷ chunk))
  later c buffer chunk more too_slow le h = tt
  later c buffer chunk more lost le h = tt
  later c buffer chunk more incomplete le h = tt
  later c buffer chunk more too_large le h = tt
  later c buffer chunk more bad_encoding le h = tt
  later c buffer chunk more malformed le h = tt

  read_from-IsBounded :
      (arrivals : List Arrival) (buffer : List ℕ)
      → IsBounded buffer arrivals (read_from from_utf8 arrivals buffer)
  unfolding read_from
  read_from-IsBounded [] buffer = λ h. omega arith
  read_from-IsBounded (expired ∷ more) buffer = tt
  read_from-IsBounded (broken ∷ more) buffer = tt
  read_from-IsBounded (bytes [] ∷ more) buffer = tt
  read_from-IsBounded (bytes (c ∷ chunk) ∷ more) buffer =
      let buffer' = (buffer ++ (c ∷ chunk)) in
      let rest = read_from-IsBounded more buffer' in
      let P = IsBounded buffer (bytes (c ∷ chunk) ∷ more) in
      if-holds P (ltb max_request_bytes (length buffer')) too_large _ (λ _. tt)
        (λ f.
          let le = ltb_false→le max_request_bytes (length buffer') f in
          if-holds P (has_end buffer') (finish from_utf8 buffer') (read_from from_utf8 more buffer')
            (λ e.
              finish-IsBounded buffer' buffer (bytes (c ∷ chunk) ∷ more) le e
                (received more, sym (append_assoc buffer (c ∷ chunk) (received more))))
            (λ _. later c buffer chunk more (read_from from_utf8 more buffer') le rest))

-- Whatever arrives and in whatever chunks: a request that is returned is no longer than the limit,
-- ends with an empty line, is one that `request_line` takes, and is made of the first bytes that
-- arrived; and the reader is still waiting only while every arrival brought a byte and all of them
-- fit, so it is done after as many arrivals as the limit has bytes, and one more.
pub read_request-IsBounded :
    (from_utf8 : List ℕ → Bool) (arrivals : List Arrival)
    → IsBounded [] arrivals (read_request from_utf8 arrivals)
unfolding read_request
read_request-IsBounded from_utf8 arrivals = read_from-IsBounded from_utf8 arrivals []
