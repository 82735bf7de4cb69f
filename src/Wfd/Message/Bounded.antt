-- ===== src/Wfd/Message/Bounded.antt =====
-- The limits of message.rs on what a peer may send.
use big_net_screen.Base.{
  ℕ, zero, suc, ◌+◌, ◌-◌, ◌^◌, ◌≤◌, ◌≡◌, ◌≢◌, refl, Bool, true, false, Option, none, some, List, [],
  ◌∷◌, map, length, length-append, length-take, leb, ltb, if-holds, arith,
}
use big_net_screen.Base.Text.{codes, to_ascii_lowercase, trim, trim_end, split_once}
use big_net_screen.Base.Text.Numbers.{from_str_radix}
use big_net_screen.Wfd.Message.{
  max_body_bytes, max_head_bytes, max_headers, Headers, RtspMessage, Read, got, failed, ◌>>=◌,
  duplicate_header, too_many_headers, lookup, read_exact, text_of, bounded_line, insert,
  read_headers, read_body, body_after, after_start, read_message,
}

-- What is read, if anything, has the property.
abbrev pub Reads : {A : Type 0} → (A → Type 0) → Read A → Type 0
Reads P (got a rest) = P a
Reads P (failed why) = Unit

bind-Reads :
    {A B : Type 0} (P : A → Type 0) (Q : B → Type 0) (r : Read A) (f : A → List (List ℕ) → Read B)
    → Reads P r
    → ((a : A) (rest : List (List ℕ)) → P a → Reads Q (f a rest))
    → Reads Q (r >>= f)
bind-Reads P Q (got a rest) f h k = k a rest h
bind-Reads P Q (failed why) f h k = tt

any-Reads : {A : Type 0} (r : Read A) → Reads (λ _. Unit) r
any-Reads (got a rest) = tt
any-Reads (failed why) = tt

-- No two headers have the same name.
abbrev pub AreDistinct : Headers → Type 0
AreDistinct [] = Unit
AreDistinct ((key, value) ∷ headers) = (lookup key headers ≡ none) × AreDistinct headers

pub record IsBounded (msg : RtspMessage) : Type 0 where
  pub starts : msg.start_line ≢ []
  pub few : length msg.headers ≤ max_headers
  pub distinct : AreDistinct msg.headers
  pub short : length msg.body ≤ max_body_bytes

abbrev Fit : Headers → Type 0
Fit headers = (length headers ≤ max_headers) × AreDistinct headers

module _ (is_utf8 : List ℕ → Bool) where
  insert-Reads :
      (headers : Headers) (pair : Option (List ℕ × List ℕ))
      → AreDistinct headers
      → Reads (λ h. (length h ≡ suc (length headers)) × AreDistinct h) (insert is_utf8 headers pair)
  insert-Reads headers none d = tt
  insert-Reads headers (some (key, value)) d =
      step (map to_ascii_lowercase (trim key)) (trim value)
        (lookup (map to_ascii_lowercase (trim key)) headers) refl
    where
      step :
          (name v : List ℕ) (o : Option (List ℕ))
          → lookup name headers ≡ o
          → Reads
              (λ h. (length h ≡ suc (length headers)) × AreDistinct h)
              (elim o [ some _ ↦ failed duplicate_header | none ↦ got ((name, v) ∷ headers) [] ])
      step name v none e = (refl, (e, d))
      step name v (some w) e = tt

  last_line-Reads :
      (headers : Headers) (line : List ℕ) (rest : List (List ℕ))
      → Fit headers
      → Reads Fit (elim line [ [] ↦ got headers rest | _ ∷ _ ↦ failed too_many_headers ])
  last_line-Reads headers [] rest h = h
  last_line-Reads headers (c ∷ cs) rest h = tt

  header_line-Reads :
      (headers : Headers) (line : List ℕ) (rest : List (List ℕ)) (more : Headers → Read Headers)
      → Fit headers
      → ((h : Headers) → (length h ≡ suc (length headers)) × AreDistinct h → Reads Fit (more h))
      → Reads Fit (elim line [
        | [] ↦ got headers rest
        | c ∷ cs ↦ insert is_utf8 headers (split_once b':' (c ∷ cs)) >>= λ h _. more h
      ])
  header_line-Reads headers [] rest more f k = f
  header_line-Reads headers (c ∷ cs) rest more f k =
      bind-Reads (λ h. (length h ≡ suc (length headers)) × AreDistinct h) Fit
        (insert is_utf8 headers (split_once b':' (c ∷ cs))) _
        (insert-Reads headers (split_once b':' (c ∷ cs)) f.1) (λ h _ p. k h p)

  read_headers-Reads :
      (room : ℕ) (headers : Headers) (chunks : List (List ℕ)) (budget : ℕ)
      → length headers + room ≡ max_headers
      → AreDistinct headers
      → Reads Fit (read_headers is_utf8 room headers chunks budget)
  unfolding read_headers
  read_headers-Reads zero headers chunks budget n d =
      bind-Reads (λ _. Unit) Fit (bounded_line is_utf8 chunks budget) _ (any-Reads _)
        (λ r rest _. last_line-Reads headers (trim_end r.0) rest (omega (arith, n), d))
  read_headers-Reads (suc room) headers chunks budget n d =
      bind-Reads (λ _. Unit) Fit (bounded_line is_utf8 chunks budget) _ (any-Reads _)
        (λ r rest _.
          header_line-Reads headers (trim_end r.0) rest (λ h. read_headers is_utf8 room h rest r.1)
            (omega (arith, n), d)
            (λ h p. read_headers-Reads room h rest r.1 (omega (arith, n, p.0)) p.1))

  read_exact-Reads :
      (n : ℕ) (chunks : List (List ℕ)) → Reads (λ bytes. length bytes ≡ n) (read_exact n chunks)
  unfolding read_exact
  read_exact-Reads zero chunks = refl
  read_exact-Reads (suc n) [] = tt
  read_exact-Reads (suc n) ([] ∷ chunks) = tt
  read_exact-Reads (suc n) ((b ∷ bytes) ∷ chunks) =
      let c = b ∷ bytes in
      if-holds (Reads (λ l. length l ≡ suc n)) (leb (suc n) (length c)) _ _
        (λ t. omega (arith, length-take (suc n) c, within (suc n) (length c) t))
        (λ f.
          bind-Reads (λ l. length l ≡ suc n - length c) (λ l. length l ≡ suc n)
            (read_exact (suc n - length c) chunks) _ (read_exact-Reads (suc n - length c) chunks)
            (λ l rest e. omega (arith, e, length-append c l, beyond (suc n) (length c) f)))
    where
      within : (n m : ℕ) → leb n m ≡ true → n ≤ m
      within n m h = ground arith

      beyond : (n m : ℕ) → leb n m ≡ false → m ≤ n
      beyond n m h = ground arith

  text_of-Reads :
      {A : Type 0} (P : A → Type 0) (bytes : List ℕ) (a : A) (rest : List (List ℕ))
      → P a
      → Reads P (text_of is_utf8 bytes a rest)
  text_of-Reads P bytes a rest h =
      if-holds (Reads P) (is_utf8 bytes) (got a rest) _ (λ _. h) (λ _. tt)

  abbrev Short : List ℕ → Type 0
  Short body = length body ≤ max_body_bytes

  read_body-Reads :
      (len : Option ℕ) (chunks : List (List ℕ)) → Reads Short (read_body is_utf8 len chunks)
  unfolding read_body
  read_body-Reads none chunks = tt
  read_body-Reads (some len) chunks =
      if-holds (Reads Short) (ltb max_body_bytes len) _ _ (λ _. tt)
        (λ f.
          bind-Reads (λ l. length l ≡ len) Short (read_exact len chunks) _
            (read_exact-Reads len chunks)
            (λ l rest e. text_of-Reads Short l l rest (omega (arith, e, within len f))))
    where
      within : (n : ℕ) → ltb max_body_bytes n ≡ false → n ≤ max_body_bytes
      within n h = ground arith

  body_after-Reads :
      (value : Option (List ℕ)) (chunks : List (List ℕ))
      → Reads Short (body_after is_utf8 value chunks)
  unfolding body_after
  body_after-Reads none chunks = omega arith
  body_after-Reads (some value) chunks = read_body-Reads (from_str_radix 10 (2 ^ 64) value) chunks

  after_start-Reads :
      (line : List ℕ) (budget : ℕ) (chunks : List (List ℕ))
      → Reads IsBounded (after_start is_utf8 line budget chunks)
  unfolding after_start
  after_start-Reads [] budget chunks = tt
  after_start-Reads (c ∷ cs) budget chunks =
      bind-Reads Fit IsBounded (read_headers is_utf8 max_headers [] chunks budget) _
        (read_headers-Reads max_headers [] chunks budget refl tt)
        (λ headers rest h.
          bind-Reads Short IsBounded
            (body_after is_utf8 (lookup (codes "content-length") headers) rest) _
            (body_after-Reads (lookup (codes "content-length") headers) rest)
            (λ body rest' b. record { starts = λ e. cc; few = h.0; distinct = h.1; short = b }))

  -- Whatever a peer sends, a message that is read has a start line, at most 64 headers, no two of them
  -- with the same name, and a body of at most 64 KiB.
  pub read_message-IsBounded :
      (chunks : List (List ℕ)) → Reads IsBounded (read_message is_utf8 chunks)
  unfolding read_message
  read_message-IsBounded chunks =
      bind-Reads (λ _. Unit) IsBounded (bounded_line is_utf8 chunks max_head_bytes) _ (any-Reads _)
        (λ r rest _. after_start-Reads (trim_end r.0) r.1 rest)
