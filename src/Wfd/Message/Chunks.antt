-- ===== src/Wfd/Message/Chunks.antt =====
-- A message of message.rs is read from its bytes, however they are cut into chunks.
pub mod Flat
pub mod Cuts
pub mod Lines
pub mod Bodies
use big_net_screen.Base.{
  ℕ, zero, suc, ◌^◌, ◌≤◌, ◌≡◌, refl, sym, ap, Bool, true, false, Option, none, some, List, [], ◌∷◌,
  ◌++◌, map, length, ltb, if◌then◌else◌, arith,
}
use big_net_screen.Base.Text.{codes, to_ascii_lowercase, trim, trim_end, split_once}
use big_net_screen.Base.Text.Numbers.{from_str_radix}
use big_net_screen.Wfd.Message.{
  body_too_large, too_many_headers, max_body_bytes, max_head_bytes, max_line_bytes, max_headers,
  Headers, RtspMessage, Read, got, failed, ◌>>=◌, lookup, line_from, read_exact, text_of,
  bounded_line, insert, read_headers, read_body, body_after, after_start, read_message,
}
use big_net_screen.Wfd.Message.Chunks.Flat.{concat, IsSolid, Same, Same-sym, Same-trans, flat_line}
use big_net_screen.Wfd.Message.Chunks.Lines.{line_from-flat}
use big_net_screen.Wfd.Message.Chunks.Bodies.{flat_exact, read_exact-flat}

-- It reads the same from chunks of the same bytes.
abbrev pub IsBlind : {A : Type 0} → (List (List ℕ) → Read A) → Type 0
IsBlind read =
    (a b : List (List ℕ)) → IsSolid a → IsSolid b → concat a ≡ concat b → Same (read a) (read b)

got-IsBlind : {A : Type 0} (x : A) → IsBlind (got x)
got-IsBlind x a b s t e = (refl, e, s, t)

failed-IsBlind : {A : Type 0} (r : Read A) → Same r r → IsBlind (λ _. r)
failed-IsBlind r h a b s t e = h

bind-Same :
    {A B : Type 0} (r s : Read A) (f : A → List (List ℕ) → Read B)
    → Same r s
    → ((x : A) → IsBlind (f x))
    → Same (r >>= f) (s >>= f)
bind-Same (got x a) (got y b) f h k = rw h.0 (k y a b h.2 h.3 h.1)
bind-Same (failed v) (failed w) f h k = h
bind-Same (got x a) (failed w) f h k = absurd h
bind-Same (failed v) (got y b) f h k = absurd h

bind-IsBlind :
    {A B : Type 0} (read : List (List ℕ) → Read A) (f : A → List (List ℕ) → Read B)
    → IsBlind read
    → ((x : A) → IsBlind (f x))
    → IsBlind (λ cs. read cs >>= f)
bind-IsBlind read f h k a b s t e = bind-Same (read a) (read b) f (h a b s t e) k

line_from-IsBlind : (budget : ℕ) → IsBlind (λ cs. line_from cs [] budget)
line_from-IsBlind budget a b s t e =
    Same-trans _ (flat_line (concat b) [] budget) _
      (rw (sym e) (line_from-flat a [] budget s (omega arith)))
      (Same-sym _ _ (line_from-flat b [] budget t (omega arith)))

read_exact-IsBlind : (n : ℕ) → IsBlind (read_exact n)
read_exact-IsBlind n a b s t e =
    Same-trans _ (flat_exact n (concat b)) _ (rw (sym e) (read_exact-flat n a s))
      (Same-sym _ _ (read_exact-flat n b t))

fixed-IsBlind :
    {A B : Type 0} (r : Read A) (f : A → List (List ℕ) → Read B)
    → ((x : A) → IsBlind (f x))
    → IsBlind (λ cs. r >>= λ x _. f x cs)
fixed-IsBlind (got x rest) f h = h x
fixed-IsBlind (failed why) f h = λ a b s t e. refl

if-IsBlind :
    {A : Type 0} (test : Bool) (f g : List (List ℕ) → Read A)
    → IsBlind f
    → IsBlind g
    → IsBlind (λ cs. if test then f cs else g cs)
if-IsBlind true f g h k = h
if-IsBlind false f g h k = k

module _ (is_utf8 : List ℕ → Bool) where
  text_of-IsBlind : {A : Type 0} (bytes : List ℕ) (x : A) → IsBlind (text_of is_utf8 bytes x)
  text_of-IsBlind bytes x = if-IsBlind (is_utf8 bytes) (got x) _ (got-IsBlind x) (λ a b s t e. refl)

  bounded_line-IsBlind : (budget : ℕ) → IsBlind (λ cs. bounded_line is_utf8 cs budget)
  unfolding bounded_line
  bounded_line-IsBlind budget =
      bind-IsBlind (λ cs. line_from cs [] budget) (λ r. text_of is_utf8 r.0 r)
        (line_from-IsBlind budget) (λ r. text_of-IsBlind r.0 r)

  last_line-IsBlind :
      (headers : Headers) (line : List ℕ)
      → IsBlind (λ rest. elim line [ [] ↦ got headers rest | _ ∷ _ ↦ failed too_many_headers ])
  last_line-IsBlind headers [] = got-IsBlind headers
  last_line-IsBlind headers (c ∷ cs) = λ a b s t e. refl

  header_line-IsBlind :
      (headers : Headers) (line : List ℕ) (more : Headers → List (List ℕ) → Read Headers)
      → ((h : Headers) → IsBlind (more h))
      → IsBlind (λ rest. elim line [
        | [] ↦ got headers rest
        | c ∷ cs ↦ insert is_utf8 headers (split_once b':' (c ∷ cs)) >>= λ h _. more h rest
      ])
  header_line-IsBlind headers [] more k = got-IsBlind headers
  header_line-IsBlind headers (c ∷ cs) more k =
      fixed-IsBlind (insert is_utf8 headers (split_once b':' (c ∷ cs))) more k

  read_headers-IsBlind :
      (room : ℕ) (headers : Headers) (budget : ℕ)
      → IsBlind (λ cs. read_headers is_utf8 room headers cs budget)
  unfolding read_headers
  read_headers-IsBlind zero headers budget =
      bind-IsBlind (λ cs. bounded_line is_utf8 cs budget) _ (bounded_line-IsBlind budget)
        (λ r. last_line-IsBlind headers (trim_end r.0))
  read_headers-IsBlind (suc room) headers budget =
      bind-IsBlind (λ cs. bounded_line is_utf8 cs budget) _ (bounded_line-IsBlind budget)
        (λ r.
          header_line-IsBlind headers (trim_end r.0)
            (λ h rest. read_headers is_utf8 room h rest r.1) (λ h. read_headers-IsBlind room h r.1))

  read_body-IsBlind : (len : Option ℕ) → IsBlind (read_body is_utf8 len)
  unfolding read_body
  read_body-IsBlind none = λ a b s t e. refl
  read_body-IsBlind (some len) =
      if-IsBlind (ltb max_body_bytes len) (λ _. failed body_too_large) _ (λ a b s t e. refl)
        (bind-IsBlind (read_exact len) (λ bytes. text_of is_utf8 bytes bytes)
          (read_exact-IsBlind len) (λ bytes. text_of-IsBlind bytes bytes))

  body_after-IsBlind : (value : Option (List ℕ)) → IsBlind (body_after is_utf8 value)
  unfolding body_after
  body_after-IsBlind none = got-IsBlind []
  body_after-IsBlind (some value) = read_body-IsBlind (from_str_radix 10 (2 ^ 64) value)

  after_start-IsBlind : (line : List ℕ) (budget : ℕ) → IsBlind (after_start is_utf8 line budget)
  unfolding after_start
  after_start-IsBlind [] budget = λ a b s t e. refl
  after_start-IsBlind (c ∷ cs) budget =
      bind-IsBlind (λ rest. read_headers is_utf8 max_headers [] rest budget) _
        (read_headers-IsBlind max_headers [] budget)
        (λ headers.
          bind-IsBlind (body_after is_utf8 (lookup (codes "content-length") headers)) _
            (body_after-IsBlind (lookup (codes "content-length") headers)) (λ body. got-IsBlind _))

  -- Two streams with the same bytes give the same message or the same failure, and leave the same
  -- bytes, however the bytes are cut into chunks that are not empty.
  pub read_message-Same :
      (a b : List (List ℕ))
      → IsSolid a
      → IsSolid b
      → concat a ≡ concat b
      → Same (read_message is_utf8 a) (read_message is_utf8 b)
  unfolding read_message
  read_message-Same =
      bind-IsBlind (λ cs. bounded_line is_utf8 cs max_head_bytes) _
        (bounded_line-IsBlind max_head_bytes) (λ r. after_start-IsBlind (trim_end r.0) r.1)
