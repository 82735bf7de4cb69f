-- ===== src/Wfd/Message.antt =====
-- crates/nd-wfd/src/rtsp/message.rs: reading RTSP messages. The stream is the list of what each fill
-- of the reader's buffer brings; nothing, no more, or an error is its end. Text is ASCII, and the test on UTF-8
-- is a parameter.
pub mod Bounded
pub mod Chunks
mod Tests
use big_net_screen.Base.{
  ℕ, zero, suc, ◌+◌, ◌-◌, ◌*◌, ◌^◌, Bool, true, false, ◌&&◌, ◌||◌, Option, none, some, List, [],
  ◌∷◌, ◌++◌, map, length, take, drop, leb, ltb, ◌==◌, if◌then◌else◌,
}
use big_net_screen.Base.Text.{codes, same_bytes, to_ascii_lowercase, trim, trim_end, split_once}
use big_net_screen.Base.Text.Numbers.{from_str_radix}
use big_net_screen.Base.Text.Words.{split_whitespace}

abbrev pub max_body_bytes : ℕ
max_body_bytes = 64 * 1024

abbrev pub max_head_bytes : ℕ
max_head_bytes = 16 * 1024

abbrev pub max_line_bytes : ℕ
max_line_bytes = 4096

abbrev pub max_headers : ℕ
max_headers = 64

abbrev pub Headers : Type 0
Headers = List (List ℕ × List ℕ)

pub record RtspMessage : Type 0 where
  pub start_line : List ℕ
  pub headers : Headers
  pub body : List ℕ

pub data Failure : Type 0 where
  closed : Failure
  head_too_large : Failure
  bad_text : Failure
  empty_start_line : Failure
  too_many_headers : Failure
  malformed_header : Failure
  duplicate_header : Failure
  bad_length : Failure
  body_too_large : Failure
  body_cut : Failure

-- What is read and what is left of the stream, or the failure.
pub data Read {ℓ} (A : Type ℓ) : Type ℓ where
  got : A → List (List ℕ) → Read A
  failed : Failure → Read A

infixl 5 ◌>>=◌
abbrev pub ◌>>=◌ {ℓ κ} : {A : Type ℓ} {B : Type κ} → Read A → (A → List (List ℕ) → Read B) → Read B
got a rest >>= f = f a rest
failed why >>= f = failed why

abbrev pub lookup : List ℕ → Headers → Option (List ℕ)
lookup key [] = none
lookup key ((k, v) ∷ headers) = if same_bytes k key then some v else lookup key headers

abbrev pub starts_with : List ℕ → List ℕ → Bool
starts_with [] cs = true
starts_with (p ∷ ps) [] = false
starts_with (p ∷ ps) (c ∷ cs) = (p == c) && starts_with ps cs

unfoldable pub is_response : RtspMessage → Bool
is_response msg = starts_with (codes "RTSP/") msg.start_line

abbrev pub first_word : List (List ℕ) → Option (List ℕ)
first_word [] = none
first_word (word ∷ _) = some word

unfoldable pub method : RtspMessage → Option (List ℕ)
unfolding split_whitespace
method msg = first_word (split_whitespace msg.start_line)

unfoldable pub status_word : List (List ℕ) → Option ℕ
unfolding from_str_radix
status_word (_ ∷ word ∷ _) = from_str_radix 10 (2 ^ 16) word
status_word _ = none

unfoldable pub status : RtspMessage → Option ℕ
unfolding split_whitespace status_word
status msg = status_word (split_whitespace msg.start_line)

abbrev pub in_200s : Option ℕ → Bool
in_200s none = false
in_200s (some code) = leb 200 code && ltb code 300

unfoldable pub is_success : RtspMessage → Bool
unfolding status
is_success msg = in_200s (status msg)

abbrev pub number_or_zero : Option ℕ → ℕ
number_or_zero none = 0
number_or_zero (some n) = n

abbrev pub cseq_value : Option (List ℕ) → ℕ
cseq_value none = 0
cseq_value (some v) = number_or_zero (from_str_radix 10 (2 ^ 32) (trim v))

unfoldable pub cseq : RtspMessage → ℕ
unfolding from_str_radix
cseq msg = cseq_value (lookup (codes "cseq") msg.headers)

abbrev pub text_or_zero : Option (List ℕ) → List ℕ
text_or_zero none = codes "0"
text_or_zero (some v) = v

unfoldable pub cseq_str : RtspMessage → List ℕ
cseq_str msg = text_or_zero (lookup (codes "cseq") msg.headers)

-- The bytes up to the first `\n`, itself included, or all.
abbrev pub line_end : List ℕ → ℕ
line_end [] = 0
line_end (b ∷ bytes) = if b == 10 then 1 else suc (line_end bytes)

-- Whether `line_end` found a `\n`.
abbrev pub ends_line : List ℕ → Bool
ends_line [] = false
ends_line (b ∷ bytes) = (b == 10) || ends_line bytes

-- A chunk of which nothing is left is gone.
abbrev pub rest_of : List ℕ → List (List ℕ) → List (List ℕ)
rest_of [] chunks = chunks
rest_of (b ∷ bytes) chunks = (b ∷ bytes) ∷ chunks

abbrev pub too_long : ℕ → ℕ → ℕ → Bool
too_long count budget size = ltb budget count || ltb max_line_bytes (size + count)

-- The loop of `bounded_line`; the line comes with the budget that is left.
unfoldable pub line_from : List (List ℕ) → List ℕ → ℕ → Read (List ℕ × ℕ)
line_from [] line budget = failed closed
line_from ([] ∷ chunks) line budget = failed closed
line_from ((b ∷ bytes) ∷ chunks) line budget =
    let count = line_end (b ∷ bytes) in
    let taken = line ++ take count (b ∷ bytes) in
    let more = line_from chunks taken (budget - count) in
    if too_long count budget (length line)
    then failed head_too_large
    else if ends_line (b ∷ bytes)
    then got (taken, budget - count) (rest_of (drop count (b ∷ bytes)) chunks)
    else more

-- `read_exact`
unfoldable pub read_exact : ℕ → List (List ℕ) → Read (List ℕ)
read_exact zero chunks = got [] chunks
read_exact (suc n) [] = failed body_cut
read_exact (suc n) ([] ∷ chunks) = failed body_cut
read_exact (suc n) ((b ∷ bytes) ∷ chunks) =
    let more = read_exact (suc n - length (b ∷ bytes)) chunks in
    if leb (suc n) (length (b ∷ bytes))
    then got (take (suc n) (b ∷ bytes)) (rest_of (drop (suc n) (b ∷ bytes)) chunks)
    else (more >>= λ last rest. got ((b ∷ bytes) ++ last) rest)

module _ (is_utf8 : List ℕ → Bool) where
  abbrev pub text_of : {A : Type 0} → List ℕ → A → List (List ℕ) → Read A
  text_of bytes a rest = if is_utf8 bytes then got a rest else failed bad_text

  unfoldable pub bounded_line : List (List ℕ) → ℕ → Read (List ℕ × ℕ)
  unfolding line_from
  bounded_line chunks budget = line_from chunks [] budget >>= λ r rest. text_of r.0 r rest

  abbrev pub insert : Headers → Option (List ℕ × List ℕ) → Read Headers
  insert headers none = failed malformed_header
  insert headers (some (key, value)) =
      let name = map to_ascii_lowercase (trim key) in
      elim (lookup name headers) [
        | some _ ↦ failed duplicate_header
        | none ↦ got ((name, trim value) ∷ headers) []
      ]

  -- The loop over the headers, with the room for them that is left.
  unfoldable pub read_headers : ℕ → Headers → List (List ℕ) → ℕ → Read Headers
  unfolding bounded_line
  read_headers zero headers chunks budget = bounded_line chunks budget >>= λ r rest.
      elim (trim_end r.0) [ [] ↦ got headers rest | _ ∷ _ ↦ failed too_many_headers ]
  read_headers (suc room) headers chunks budget = bounded_line chunks budget >>= λ r rest.
      elim (trim_end r.0) [
        | [] ↦ got headers rest
        | c ∷ cs ↦ insert headers (split_once b':' (c ∷ cs)) >>= λ headers' _.
            read_headers room headers' rest r.1
      ]

  unfoldable pub read_body : Option ℕ → List (List ℕ) → Read (List ℕ)
  unfolding read_exact
  read_body none chunks = failed bad_length
  read_body (some len) chunks =
      if ltb max_body_bytes len
      then failed body_too_large
      else (read_exact len chunks >>= λ bytes rest. text_of bytes bytes rest)

  unfoldable pub body_after : Option (List ℕ) → List (List ℕ) → Read (List ℕ)
  unfolding from_str_radix read_body
  body_after none chunks = got [] chunks
  body_after (some value) chunks = read_body (from_str_radix 10 (2 ^ 64) value) chunks

  unfoldable pub after_start : List ℕ → ℕ → List (List ℕ) → Read RtspMessage
  unfolding read_headers body_after
  after_start [] budget chunks = failed empty_start_line
  after_start (c ∷ cs) budget chunks = read_headers max_headers [] chunks budget >>= λ headers rest.
      body_after (lookup (codes "content-length") headers) rest >>= λ body rest'.
      got (record { start_line = c ∷ cs; headers = headers; body = body }) rest'

  unfoldable pub read_message : List (List ℕ) → Read RtspMessage
  unfolding bounded_line after_start
  read_message chunks =
      bounded_line chunks max_head_bytes >>= λ r rest. after_start (trim_end r.0) r.1 rest
