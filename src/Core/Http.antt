-- ===== src/Core/Http.antt =====
-- crates/nd-core/src/stream_server/http.rs: which requests the stream server takes, and how it
-- answers them. Text is ASCII, as its bytes; an address is the number that stands for it.
pub mod Request
pub mod Verdicts
pub mod Bounded
mod Tests
use big_net_screen.Base.{
  ℕ, ◌+◌, ◌*◌, Bool, true, false, not, ◌&&◌, ◌||◌, Option, none, some, List, [], ◌∷◌, ◌++◌, length,
  leb, ltb, ◌==◌, if◌then◌else◌,
}
use big_net_screen.Base.Text.{
  codes, same_bytes, all, any, eq_ignore_ascii_case, trim, split, is_crlf, split_crlf, split_once,
  strip_suffix,
}
use big_net_screen.Core.Secret.{same_secret}

abbrev pub max_request_bytes : ℕ
max_request_bytes = 8 * 1024

abbrev pub crlf : List ℕ
crlf = 13 ∷ 10 ∷ []

abbrev pub is_alphanumeric : ℕ → Bool
is_alphanumeric c =
    (leb b'0' c && leb c b'9') || (leb b'A' c && leb c b'Z') || (leb b'a' c && leb c b'z')

abbrev pub token_char : ℕ → Bool
token_char c = is_alphanumeric c || any (λ d. d == c) (codes "!#$%&'*+-.^_`|~")

-- What the headers so far have held.
pub record Seen : Type 0 where
  pub host : Bool
  pub length : Bool
  pub range : Bool

-- A header by its name, with its value trimmed.
unfoldable pub take_header : List ℕ → List ℕ → Seen → Option Seen
take_header name value s =
    if eq_ignore_ascii_case name (codes "host")
    then (if s.host || same_bytes value [] then none else some (record s { host = true }))
    else if eq_ignore_ascii_case name (codes "content-length")
    then (if s.length || not (same_bytes value (codes "0"))
        then none
        else some (record s { length = true }))
    else if eq_ignore_ascii_case name (codes "transfer-encoding")
    then none
    else if eq_ignore_ascii_case name (codes "range")
    then (if s.range then none else some (record s { range = true }))
    else some s

abbrev pub bad_in_value : ℕ → Bool
bad_in_value b = (ltb b 32 && not (b == 9)) || (b == 127)

abbrev pub split_header : Option (List ℕ × List ℕ) → Seen → Option Seen
split_header none s = none
split_header (some (name, value)) s =
    if same_bytes name [] || not (all token_char name) || any bad_in_value value
    then none
    else take_header name (trim value) s

unfoldable pub take_line : List ℕ → Seen → Option Seen
unfolding take_header
take_line line s = split_header (split_once b':' line) s

-- The loop over the lines after the first.
unfoldable pub take_lines : List (List ℕ) → Seen → Option Seen
unfolding take_line
take_lines [] s = some s
take_lines (line ∷ lines) s = elim (take_line line s) [
  | none ↦ none
  | some s' ↦ take_lines lines s'
]

abbrev pub starts_with_slash : List ℕ → Bool
starts_with_slash [] = false
starts_with_slash (c ∷ _) = c == b'/'

abbrev pub bad_in_target : ℕ → Bool
bad_in_target b = leb b 32 || (b == 127)

abbrev pub is_http_1_0 : List ℕ → Bool
is_http_1_0 version = same_bytes version (codes "HTTP/1.0")

abbrev pub refused_line : List ℕ → List ℕ → List ℕ → Bool
refused_line method target version =
    same_bytes method []
    || not (all token_char method)
    || not (starts_with_slash target)
    || any bad_in_target target
    || not (is_http_1_0 version || same_bytes version (codes "HTTP/1.1"))

abbrev pub with_host : Bool → List ℕ → List ℕ → Option Seen → Option (List ℕ × List ℕ)
with_host old method target none = none
with_host old method target (some s) = if old || s.host then some (method, target) else none

-- The three parts of the first line, and the headers.
unfoldable pub of_parts : List (List ℕ) → List (List ℕ) → Option (List ℕ × List ℕ)
unfolding take_lines
of_parts (method ∷ (target ∷ (version ∷ []))) lines =
    if refused_line method target version
    then none
    else with_host (is_http_1_0 version) method target
        (take_lines lines (record { host = false; length = false; range = false }))
of_parts _ lines = none

abbrev pub of_lines : List (List ℕ) → Option (List ℕ × List ℕ)
of_lines [] = none
of_lines (first ∷ lines) = of_parts (split 32 first) lines

abbrev pub of_head : Option (List ℕ) → Option (List ℕ × List ℕ)
of_head none = none
of_head (some head) = of_lines (split_crlf head)

unfoldable pub request_line : List ℕ → Option (List ℕ × List ℕ)
unfolding strip_suffix split_crlf of_parts
request_line request =
    if not (all (λ c. ltb c 128) request) || ltb max_request_bytes (length request)
    then none
    else of_head (strip_suffix (crlf ++ crlf) request)

pub data Verdict : Type 0 where
  stream : Verdict
  head_only : Verdict
  not_found : Verdict
  forbidden : Verdict
  method_not_allowed : Verdict
  bad_request : Verdict

-- The first piece of `split('?')`.
abbrev pub before_query : List ℕ → List ℕ
before_query [] = []
before_query (c ∷ cs) = if c == b'?' then [] else c ∷ before_query cs

abbrev pub by_method : List ℕ → Verdict
by_method method =
    if same_bytes method (codes "GET")
    then stream
    else if same_bytes method (codes "HEAD")
    then head_only
    else method_not_allowed

unfoldable pub decide : List ℕ → ℕ → ℕ → Option (List ℕ × List ℕ) → Verdict
unfolding same_secret
decide expected_path allowed from none = bad_request
decide expected_path allowed from (some (method, path)) =
    if not (same_secret (before_query path) expected_path)
    then not_found
    else if not (from == allowed)
    then forbidden
    else by_method method

unfoldable pub triage : List ℕ → List ℕ → ℕ → ℕ → Verdict
unfolding request_line decide
triage request expected_path allowed from = decide expected_path allowed from (request_line request)

abbrev pub status_line : Verdict → List ℕ
status_line stream = codes "200 OK"
status_line head_only = codes "200 OK"
status_line not_found = codes "404 Not Found"
status_line forbidden = codes "403 Forbidden"
status_line method_not_allowed = codes "405 Method Not Allowed"
status_line bad_request = codes "400 Bad Request"

pub record MediaType : Type 0 where
  pub content_type : List ℕ
  pub extra_headers : List ℕ

abbrev pub line : List ℕ → List ℕ
line text = text ++ crlf

abbrev pub ok_headers : Verdict → MediaType → List ℕ
ok_headers verdict media =
    line (codes "HTTP/1.1 " ++ status_line verdict)
    ++ (line (codes "Content-Type: " ++ media.content_type)
        ++ (media.extra_headers
            ++ (line (codes "Cache-Control: no-cache, no-store, must-revalidate")
                ++ (line (codes "Pragma: no-cache")
                    ++ (line (codes "Connection: close")
                        ++ (line (codes "Server: BigNetScreen") ++ crlf))))))

abbrev pub error_headers : Verdict → List ℕ
error_headers verdict =
    line (codes "HTTP/1.1 " ++ status_line verdict)
    ++ (line (codes "Content-Length: 0")
        ++ (line (codes "Connection: close") ++ (line (codes "Server: BigNetScreen") ++ crlf)))

unfoldable pub response_headers : Verdict → MediaType → List ℕ
response_headers stream media = ok_headers stream media
response_headers head_only media = ok_headers head_only media
response_headers verdict media = error_headers verdict

-- What a read of the client's socket gives: bytes, none at its end, or an error. After the deadline
-- every read is an expiry.
pub data Arrival : Type 0 where
  bytes : List ℕ → Arrival
  expired : Arrival
  broken : Arrival

pub data Reading : Type 0 where
  request : List ℕ → Reading
  too_slow : Reading
  lost : Reading
  incomplete : Reading
  too_large : Reading
  bad_encoding : Reading
  malformed : Reading
  waiting : Reading

-- `windows(4).any(..)`
unfoldable pub has_end : List ℕ → Bool
has_end (a ∷ b ∷ c ∷ d ∷ rest) = (is_crlf a b && is_crlf c d) || has_end (b ∷ c ∷ d ∷ rest)
has_end _ = false

module _ (from_utf8 : List ℕ → Bool) where
  abbrev pub complete : List ℕ → Option (List ℕ × List ℕ) → Reading
  complete buffer none = malformed
  complete buffer (some _) = request buffer

  -- After the loop; it reads no more.
  abbrev pub finish : List ℕ → Reading
  finish buffer =
      if not (from_utf8 buffer) then bad_encoding else complete buffer (request_line buffer)

  -- The loop, over the arrivals; `waiting` where it still reads.
  unfoldable pub read_from : List Arrival → List ℕ → Reading
  unfolding has_end request_line
  read_from [] buffer = waiting
  read_from (expired ∷ more) buffer = too_slow
  read_from (broken ∷ more) buffer = lost
  read_from (bytes [] ∷ more) buffer = incomplete
  read_from (bytes (c ∷ chunk) ∷ more) buffer =
      let buffer' = buffer ++ (c ∷ chunk) in
      let rest = read_from more buffer' in
      if ltb max_request_bytes (length buffer')
      then too_large
      else if has_end buffer'
      then finish buffer'
      else rest

  unfoldable pub read_request : List Arrival → Reading
  unfolding read_from
  read_request arrivals = read_from arrivals []
