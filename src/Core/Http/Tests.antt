-- ===== src/Core/Http/Tests.antt =====
-- Runs of http.rs, and its theorems at concrete requests.
use big_net_screen.Base.{ℕ, ◌≡◌, ◌↔◌, refl, Bool, true, some, none, List, [], ◌∷◌, ◌++◌, arith}
use big_net_screen.Base.Text.{codes}
use big_net_screen.Core.Http.{
  crlf, request_line, triage, stream, not_found, forbidden, bytes, expired, request, read_request,
}
use big_net_screen.Core.Http.Request.{render, IsRequest, request_line-render}
use big_net_screen.Core.Http.Verdicts.{IsServed, triage-stream}
use big_net_screen.Core.Http.Bounded.{IsBounded, read_request-IsBounded}
use big_net_screen.Core.Secret.{same_secret}

abbrev get_secret : List ℕ
get_secret = render (codes "GET") (codes "/secret?x=1") (codes " x")

IsRequest-get_secret : IsRequest (codes "GET") (codes "/secret?x=1") (codes " x")
IsRequest-get_secret = record {
  has_method = λ e. cc;
  of_tokens = refl;
  from_root = refl;
  no_controls = refl;
  target_ascii = refl;
  host_printable = refl;
  host_ascii = refl;
  has_host = λ e. cc;
  fits = omega arith;
}

request_line-render_example : request_line get_secret ≡ some (codes "GET", codes "/secret?x=1")
request_line-render_example =
    request_line-render (codes "GET") (codes "/secret?x=1") (codes " x") IsRequest-get_secret

right_path : triage get_secret (codes "/secret") 5 5 ≡ stream
unfolding triage request_line same_secret
right_path = refl

stranger : triage get_secret (codes "/secret") 5 6 ≡ forbidden
unfolding triage request_line same_secret
stranger = refl

wrong_path : triage get_secret (codes "/guess") 5 5 ≡ not_found
unfolding triage request_line same_secret
wrong_path = refl

no_host : request_line (codes "GET /secret HTTP/1.1" ++ (crlf ++ crlf)) ≡ none
unfolding request_line
no_host = refl

old_version :
    request_line (codes "GET /secret HTTP/1.0" ++ (crlf ++ crlf))
    ≡ some (codes "GET", codes "/secret")
unfolding request_line
old_version = refl

triage-stream_example :
    (triage get_secret (codes "/secret") 5 5 ≡ stream)
    ↔ IsServed (codes "/secret") 5 5 (request_line get_secret)
triage-stream_example = triage-stream get_secret (codes "/secret") 5 5 (omega arith)

abbrev any_text : List ℕ → Bool
any_text _ = true

two_chunks :
    read_request any_text (bytes (codes "GET / HTTP/1.0") ∷ bytes (crlf ++ crlf) ∷ [])
    ≡ request (codes "GET / HTTP/1.0" ++ (crlf ++ crlf))
unfolding read_request request_line
two_chunks = refl

read_request-IsBounded_example :
    IsBounded []
      (bytes (codes "GET / HTTP/1.0") ∷ expired ∷ [])
      (read_request any_text (bytes (codes "GET / HTTP/1.0") ∷ expired ∷ []))
read_request-IsBounded_example =
    read_request-IsBounded any_text (bytes (codes "GET / HTTP/1.0") ∷ expired ∷ [])
