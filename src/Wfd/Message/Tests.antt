-- ===== src/Wfd/Message/Tests.antt =====
-- Runs of message.rs, and its theorems there.
use big_net_screen.Base.{ℕ, ◌≡◌, refl, Bool, false, some, List, [], ◌∷◌, ◌++◌, take, drop, leb}
use big_net_screen.Base.Text.{codes, all}
use big_net_screen.Wfd.Message.{
  RtspMessage, got, failed, closed, cseq, is_response, is_success, method, read_message, status,
}
use big_net_screen.Wfd.Message.Bounded.{Reads, IsBounded, read_message-IsBounded}
use big_net_screen.Wfd.Message.Chunks.{read_message-Same}
use big_net_screen.Wfd.Message.Chunks.Flat.{Same}

abbrev crlf : List ℕ
crlf = 13 ∷ 10 ∷ []

abbrev is_ascii : List ℕ → Bool
is_ascii bytes = all (λ b. leb b 127) bytes

abbrev request : List ℕ
request =
    codes "SET_PARAMETER x RTSP/1.0"
    ++ (crlf
        ++ (codes "CSeq: 4"
            ++ (crlf ++ (codes "Content-Length: 5" ++ (crlf ++ (crlf ++ codes "hello"))))))

abbrev message : RtspMessage
message = record {
  start_line = codes "SET_PARAMETER x RTSP/1.0";
  headers = (codes "content-length", codes "5") ∷ (codes "cseq", codes "4") ∷ [];
  body = codes "hello";
}

whole_request : read_message is_ascii (request ∷ []) ≡ got message []
unfolding read_message
whole_request = refl

request_fields :
    ((method message ≡ some (codes "SET_PARAMETER")) × (cseq message ≡ 4))
    × (is_response message ≡ false)
unfolding method cseq is_response
request_fields = ((refl, refl), refl)

error_status :
    let answer : RtspMessage = record message { start_line = codes "RTSP/1.0 400 Bad Request" } in
    (status answer ≡ some 400) × (is_success answer ≡ false)
unfolding status is_success
error_status = (refl, refl)

cut_request : read_message is_ascii (take 30 request ∷ []) ≡ failed closed
unfolding read_message
cut_request = refl

read_message-Same_example :
    Same
      (read_message is_ascii (take 30 request ∷ drop 30 request ∷ []))
      (read_message is_ascii (request ∷ []))
read_message-Same_example =
    read_message-Same is_ascii (take 30 request ∷ drop 30 request ∷ []) (request ∷ [])
      (λ e. cc, (λ e. cc, tt)) (λ e. cc, tt) refl

read_message-IsBounded_example : Reads IsBounded (read_message is_ascii (request ∷ []))
read_message-IsBounded_example = read_message-IsBounded is_ascii (request ∷ [])
