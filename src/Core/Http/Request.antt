-- ===== src/Core/Http/Request.antt =====
-- A request that is put together as http.rs wants it is taken, and read right.
use big_net_screen.Base.{
  ℕ, ◌≤◌, ◌<◌, ◌≡◌, ◌≢◌, refl, ap, ◌∙◌, Bool, true, false, ◌&&◌, Option, none, some, List, [], ◌∷◌,
  ◌++◌, length, All-append, le→ltb_false, ltb, arith,
}
use big_net_screen.Base.Text.{codes, same_bytes, all, any, trim, split, split_crlf}
use big_net_screen.Base.Text.Split.{
  Lacks, split-append, split_crlf-append, split_crlf-one, strip_suffix-append, all-append, all-All,
  any-All,
}
use big_net_screen.Core.Http.{
  max_request_bytes, crlf, token_char, Seen, take_header, take_line, take_lines, bad_in_value,
  bad_in_target, starts_with_slash, of_parts, of_lines, of_head, request_line,
}

abbrev is_ascii : ℕ → Bool
is_ascii c = ltb c 128

token-range : (c : ℕ) → token_char c ≡ true → (32 < c) × (c < 127)
token-range c h = ground arith

value-lacks : (c : ℕ) → bad_in_value c ≡ false → c ≢ 13
value-lacks c h e = ground arith

target-range : (c : ℕ) → bad_in_target c ≡ false → 32 < c
target-range c h = ground arith

-- The text of a request for `target` from the host `host`.
abbrev pub head_of : List ℕ → List ℕ → List ℕ → List ℕ
head_of method target host =
    (method ++ (32 ∷ (target ++ codes " HTTP/1.1"))) ++ (13 ∷ (10 ∷ (codes "Host:" ++ host)))

abbrev pub render : List ℕ → List ℕ → List ℕ → List ℕ
render method target host = head_of method target host ++ (crlf ++ crlf)

-- What the parts must be for that text to be a request.
pub record IsRequest (method target host : List ℕ) : Type 0 where
  pub has_method : method ≢ []
  pub of_tokens : all token_char method ≡ true
  pub from_root : starts_with_slash target ≡ true
  pub no_controls : any bad_in_target target ≡ false
  pub target_ascii : all is_ascii target ≡ true
  pub host_printable : any bad_in_value host ≡ false
  pub host_ascii : all is_ascii host ≡ true
  pub has_host : trim host ≢ []
  pub fits : length (render method target host) ≤ max_request_bytes

not_empty : (xs : List ℕ) → xs ≢ [] → same_bytes xs [] ≡ false
not_empty [] h = absurd (h refl)
not_empty (x ∷ xs) h = refl

all-weaken :
    (p q : ℕ → Bool) (xs : List ℕ)
    → ((x : ℕ) → p x ≡ true → q x ≡ true)
    → all p xs ≡ true
    → all q xs ≡ true
all-weaken p q [] f e = refl
all-weaken p q (x ∷ xs) f e =
    let t = both (p x) (all p xs) e in rw (f x t.0, all-weaken p q xs f t.1)
  where
    both : (p q : Bool) → (p && q) ≡ true → (p ≡ true) × (q ≡ true)
    both p q h = ground arith

module _ (method target host : List ℕ) (h : IsRequest method target host) where
  abbrev first : List ℕ
  first = method ++ (32 ∷ (target ++ codes " HTTP/1.1"))

  abbrev second : List ℕ
  second = codes "Host:" ++ host

  abbrev unseen : Seen
  unseen = record { host = false; length = false; range = false }

  host_line : take_line second unseen ≡ some (record unseen { host = true })
  unfolding take_line take_header
  host_line = let e = not_empty (trim host) h.has_host in rw (h.host_printable, e)

  headers : take_lines (second ∷ []) unseen ≡ some (record unseen { host = true })
  unfolding take_lines
  headers = ap (λ o. elim o as (λ _. Option Seen) [ none ↦ none | some s ↦ some s ]) host_line

  method-Lacks : (c : ℕ) → c ≤ 32 → Lacks c method
  method-Lacks c le =
      all-All token_char (λ x. x ≢ c) method (λ x t e. absurd (omega (arith, token-range x t, e)))
        h.of_tokens

  target-Lacks : (c : ℕ) → c ≤ 32 → Lacks c target
  target-Lacks c le =
      any-All bad_in_target (λ x. x ≢ c) target
        (λ x t e. absurd (omega (arith, target-range x t, e))) h.no_controls

  host-Lacks : Lacks 13 host
  host-Lacks = any-All bad_in_value (λ x. x ≢ 13) host value-lacks h.host_printable

  first-Lacks : Lacks 13 first
  first-Lacks =
      All-append (λ x. x ≢ 13) method (32 ∷ (target ++ codes " HTTP/1.1"))
        (method-Lacks 13 (omega arith))
        (
          omega arith,
          All-append (λ x. x ≢ 13) target (codes " HTTP/1.1") (target-Lacks 13 (omega arith))
              (omega arith),
        )

  second-Lacks : Lacks 13 second
  second-Lacks =
      (omega arith, (omega arith, (omega arith, (omega arith, (omega arith, host-Lacks)))))

  parts : split 32 first ≡ method ∷ target ∷ codes "HTTP/1.1" ∷ []
  parts =
      split-append 32 method (target ++ codes " HTTP/1.1") (method-Lacks 32 (omega arith))
      ∙ ap (λ ls. method ∷ ls)
          (split-append 32 target (codes "HTTP/1.1") (target-Lacks 32 (omega arith)))

  lines : split_crlf (head_of method target host) ≡ first ∷ second ∷ []
  lines =
      split_crlf-append first second first-Lacks
      ∙ ap (λ ls. first ∷ ls) (split_crlf-one second second-Lacks)

  accepted :
      of_parts (method ∷ target ∷ codes "HTTP/1.1" ∷ []) (second ∷ []) ≡ some (method, target)
  unfolding of_parts
  accepted =
      let e = not_empty method h.has_method in
      rw (e, h.of_tokens, h.from_root, h.no_controls, headers)

  ascii : all is_ascii (render method target host) ≡ true
  ascii =
      all-append is_ascii (head_of method target host) (crlf ++ crlf)
        (all-append is_ascii first (13 ∷ (10 ∷ second))
          (all-append is_ascii method (32 ∷ (target ++ codes " HTTP/1.1"))
            (all-weaken token_char is_ascii method (λ x t. small x (token-range x t).1) h.of_tokens)
            (all-append is_ascii target (codes " HTTP/1.1") h.target_ascii refl))
          h.host_ascii)
        refl
    where
      small : (x : ℕ) → x < 127 → ltb x 128 ≡ true
      small x h = ground arith

  read_back : request_line (render method target host) ≡ some (method, target)
  unfolding request_line
  read_back =
      let fits : ltb max_request_bytes (length (render method target host)) ≡ false =
        le→ltb_false _ _ h.fits in
      rw (ascii, fits)
        (ap of_head (strip_suffix-append 13 (10 ∷ 13 ∷ 10 ∷ []) (head_of method target host))
          ∙ ap of_lines lines
          ∙ ap (λ ps. of_parts ps (second ∷ [])) parts
          ∙ accepted)

-- A request of one line and a host, put together from a method of token characters, a target from the
-- root with no controls or spaces, and a host that is not blank, is read back as that method and that
-- target, if it is no longer than the limit.
pub request_line-render :
    (method target host : List ℕ)
    → IsRequest method target host
    → request_line (render method target host) ≡ some (method, target)
request_line-render = read_back
