-- ===== src/Core/Http/Verdicts.antt =====
-- Who is served by http.rs.
use mathlib.Core.Path.{subst}
use big_net_screen.Base.{
  ℕ, ◌≡◌, ◌↔◌, ◌≢◌, ◌⊎◌, inl, inr, Bool-cases, refl, sym, ap, ◌∙◌, Bool, true, false, not, ◌||◌,
  Option, none, some, List, [], ◌∷◌, ◌++◌, length, All, ltb, ltb→lt, ◌==◌, ==_iff, if◌then◌else◌,
  arith, if-holds,
}
use big_net_screen.Base.Bytes.{IsByte}
use big_net_screen.Base.Text.{
  codes, same_bytes, same_bytes-eq, all, split, split_crlf, strip_suffix,
}
use big_net_screen.Base.Text.Pieces.{OfSome, split-All, split_crlf-All, strip_suffix-All}
use big_net_screen.Base.Text.Split.{Lacks, all-All}
use big_net_screen.Core.Http.{
  max_request_bytes, crlf, Seen, take_lines, refused_line, is_http_1_0, with_host, of_parts,
  of_lines, of_head, request_line, Verdict, stream, head_only, not_found, forbidden,
  method_not_allowed, before_query, by_method, decide, triage,
}
use big_net_screen.Core.Secret.{same_secret_iff}

-- The target is made of bytes.
abbrev TargetBytes : List ℕ × List ℕ → Type 0
TargetBytes (method, target) = All IsByte target

with_host-bytes :
    (old : Bool) (method target : List ℕ) (o : Option Seen)
    → All IsByte target
    → OfSome TargetBytes (with_host old method target o)
with_host-bytes old method target none h = tt
with_host-bytes old method target (some s) h = by_test (old || s.host)
  where
    by_test : (b : Bool) → OfSome TargetBytes (if b then some (method, target) else none)
    by_test true = h
    by_test false = tt

of_parts-bytes :
    (parts lines : List (List ℕ))
    → All (All IsByte) parts
    → OfSome TargetBytes (of_parts parts lines)
unfolding of_parts
of_parts-bytes (method ∷ (target ∷ (version ∷ []))) lines h =
    by_test (refused_line method target version)
  where
    by_test :
        (b : Bool)
        → OfSome TargetBytes (
            if b
            then none
            else with_host
                (is_http_1_0 version)
                method
                target
                (take_lines lines (record { host = false; length = false; range = false })))
    by_test true = tt
    by_test false = with_host-bytes (is_http_1_0 version) method target (take_lines lines _) h.1.0
of_parts-bytes [] lines h = tt
of_parts-bytes (a ∷ []) lines h = tt
of_parts-bytes (a ∷ (b ∷ [])) lines h = tt
of_parts-bytes (a ∷ (b ∷ (c ∷ (d ∷ parts)))) lines h = tt

of_lines-bytes :
    (lines : List (List ℕ)) → All (All IsByte) lines → OfSome TargetBytes (of_lines lines)
of_lines-bytes [] h = tt
of_lines-bytes (first ∷ lines) h =
    of_parts-bytes (split 32 first) lines (split-All IsByte 32 first h.0)

of_head-bytes : (o : Option (List ℕ)) → OfSome (All IsByte) o → OfSome TargetBytes (of_head o)
of_head-bytes none h = tt
of_head-bytes (some head) h = of_lines-bytes (split_crlf head) (split_crlf-All IsByte head h)

request_line-bytes : (request : List ℕ) → OfSome TargetBytes (request_line request)
unfolding request_line
request_line-bytes request =
    by_test (not (all (λ c. ltb c 128) request) || ltb max_request_bytes (length request)) refl
  where
    ascii : (a b : Bool) → (not a || b) ≡ false → a ≡ true
    ascii true b h = refl
    ascii false b h = cc

    small : (x : ℕ) → ltb x 128 ≡ true → IsByte x
    small x h = omega (arith, ltb→lt x 128 h)

    by_test :
        (b : Bool)
        → (not (all (λ c. ltb c 128) request) || ltb max_request_bytes (length request)) ≡ b
        → OfSome TargetBytes (if b then none else of_head (strip_suffix (crlf ++ crlf) request))
    by_test true e = tt
    by_test false e = of_head-bytes (strip_suffix (crlf ++ crlf) request) (
        strip_suffix-All IsByte (crlf ++ crlf) request
          (all-All (λ c. ltb c 128) IsByte request small (ascii _ _ e)))

-- The target is the path, alone or with a query behind it, and the path has no mark of a query.
abbrev pub IsOf : List ℕ → List ℕ → Type 0
IsOf path target =
    Lacks b'?' path × ((target ≡ path) ⊎ ((query : List ℕ) × (target ≡ path ++ (b'?' ∷ query))))

-- The request is a GET for the secret path, from the receiver of the session.
abbrev pub IsServed : List ℕ → ℕ → ℕ → Option (List ℕ × List ℕ) → Type 0
IsServed expected_path allowed from none = ⊥
IsServed expected_path allowed from (some (method, target)) =
    (method ≡ codes "GET") × IsOf expected_path target × (from ≡ allowed)

before_query-IsOf : (target : List ℕ) → IsOf (before_query target) target
before_query-IsOf [] = (tt, inl refl)
before_query-IsOf (c ∷ cs) = elim (Bool-cases (c == b'?')) [
  | inl t ↦ rw t (tt, inr (cs, ap (λ x. x ∷ cs) ((==_iff c b'?').0 t)))
  | inr f ↦ let h = before_query-IsOf cs in rw f ((differs c f, h.0), longer c cs h.1)
]
  where
    differs : (a : ℕ) → (a == b'?') ≡ false → a ≢ b'?'
    differs a h = ground arith

    longer :
        (c : ℕ) (cs : List ℕ)
        → (cs ≡ before_query cs) ⊎ ((query : List ℕ) × (cs ≡ before_query cs ++ (b'?' ∷ query)))
        → (c ∷ cs ≡ c ∷ before_query cs)
          ⊎ ((query : List ℕ) × (c ∷ cs ≡ c ∷ (before_query cs ++ (b'?' ∷ query))))
    longer c cs (inl e) = inl (ap (λ xs. c ∷ xs) e)
    longer c cs (inr (query, e)) = inr (query, ap (λ xs. c ∷ xs) e)

plain_path : (path : List ℕ) → Lacks b'?' path → before_query path ≡ path
plain_path [] h = refl
plain_path (c ∷ cs) h = rw (no_mark c h.0, plain_path cs h.1) refl
  where
    no_mark : (a : ℕ) → a ≢ b'?' → (a == b'?') ≡ false
    no_mark a h = ground arith

path_and_query :
    (path query : List ℕ) → Lacks b'?' path → before_query (path ++ (b'?' ∷ query)) ≡ path
path_and_query [] query h = refl
path_and_query (c ∷ cs) query h = rw (no_mark c h.0, path_and_query cs query h.1) refl
  where
    no_mark : (a : ℕ) → a ≢ b'?' → (a == b'?') ≡ false
    no_mark a h = ground arith

IsOf-before_query : (path target : List ℕ) → IsOf path target → before_query target ≡ path
IsOf-before_query path target (h, inl e) = ap before_query e ∙ plain_path path h
IsOf-before_query path target (h, inr (query, e)) = ap before_query e ∙ path_and_query path query h

before_query-bytes : (target : List ℕ) → All IsByte target → All IsByte (before_query target)
before_query-bytes [] h = tt
before_query-bytes (c ∷ cs) h =
    let rest = before_query-bytes cs h.1 in
    if-holds (All IsByte) (c == b'?') [] (c ∷ before_query cs) (λ _. tt) (λ _. (h.0, rest))

got :
    (get head : Bool)
    → (if get then stream else if head then head_only else method_not_allowed) ≡ stream
    → get ≡ true
got true head e = refl
got false true e = cc
got false false e = cc

decided :
    (right ours : Bool) (v : Verdict)
    → (if not right then not_found else if not ours then forbidden else v) ≡ stream
    → (right ≡ true) × (ours ≡ true) × (v ≡ stream)
decided true true v e = (refl, refl, e)
decided true false v e = cc
decided false ours v e = cc

decide-stream :
    (expected_path : List ℕ) (allowed from : ℕ) (o : Option (List ℕ × List ℕ))
    → All IsByte expected_path
    → OfSome TargetBytes o
    → (decide expected_path allowed from o ≡ stream) ↔ IsServed expected_path allowed from o
unfolding decide
decide-stream expected_path allowed from none he h = (λ e. cc, λ f. absurd f)
decide-stream expected_path allowed from (some (method, target)) he h =
    let secret =
      same_secret_iff (before_query target) expected_path (before_query-bytes target h) he in
    (
      λ e.
          let d = decided _ _ (by_method method) e in
          (
            same_bytes-eq method (codes "GET") (got _ _ d.2),
            subst (λ path. IsOf path target) (secret.0 d.0) (before_query-IsOf target),
            (==_iff from allowed).0 d.1,
          ),
      λ s.
          let a = secret.1 (IsOf-before_query expected_path target s.1) in
          let b = (==_iff from allowed).1 s.2 in
          let c : same_bytes method (codes "GET") ≡ true =
            subst (λ m. same_bytes m (codes "GET") ≡ true) (sym s.0) refl in
          rw (a, b, c),
    )

-- The stream is served exactly to a request that `request_line` takes as a GET, whose target is the
-- secret path alone or the path, a question mark and any query, where the path has none itself, and
-- which comes from the receiver of the session.
pub triage-stream :
    (request expected_path : List ℕ) (allowed from : ℕ)
    → All IsByte expected_path
    → (triage request expected_path allowed from ≡ stream)
      ↔ IsServed expected_path allowed from (request_line request)
unfolding triage
triage-stream request expected_path allowed from h =
    decide-stream expected_path allowed from (request_line request) h (request_line-bytes request)
