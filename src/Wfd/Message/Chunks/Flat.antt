-- ===== src/Wfd/Message/Chunks/Flat.antt =====
-- What message.rs reads depends on the bytes that come, and not on how they are cut into chunks: a
-- line, and a body.
use big_net_screen.Base.{
  ℕ, ◌-◌, ◌≡◌, ◌≢◌, refl, sym, ◌∙◌, List, [], ◌∷◌, ◌++◌, append-nil, length, take, drop,
  if◌then◌else◌, All,
}
use big_net_screen.Wfd.Message.{
  closed, head_too_large, Read, got, failed, line_end, ends_line, rest_of, too_long,
}

abbrev pub concat : List (List ℕ) → List ℕ
concat [] = []
concat (c ∷ cs) = c ++ concat cs

-- No chunk is empty.
abbrev pub IsSolid : List (List ℕ) → Type 0
IsSolid cs = All (λ c. c ≢ []) cs

-- The same is read, and the same is left.
abbrev pub Same : {A : Type 0} → Read A → Read A → Type 0
Same (got x a) (got y b) = (x ≡ y) × (concat a ≡ concat b) × IsSolid a × IsSolid b
Same (failed v) (failed w) = v ≡ w
Same _ _ = ⊥

pub Same-sym : {A : Type 0} (r s : Read A) → Same r s → Same s r
Same-sym (got x a) (got y b) h = (sym h.0, sym h.1, h.3, h.2)
Same-sym (failed v) (failed w) h = sym h
Same-sym (got x a) (failed w) h = absurd h
Same-sym (failed v) (got y b) h = absurd h

pub Same-trans : {A : Type 0} (r s t : Read A) → Same r s → Same s t → Same r t
Same-trans (got x a) (got y b) (got z c) h k = (h.0 ∙ k.0, h.1 ∙ k.1, h.2, k.3)
Same-trans (failed u) (failed v) (failed w) h k = h ∙ k
Same-trans (got x a) (got y b) (failed w) h k = absurd k
Same-trans (failed u) (failed v) (got z c) h k = absurd k
Same-trans (got x a) (failed v) t h k = absurd h
Same-trans (failed u) (got y b) t h k = absurd h

-- The bytes in one chunk, if there are any.
abbrev pub single : List ℕ → List (List ℕ)
single bytes = rest_of bytes []

pub concat-rest_of :
    (bytes : List ℕ) (cs : List (List ℕ)) → concat (rest_of bytes cs) ≡ bytes ++ concat cs
concat-rest_of [] cs = refl
concat-rest_of (b ∷ bytes) cs = refl

pub rest_of-IsSolid :
    (bytes : List ℕ) (cs : List (List ℕ)) → IsSolid cs → IsSolid (rest_of bytes cs)
rest_of-IsSolid [] cs h = h
rest_of-IsSolid (b ∷ bytes) cs h = (λ e. cc, h)

pub rests :
    (x y : List ℕ) (cs : List (List ℕ))
    → y ≡ x ++ concat cs
    → concat (rest_of x cs) ≡ concat (single y)
rests x y cs e = concat-rest_of x cs ∙ sym e ∙ sym (append-nil y) ∙ sym (concat-rest_of y [])

-- A line of the bytes.
abbrev pub flat_line : List ℕ → List ℕ → ℕ → Read (List ℕ × ℕ)
flat_line bytes line budget =
    let count = line_end bytes in
    if too_long count budget (length line)
    then failed head_too_large
    else if ends_line bytes
    then got (line ++ take count bytes, budget - count) (single (drop count bytes))
    else failed closed
