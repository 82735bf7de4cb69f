-- ===== src/Core/Sps/Units/Pieces.antt =====
-- The pieces of an access unit of decode_buffer.rs.
use Prim.Native.Nat.{bit_and}
use big_net_screen.Base.{
  ℕ, zero, suc, ◌+◌, ◌-◌, ◌≤◌, ◌≡◌, refl, sym, ap, ◌∙◌, Bool, true, false, ◌||◌, Option, none, some,
  List, [], ◌∷◌, ◌++◌, append_assoc, append-nil, length, take, drop, drop-drop, take_all,
  if◌then◌else◌, ◌==◌, arith,
}
use big_net_screen.Core.Sps.Units.{end_of}
use big_net_screen.Core.Sps.Units.Starts.{IsStarts}

abbrev pub cut : List ℕ → ℕ → ℕ → List ℕ
cut bytes start end = take (end - start) (drop start bytes)

-- Only a unit of type 7 may change.
abbrev pub new_unit : (List ℕ → Option (List ℕ)) → List ℕ → Option (List ℕ)
new_unit f [] = none
new_unit f (header ∷ unit) = if bit_and header 0x1f == 7 then f (header ∷ unit) else none

abbrev pub or_else : Option (List ℕ) → List ℕ → List ℕ
or_else none old = old
or_else (some new) old = new

-- The access unit from its first start code on, with each SPS that `f` changes replaced.
abbrev pub rendered : (List ℕ → Option (List ℕ)) → List ℕ → List (ℕ × ℕ) → List ℕ
rendered f bytes [] = []
rendered f bytes ((code, nal) ∷ starts) =
    let unit = cut bytes nal (end_of bytes starts) in
    cut bytes code nal ++ (or_else (new_unit f unit) unit ++ rendered f bytes starts)

abbrev pub is_some : Option (List ℕ) → Bool
is_some none = false
is_some (some _) = true

abbrev pub changes : (List ℕ → Option (List ℕ)) → List ℕ → List (ℕ × ℕ) → Bool
changes f bytes [] = false
changes f bytes ((code, nal) ∷ starts) =
    is_some (new_unit f (cut bytes nal (end_of bytes starts))) || changes f bytes starts

-- Nothing is returned when nothing changes.
abbrev pub described : (List ℕ → Option (List ℕ)) → List ℕ → List (ℕ × ℕ) → Option (List ℕ)
described f bytes starts =
    if changes f bytes starts
    then some (cut bytes 0 (end_of bytes starts) ++ rendered f bytes starts)
    else none

take_sum : (m n : ℕ) (xs : List ℕ) → take m xs ++ take n (drop m xs) ≡ take (m + n) xs
take_sum zero n xs = ap (λ (k : ℕ). take k xs) (omega arith)
take_sum (suc m) n [] = take_all n [] (omega arith) ∙ sym (take_all (suc m + n) [] (omega arith))
take_sum (suc m) n (x ∷ xs) =
    ap (λ t. x ∷ t) (take_sum m n xs) ∙ ap (λ (k : ℕ). take k (x ∷ xs)) (shift m n)
  where
    shift : (m n : ℕ) → suc (m + n) ≡ suc m + n
    shift m n = omega arith

-- Two pieces that meet are one.
pub cut-cut :
    (bytes : List ℕ) (a b c : ℕ) → a ≤ b → b ≤ c → cut bytes a b ++ cut bytes b c ≡ cut bytes a c
cut-cut bytes a b c h k =
    ap (λ xs. cut bytes a b ++ take (c - b) xs) (later ∙ sym (drop-drop (b - a) a bytes))
    ∙ take_sum (b - a) (c - b) (drop a bytes)
    ∙ ap (λ (n : ℕ). take n (drop a bytes)) (omega arith)
  where
    later : drop b bytes ≡ drop (a + (b - a)) bytes
    later = ap (λ (n : ℕ). drop n bytes) (omega arith)

pub end-le :
    (bytes : List ℕ) (low : ℕ) (starts : List (ℕ × ℕ))
    → IsStarts bytes low starts
    → (low ≤ end_of bytes starts) × (end_of bytes starts ≤ length bytes)
end-le bytes low [] h = (h, omega arith)
end-le bytes low ((code, nal) ∷ starts) h = (h.0, omega (arith, h.1, h.2))

-- A unit that is kept, with its start code, goes on where the bytes before it end.
pub kept :
    (bytes rest : List ℕ) (code nal next : ℕ)
    → code ≤ nal
    → nal ≤ next
    → cut bytes 0 code ++ (cut bytes code nal ++ (cut bytes nal next ++ rest))
      ≡ cut bytes 0 next ++ rest
kept bytes rest code nal next h k =
    sym (append_assoc (cut bytes 0 code) (cut bytes code nal) (cut bytes nal next ++ rest))
    ∙ ap (λ t. t ++ (cut bytes nal next ++ rest)) (cut-cut bytes 0 code nal (omega arith) h)
    ∙ sym (append_assoc (cut bytes 0 nal) (cut bytes nal next) rest)
    ∙ ap (λ t. t ++ rest) (cut-cut bytes 0 nal next (omega arith) k)

nothing_new : (unit : List ℕ) → new_unit (λ _. none) unit ≡ none
nothing_new [] = refl
nothing_new (header ∷ unit) = either_way none (bit_and header 0x1f == 7)
  where
    either_way : (o : Option (List ℕ)) (b : Bool) → (if b then o else o) ≡ o
    either_way o true = refl
    either_way o false = refl

-- With nothing to change, the pieces are the access unit.
pub whole :
    (bytes : List ℕ) (low : ℕ) (starts : List (ℕ × ℕ))
    → IsStarts bytes low starts
    → cut bytes 0 (end_of bytes starts) ++ rendered (λ _. none) bytes starts ≡ bytes
whole bytes low [] h = append-nil _ ∙ take_all (length bytes - 0) bytes (omega arith)
whole bytes low ((code, nal) ∷ starts) h =
    let unit = cut bytes nal (end_of bytes starts) in
    ap
      (λ o.
        cut bytes 0 code
        ++ (cut bytes code nal ++ (or_else o unit ++ rendered (λ _. none) bytes starts)))
      (nothing_new unit)
    ∙ kept bytes (rendered (λ _. none) bytes starts) code nal (end_of bytes starts) h.1
        (end-le bytes nal starts h.3).0
    ∙ whole bytes nal starts h.3
