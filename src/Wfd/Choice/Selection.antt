-- ===== src/Wfd/Choice/Selection.antt =====
-- What the selections over a list of modes find.
use big_net_screen.Base.{
  ℕ, ◌≡◌, refl, sym, ap, ◌∙◌, ◌⊎◌, inl, inr, Bool, true, false, ◌&&◌, ◌||◌, none, some, List, [],
  ◌∷◌, ltb, ◌==◌, arith, if-holds,
}
use big_net_screen.Wfd.Tables.{WfdMode}
use big_net_screen.Wfd.Choice.{
  pixels, aspect_diff, is_closer, is_larger, closest_from, closest, largest_from, largest, filter,
}

abbrev pub Has : WfdMode → List WfdMode → Type 0
Has m [] = ⊥
Has m (x ∷ xs) = (m ≡ x) ⊎ Has m xs

kept_or_later :
    (keep : WfdMode → Bool) (m x : WfdMode) (xs rest : List WfdMode)
    → keep x ≡ true
    → (Has m rest → Has m xs × (keep m ≡ true))
    → Has m (x ∷ rest)
    → Has m (x ∷ xs) × (keep m ≡ true)
kept_or_later keep m x xs rest t later (inl same) = (inl same, ap keep same ∙ t)
kept_or_later keep m x xs rest t later (inr h) = let (l, k) = later h in (inr l, k)

pub Has-filter :
    (keep : WfdMode → Bool) (m : WfdMode) (modes : List WfdMode)
    → Has m (filter keep modes)
    → Has m modes × (keep m ≡ true)
Has-filter keep m [] h = absurd h
Has-filter keep m (x ∷ xs) h =
    if-holds (λ (ms : List WfdMode). Has m ms → Has m (x ∷ xs) × (keep m ≡ true)) (keep x)
      (x ∷ filter keep xs) (filter keep xs)
      (λ t. kept_or_later keep m x xs (filter keep xs) t (Has-filter keep m xs))
      (λ _ later. let (l, k) = Has-filter keep m xs later in (inr l, k)) h

pub filter-Has :
    (keep : WfdMode → Bool) (m : WfdMode) (modes : List WfdMode)
    → Has m modes
    → keep m ≡ true
    → Has m (filter keep modes)
filter-Has keep m [] h k = h
filter-Has keep m (x ∷ xs) (inl same) k = rw (sym (ap keep same) ∙ k) (inl same)
filter-Has keep m (x ∷ xs) (inr later) k =
    if-holds (Has m) (keep x) (x ∷ filter keep xs) (filter keep xs)
      (λ _. inr (filter-Has keep m xs later k)) (λ _. filter-Has keep m xs later k)

-- `a` is at least as good for the source as `b`.
abbrev pub AtLeast : ℕ × ℕ → WfdMode → WfdMode → Type 0
AtLeast source a b = is_closer source b a ≡ false

AtLeast-refl : (source : ℕ × ℕ) (a : WfdMode) → AtLeast source a a
unfolding is_closer
AtLeast-refl source a = ground arith

order_trans :
    (d p f e q g c r k : ℕ)
    → (ltb e d || ((e == d) && (ltb p q || ((q == p) && ltb f g)))) ≡ false
    → (ltb c e || ((c == e) && (ltb q r || ((r == q) && ltb g k)))) ≡ false
    → (ltb c d || ((c == d) && (ltb p r || ((r == p) && ltb f k)))) ≡ false
order_trans d p f e q g c r k h h' = ground arith

AtLeast-trans :
    (source : ℕ × ℕ) (a b c : WfdMode)
    → AtLeast source a b
    → AtLeast source b c
    → AtLeast source a c
unfolding is_closer
AtLeast-trans source a b c h k =
    order_trans (aspect_diff source a) (pixels a) a.fps (aspect_diff source b) (pixels b) b.fps
      (aspect_diff source c) (pixels c) c.fps h k

order_total :
    (d p f e q g : ℕ)
    → (ltb e d || ((e == d) && (ltb p q || ((q == p) && ltb f g)))) ≡ true
    → (ltb d e || ((d == e) && (ltb q p || ((p == q) && ltb g f)))) ≡ false
order_total d p f e q g h = ground arith

-- What is closer is at least as good.
closer-AtLeast : (source : ℕ × ℕ) (a b : WfdMode) → is_closer source a b ≡ true → AtLeast source a b
unfolding is_closer
closer-AtLeast source a b h =
    order_total (aspect_diff source b) (pixels b) b.fps (aspect_diff source a) (pixels a) a.fps h

abbrev pub AllAtLeast : ℕ × ℕ → WfdMode → List WfdMode → Type 0
AllAtLeast source best modes = (m : WfdMode) → Has m modes → AtLeast source best m

-- The mode that is found is the first one or one of the rest, and at least as good as each.
record Found (source : ℕ × ℕ) (first : WfdMode) (modes : List WfdMode) (found : WfdMode)
    : Type 0 where
  offered : Has found (first ∷ modes)
  best : AllAtLeast source found (first ∷ modes)

step :
    (source : ℕ × ℕ) (first m : WfdMode) (ms : List WfdMode) (next found : WfdMode)
    → (next ≡ first) ⊎ (next ≡ m)
    → AtLeast source next first
    → AtLeast source next m
    → Found source next ms found
    → Found source first (m ∷ ms) found
step source first m ms next found which one two f = record {
  offered = place which f.offered;
  best = λ x h. at x h;
}
  where
    place : (next ≡ first) ⊎ (next ≡ m) → Has found (next ∷ ms) → Has found (first ∷ m ∷ ms)
    place (inl a) (inl b) = inl (b ∙ a)
    place (inr a) (inl b) = inr (inl (b ∙ a))
    place w (inr later) = inr (inr later)

    at : (x : WfdMode) → Has x (first ∷ m ∷ ms) → AtLeast source found x
    at x (inl e) = rw e (AtLeast-trans source found next first (f.best next (inl refl)) one)
    at x (inr (inl e)) = rw e (AtLeast-trans source found next m (f.best next (inl refl)) two)
    at x (inr (inr later)) = f.best x (inr later)

closest_from-Found :
    (source : ℕ × ℕ) (first : WfdMode) (modes : List WfdMode)
    → Found source first modes (closest_from source first modes)
unfolding closest_from
closest_from-Found source first [] = record { offered = inl refl; best = λ m h. only m h }
  where
    only : (m : WfdMode) → (m ≡ first) ⊎ ⊥ → AtLeast source first m
    only m (inl e) = rw e (AtLeast-refl source first)
    only m (inr bad) = absurd bad
closest_from-Found source first (m ∷ ms) =
    if-holds (λ (next : WfdMode). Found source first (m ∷ ms) (closest_from source next ms))
      (is_closer source m first) m first
      (λ t.
        step source first m ms m _ (inr refl) (closer-AtLeast source m first t)
          (AtLeast-refl source m) (closest_from-Found source m ms))
      (λ f.
        step source first m ms first _ (inl refl) (AtLeast-refl source first) f
          (closest_from-Found source first ms))

-- `closest` finds a mode of the list that no other beats, unless the list is empty.
pub closest-cases :
    (source : ℕ × ℕ) (modes : List WfdMode)
    → ((closest source modes ≡ none) × ((m : WfdMode) → Has m modes → ⊥))
      ⊎ ((found : WfdMode) × (closest source modes ≡ some found)
          × Has found modes
          × AllAtLeast source found modes)
closest-cases source [] = inl (refl, λ m h. h)
closest-cases source (m ∷ ms) =
    let f = closest_from-Found source m ms in
    inr (closest_from source m ms, refl, f.offered, f.best)

largest_from-Has :
    (first : WfdMode) (modes : List WfdMode) → Has (largest_from first modes) (first ∷ modes)
unfolding largest_from
largest_from-Has first [] = inl refl
largest_from-Has first (m ∷ ms) =
    if-holds (λ (next : WfdMode). Has (largest_from next ms) (first ∷ m ∷ ms)) (is_larger m first) m
      first (λ _. inr (largest_from-Has m ms))
      (λ _. skip (largest_from first ms) (largest_from-Has first ms))
  where
    skip : (found : WfdMode) → Has found (first ∷ ms) → Has found (first ∷ m ∷ ms)
    skip found (inl e) = inl e
    skip found (inr later) = inr (inr later)

-- So does `largest`, as far as it is in the list.
pub largest-cases :
    (modes : List WfdMode)
    → ((largest modes ≡ none) × ((m : WfdMode) → Has m modes → ⊥))
      ⊎ ((found : WfdMode) × (largest modes ≡ some found) × Has found modes)
largest-cases [] = inl (refl, λ m h. h)
largest-cases (m ∷ ms) = inr (largest_from m ms, refl, largest_from-Has m ms)
