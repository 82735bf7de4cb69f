-- ===== src/Wfd/Choice/Best.antt =====
-- The mode that `preferred_mode` asks for.
use big_net_screen.Base.{
  ◌==◌, ◌&&◌, ◌||◌, ltb, ◌<◌, ◌≤◌, ◌⊎◌, ◌*◌, ◌-◌, ◌+◌, ◌/◌, ℕ, ◌≤◌, ◌<◌, ◌≡◌, refl, sym, ◌∙◌, ◌⊎◌,
  inl, inr, Bool, true, false, ◌&&◌, ◌||◌, Option, none, some, List, [], ◌∷◌, ◌==◌, arith, if-holds,
}
use mathlib.Core.Path.{subst}
use big_net_screen.Wfd.Tables.{WfdMode, same_mode}
use big_net_screen.Wfd.Tables.Naming.{same_mode-eq}
use big_net_screen.Wfd.Choice.{
  is_closer, aspect_diff, pixels, SinkCaps, closest, filter, best_mode, best_mode_within,
  is_progressive, is_within, is_compatible, offers, pool_of, choose, native_fits, best_mode_for,
  preferred_mode,
}
use big_net_screen.Wfd.Choice.Selection.{
  Has, Has-filter, filter-Has, AtLeast, closest-cases, largest-cases,
}

-- The mode is offered and progressive.
abbrev Usable : List WfdMode → WfdMode → Type 0
Usable modes m = Has m modes × (is_progressive m ≡ true)

-- A usable mode is found, if there is one.
abbrev Finds : List WfdMode → Option WfdMode → Type 0
Finds modes none = (m : WfdMode) → Has m modes → is_progressive m ≡ true → ⊥
Finds modes (some m) = Usable modes m

within_progressive :
    (limit : ℕ × ℕ) (m : WfdMode) → is_within limit m ≡ true → is_progressive m ≡ true
within_progressive limit m h = ground arith

best_mode-Finds : (modes : List WfdMode) → Finds modes (best_mode modes)
unfolding best_mode
best_mode-Finds modes = elim (largest-cases (filter is_progressive modes)) [
  | inl (e, empty) ↦
      subst (Finds modes) (sym e) (λ m h p. empty m (filter-Has is_progressive m modes h p))
  | inr (found, e, h) ↦ subst (Finds modes) (sym e) (Has-filter is_progressive found modes h)
]

within-Usable :
    (limit : ℕ × ℕ) (modes : List WfdMode) (m : WfdMode)
    → Has m (filter (is_within limit) modes)
    → Usable modes m
within-Usable limit modes m h =
    let (offered, w) = Has-filter (is_within limit) m modes h in
    (offered, within_progressive limit m w)

best_mode_within-Finds :
    (limit : ℕ × ℕ) (modes : List WfdMode) → Finds modes (best_mode_within limit modes)
unfolding best_mode_within
best_mode_within-Finds limit modes = elim (largest-cases (filter (is_within limit) modes)) [
  | inl (e, empty) ↦
      subst (λ o. Finds modes (elim o [ none ↦ best_mode modes | some m ↦ some m ])) (sym e)
        (best_mode-Finds modes)
  | inr (found, e, h) ↦
      subst (λ o. Finds modes (elim o [ none ↦ best_mode modes | some m ↦ some m ])) (sym e)
        (within-Usable limit modes found h)
]

pool-Usable :
    (candidates modes : List WfdMode) (m : WfdMode)
    → ((x : WfdMode) → Has x candidates → Usable modes x)
    → Has m (pool_of candidates modes)
    → Usable modes m
pool-Usable [] modes m h k = Has-filter is_progressive m modes k
pool-Usable (c ∷ cs) modes m h k = h m k

pool-empty :
    (candidates modes : List WfdMode)
    → ((x : WfdMode) → Has x (pool_of candidates modes) → ⊥)
    → (m : WfdMode) → Has m modes
    → is_progressive m ≡ true
    → ⊥
pool-empty [] modes empty m h p = empty m (filter-Has is_progressive m modes h p)
pool-empty (c ∷ cs) modes empty m h p = empty c (inl refl)

pool-Has :
    (candidates modes : List WfdMode) (m : WfdMode)
    → Has m candidates
    → Has m (pool_of candidates modes)
pool-Has [] modes m h = absurd h
pool-Has (c ∷ cs) modes m h = h

closest-Finds :
    (source limit : ℕ × ℕ) (modes : List WfdMode)
    → Finds modes (closest source (pool_of (filter (is_within limit) modes) modes))
closest-Finds source limit modes =
    let pool = pool_of (filter (is_within limit) modes) modes in
    elim (closest-cases source pool) [
      | inl (e, empty) ↦
          subst (Finds modes) (sym e) (pool-empty (filter (is_within limit) modes) modes empty)
      | inr (found, e, h, _) ↦
          subst (Finds modes) (sym e)
            (pool-Usable (filter (is_within limit) modes) modes found (within-Usable limit modes) h)
    ]

choose-Finds :
    (source limit : ℕ × ℕ) (modes : List WfdMode) → Finds modes (choose source limit modes)
unfolding choose
choose-Finds source limit modes =
    if-holds (Finds modes) ((source.0 == 0) || (source.1 == 0)) _ _
      (λ _. best_mode_within-Finds limit modes) (λ _. closest-Finds source limit modes)

offers-Has : (m : WfdMode) (modes : List WfdMode) → offers m modes ≡ true → Has m modes
offers-Has m [] h = absurd (differ h)
  where
    differ : false ≡ true → ⊥
    differ e = cc
offers-Has m (x ∷ xs) h = elim (either (same_mode m x) (offers m xs) h) [
  | inl same ↦ inl (same_mode-eq m x same)
  | inr later ↦ inr (offers-Has m xs later)
]
  where
    either : (a b : Bool) → (a || b) ≡ true → (a ≡ true) ⊎ (b ≡ true)
    either a b h = ground arith

-- The native mode is taken only if the sink offers it and it fits.
abbrev Native : List WfdMode → Option WfdMode → Type 0
Native modes none = Unit
Native modes (some m) = Usable modes m

native_fits-Native :
    (limit : ℕ × ℕ) (modes : List WfdMode) (o : Option WfdMode)
    → Native modes (native_fits limit modes o)
unfolding native_fits
native_fits-Native limit modes none = tt
native_fits-Native limit modes (some m) =
    if-holds (Native modes) (is_within limit m && offers m modes) (some m) none
      (λ t.
        let (w, o) = both (is_within limit m) (offers m modes) t in
        (offers-Has m modes o, within_progressive limit m w))
      (λ _. tt)
  where
    both : (a b : Bool) → (a && b) ≡ true → (a ≡ true) × (b ≡ true)
    both a b h = ground arith

or_choice :
    (modes : List WfdMode) (native chosen : Option WfdMode)
    → Native modes native
    → Finds modes chosen
    → Finds modes (elim native [ none ↦ chosen | some m ↦ some m ])
or_choice modes none chosen n f = f
or_choice modes (some m) chosen n f = n

best_mode_for-Finds :
    (source limit : ℕ × ℕ) (caps : SinkCaps) → Finds caps.modes (best_mode_for source limit caps)
unfolding best_mode_for
best_mode_for-Finds source limit caps =
    or_choice caps.modes (native_fits limit caps.modes caps.native) (choose source limit caps.modes)
      (native_fits-Native limit caps.modes caps.native) (choose-Finds source limit caps.modes)

-- A mode that the session can use: one the sink offers, progressive, and inside what was asked for.
pub record IsSuitable (limit : ℕ × ℕ) (fps : ℕ) (modes : List WfdMode) (m : WfdMode) : Type 0 where
  pub offered : Has m modes
  pub progressive : m.interlaced ≡ false
  pub fast : m.fps ≤ fps
  pub narrow : m.width ≤ limit.0
  pub short : m.height ≤ limit.1

compatible_parts :
    (limit : ℕ × ℕ) (fps : ℕ) (m : WfdMode)
    → is_compatible limit fps m ≡ true
    → is_progressive m ≡ true
    → (m.interlaced ≡ false) × (m.fps ≤ fps) × (m.width ≤ limit.0) × (m.height ≤ limit.1)
compatible_parts limit fps m h p = ground arith

suitable_tests :
    (limit : ℕ × ℕ) (fps : ℕ) (m : WfdMode)
    → m.interlaced ≡ false
    → m.fps ≤ fps
    → m.width ≤ limit.0
    → m.height ≤ limit.1
    → (is_compatible limit fps m ≡ true) × (is_progressive m ≡ true) × (is_within limit m ≡ true)
suitable_tests limit fps m i f w h = ground arith

-- A session gets a mode whenever the sink offers a suitable one, and the mode that it gets is
-- suitable: offered, progressive, and within the size and the frame rate that were asked for.
pub preferred_mode-cases :
    (source limit : ℕ × ℕ) (fps : ℕ) (caps : SinkCaps)
    → ((preferred_mode source limit fps caps ≡ none)
        × ((m : WfdMode) → IsSuitable limit fps caps.modes m → ⊥))
      ⊎ ((m : WfdMode) × (preferred_mode source limit fps caps ≡ some m)
          × IsSuitable limit fps caps.modes m)
unfolding preferred_mode
preferred_mode-cases source limit fps caps =
    of_found
      (best_mode_for source limit
        (record caps { modes = filter (is_compatible limit fps) caps.modes }))
      (best_mode_for-Finds source limit
        (record caps { modes = filter (is_compatible limit fps) caps.modes }))
  where
    of_found :
        (o : Option WfdMode)
        → Finds (filter (is_compatible limit fps) caps.modes) o
        → ((o ≡ none) × ((m : WfdMode) → IsSuitable limit fps caps.modes m → ⊥))
          ⊎ ((m : WfdMode) × (o ≡ some m) × IsSuitable limit fps caps.modes m)
    of_found none f = inl (
      refl,
      λ m s.
          let (c, p, _) = suitable_tests limit fps m s.progressive s.fast s.narrow s.short in
          f m (filter-Has (is_compatible limit fps) m caps.modes s.offered c) p,
    )
    of_found (some m) f =
        let (offered, c) = Has-filter (is_compatible limit fps) m caps.modes f.0 in
        let (i, fast, w, h) = compatible_parts limit fps m c f.1 in
        inr (
          m,
          refl,
          record { offered = offered; progressive = i; fast = fast; narrow = w; short = h },
        )

not_zero : (n : ℕ) → 0 < n → (n == 0) ≡ false
not_zero n h = ground arith

preferred_mode-eq :
    (source limit : ℕ × ℕ) (fps : ℕ) (caps : SinkCaps)
    → 0 < source.0
    → 0 < source.1
    → let modes = filter (is_compatible limit fps) caps.modes in
      native_fits limit modes caps.native ≡ none
      → preferred_mode source limit fps caps
        ≡ closest source (pool_of (filter (is_within limit) modes) modes)
unfolding preferred_mode best_mode_for choose
preferred_mode-eq source limit fps caps w h native =
    rw (native, not_zero source.0 w, not_zero source.1 h, best_mode_for, choose)

-- The difference of the aspects of the source and of a mode in thousandths, as the key has it.
abbrev pub skew : ℕ × ℕ → WfdMode → ℕ
skew (width, height) m =
    (m.width * height - width * m.height + (width * m.height - m.width * height))
    * 1000
    / (width * height)

-- `b` does not come before `a`: its aspect is farther off; or as far off, and it has fewer pixels; or
-- as many pixels, and no higher frame rate.
abbrev pub IsNoCloser : ℕ × ℕ → WfdMode → WfdMode → Type 0
IsNoCloser source a b =
    (skew source a < skew source b)
    ⊎ ((skew source a ≡ skew source b)
        × ((b.width * b.height < a.width * a.height)
            ⊎ ((b.width * b.height ≡ a.width * a.height) × (b.fps ≤ a.fps))))

by_keys :
    (d p f e q g : ℕ)
    → (ltb e d || ((e == d) && (ltb p q || ((q == p) && ltb f g)))) ≡ false
    → (d < e) ⊎ ((d ≡ e) × ((q < p) ⊎ ((q ≡ p) × (g ≤ f))))
by_keys d p f e q g h = ground arith

AtLeast-IsNoCloser : (source : ℕ × ℕ) (a b : WfdMode) → AtLeast source a b → IsNoCloser source a b
unfolding is_closer aspect_diff pixels
AtLeast-IsNoCloser source a b h =
    by_keys (skew source a) (a.width * a.height) a.fps (skew source b) (b.width * b.height) b.fps h

-- Unless the sink's native mode fits, no suitable mode comes closer to the source than the one that
-- is asked for: by the difference of the aspects first, of which the smaller one is closer, then by
-- the pixels, then by the frame rate, of which the greater ones are.
pub preferred_mode-closest :
    (source limit : ℕ × ℕ) (fps : ℕ) (caps : SinkCaps) (found m : WfdMode)
    → 0 < source.0
    → 0 < source.1
    → native_fits limit (filter (is_compatible limit fps) caps.modes) caps.native ≡ none
    → preferred_mode source limit fps caps ≡ some found
    → IsSuitable limit fps caps.modes m
    → IsNoCloser source found m
preferred_mode-closest source limit fps caps found m w h native e s =
    let modes = filter (is_compatible limit fps) caps.modes in
    let pool = pool_of (filter (is_within limit) modes) modes in
    let (c, _, inside) = suitable_tests limit fps m s.progressive s.fast s.narrow s.short in
    let in_pool : Has m pool = pool-Has (filter (is_within limit) modes) modes m (
      filter-Has (is_within limit) m modes
        (filter-Has (is_compatible limit fps) m caps.modes s.offered c) inside) in
    let chosen : closest source pool ≡ some found =
      sym (preferred_mode-eq source limit fps caps w h native) ∙ e in
    elim (closest-cases source pool) [
      | inl (_, empty) ↦ absurd (empty m in_pool)
      | inr (best, b, _, all) ↦
          rw (some_inj (sym chosen ∙ b)) (AtLeast-IsNoCloser source best m (all m in_pool))
    ]
  where
    some_inj : {a b : WfdMode} → some a ≡ some b → a ≡ b
    some_inj e = cc
