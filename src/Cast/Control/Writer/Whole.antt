-- ===== src/Cast/Control/Writer/Whole.antt =====
-- The frames that writer.rs puts on the stream.
use big_net_screen.Base.{
  ℕ, ◌≡◌, ◌⊎◌, inl, inr, refl, sym, ap, ap₂, ◌∙◌, true, ◌&&◌, ◌||◌, none, some, List, [], ◌∷◌, ◌++◌,
  append_assoc, append-nil, if◌then◌else◌,
}
use big_net_screen.Cast.Control.Writer.{ControlWriter, lock_timed_out, completes, breaks}
use big_net_screen.Cast.Control.Writer.Calls.{
  Call, sends, begins_close, ends_close, loses, step, run, puts, all_puts, IsCut, IsStill,
}
use big_net_screen.Cast.Control.Writer.Single.{Grew, Steps, Pieces, closed-whole_frame, step-Steps}

-- The stream grew by `frames` and a cut frame of one of the calls, which closes the writer.
pub record GrewBy (calls : List Call) (frames : List ℕ) (w w' : ControlWriter) : Type 0 where
  pub cut : List ℕ
  pub of_call : IsCut cut calls
  pub grown : w'.stream ≡ w.stream ++ (frames ++ cut)
  pub shut : (cut ≡ []) ⊎ (w'.closed ≡ true)

-- Nothing that is put whole follows a cut frame.
chain-Steps :
    (c : Call) (cs : List Call) (a b : List ℕ) (w x y : ControlWriter)
    → Steps (Pieces c) a w x
    → GrewBy cs b x y × IsStill x y
    → (x.closed ≡ true → b ≡ [])
    → GrewBy (c ∷ cs) (a ++ b) w y × IsStill w y
chain-Steps c cs a b w x y (g, s) (h, t) q =
    (grow g h t q, λ e. ((t (s e).1).0 ∙ (s e).0, (t (s e).1).1))
  where
    grow :
        Grew (Pieces c) a w x
        → GrewBy cs b x y
        → IsStill x y
        → (x.closed ≡ true → b ≡ [])
        → GrewBy (c ∷ cs) (a ++ b) w y
    grow g h t q = elim g.ends [
      | inl e ↦ record {
        cut = h.cut;
        of_call = inr h.of_call;
        grown =
            h.grown
            ∙ ap (λ s. s ++ (b ++ h.cut)) (g.grown ∙ ap (λ c. w.stream ++ (a ++ c)) e)
            ∙ simp (append_assoc, append-nil) refl;
        shut = h.shut;
      }
      | inr e ↦ record {
        cut = g.cut;
        of_call = inl e.0;
        grown =
            (t e.1).0
            ∙ g.grown
            ∙ ap (λ c. w.stream ++ (c ++ g.cut))
                (sym (append-nil a) ∙ ap (λ b. a ++ b) (sym (q e.1)));
        shut = inr (t e.1).1;
      }
    ]

closed-puts : (c : Call) (w : ControlWriter) → w.closed ≡ true → puts c w ≡ []
closed-puts (sends completes none heartbeat) w h = refl
closed-puts (sends completes (some frame) heartbeat) w h =
    ap (λ b. if b || (heartbeat && w.closing) then [] else frame) h
closed-puts (sends lock_timed_out frame heartbeat) w h = refl
closed-puts (sends (breaks n) frame heartbeat) w h = refl
closed-puts begins_close w h = refl
closed-puts (ends_close completes none) w h = refl
closed-puts (ends_close completes (some frame)) w h = closed-whole_frame completes frame w h
closed-puts (ends_close lock_timed_out frame) w h = refl
closed-puts (ends_close (breaks n) frame) w h = refl
closed-puts loses w h = refl

closed-all_puts : (cs : List Call) (w : ControlWriter) → w.closed ≡ true → all_puts cs w ≡ []
closed-all_puts [] w h = refl
closed-all_puts (c ∷ cs) w h =
    ap₂ (λ a b. a ++ b) (closed-puts c w h) (closed-all_puts cs (step c w) ((step-Steps c w).1 h).1)

-- Whatever tasks share the writer and however their writes go, the stream grows by the frames of the
-- writes that completed, whole and in order, and by a piece of one more frame at most: the beginning
-- of the frame of a call whose write broke, which leaves the writer closed. On a closed writer no
-- call puts out anything, and it stays closed.
pub run-Steps :
    (calls : List Call) (w : ControlWriter)
    → GrewBy calls (all_puts calls w) w (run calls w) × IsStill w (run calls w)
run-Steps [] w = (
  record { cut = []; of_call = refl; grown = sym (append-nil w.stream); shut = inl refl },
  λ h. (refl, h),
)
run-Steps (c ∷ cs) w =
    chain-Steps c cs (puts c w) (all_puts cs (step c w)) w (step c w) (run cs (step c w))
      (step-Steps c w) (run-Steps cs (step c w)) (closed-all_puts cs (step c w))
