-- ===== src/Cast/Control/Writer/Single.antt =====
-- What one call of writer.rs does to the stream.
use mathlib.Core.Path.{subst}
use big_net_screen.Base.{
  ℕ, ◌≡◌, ◌⊎◌, inl, inr, refl, sym, ap, ◌∙◌, Bool, true, false, ◌&&◌, ◌||◌, none, some, List, [],
  ◌++◌, append-nil, take, if◌then◌else◌,
}
use big_net_screen.Cast.Control.Writer.{
  ControlWriter, mark_closed, Course, lock_timed_out, completes, breaks, done, refused, failed,
  put_frame, had_lock, write, send, begin_close, close_frame, end_close,
}
use big_net_screen.Cast.Control.Writer.Calls.{
  Call, sends, begins_close, ends_close, loses, step, whole_frame, puts, IsPiece, IsStill,
}

-- The same for one call, of which a piece `P` may be cut.
pub record Grew (P : List ℕ → Type 0) (frames : List ℕ) (w w' : ControlWriter) : Type 0 where
  pub cut : List ℕ
  pub grown : w'.stream ≡ w.stream ++ (frames ++ cut)
  pub ends : (cut ≡ []) ⊎ (P cut × (w'.closed ≡ true))

abbrev pub Steps : (List ℕ → Type 0) → List ℕ → ControlWriter → ControlWriter → Type 0
Steps P frames w w' = Grew P frames w w' × IsStill w w'

nothing : (w : ControlWriter) (s : List ℕ) → s ≡ w.stream → s ≡ w.stream ++ []
nothing w s e = e ∙ sym (append-nil w.stream)

unchanged :
    (P : List ℕ → Type 0) (w w' : ControlWriter)
    → w'.stream ≡ w.stream
    → (w.closed ≡ true → w'.closed ≡ true)
    → Steps P [] w w'
unchanged P w w' e c =
    (record { cut = []; grown = nothing w w'.stream e; ends = inl refl }, λ h. (e, c h))

-- What is cut of a frame by the course of its write.
abbrev Broken : Course → List ℕ → List ℕ → Type 0
Broken (breaks n) frame cut = cut ≡ take n frame
Broken _ frame cut = ⊥

-- A write, by what the tests on the writer find.
write_by :
    (course : Course) (frame : List ℕ) (last shut suppressed : Bool) (w : ControlWriter)
    → w.closed ≡ shut
    → Steps
        (Broken course frame)
        (elim course [ completes ↦ (if shut || suppressed then [] else frame) | _ ↦ [] ])
        w
        (if had_lock course
          then (if shut
              then (refused, w)
              else if suppressed
              then (done, w)
              else put_frame course frame last w)
          else (failed, w)).1
unfolding put_frame mark_closed
write_by lock_timed_out frame last shut suppressed w e =
    unchanged (Broken lock_timed_out frame) w w refl (λ h. h)
write_by completes frame last true suppressed w e =
    unchanged (Broken completes frame) w w refl (λ h. h)
write_by completes frame last false true w e = unchanged (Broken completes frame) w w refl (λ h. h)
write_by completes frame true false false w e = (
  record { cut = []; grown = ap (λ f. w.stream ++ f) (sym (append-nil frame)); ends = inl refl },
  λ h. absurd (no (sym e ∙ h)),
)
  where
    no : false ≡ true → ⊥
    no e = cc
write_by completes frame false false false w e = (
  record { cut = []; grown = ap (λ f. w.stream ++ f) (sym (append-nil frame)); ends = inl refl },
  λ h. absurd (no (sym e ∙ h)),
)
  where
    no : false ≡ true → ⊥
    no e = cc
write_by (breaks n) frame last true suppressed w e =
    unchanged (Broken (breaks n) frame) w w refl (λ h. h)
write_by (breaks n) frame last false true w e =
    unchanged (Broken (breaks n) frame) w w refl (λ h. h)
write_by (breaks n) frame last false false w e = (
  record { cut = take n frame; grown = refl; ends = inr (refl, refl) },
  λ h. absurd (no (sym e ∙ h)),
)
  where
    no : false ≡ true → ⊥
    no e = cc

write-Steps :
    (course : Course) (frame : List ℕ) (heartbeat last : Bool) (w : ControlWriter)
    → Steps
        (Broken course frame)
        (whole_frame course (some frame) (heartbeat && w.closing) w)
        w
        (write course frame heartbeat last w).1
unfolding write
write-Steps lock_timed_out frame heartbeat last w =
    write_by lock_timed_out frame last w.closed (heartbeat && w.closing) w refl
write-Steps completes frame heartbeat last w =
    write_by completes frame last w.closed (heartbeat && w.closing) w refl
write-Steps (breaks n) frame heartbeat last w =
    write_by (breaks n) frame last w.closed (heartbeat && w.closing) w refl

closing-Steps :
    (P : List ℕ → Type 0) (w : ControlWriter) (frames : List ℕ) (w' : ControlWriter)
    → Steps P frames w w'
    → Steps P frames w (mark_closed w')
unfolding mark_closed
closing-Steps P w frames w' (g, s) =
    (record { cut = g.cut; grown = g.grown; ends = shut_now g.ends }, λ h. ((s h).0, refl))
  where
    shut_now : {A B C : Type 0} → A ⊎ (B × C) → A ⊎ (B × (true ≡ true))
    shut_now (inl a) = inl a
    shut_now (inr b) = inr (b.0, refl)

picked :
    (P : List ℕ → Type 0) (b : Bool) (frames : List ℕ) (w x : ControlWriter)
    → w.closed ≡ b
    → (b ≡ true → frames ≡ [])
    → Steps P frames w x
    → Steps P frames w (if b then w else x)
picked P true frames w x e f s =
    subst (λ fs. Steps P fs w w) (sym (f refl)) (unchanged P w w refl (λ h. h))
picked P false frames w x e f s = s

pub closed-whole_frame :
    (course : Course) (frame : List ℕ) (w : ControlWriter)
    → w.closed ≡ true
    → whole_frame course (some frame) false w ≡ []
closed-whole_frame completes frame w h = ap (λ b. if b || false then [] else frame) h
closed-whole_frame lock_timed_out frame w h = refl
closed-whole_frame (breaks n) frame w h = refl

end_close-Steps :
    (course : Course) (frame : List ℕ) (w : ControlWriter)
    → Steps
        (Broken course frame)
        (whole_frame course (some frame) false w)
        w
        (end_close course (some frame) w)
unfolding end_close
end_close-Steps course frame w =
    let fs = whole_frame course (some frame) false w in
    let P = Broken course frame in
    closing-Steps P w fs (if w.closed then w else close_frame course (some frame) w) (
      picked P w.closed fs w (close_frame course (some frame) w) refl
        (closed-whole_frame course frame w) (write-Steps course frame false true w))

end_close-none :
    (P : List ℕ → Type 0) (course : Course) (w : ControlWriter)
    → Steps P [] w (end_close course none w)
unfolding end_close
end_close-none P course w =
    closing-Steps P w [] (if w.closed then w else w)
      (picked P w.closed [] w w refl (λ h. refl) (unchanged P w w refl (λ h. h)))

abbrev pub Pieces : Call → List ℕ → Type 0
Pieces c cut = IsPiece cut c

pub step-Steps : (c : Call) (w : ControlWriter) → Steps (Pieces c) (puts c w) w (step c w)
unfolding send begin_close
step-Steps (sends completes none heartbeat) w =
    unchanged (Pieces (sends completes none heartbeat)) w w refl (λ h. h)
step-Steps (sends lock_timed_out none heartbeat) w =
    unchanged (Pieces (sends lock_timed_out none heartbeat)) w w refl (λ h. h)
step-Steps (sends (breaks n) none heartbeat) w =
    unchanged (Pieces (sends (breaks n) none heartbeat)) w w refl (λ h. h)
step-Steps (sends completes (some frame) heartbeat) w =
    write-Steps completes frame heartbeat false w
step-Steps (sends lock_timed_out (some frame) heartbeat) w =
    write-Steps lock_timed_out frame heartbeat false w
step-Steps (sends (breaks n) (some frame) heartbeat) w =
    write-Steps (breaks n) frame heartbeat false w
step-Steps begins_close w = unchanged (Pieces begins_close) w (begin_close w) refl (λ h. h)
step-Steps (ends_close completes none) w =
    end_close-none (Pieces (ends_close completes none)) completes w
step-Steps (ends_close lock_timed_out none) w =
    end_close-none (Pieces (ends_close lock_timed_out none)) lock_timed_out w
step-Steps (ends_close (breaks n) none) w =
    end_close-none (Pieces (ends_close (breaks n) none)) (breaks n) w
step-Steps (ends_close completes (some frame)) w = end_close-Steps completes frame w
step-Steps (ends_close lock_timed_out (some frame)) w = end_close-Steps lock_timed_out frame w
step-Steps (ends_close (breaks n) (some frame)) w = end_close-Steps (breaks n) frame w
step-Steps loses w = unchanged (Pieces loses) w (mark_closed w) refl (λ h. refl)
