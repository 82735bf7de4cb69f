-- ===== src/Cast/Rtcp/Feedback/Total.antt =====
-- The feedback reader of rtcp.rs returns on every datagram: no index is out of range, and no loop
-- runs on.
use mathlib.Core.Path.{subst}
use big_net_screen.Base.{
  ℕ, zero, suc, ◌+◌, ◌*◌, ◌≤◌, ◌<◌, ◌≡◌, refl, sym, ◌∙◌, Bool, true, false, not, ◌||◌, Option, none,
  List, [], ◌∷◌, length, slice, get_elem?, get_or, All, ltb, ◌==◌, if◌then◌else◌, arith,
}
use big_net_screen.Base.Bytes.{of_be16}
use big_net_screen.Base.Outcome.{
  Outcome, ok, invalid, fault, must, must_byte, Safe, Returns, bind-Returns, map-Returns,
  if-Returns, elim-Returns, Returns-ok,
}
use big_net_screen.Cast.Rtcp.Blocks.{is_feedback, classify_block, names, validated_blocks}
use big_net_screen.Cast.Rtcp.Blocks.Reports.{Reports, done, report, report_size}
use big_net_screen.Cast.Rtcp.Blocks.Safety.{kind_of, IsBlock, validated_blocks-Safe}
use big_net_screen.Cast.Rtcp.Blocks.Readers.{
  Any, Sized, must-slice, Classified, classify_block-Returns, names-Returns,
}
use big_net_screen.Cast.Rtcp.Feedback.{
  CastFeedback, word32, word64, time_at, time_in, is_reference, reference_time, read_feedback,
  feedbacks_of, parse_cast_feedbacks,
}

word32-Returns : (bytes : List ℕ) → length bytes ≡ 4 → Returns Any (word32 bytes)
word32-Returns [] h = absurd (omega arith)
word32-Returns (a ∷ []) h = absurd (omega arith)
word32-Returns (a ∷ (b ∷ [])) h = absurd (omega arith)
word32-Returns (a ∷ (b ∷ (c ∷ []))) h = absurd (omega arith)
word32-Returns (a ∷ (b ∷ (c ∷ (d ∷ [])))) h = tt
word32-Returns (a ∷ (b ∷ (c ∷ (d ∷ (e ∷ rest))))) h = absurd (omega arith)

word64-Returns : (bytes : List ℕ) → length bytes ≡ 8 → Returns Any (word64 bytes)
word64-Returns [] h = absurd (omega arith)
word64-Returns (a ∷ []) h = absurd (omega arith)
word64-Returns (a ∷ (b ∷ [])) h = absurd (omega arith)
word64-Returns (a ∷ (b ∷ (c ∷ []))) h = absurd (omega arith)
word64-Returns (a ∷ (b ∷ (c ∷ (d ∷ [])))) h = absurd (omega arith)
word64-Returns (a ∷ (b ∷ (c ∷ (d ∷ (e ∷ []))))) h = absurd (omega arith)
word64-Returns (a ∷ (b ∷ (c ∷ (d ∷ (e ∷ (f ∷ [])))))) h = absurd (omega arith)
word64-Returns (a ∷ (b ∷ (c ∷ (d ∷ (e ∷ (f ∷ (g ∷ []))))))) h = absurd (omega arith)
word64-Returns (a ∷ (b ∷ (c ∷ (d ∷ (e ∷ (f ∷ (g ∷ (i ∷ [])))))))) h = tt
word64-Returns (a ∷ (b ∷ (c ∷ (d ∷ (e ∷ (f ∷ (g ∷ (i ∷ (j ∷ rest))))))))) h = absurd (omega arith)

time_at-Returns :
    (xr : List ℕ) (pos : ℕ) (seen : Option ℕ)
    → pos + 4 ≤ length xr
    → (get_or xr pos 0 ≡ 4 → pos + 12 ≤ length xr)
    → Returns Any (time_at xr pos seen)
unfolding time_at
time_at-Returns xr pos seen four twelve =
    bind-Returns (λ kind. kind ≡ get_or xr pos 0) Any (must (get_elem? xr pos)) _
      (must_byte xr pos (omega arith))
      λ kind hk.
        elim-Returns Any (kind == 4) _ (ok seen)
          (λ e.
            bind-Returns (Sized 8) Any (must (slice xr (pos + 4) (pos + 12))) _
              (must-slice xr (pos + 4) (pos + 12) 8 (omega arith) (twelve (sym hk ∙ ground arith)))
              λ bytes hb. bind-Returns Any Any (word64 bytes) _ (word64-Returns bytes hb) λ _ _. tt)
          (λ _. tt)

-- One step of a walk over whole reports.
record Next (xr : List ℕ) (pos : ℕ) : Type 0 where
  fits : pos + report_size xr pos ≤ length xr
  time : get_or xr pos 0 ≡ 4 → report_size xr pos ≡ 12
  rest : Reports xr (pos + report_size xr pos)

Next-report : {xr : List ℕ} {pos : ℕ} → Reports xr pos → pos < length xr → Next xr pos
Next-report (done end) h = absurd (omega arith)
Next-report (report fits time rest) h = record { fits = fits; time = time; rest = rest }

time_in-Returns :
    (fuel : ℕ) (xr : List ℕ) (pos : ℕ) (seen : Option ℕ)
    → Reports xr pos
    → pos ≤ length xr
    → length xr < pos + fuel
    → Returns Any (time_in fuel xr pos seen)
unfolding time_in
time_in-Returns zero xr pos seen r low h = absurd (omega arith)
time_in-Returns (suc fuel) xr pos seen r low h =
    elim-Returns Any (ltb pos (length xr)) _ (ok seen)
      (λ more.
        let n : Next xr pos = Next-report r (ground arith) in
        bind-Returns (λ b. b ≡ get_or xr (pos + 2) 0) Any (must (get_elem? xr (pos + 2))) _
          (must_byte xr (pos + 2) (omega (arith, n.fits)))
          λ high hh.
            bind-Returns (λ b. b ≡ get_or xr (pos + 3) 0) Any (must (get_elem? xr (pos + 3))) _
              (must_byte xr (pos + 3) (omega (arith, n.fits)))
              λ low' hl.
                let size = (of_be16 high low' + 1) * 4 in
                let same : report_size xr pos ≡ size = omega arith in
                bind-Returns Any Any (time_at xr pos seen) _
                  (time_at-Returns xr pos seen (omega (arith, n.fits))
                    (λ e. omega (arith, n.fits, n.time e)))
                  λ seen' _.
                    time_in-Returns fuel xr (pos + size) seen'
                      (subst (λ (s : ℕ). Reports xr (pos + s)) same n.rest) (omega (arith, n.fits))
                      (omega arith))
      (λ _. tt)

is_reference-Returns :
    (ssrc : ℕ) (xr : List ℕ)
    → IsBlock xr
    → Returns (λ mine. mine ≡ true → kind_of xr ≡ 207) (is_reference ssrc xr)
unfolding is_reference
is_reference-Returns ssrc xr v =
    let P = λ (mine : Bool). mine ≡ true → kind_of xr ≡ 207 in
    bind-Returns (λ kind. kind ≡ kind_of xr) P (must (get_elem? xr 1)) _
      (must_byte xr 1 (omega (arith, v.four)))
      λ kind hk.
        if-Returns P (kind == 207) (names xr 4 ssrc) (ok false)
          (λ e.
            map-Returns Any P (names xr 4 ssrc) (λ _ _ _. sym hk ∙ ground arith)
              (names-Returns xr 4 ssrc (v.reports (sym hk ∙ ground arith)).0))
          (λ _ bad. cc)

reference_time-Returns :
    (ssrc : ℕ) (blocks : List (List ℕ)) (seen : Option ℕ)
    → All IsBlock blocks
    → Returns Any (reference_time ssrc blocks seen)
unfolding reference_time
reference_time-Returns ssrc [] seen v = tt
reference_time-Returns ssrc (xr ∷ blocks) seen v =
    bind-Returns (λ mine. mine ≡ true → kind_of xr ≡ 207) Any (is_reference ssrc xr) _
      (is_reference-Returns ssrc xr v.0)
      λ mine hm.
        bind-Returns Any Any (if mine then time_in (length xr) xr 8 seen else ok seen) _
          (if-Returns Any mine (time_in (length xr) xr 8 seen) (ok seen)
            (λ e.
              let (eight, reports) = v.0.reports (hm e) in
              time_in-Returns (length xr) xr 8 seen reports eight (omega arith))
            (λ _. tt))
          λ seen' _. reference_time-Returns ssrc blocks seen' v.1

read_feedback-Returns :
    (blocks : List (List ℕ)) (block : List ℕ)
    → All IsBlock blocks
    → 20 + get_or block 17 0 * 4 ≤ length block
    → Returns Any (read_feedback blocks block)
unfolding read_feedback
read_feedback-Returns blocks block v h =
    bind-Returns (Sized 4) Any (must (slice block 4 8)) _
      (must-slice block 4 8 4 refl (omega arith))
      λ receiver hr.
        bind-Returns Any Any (word32 receiver) _ (word32-Returns receiver hr) λ receiver_ssrc _.
          bind-Returns (Sized 4) Any (must (slice block 8 12)) _
            (must-slice block 8 12 4 refl (omega arith))
            λ sender hs.
              bind-Returns Any Any (word32 sender) _ (word32-Returns sender hs) λ sender_ssrc _.
                bind-Returns Any Any (reference_time receiver_ssrc blocks none) _
                  (reference_time-Returns receiver_ssrc blocks none v)
                  λ time _.
                    bind-Returns (λ n. n ≡ get_or block 17 0) Any (must (get_elem? block 17)) _
                      (must_byte block 17 (omega arith))
                      λ count hc.
                        bind-Returns (Sized (count * 4)) Any
                          (must (slice block 20 (20 + count * 4))) _
                          (must-slice block 20 (20 + count * 4) (count * 4) refl (omega arith))
                          λ list _.
                            bind-Returns (λ n. n ≡ get_or block 16 0) Any
                              (must (get_elem? block 16)) _ (must_byte block 16 (omega arith))
                              λ checkpoint _. tt

reads : (feedback short : Bool) → (not feedback || short) ≡ false → feedback ≡ true
reads feedback short h = ground arith

feedbacks_of-Returns :
    (blocks rest : List (List ℕ))
    → All IsBlock blocks
    → All IsBlock rest
    → Returns Any (feedbacks_of blocks rest)
unfolding feedbacks_of
feedbacks_of-Returns blocks [] v w = tt
feedbacks_of-Returns blocks (block ∷ rest) v w =
    bind-Returns (Classified block) Any (classify_block block) _ (classify_block-Returns block w.0)
      λ kind c.
        elim-Returns Any (not (is_feedback kind) || ltb (length block) 20)
          (feedbacks_of blocks rest) _ (λ _. feedbacks_of-Returns blocks rest v w.1)
          (λ read.
            let (a, b, i) = c.feedback (reads (is_feedback kind) (ltb (length block) 20) read) in
            bind-Returns Any Any (read_feedback blocks block) _
              (read_feedback-Returns blocks block v (w.0.cast a b i))
              λ _ _.
                bind-Returns Any Any (feedbacks_of blocks rest) _
                  (feedbacks_of-Returns blocks rest v w.1) λ _ _. tt)

of_outcome :
    (o : Outcome (List (List ℕ)))
    → Safe (All IsBlock) o
    → Returns {A = List CastFeedback} Any
        (elim o [ invalid ↦ ok [] | fault ↦ fault | ok blocks ↦ feedbacks_of blocks blocks ])
of_outcome invalid v = tt
of_outcome fault v = v
of_outcome (ok blocks) v = feedbacks_of-Returns blocks blocks v v

-- `parse_cast_feedbacks` returns on every datagram: it never panics and never hangs.
pub parse_cast_feedbacks_total :
    (packet : List ℕ)
    → (feedbacks : List CastFeedback) × (parse_cast_feedbacks packet ≡ ok feedbacks)
unfolding parse_cast_feedbacks
parse_cast_feedbacks_total packet =
    let (feedbacks, e, _) =
      Returns-ok {A = List CastFeedback} Any _
        (of_outcome (validated_blocks packet) (validated_blocks-Safe packet)) in
    (feedbacks, e)
