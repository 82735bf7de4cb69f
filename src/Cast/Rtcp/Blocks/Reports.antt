-- ===== src/Cast/Rtcp/Blocks/Reports.antt =====
-- Slices of a datagram, and the walk of rtcp.rs over the reports of an XR block.
use mathlib.Core.Path.{subst}
use big_net_screen.Base.{
  ℕ, zero, suc, ◌+◌, ◌-◌, ◌*◌, ◌≤◌, ◌<◌, ◌≡◌, sym, ap, ◌∙◌, inl, inr, false, not, ◌&&◌, some, List,
  length, slice, slice-some, length-slice_lem, drop, get_or-drop, get_or-take, get_or, ltb, ◌==◌,
  Option-cases, arith,
}
use big_net_screen.Base.Bytes.{of_be16}
use big_net_screen.Base.Outcome.{
  reject_if, try, Safe, bind-Safe, map-Safe, elim-Safe, reject_if-Safe,
}
use big_net_screen.Cast.Rtcp.Blocks.{check_reports}

-- What a slice gives: its bytes are those of the whole, moved by `start`.
pub record IsSlice (xs : List ℕ) (start size : ℕ) (ys : List ℕ) : Type 0 where
  pub inside : start + size ≤ length xs
  pub sized : length ys ≡ size
  pub byte : (i : ℕ) → i < size → get_or ys i 0 ≡ get_or xs (start + i) 0

pub slice-IsSlice :
    (xs : List ℕ) (start size : ℕ) {ys : List ℕ}
    → slice xs start (start + size) ≡ some ys
    → IsSlice xs start size ys
slice-IsSlice xs start size {ys} e =
    let (h, k, eq) = slice-some xs start (start + size) e in
    record {
      inside = k;
      sized = ap length eq ∙ length-slice_lem xs start (start + size) h k ∙ omega arith;
      byte = λ i hi.
          ap (λ (zs : List ℕ). get_or zs i 0) eq
          ∙ get_or-take (start + size - start) i (drop start xs) 0 (omega arith)
          ∙ get_or-drop start i xs 0;
    }

pub try-slice :
    (xs : List ℕ) (start size : ℕ)
    → Safe (IsSlice xs start size) (try (slice xs start (start + size)))
try-slice xs start size = elim (Option-cases (slice xs start (start + size))) [
  | inl e ↦ rw e tt
  | inr (ys, e) ↦ rw e (slice-IsSlice xs start size e)
]

-- The size of the XR report at `pos`.
abbrev pub report_size : List ℕ → ℕ → ℕ
report_size block pos = (of_be16 (get_or block (pos + 2) 0) (get_or block (pos + 3) 0) + 1) * 4

-- From `pos` on the block is a row of whole XR reports, and a reference time has twelve bytes.
pub data Reports (block : List ℕ) : ℕ → Type 0 where
  done : {pos : ℕ} → length block ≤ pos → Reports block pos
  report :
      {pos : ℕ}
      → pos + report_size block pos ≤ length block
      → (get_or block pos 0 ≡ 4 → report_size block pos ≡ 12)
      → Reports block (pos + report_size block pos)
      → Reports block pos

twelve_of_test : (kind size : ℕ) → ((kind == 4) && not (size == 12)) ≡ false → kind ≡ 4 → size ≡ 12
twelve_of_test kind size good e = ground arith

add_report :
    (block : List ℕ) (pos kind size : ℕ)
    → kind ≡ get_or block (pos + 0) 0
    → size ≡ report_size block pos
    → pos + size ≤ length block
    → ((kind == 4) && not (size == 12)) ≡ false
    → Reports block (pos + size)
    → Reports block pos
add_report block pos kind size hk hs inside good r =
    report (rw (← hs) inside)
      (λ e.
        sym hs
        ∙ twelve_of_test kind size good (hk ∙ ap (λ (i : ℕ). get_or block i 0) (omega arith) ∙ e))
      (subst (λ (s : ℕ). Reports block (pos + s)) hs r)

pub check_reports-Safe :
    (fuel : ℕ) (block : List ℕ) (pos : ℕ)
    → pos ≤ length block
    → length block < pos + fuel
    → Safe (λ _. Reports block pos) (check_reports fuel block pos)
unfolding check_reports
check_reports-Safe zero block pos low h = absurd (omega arith)
check_reports-Safe (suc fuel) block pos low h =
    elim-Safe (λ _. Reports block pos) (ltb pos (length block)) _ _
      (λ more.
        bind-Safe (IsSlice block pos 4) (λ _. Reports block pos) (try (slice block pos (pos + 4))) _
          (try-slice block pos 4)
          (λ xr hx.
            let size = (of_be16 (get_or xr 2 0) (get_or xr 3 0) + 1) * 4 in
            let same : size ≡ report_size block pos =
              omega (arith, hx.byte 2 (omega arith), hx.byte 3 (omega arith)) in
            bind-Safe (IsSlice block pos size) (λ _. Reports block pos)
              (try (slice block pos (pos + size))) _ (try-slice block pos size)
              (λ whole hw.
                bind-Safe (λ _. ((get_or xr 0 0 == 4) && not (size == 12)) ≡ false)
                  (λ _. Reports block pos) (reject_if ((get_or xr 0 0 == 4) && not (size == 12))) _
                  (reject_if-Safe _)
                  (λ _ good.
                    map-Safe (λ _. Reports block (pos + size)) (λ _. Reports block pos)
                      (check_reports fuel block (pos + size))
                      (λ _ r.
                        add_report block pos (get_or xr 0 0) size (hx.byte 0 (omega arith)) same
                          hw.inside good r)
                      (check_reports-Safe fuel block (pos + size) hw.inside (omega arith))))))
      (λ end. done (ground arith))
