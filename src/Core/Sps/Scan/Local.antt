-- ===== src/Core/Sps/Scan/Local.antt =====
-- The survey of an SPS depends only on the bits that it has read.
use big_net_screen.Base.{ℕ, zero, suc, ◌+◌, ◌%◌, ◌^◌, Bool, not, ◌||◌, ◌==◌}
use big_net_screen.Core.Sps.Reader.{Read, ◌>>=◌, ◌>>◌, pure, give_up, flag, read, skip, ue, se}
use big_net_screen.Core.Sps.Reader.Local.{
  IsLocal, pure-IsLocal, give_up-IsLocal, bind-IsLocal, seq-IsLocal, elim-IsLocal, skip-IsLocal,
  flag-IsLocal, read_from-IsLocal, ue-IsLocal, se-IsLocal,
}
use big_net_screen.Core.Sps.Scan.{
  pass_ue, pass_se, repeat, when, has_chroma, chroma, pic_order, head, skip_hrd, aspect_ratio,
  video_signal, vui,
}

when-IsLocal : (b : Bool) (m : Read (Unit {0})) → IsLocal m → IsLocal (when b m)
when-IsLocal b m h = elim-IsLocal b m (pure tt) h (pure-IsLocal tt)

-- A step that runs on a condition, and what follows it.
when-then :
    {B : Type 0} (b : Bool) (m : Read (Unit {0})) (k : Read B)
    → IsLocal m
    → IsLocal k
    → IsLocal (when b m >> k)
when-then b m k h g = seq-IsLocal (when b m) k (when-IsLocal b m h) g

flag-then : {B : Type 0} (f : Bool → Read B) → ((b : Bool) → IsLocal (f b)) → IsLocal (flag >>= f)
flag-then f h = bind-IsLocal flag f flag-IsLocal h

ue-then : {B : Type 0} (f : ℕ → Read B) → ((n : ℕ) → IsLocal (f n)) → IsLocal (ue >>= f)
ue-then f h = bind-IsLocal ue f ue-IsLocal h

skip-then : {B : Type 0} (n : ℕ) (k : Read B) → IsLocal k → IsLocal (skip n >> k)
skip-then n k h = seq-IsLocal (skip n) k (skip-IsLocal n) h

pass_ue-IsLocal : IsLocal pass_ue
unfolding pass_ue
pass_ue-IsLocal = ue-then _ (λ n. pure-IsLocal tt)

pass_se-IsLocal : IsLocal pass_se
unfolding pass_se
pass_se-IsLocal = bind-IsLocal se _ se-IsLocal (λ n. pure-IsLocal tt)

pass-then : {B : Type 0} (k : Read B) → IsLocal k → IsLocal (pass_ue >> k)
pass-then k h = seq-IsLocal pass_ue k pass_ue-IsLocal h

repeat-IsLocal : (n : ℕ) (m : Read (Unit {0})) → IsLocal m → IsLocal (repeat n m)
unfolding repeat
repeat-IsLocal zero m h = pure-IsLocal tt
repeat-IsLocal (suc n) m h = seq-IsLocal m (repeat n m) h (repeat-IsLocal n m h)

chroma-IsLocal : IsLocal chroma
unfolding chroma
chroma-IsLocal = ue-then _ (λ format. when-then (format == 3) (skip 1) _ (skip-IsLocal 1) (
    pass-then _ (
      pass-then _ (
        skip-then 1 _ (
          flag-then _
            (λ b. elim-IsLocal b give_up (pure tt) (give_up-IsLocal Unit) (pure-IsLocal tt)))))))

pic_order-IsLocal : IsLocal pic_order
unfolding pic_order
pic_order-IsLocal = ue-then _ (λ kind. elim-IsLocal (kind == 0) pass_ue _ pass_ue-IsLocal (
    elim-IsLocal (kind == 1) _ (pure tt)
      (seq-IsLocal _ _
        (seq-IsLocal _ _ (seq-IsLocal _ _ (skip-IsLocal 1) pass_se-IsLocal) pass_se-IsLocal)
        (ue-then _ (λ n. repeat-IsLocal n pass_se pass_se-IsLocal)))
      (pure-IsLocal tt)))

pub head-IsLocal : IsLocal head
unfolding head
head-IsLocal = bind-IsLocal (read 8) _ (read_from-IsLocal 8 0) (λ profile_idc. skip-then 16 _ (
    pass-then _ (
      when-then (has_chroma profile_idc) chroma _ chroma-IsLocal (
        pass-then _ (
          seq-IsLocal pic_order _ pic_order-IsLocal (
            ue-then _ (λ refs. skip-then 1 _ (
              pass-then _ (
                pass-then _ (
                  flag-then _ (λ mbs. when-then (not mbs) (skip 1) _ (skip-IsLocal 1) (
                    skip-then 1 _ (
                      flag-then _ (λ cropped.
                        when-then cropped (repeat 4 pass_ue) _
                          (repeat-IsLocal 4 pass_ue pass_ue-IsLocal)
                          (pure-IsLocal refs)))))))))))))))

hrd_rates-IsLocal : IsLocal (pass_ue >> pass_ue >> skip 1)
hrd_rates-IsLocal =
    seq-IsLocal _ _ (seq-IsLocal _ _ pass_ue-IsLocal pass_ue-IsLocal) (skip-IsLocal 1)

skip_hrd-IsLocal : IsLocal skip_hrd
unfolding skip_hrd
skip_hrd-IsLocal = ue-then _ (λ last.
    skip-then 8 _ (
      seq-IsLocal _ _ (repeat-IsLocal ((last + 1) % 2 ^ 32) _ hrd_rates-IsLocal) (skip-IsLocal 20)))

aspect_ratio-IsLocal : IsLocal aspect_ratio
unfolding aspect_ratio
aspect_ratio-IsLocal =
    bind-IsLocal (read 8) _ (read_from-IsLocal 8 0)
      (λ idc. when-IsLocal (idc == 255) (skip 32) (skip-IsLocal 32))

video_signal-IsLocal : IsLocal video_signal
unfolding video_signal
video_signal-IsLocal =
    skip-then 4 _ (flag-then _ (λ described. when-IsLocal described (skip 24) (skip-IsLocal 24)))

-- A flag, the part of the VUI that it announces, and what follows.
optional :
    {B : Type 0} (m : Read (Unit {0})) (k : Bool → Read B)
    → IsLocal m
    → ((b : Bool) → IsLocal (k b))
    → IsLocal (flag >>= λ b. when b m >> k b)
optional m k h g = flag-then _ (λ b. when-then b m (k b) h (g b))

pub vui-IsLocal : IsLocal vui
unfolding vui
vui-IsLocal = optional aspect_ratio _ aspect_ratio-IsLocal (λ _.
    optional (skip 1) _ (skip-IsLocal 1) (λ _. optional video_signal _ video_signal-IsLocal (λ _.
      optional (pass_ue >> pass_ue) _ (seq-IsLocal _ _ pass_ue-IsLocal pass_ue-IsLocal) (λ _.
        optional (skip 65) _ (skip-IsLocal 65) (λ _. optional skip_hrd _ skip_hrd-IsLocal (λ nal.
          optional skip_hrd _ skip_hrd-IsLocal
            (λ vcl. when-then (nal || vcl) (skip 1) _ (skip-IsLocal 1) (skip-IsLocal 1))))))))
