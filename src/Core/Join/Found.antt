-- ===== src/Core/Join/Found.antt =====
-- The loop of `mark` in stream_server.rs over the packets of a buffer.
use mathlib.Core.Path.{subst}
use big_net_screen.Base.{
  suc_ne_zero, ℕ, zero, suc, ◌≡◌, ◌≢◌, refl, sym, ap, arith, ◌∙◌, Bool, true, false, ◌||◌, Option,
  none, some, List, [], ◌∷◌, ◌==◌, ==_iff, All, inl, inr, ◌⊎◌,
}
use big_net_screen.Base.Outcome.{ok, Returns, bind-Returns, elim-Returns}
use big_net_screen.Core.Join.{
  Tables, ts_pid, pmt_pid, random_access, see_pat, is_pmt, after_tables, key_frame, scan,
}
use big_net_screen.Core.Join.Past.{IsPacket, IsPat, IsPmt, Walk, other-IsPat}
use big_net_screen.Core.Join.Kept.{
  Agree, IsTables, HasRandom, Prefixed, other-IsTables, ts_pid-Returns, random_access-Returns,
  pmt_pid-Safe, see_pat-IsTables, table-IsPmt, kept-Agree,
}

-- What the loop finds in a buffer after the packets `before`, where `B` says that it begins with its
-- own tables, `Q` that it has a key frame, and `W` that its packets lead from `before` to these.
module _ (bytes : List ℕ) (before : List (List ℕ)) (B Q : Type 0) (W : List (List ℕ) → Type 0) where
  abbrev pub Found : Option (List ℕ) → Type 0
  Found none = Unit
  Found (some joined) = Q × (((joined ≡ bytes) × B) ⊎ Prefixed before joined bytes)

  -- The tables after the buffer are those of the packets up to its end.
  pub record Left (t : Tables) : Type 0 where
    pub past : List (List ℕ)
    pub led : W past
    pub kept : IsTables past t

  after_tables-Found :
      (pat : Option (List ℕ)) (pmt : Option (ℕ × List ℕ))
      → Q
      → IsPat before pat
      → IsPmt before pmt
      → Agree pat pmt
      → Found (after_tables bytes pat pmt)
  after_tables-Found none pmt q h i a = tt
  after_tables-Found (some pat) none q h i a = tt
  after_tables-Found (some pat) (some (pid, [])) q h i a = tt
  after_tables-Found (some pat) (some (pid, b ∷ pmt)) q h i a = (
    q,
    inr record {
      pat = pat;
      pmt = b ∷ pmt;
      pid = pid;
      whole = refl;
      is_pat = h.0;
      is_pmt = i.0;
      names = a;
      latest_pat = h.1;
      latest_pmt = i.2;
    },
  )

  -- At the first packet nothing of the buffer went by.
  abbrev pub AtFirst : ℕ → List (List ℕ) → Type 0
  AtFirst zero past = past ≡ before
  AtFirst (suc index) past = Unit

  key_frame-Found :
      (opens : Bool) (index : ℕ) (past : List (List ℕ)) (t : Tables)
      → (opens ≡ true → B)
      → Q
      → AtFirst index past
      → IsTables past t
      → Found (key_frame opens index bytes t)
  key_frame-Found true index past t o q a i = (q, inl (refl, o refl))
  key_frame-Found false zero past t o q a i =
      let i' : IsTables before t = subst (λ past. IsTables past t) a i in
      after_tables-Found t.pat t.pmt q i'.is_pat i'.is_pmt i'.agree
  key_frame-Found false (suc index) past t o q a i = rw (suc_ne_zero index) tt

  abbrev pub First : ℕ → List (List ℕ) → Type 0
  First zero (p ∷ ps) = ts_pid p ≡ ok 0 → B
  First _ _ = Unit

  opens-step :
      (opens : Bool) (index : ℕ) (p : List ℕ) (ps : List (List ℕ))
      → (opens ≡ true → B)
      → First index (p ∷ ps)
      → ts_pid p ≡ ok 0
      → (opens || (index == 0)) ≡ true
      → B
  opens-step true index p ps o f e h = o refl
  opens-step false zero p ps o f e h = f e
  opens-step false (suc index) p ps o f e h = absurd (false_true (sym (suc_ne_zero index) ∙ h))
    where
      false_true : false ≡ true → ⊥
      false_true e = cc

  pub scan-Found :
      (packets : List (List ℕ)) (index : ℕ) (opens : Bool) (past : List (List ℕ)) (t : Tables)
      → All IsPacket packets
      → (opens ≡ true → B)
      → First index packets
      → (HasRandom packets → Q)
      → ((past' : List (List ℕ)) → Walk packets past past' → W past')
      → AtFirst index past
      → IsTables past t
      → Returns (λ r. Found r.0 × Left r.1) (scan bytes packets index opens t)
  unfolding scan
  scan-Found [] index opens past t h o f q w a i =
      (tt, record { past = past; led = w past refl; kept = i })
  scan-Found (p ∷ ps) index opens past t h o f q w a i =
      let P = λ (r : Option (List ℕ) × Tables). Found r.0 × Left r.1 in
      bind-Returns (λ pid. ts_pid p ≡ ok pid) P (ts_pid p) _ (ts_pid-Returns p h.0.0)
        (λ pid e.
          elim-Returns P (pid == 0) _ _
            (λ z.
              let e0 : ts_pid p ≡ ok 0 = e ∙ ap ok ((==_iff pid 0).0 z) in
              bind-Returns (IsTables (p ∷ past)) P (see_pat p (pmt_pid p) t) _
                (see_pat-IsTables past p (pmt_pid p) t (h.0, e0) refl (pmt_pid-Safe p) i)
                (λ t' i'.
                  scan-Found ps (suc index) (opens || (index == 0)) (p ∷ past) t' h.1
                    (opens-step opens index p ps o f e0) tt (λ r. q (inr r)) (λ x k. w x (inr k)) tt
                    i'))
            (λ z.
              let ne = differs pid z in
              elim-Returns P (is_pmt pid t.pmt) _ _
                (λ m.
                  scan-Found ps (suc index) opens (p ∷ past) (record t { pmt = some (pid, p) }) h.1
                    o tt (λ r. q (inr r)) (λ x k. w x (inr k)) tt
                    (record {
                      is_pat = other-IsPat p pid past t.pat e ne i.is_pat;
                      is_pmt = table-IsPmt past pid p (h.0, e) ne;
                      agree = kept-Agree t.pat t.pmt pid p m i.agree;
                    }))
                (λ m.
                  bind-Returns (λ b. random_access p ≡ ok b) P (random_access p) _
                    (random_access-Returns p h.0.0)
                    (λ b r.
                      elim-Returns P b _ _
                        (λ y.
                          let key = r ∙ ap ok y in
                          (
                            key_frame-Found opens index past t o (q (inl key)) a i,
                            record { past = past; led = w past (inl (key, refl)); kept = i },
                          ))
                        (λ n.
                          scan-Found ps (suc index) opens (p ∷ past) t h.1 o tt (λ r'. q (inr r'))
                            (λ x k. w x (inr k)) tt (other-IsTables p pid past t e ne m i))))))
    where
      differs : (a : ℕ) → (a == 0) ≡ false → a ≢ 0
      differs a h = ground arith
