-- ===== src/Core/Join/Kept.antt =====
-- The tables that stream_server.rs keeps, and what is known of them.
use mathlib.Core.Path.{subst}
use big_net_screen.Base.{
  ℕ, ◌+◌, ◌<◌, ◌≡◌, ◌≢◌, refl, ap, ◌∙◌, true, false, Option, none, some, List, [], ◌∷◌, ◌++◌,
  length, slice, get_elem?, get_elem?-eq-get_or, length-slice_lem, slice-some, ◌==◌, ==_iff,
  Bool-cases, inl, inr, ◌⊎◌, arith,
}
use big_net_screen.Base.Outcome.{
  Outcome, ok, invalid, fault, ◌>>=◌, try, must, Safe, Returns, bind-Safe,
}
use big_net_screen.Core.Join.{
  Tables, default, ts_packet, id_of, ts_pid, pmt_pid, random_access, retarget, see_pat, is_pmt,
}
use big_net_screen.Core.Join.Past.{
  IsTable, Latest, IsPat, IsPmt, pat-IsPmt, other-IsPat, other-IsPmt,
}

-- The id that a PAT gives for the PMT is this one, where it gives any.
unfoldable pub Names : List ℕ → ℕ → Type 0
Names pat pid = (p : ℕ) → pmt_pid pat ≡ ok p → pid ≡ p

abbrev pub Agree : Option (List ℕ) → Option (ℕ × List ℕ) → Type 0
Agree (some pat) (some (pid, _)) = Names pat pid
Agree _ _ = Unit

pub record IsTables (past : List (List ℕ)) (t : Tables) : Type 0 where
  pub is_pat : IsPat past t.pat
  pub is_pmt : IsPmt past t.pmt
  pub agree : Agree t.pat t.pmt

pub default-IsTables : IsTables [] default
default-IsTables = record { is_pat = tt; is_pmt = tt; agree = tt }

abbrev pub HasRandom : List (List ℕ) → Type 0
HasRandom [] = ⊥
HasRandom (p ∷ ps) = (random_access p ≡ ok true) ⊎ HasRandom ps

-- The latest PAT that went by, and the latest PMT of the id that it gives, stand before the bytes.
pub record Prefixed (past : List (List ℕ)) (joined bytes : List ℕ) : Type 0 where
  pub pat : List ℕ
  pub pmt : List ℕ
  pub pid : ℕ
  pub whole : joined ≡ pat ++ (pmt ++ bytes)
  pub is_pat : IsTable 0 pat
  pub is_pmt : IsTable pid pmt
  pub names : Names pat pid
  pub latest_pat : Latest 0 past pat
  pub latest_pmt : Latest pid past pmt

must-Returns : (p : List ℕ) (i : ℕ) → i < length p → Returns (λ x. Unit) (must (get_elem? p i))
must-Returns p i h = rw (get_elem?-eq-get_or p i 0 h) tt

pub ts_pid-Returns :
    (p : List ℕ) → length p ≡ ts_packet → Returns (λ pid. ts_pid p ≡ ok pid) (ts_pid p)
unfolding ts_pid
ts_pid-Returns p h =
    rw (get_elem?-eq-get_or p 1 0 (omega (arith, h)), get_elem?-eq-get_or p 2 0 (omega (arith, h)))
      refl

pub random_access-Returns :
    (p : List ℕ) → length p ≡ ts_packet → Returns (λ b. random_access p ≡ ok b) (random_access p)
unfolding random_access
random_access-Returns p h =
    rw
      (
        get_elem?-eq-get_or p 3 0 (omega (arith, h)),
        get_elem?-eq-get_or p 4 0 (omega (arith, h)),
        get_elem?-eq-get_or p 5 0 (omega (arith, h)),
      )
      refl

-- The entry that `get` finds is four bytes long.
entry-Safe :
    (o : Option (List ℕ))
    → ((e : List ℕ) → o ≡ some e → length e ≡ 4)
    → Safe
        (λ _. Unit {0})
        (do
          entry ← try o
          high ← must (get_elem? entry 2)
          low ← must (get_elem? entry 3)
          ok (id_of high low))
entry-Safe none h = tt
entry-Safe (some e) h =
    rw
      (
        get_elem?-eq-get_or e 2 0 (omega (arith, h e refl)),
        get_elem?-eq-get_or e 3 0 (omega (arith, h e refl)),
      )
      tt

option-Safe {ℓ} : {A : Type ℓ} (o : Option A) → Safe (λ _. Unit {0}) (try o)
option-Safe none = tt
option-Safe (some a) = tt

entry_length :
    (pat : List ℕ) (start end : ℕ)
    → end ≡ start + 4
    → (e : List ℕ) → slice pat start end ≡ some e
    → length e ≡ 4
entry_length pat start end h e s =
    let (low, high, is) = slice-some pat start end s in
    ap length is ∙ length-slice_lem pat start end low high ∙ omega (arith, h)

pub pmt_pid-Safe : (pat : List ℕ) → Safe (λ _. Unit {0}) (pmt_pid pat)
unfolding pmt_pid
pmt_pid-Safe pat =
    bind-Safe (λ _. Unit {0}) (λ _. Unit {0}) (try (get_elem? pat 4)) _
      (option-Safe (get_elem? pat 4))
      (λ pointer _.
        entry-Safe (slice pat (5 + pointer + 8) (5 + pointer + 12))
          (entry_length pat (5 + pointer + 8) (5 + pointer + 12) (omega arith)))

pub other-IsTables :
    (p : List ℕ) (other : ℕ) (past : List (List ℕ)) (t : Tables)
    → ts_pid p ≡ ok other
    → other ≢ 0
    → is_pmt other t.pmt ≡ false
    → IsTables past t
    → IsTables (p ∷ past) t
other-IsTables p other past t e ne n i = record {
  is_pat = other-IsPat p other past t.pat e ne i.is_pat;
  is_pmt = other-IsPmt p other past t.pmt e n i.is_pmt;
  agree = i.agree;
}

retarget-IsPmt :
    (past : List (List ℕ)) (pid : ℕ) (pmt : Option (ℕ × List ℕ))
    → IsPmt past pmt
    → IsPmt past (retarget pid pmt)
retarget-IsPmt past pid none h = tt
retarget-IsPmt past pid (some (old, pmt)) h = elim (Bool-cases (old == pid)) [
  | inl t ↦ rw t h
  | inr f ↦ rw f tt
]

retarget-Agree :
    (pat : List ℕ) (pid : ℕ) (pmt : Option (ℕ × List ℕ))
    → pmt_pid pat ≡ ok pid
    → Agree (some pat) (retarget pid pmt)
unfolding Names
retarget-Agree pat pid none e = λ p q. cc
retarget-Agree pat pid (some (old, pmt)) e = elim (Bool-cases (old == pid)) [
  | inl t ↦ let same = (==_iff old pid).0 t in rw t (λ p q. cc)
  | inr f ↦ rw f (λ p q. cc)
]

none-Agree :
    (pat : List ℕ) (pmt : Option (ℕ × List ℕ)) → pmt_pid pat ≡ invalid → Agree (some pat) pmt
unfolding Names
none-Agree pat none e = tt
none-Agree pat (some (pid, pmt)) e = λ p q. absurd cc

pub see_pat-IsTables :
    (past : List (List ℕ)) (p : List ℕ) (o : Outcome ℕ) (t : Tables)
    → IsTable 0 p
    → pmt_pid p ≡ o
    → Safe (λ _. Unit {0}) o
    → IsTables past t
    → Returns (IsTables (p ∷ past)) (see_pat p o t)
see_pat-IsTables past p (ok pid) t h e s i = record {
  is_pat = (h, inl (refl, h.1));
  is_pmt = retarget-IsPmt (p ∷ past) pid t.pmt (pat-IsPmt p past t.pmt h.1 i.is_pmt);
  agree = retarget-Agree p pid t.pmt e;
}
see_pat-IsTables past p invalid t h e s i = record {
  is_pat = (h, inl (refl, h.1));
  is_pmt = pat-IsPmt p past t.pmt h.1 i.is_pmt;
  agree = none-Agree p t.pmt e;
}
see_pat-IsTables past p fault t h e s i = absurd s

pub table-IsPmt :
    (past : List (List ℕ)) (pid : ℕ) (packet : List ℕ)
    → IsTable pid packet
    → pid ≢ 0
    → IsPmt (packet ∷ past) (some (pid, packet))
table-IsPmt past pid [] h ne = tt
table-IsPmt past pid (b ∷ packet) h ne = (h, ne, inl (refl, h.1))

pub kept-Agree :
    (pat : Option (List ℕ)) (pmt : Option (ℕ × List ℕ)) (pid : ℕ) (packet : List ℕ)
    → is_pmt pid pmt ≡ true
    → Agree pat pmt
    → Agree pat (some (pid, packet))
unfolding Names
kept-Agree none pmt pid packet h a = tt
kept-Agree (some pat) none pid packet h a = absurd cc
kept-Agree (some pat) (some (old, pmt)) pid packet h a = subst (Names pat) ((==_iff old pid).0 h) a
