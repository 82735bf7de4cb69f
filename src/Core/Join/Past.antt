-- ===== src/Core/Join/Past.antt =====
-- The packets that went by in stream_server.rs, and the tables among them.
use big_net_screen.Base.{
  ℕ, ◌≡◌, ◌≢◌, sym, ◌∙◌, true, false, Option, none, some, List, [], ◌∷◌, length, ◌==◌, inr, ◌⊎◌,
  arith,
}
use big_net_screen.Base.Outcome.{ok}
use big_net_screen.Core.Join.{ts_packet, ts_pid, random_access, synced, is_pmt}

abbrev pub IsPacket : List ℕ → Type 0
IsPacket p = (length p ≡ ts_packet) × (synced p ≡ true)

-- A packet of the id.
abbrev pub IsTable : ℕ → List ℕ → Type 0
IsTable pid p = IsPacket p × (ts_pid p ≡ ok pid)

-- Of the packets that went by, the newest first, the latest one of the id is this one.
abbrev pub Latest : ℕ → List (List ℕ) → List ℕ → Type 0
Latest pid [] p = ⊥
Latest pid (q ∷ qs) p = ((q ≡ p) × (ts_pid q ≡ ok pid)) ⊎ ((ts_pid q ≢ ok pid) × Latest pid qs p)

abbrev pub IsPat : List (List ℕ) → Option (List ℕ) → Type 0
IsPat past none = Unit
IsPat past (some pat) = IsTable 0 pat × Latest 0 past pat

-- A PMT of id 0 is never kept, since its packets are those of the PAT.
abbrev pub IsPmt : List (List ℕ) → Option (ℕ × List ℕ) → Type 0
IsPmt past none = Unit
IsPmt past (some (pid, [])) = Unit
IsPmt past (some (pid, b ∷ pmt)) = IsTable pid (b ∷ pmt) × (pid ≢ 0) × Latest pid past (b ∷ pmt)

-- The packets that a buffer adds to those that went by: all, or those before one of a key frame.
abbrev pub Walk : List (List ℕ) → List (List ℕ) → List (List ℕ) → Type 0
Walk [] past past' = past' ≡ past
Walk (p ∷ ps) past past' = ((random_access p ≡ ok true) × (past' ≡ past)) ⊎ Walk ps (p ∷ past) past'

ok-inj : {a b : ℕ} → ok a ≡ ok b → a ≡ b
ok-inj e = cc

-- A packet of another id went by.
other_id :
    (p q : List ℕ) (pid other : ℕ) (past : List (List ℕ))
    → ts_pid p ≡ ok other
    → other ≢ pid
    → Latest pid past q
    → Latest pid (p ∷ past) q
other_id p q pid other past e ne h = inr (λ same. ne (ok-inj (sym e ∙ same)), h)

pub other-IsPat :
    (p : List ℕ) (other : ℕ) (past : List (List ℕ)) (pat : Option (List ℕ))
    → ts_pid p ≡ ok other
    → other ≢ 0
    → IsPat past pat
    → IsPat (p ∷ past) pat
other-IsPat p other past none e ne h = tt
other-IsPat p other past (some pat) e ne h = (h.0, other_id p pat 0 other past e ne h.1)

pub pat-IsPmt :
    (p : List ℕ) (past : List (List ℕ)) (pmt : Option (ℕ × List ℕ))
    → ts_pid p ≡ ok 0
    → IsPmt past pmt
    → IsPmt (p ∷ past) pmt
pat-IsPmt p past none e h = tt
pat-IsPmt p past (some (pid, [])) e h = tt
pat-IsPmt p past (some (pid, b ∷ pmt)) e h =
    (h.0, h.1, other_id p (b ∷ pmt) pid 0 past e (λ z. h.1 (sym z)) h.2)

pub other-IsPmt :
    (p : List ℕ) (other : ℕ) (past : List (List ℕ)) (pmt : Option (ℕ × List ℕ))
    → ts_pid p ≡ ok other
    → is_pmt other pmt ≡ false
    → IsPmt past pmt
    → IsPmt (p ∷ past) pmt
other-IsPmt p other past none e n h = tt
other-IsPmt p other past (some (pid, [])) e n h = tt
other-IsPmt p other past (some (pid, b ∷ pmt)) e n h =
    (h.0, h.1, other_id p (b ∷ pmt) pid other past e (λ z. differs pid other n (sym z)) h.2)
  where
    differs : (a b : ℕ) → (a == b) ≡ false → a ≢ b
    differs a b h = ground arith
