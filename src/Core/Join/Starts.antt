-- ===== src/Core/Join/Starts.antt =====
-- The key frames of a stream at which stream_server.rs lets a reader start.
use big_net_screen.Base.{
  ℕ, suc, ◌/◌, ◌≡◌, ◌≢◌, refl, sym, ap, ◌∙◌, Bool, true, false, ◌||◌, Option, none, some, List, ◌∷◌,
  ◌++◌, length, length-append, take, drop, take-append, drop-append, ◌==◌, ==_iff, ==_refl,
  Bool-cases, inl, inr, arith,
}
use big_net_screen.Base.Outcome.{Outcome, ok, ◌>>=◌}
use big_net_screen.Core.Join.{
  Buffer, Tables, ts_packet, ts_pid, pmt_pid, random_access, packets_of, retarget, is_pmt,
  key_frame, scan, mark,
}
use big_net_screen.Core.Join.Past.{IsPacket, IsTable}

==_false : (a b : ℕ) → a ≢ b → (a == b) ≡ false
==_false a b h = elim (Bool-cases (a == b)) [ inl t ↦ absurd (h ((==_iff a b).0 t)) | inr f ↦ f ]

bind-ok {ℓ κ} :
    {A : Type ℓ} {B : Type κ} (m : Outcome A) (f : A → Outcome B) (a : A)
    → m ≡ ok a
    → (m >>= f) ≡ f a
bind-ok m f a e = ap (λ m. m >>= f) e

elim_false {ℓ} : {A : Type ℓ} (b : Bool) (x y : A) → b ≡ false → elim b [ false ↦ x | true ↦ y ] ≡ x
elim_false b x y e = rw e refl

elim_true {ℓ} : {A : Type ℓ} (b : Bool) (x y : A) → b ≡ true → elim b [ false ↦ x | true ↦ y ] ≡ y
elim_true b x y e = rw e refl

-- A packet with a key frame, on this id.
pub record IsKey (v : ℕ) (video : List ℕ) : Type 0 where
  pub is_packet : IsPacket video
  pub id : ts_pid video ≡ ok v
  pub random : random_access video ≡ ok true
  pub other : v ≢ 0

packets_of-packet : (p bytes : List ℕ) → IsPacket p → packets_of (p ++ bytes) ≡ p ∷ packets_of bytes
packets_of-packet p bytes h =
    let count : length (p ++ bytes) / ts_packet ≡ suc (length bytes / ts_packet) =
      omega (arith, length-append p bytes, h.0) in
    let first : take ts_packet (p ++ bytes) ≡ p =
      ap (λ (k : ℕ). take k (p ++ bytes)) (sym h.0) ∙ take-append p bytes in
    let others : drop ts_packet (p ++ bytes) ≡ bytes =
      ap (λ (k : ℕ). drop k (p ++ bytes)) (sym h.0) ∙ drop-append p bytes in
    rw (count, first, others, h.1) refl

module _ (map : List ℕ) (packets : List (List ℕ)) (index : ℕ) (opens : Bool) where
  scan-key :
      (v : ℕ) (video : List ℕ) (t : Tables)
      → IsKey v video
      → is_pmt v t.pmt ≡ false
      → scan map (video ∷ packets) index opens t ≡ ok (key_frame opens index map t, t)
  unfolding scan
  scan-key v video t k h =
      bind-ok (ts_pid video) _ v k.id
      ∙ elim_false (v == 0) _ _ (==_false v 0 k.other)
      ∙ elim_false (is_pmt v t.pmt) _ _ h
      ∙ bind-ok (random_access video) _ true k.random

  scan-pat :
      (pat : List ℕ) (pid : ℕ) (t : Tables)
      → ts_pid pat ≡ ok 0
      → pmt_pid pat ≡ ok pid
      → scan map (pat ∷ packets) index opens t
        ≡ scan map packets
            (suc index)
            (opens || (index == 0))
            (record { pat = some pat; pmt = retarget pid t.pmt })
  unfolding scan
  scan-pat pat pid t e f = rw (e, f) refl

  scan-pmt :
      (pmt : List ℕ) (pid : ℕ) (t : Tables)
      → ts_pid pmt ≡ ok pid
      → pid ≢ 0
      → is_pmt pid t.pmt ≡ true
      → scan map (pmt ∷ packets) index opens t
        ≡ scan map packets (suc index) opens (record t { pmt = some (pid, pmt) })
  unfolding scan
  scan-pmt pmt pid t e n h =
      bind-ok (ts_pid pmt) _ pid e
      ∙ elim_false (pid == 0) _ _ (==_false pid 0 n)
      ∙ elim_true (is_pmt pid t.pmt) _ _ h

-- The buffer as a place to start.
abbrev pub start : Buffer → List ℕ → Buffer
start buffer joined = record {
  pts = buffer.pts;
  dts = buffer.dts;
  delta_unit = false;
  readable = true;
  bytes = joined;
}

mark-packets :
    (t : Tables) (buffer : Buffer) (joined : List ℕ) (t' : Tables)
    → buffer.readable ≡ true
    → scan buffer.bytes (packets_of buffer.bytes) 0 false t ≡ ok (some joined, t')
    → mark t buffer ≡ ok (start buffer joined, t')
unfolding mark
mark-packets t buffer joined t' h e = rw (h, e) refl

retarget-is_pmt : (pid : ℕ) (pmt : Option (ℕ × List ℕ)) → is_pmt pid (retarget pid pmt) ≡ true
retarget-is_pmt pid none = ==_refl pid
retarget-is_pmt pid (some (old, pmt)) = elim (Bool-cases (old == pid)) [
  | inl t ↦ rw t t
  | inr f ↦ rw f (==_refl pid)
]

-- A key frame that follows in its own buffer the PAT and the PMT.
own_tables :
    (map : List ℕ) (packets : List (List ℕ)) (t : Tables) (pat pmt video : List ℕ) (pid v : ℕ)
    → ts_pid pat ≡ ok 0
    → pmt_pid pat ≡ ok pid
    → ts_pid pmt ≡ ok pid
    → pid ≢ 0
    → pid ≢ v
    → IsKey v video
    → scan map (pat ∷ (pmt ∷ (video ∷ packets))) 0 false t
      ≡ ok (some map, record { pat = some pat; pmt = some (pid, pmt) })
own_tables map packets t pat pmt video pid v a b c n m k =
    scan-pat map (pmt ∷ (video ∷ packets)) 0 false pat pid t a b
    ∙ scan-pmt map (video ∷ packets) 1 true pmt pid _ c n (retarget-is_pmt pid t.pmt)
    ∙ scan-key map packets 2 true v video _ k (==_false pid v m)

kept_tables :
    (map : List ℕ) (packets : List (List ℕ)) (pat video : List ℕ) (b : ℕ) (pmt : List ℕ) (pid v : ℕ)
    → pid ≢ v
    → IsKey v video
    → let t : Tables = record { pat = some pat; pmt = some (pid, b ∷ pmt) } in
      scan map (video ∷ packets) 0 false t ≡ ok (some (pat ++ ((b ∷ pmt) ++ map)), t)
kept_tables map packets pat video b pmt pid v m k =
    scan-key map packets 0 false v video _ k (==_false pid v m)

-- A readable buffer that begins with a PAT, the PMT that it names, and a key frame of another id
-- is a place to start as it is, whatever came before, and its tables are kept. A readable buffer
-- that begins with such a key frame then becomes one, with the kept tables in front of it.
pub mark_starts :
    (buffer : Buffer) (old : Tables) (pat video rest : List ℕ) (b : ℕ) (pmt : List ℕ) (pid v : ℕ)
    → buffer.readable ≡ true
    → IsTable 0 pat
    → pmt_pid pat ≡ ok pid
    → IsTable pid (b ∷ pmt)
    → pid ≢ 0
    → pid ≢ v
    → IsKey v video
    → let t : Tables = record { pat = some pat; pmt = some (pid, b ∷ pmt) } in
      let own = pat ++ ((b ∷ pmt) ++ (video ++ rest)) in
      let frame = video ++ rest in
      (mark old (record buffer { bytes = own }) ≡ ok (start buffer own, t))
      × (mark t (record buffer { bytes = frame })
          ≡ ok (start buffer (pat ++ ((b ∷ pmt) ++ frame)), t))
mark_starts buffer old pat video rest b pmt pid v h a n c z m k =
    let t : Tables = record { pat = some pat; pmt = some (pid, b ∷ pmt) } in
    let own = pat ++ ((b ∷ pmt) ++ (video ++ rest)) in
    let frame = video ++ rest in
    (
      mark-packets old (record buffer { bytes = own }) own t h
          (ap (λ ps. scan own ps 0 false old)
              (packets_of-packet pat _ a.0
                ∙ ap (λ ps. pat ∷ ps) (packets_of-packet (b ∷ pmt) _ c.0)
                ∙ ap (λ ps. pat ∷ ((b ∷ pmt) ∷ ps)) (packets_of-packet video rest k.is_packet))
            ∙ own_tables own (packets_of rest) old pat (b ∷ pmt) video pid v a.1 n c.1 z m k),
      mark-packets t (record buffer { bytes = frame }) (pat ++ ((b ∷ pmt) ++ frame)) t h
          (ap (λ ps. scan frame ps 0 false t) (packets_of-packet video rest k.is_packet)
            ∙ kept_tables frame (packets_of rest) pat video b pmt pid v m k),
    )
