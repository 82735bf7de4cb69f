-- ===== src/Core/Join.antt =====
-- crates/nd-core/src/stream_server.rs: `Tables`, which makes each key frame of a transport stream a
-- place where a reader can start. Of a buffer there are its times, its flag and its bytes, and
-- whether it can be mapped.
pub mod Past
pub mod Kept
pub mod Found
pub mod Points
pub mod Starts
mod Tests
use Prim.Native.Nat.{bit_and, bit_or}
use big_net_screen.Base.{
  ℕ, zero, suc, ◌+◌, ◌*◌, ◌/◌, ◌^◌, Bool, true, false, not, ◌&&◌, ◌||◌, Option, none, some, List,
  [], ◌∷◌, ◌++◌, length, take, drop, slice, get_elem?, ltb, ◌==◌, if◌then◌else◌,
}
use big_net_screen.Base.Outcome.{Outcome, ok, invalid, fault, ◌>>=◌, try, must}

pub record Buffer : Type 0 where
  pub pts : Option ℕ
  pub dts : Option ℕ
  pub delta_unit : Bool
  pub readable : Bool
  pub bytes : List ℕ

pub record Tables : Type 0 where
  pub pat : Option (List ℕ)
  pub pmt : Option (ℕ × List ℕ)

abbrev pub default : Tables
default = record { pat = none; pmt = none }

abbrev pub ts_packet : ℕ
ts_packet = 188

-- The 13 bits of a packet id.
abbrev pub id_of : ℕ → ℕ → ℕ
id_of high low = bit_or (bit_and high 0x1f * 2 ^ 8) low

unfoldable pub ts_pid : List ℕ → Outcome ℕ
ts_pid packet = do
  high ← must (get_elem? packet 1)
  low ← must (get_elem? packet 2)
  ok (id_of high low)

unfoldable pub pmt_pid : List ℕ → Outcome ℕ
unfolding slice
pmt_pid pat = do
  pointer ← try (get_elem? pat 4)
  let section = 5 + pointer
  entry ← try (slice pat (section + 8) (section + 12))
  high ← must (get_elem? entry 2)
  low ← must (get_elem? entry 3)
  ok (id_of high low)

-- All three bytes are read, also where the first says no.
unfoldable pub random_access : List ℕ → Outcome Bool
random_access packet = do
  flags ← must (get_elem? packet 3)
  size ← must (get_elem? packet 4)
  marks ← must (get_elem? packet 5)
  ok (not (bit_and flags 0x20 == 0) && ltb 0 size && not (bit_and marks 0x40 == 0))

abbrev pub chunks : ℕ → List ℕ → List (List ℕ)
chunks zero bytes = []
chunks (suc n) bytes = take ts_packet bytes ∷ chunks n (drop ts_packet bytes)

abbrev pub synced : List ℕ → Bool
synced [] = false
synced (first ∷ _) = first == 0x47

abbrev pub take_while : (List ℕ → Bool) → List (List ℕ) → List (List ℕ)
take_while p [] = []
take_while p (x ∷ xs) = if p x then x ∷ take_while p xs else []

abbrev pub packets_of : List ℕ → List (List ℕ)
packets_of bytes = take_while synced (chunks (length bytes / ts_packet) bytes)

-- The PMT of another id is dropped, and an empty one kept for the id if there is none.
abbrev pub retarget : ℕ → Option (ℕ × List ℕ) → Option (ℕ × List ℕ)
retarget pid none = some (pid, [])
retarget pid (some (old, pmt)) = if old == pid then some (old, pmt) else some (pid, [])

abbrev pub see_pat : List ℕ → Outcome ℕ → Tables → Outcome Tables
see_pat packet (ok pid) t = ok (record { pat = some packet; pmt = retarget pid t.pmt })
see_pat packet invalid t = ok (record t { pat = some packet })
see_pat packet fault t = fault

abbrev pub is_pmt : ℕ → Option (ℕ × List ℕ) → Bool
is_pmt pid none = false
is_pmt pid (some (pmt_pid, _)) = pmt_pid == pid

abbrev pub after_tables : List ℕ → Option (List ℕ) → Option (ℕ × List ℕ) → Option (List ℕ)
after_tables map (some pat) (some (_, [])) = none
after_tables map (some pat) (some (_, b ∷ pmt)) = some (pat ++ ((b ∷ pmt) ++ map))
after_tables map (some pat) none = none
after_tables map none pmt = none

abbrev pub key_frame : Bool → ℕ → List ℕ → Tables → Option (List ℕ)
key_frame opens_with_tables index map t =
    if opens_with_tables
    then some map
    else if index == 0
    then after_tables map t.pat t.pmt
    else none

-- The loop over the packets, from `index` on.
unfoldable pub scan :
    List ℕ → List (List ℕ) → ℕ → Bool → Tables → Outcome (Option (List ℕ) × Tables)
unfolding ts_pid pmt_pid random_access
scan map [] index opens t = ok (none, t)
scan map (packet ∷ packets) index opens t = do
  pid ← ts_pid packet
  elim (pid == 0) [
    | true ↦ do
      t' ← see_pat packet (pmt_pid packet) t
      scan map packets (suc index) (opens || (index == 0)) t'
    | false ↦ elim (is_pmt pid t.pmt) [
      | true ↦ scan map packets (suc index) opens (record t { pmt = some (pid, packet) })
      | false ↦ do
        random ← random_access packet
        elim random [
          | true ↦ ok (key_frame opens index map t, t)
          | false ↦ scan map packets (suc index) opens t
        ]
    ]
  ]

-- A new buffer has no flags.
abbrev pub marked : Option (List ℕ) → Buffer → Buffer
marked none buffer = record buffer { delta_unit = true }
marked (some joined) buffer = record {
  pts = buffer.pts;
  dts = buffer.dts;
  delta_unit = false;
  readable = true;
  bytes = joined;
}

unfoldable pub mark : Tables → Buffer → Outcome (Buffer × Tables)
unfolding scan
mark t buffer = do
  (key, t') ←
      if buffer.readable
      then scan buffer.bytes (packets_of buffer.bytes) 0 false t
      else ok (none, t)
  ok (marked key buffer, t')

abbrev pub joined_bytes : List Buffer → List ℕ
joined_bytes [] = []
joined_bytes (b ∷ bs) = if b.readable then b.bytes ++ joined_bytes bs else joined_bytes bs

unfoldable pub join_buffers : List Buffer → Buffer
join_buffers [] = record { pts = none; dts = none; delta_unit = false; readable = true; bytes = [] }
join_buffers (b ∷ bs) = record {
  pts = b.pts;
  dts = b.dts;
  delta_unit = false;
  readable = true;
  bytes = joined_bytes (b ∷ bs);
}

-- The probe of `mark_join_points` on what the muxer pushes, one list after the other.
unfoldable pub run : Tables → List (List Buffer) → Outcome (List Buffer)
unfolding mark join_buffers
run t [] = ok []
run t (buffers ∷ lists) = do
  (out, t') ← mark t (join_buffers buffers)
  rest ← run t' lists
  ok (out ∷ rest)
