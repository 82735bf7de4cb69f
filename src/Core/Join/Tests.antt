-- ===== src/Core/Join/Tests.antt =====
-- Runs of `Tables` on a short stream, and its theorems there.
use big_net_screen.Base.{
  ℕ, ◌-◌, ◌≡◌, refl, true, none, some, List, [], ◌∷◌, ◌++◌, length, replicate, arith,
}
use big_net_screen.Base.Outcome.{ok}
use big_net_screen.Core.Join.{
  Buffer, Tables, default, ts_packet, mark, ts_pid, pmt_pid, random_access,
}
use big_net_screen.Core.Join.Starts.{IsKey, start, mark_starts}
use big_net_screen.Core.Join.Past.{IsTable}

abbrev packet : List ℕ → List ℕ
packet head = head ++ replicate (ts_packet - length head) 0xff

abbrev pat_packet : List ℕ
pat_packet =
    packet
      (0x47 ∷ 0x40 ∷ 0 ∷ 0x10 ∷ 0 ∷ 0 ∷ 0xb0 ∷ 13 ∷ 0 ∷ 1 ∷ 0xc1 ∷ 0 ∷ 0 ∷ 0 ∷ 1 ∷ 0xe0 ∷ 32 ∷ [])

abbrev pmt_tail : List ℕ
pmt_tail = 0x40 ∷ 32 ∷ 0x10 ∷ replicate 184 2

abbrev key_packet : List ℕ
key_packet = packet (0x47 ∷ 0x40 ∷ 65 ∷ 0x30 ∷ 7 ∷ 0x50 ∷ [])

abbrev delta_packet : List ℕ
delta_packet = packet (0x47 ∷ 0 ∷ 65 ∷ 0x10 ∷ [])

abbrev pushed : List ℕ → Buffer
pushed bytes = record {
  pts = some 40;
  dts = none;
  delta_unit = true;
  readable = true;
  bytes = bytes;
}

abbrev stream : List (List Buffer)
stream =
    (pushed pat_packet ∷ [])
    ∷ (pushed (0x47 ∷ pmt_tail) ∷ [])
    ∷ (pushed key_packet ∷ pushed delta_packet ∷ [])
    ∷ (pushed delta_packet ∷ [])
    ∷ []

key_packet-IsKey : IsKey 65 key_packet
unfolding ts_pid random_access
key_packet-IsKey = record {
  is_packet = (refl, refl);
  id = refl;
  random = refl;
  other = omega arith;
}

abbrev tables : Tables
tables = record { pat = some pat_packet; pmt = some (32, 0x47 ∷ pmt_tail) }

abbrev frame : List ℕ
frame = key_packet ++ delta_packet

abbrev own : List ℕ
own = pat_packet ++ ((0x47 ∷ pmt_tail) ++ frame)

pat_names : pmt_pid pat_packet ≡ ok 32
unfolding pmt_pid
pat_names = refl

pat-IsTable : IsTable 0 pat_packet
unfolding ts_pid
pat-IsTable = ((refl, refl), refl)

pmt-IsTable : IsTable 32 (0x47 ∷ pmt_tail)
unfolding ts_pid
pmt-IsTable = ((refl, refl), refl)

mark_starts_example :
    (mark default (pushed own) ≡ ok (start (pushed own) own, tables))
    × (mark tables (pushed frame)
        ≡ ok (start (pushed frame) (pat_packet ++ ((0x47 ∷ pmt_tail) ++ frame)), tables))
mark_starts_example =
    mark_starts (pushed []) default pat_packet key_packet delta_packet 0x47 pmt_tail 32 65 refl
      pat-IsTable pat_names pmt-IsTable (omega arith) (omega arith) key_packet-IsKey
