-- ===== src/Core/Join/Points.antt =====
-- The buffers of stream_server.rs at which a reader can start, and the tables in front of them.
use big_net_screen.Base.{ℕ, ◌≡◌, true, false, List, [], ◌∷◌, take, ◌⊎◌}
use big_net_screen.Core.Join.{Buffer, Tables, ts_packet, packets_of, join_buffers}
use big_net_screen.Core.Join.Past.{IsTable, Walk}
use big_net_screen.Core.Join.Kept.{HasRandom, Prefixed}
use big_net_screen.Core.Join.Found.{Found, Left}

abbrev HeadIs : List ℕ → List (List ℕ) → Type 0
HeadIs x [] = Unit
HeadIs x (p ∷ ps) = p ≡ x

-- What the probe makes of a buffer after these packets: its bytes as they are, as the middle of a
-- stream; or a place to start, which has a key frame and begins with a PAT, its own or a kept one.
pub record IsMarked (past : List (List ℕ)) (buffer out : Buffer) : Type 0 where
  pub timed : (out.pts ≡ buffer.pts) × (out.dts ≡ buffer.dts)
  pub holds :
      ((out.delta_unit ≡ true) × (out.bytes ≡ buffer.bytes))
      ⊎ ((out.delta_unit ≡ false)
          × HasRandom (packets_of buffer.bytes)
          × (((out.bytes ≡ buffer.bytes) × IsTable 0 (take ts_packet buffer.bytes))
              ⊎ Prefixed past out.bytes buffer.bytes))

module _ (past : List (List ℕ)) (buffer : Buffer) where
  abbrev Own : Type 0
  Own = IsTable 0 (take ts_packet buffer.bytes)

  abbrev KeyFrame : Type 0
  KeyFrame = HasRandom (packets_of buffer.bytes)

  abbrev Leads : List (List ℕ) → Type 0
  Leads = Walk (packets_of buffer.bytes) past

  -- The output, and the tables that the buffer leaves.
  record MarkedBy (r : Buffer × Tables) : Type 0 where
    out : IsMarked past buffer r.0
    left : Left buffer.bytes past Own KeyFrame Leads r.1

-- Each output belongs to its list, after the packets that went by before the list.
abbrev pub AllMarked : List (List ℕ) → List (List Buffer) → List Buffer → Type 0
AllMarked past [] [] = Unit
AllMarked past (b ∷ bs) (o ∷ os) =
    IsMarked past (join_buffers b) o
    × ((past' : List (List ℕ)) × Walk (packets_of (join_buffers b).bytes) past past'
        × AllMarked past' bs os)
AllMarked past _ _ = ⊥
