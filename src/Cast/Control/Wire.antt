-- ===== src/Cast/Control/Wire.antt =====
-- crates/nd-chromecast/src/cast/wire.rs: frames of the control channel. Text is its bytes, an i32 its
-- word of 32 bits. The protobuf codec and the JSON parser are parameters.
pub mod RoundTrip
mod Tests
use big_net_screen.Base.{
  ℕ, ◌*◌, Bool, true, false, not, ◌&&◌, ◌||◌, Option, none, some, List, [], ◌∷◌, ◌++◌, length, take,
  drop, leb, ltb, ◌==◌, if◌then◌else◌,
}
use big_net_screen.Base.Bytes.{be32, of_be32}
use big_net_screen.Base.Text.{codes, same_bytes}

abbrev pub max_message_bytes : ℕ
max_message_bytes = 64 * 1024

pub record CastMessage : Type 0 where
  pub protocol_version : ℕ
  pub source_id : List ℕ
  pub destination_id : List ℕ
  pub namespace : List ℕ
  pub payload_type : ℕ
  pub payload_utf8 : Option (List ℕ)
  pub payload_binary : Option (List ℕ)

abbrev pub castv210 : ℕ
castv210 = 0

abbrev pub payload_str : ℕ
payload_str = 0

abbrev pub payload_bin : ℕ
payload_bin = 1

unfoldable pub text : List ℕ → List ℕ → List ℕ → List ℕ → CastMessage
text source destination namespace payload = record {
  protocol_version = castv210;
  source_id = source;
  destination_id = destination;
  namespace = namespace;
  payload_type = payload_str;
  payload_utf8 = some payload;
  payload_binary = none;
}

unfoldable pub binary : List ℕ → List ℕ → List ℕ → List ℕ → CastMessage
binary source destination namespace payload = record {
  protocol_version = castv210;
  source_id = source;
  destination_id = destination;
  namespace = namespace;
  payload_type = payload_bin;
  payload_utf8 = none;
  payload_binary = some payload;
}

abbrev pub source_id : List ℕ
source_id = codes "sender-0"

pub data Refusal : Type 0 where
  ended : Refusal
  too_large : Refusal
  undecodable : Refusal
  bad_envelope : Refusal
  no_text : Refusal
  bad_json : Refusal
  unknown_payload : Refusal

-- What is read, and what is left on the stream.
pub data Read {ℓ} (A : Type ℓ) : Type ℓ where
  got : A → List ℕ → Read A
  refused : Refusal → Read A

abbrev pub bad_message : CastMessage → Bool
bad_message msg =
    not (msg.protocol_version == castv210)
    || (not (same_bytes msg.destination_id source_id)
        && not (same_bytes msg.destination_id (codes "*")))
    || same_bytes msg.source_id []

-- A JSON value of the parser's type, or the null that stands for a binary payload.
pub record CastEvent (V : Type 0) : Type 0 where
  pub source_id : List ℕ
  pub namespace : List ℕ
  pub payload : V

module _ (encode : CastMessage → List ℕ) where
  unfoldable pub to_frame : CastMessage → Option (List ℕ)
  to_frame msg =
      let body = encode msg in
      if leb (length body) max_message_bytes then some (be32 (length body) ++ body) else none

module _ (decode : List ℕ → Option CastMessage) where
  abbrev pub checked : Option CastMessage → List ℕ → Read CastMessage
  checked none rest = refused undecodable
  checked (some msg) rest = if bad_message msg then refused bad_envelope else got msg rest

  abbrev pub read_body : ℕ → List ℕ → Read CastMessage
  read_body len stream =
      if ltb max_message_bytes len
      then refused too_large
      else if ltb (length stream) len
      then refused ended
      else checked (decode (take len stream)) (drop len stream)

  -- `read_exact` of fewer bytes than there are ends the read.
  unfoldable pub read_raw_message : List ℕ → Read CastMessage
  read_raw_message (a ∷ (b ∷ (c ∷ (d ∷ stream)))) = read_body (of_be32 a b c d) stream
  read_raw_message _ = refused ended

  module _ {V : Type 0} (from_str : List ℕ → Option V) (null : V) where
    abbrev pub parsed : CastMessage → List ℕ → Option V → Read (CastEvent V)
    parsed msg rest none = refused bad_json
    parsed msg rest (some value) =
        got (record { source_id = msg.source_id; namespace = msg.namespace; payload = value }) rest

    abbrev pub of_text : CastMessage → List ℕ → Option (List ℕ) → Read (CastEvent V)
    of_text msg rest none = refused no_text
    of_text msg rest (some payload) = parsed msg rest (from_str payload)

    abbrev pub event_of : Read CastMessage → Read (CastEvent V)
    event_of (refused why) = refused why
    event_of (got msg rest) =
        if msg.payload_type == payload_str
        then of_text msg rest msg.payload_utf8
        else if msg.payload_type == payload_bin
        then parsed msg rest (some null)
        else refused unknown_payload

    unfoldable pub read_message : List ℕ → Read (CastEvent V)
    unfolding read_raw_message
    read_message stream = event_of (read_raw_message stream)
