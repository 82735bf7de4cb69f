-- ===== src/Wfd/Formats/Latest.antt =====
-- What `parse_caps` of capabilities.rs takes from the lines of M3.
use mathlib.Core.Path.{subst}
use big_net_screen.Base.{
  ℕ, ◌≡◌, refl, sym, ◌∙◌, Option, none, some, List, [], ◌∷◌, if◌then◌else◌, Bool-cases, inl, inr,
}
use big_net_screen.Base.Text.{codes, same_bytes, same_bytes-eq, trim, split_once}
use big_net_screen.Base.Text.Words.{lines}
use big_net_screen.Wfd.Choice.{SinkCaps}
use big_net_screen.Wfd.Formats.{
  default, unwrap_or, parse_video_formats, port_of, with_formats, take_value, take_pair, take_lines,
  parse_caps,
}

abbrev pub video : List ℕ
video = codes "wfd_video_formats"

abbrev pub audio : List ℕ
audio = codes "wfd_audio_codecs"

abbrev pub ports : List ℕ
ports = codes "wfd_client_rtp_ports"

abbrev pub or_else {ℓ} : {A : Type ℓ} → Option A → Option A → Option A
or_else none b = b
or_else (some a) b = some a

-- The value, if the key is the name.
abbrev pub named : List ℕ → List ℕ → List ℕ → Option (List ℕ)
named name key value = if same_bytes key name then some value else none

abbrev pub named_in : List ℕ → Option (List ℕ × List ℕ) → Option (List ℕ)
named_in name none = none
named_in name (some (key, value)) = named name (trim key) (trim value)

abbrev pub port_in : Option (List ℕ) → Option ℕ
port_in none = none
port_in (some value) = port_of value

-- The value of the last line with the name.
abbrev pub latest : List ℕ → List (List ℕ) → Option (List ℕ)
latest name [] = none
latest name (line ∷ more) = or_else (latest name more) (named_in name (split_once b':' line))

-- The last port that a line gives.
abbrev pub latest_port : List (List ℕ) → Option ℕ
latest_port [] = none
latest_port (line ∷ more) =
    or_else (latest_port more) (port_in (named_in ports (split_once b':' line)))

-- The capabilities with the values that there are.
abbrev pub merge : SinkCaps → Option (List ℕ) → Option (List ℕ) → Option ℕ → SinkCaps
merge caps none codecs port = record caps {
  audio_codecs = or_else codecs caps.audio_codecs;
  rtp_port = unwrap_or caps.rtp_port port;
}
merge caps (some value) codecs port = record (parse_video_formats value) {
  audio_codecs = or_else codecs caps.audio_codecs;
  rtp_port = unwrap_or caps.rtp_port port;
}

or_none {ℓ} : {A : Type ℓ} (o : Option A) → or_else o none ≡ o
or_none none = refl
or_none (some a) = refl

module _ (caps : SinkCaps) (value : List ℕ) where
  merge-video :
      (v a : Option (List ℕ)) (p : Option ℕ)
      → merge (with_formats caps (parse_video_formats value)) v a p
        ≡ merge caps (or_else v (some value)) a p
  merge-video none a p = refl
  merge-video (some u) a p = refl

  merge-audio :
      (v a : Option (List ℕ)) (p : Option ℕ)
      → merge (record caps { audio_codecs = some value }) v a p
        ≡ merge caps v (or_else a (some value)) p
  merge-audio none none p = refl
  merge-audio none (some u) p = refl
  merge-audio (some w) none p = refl
  merge-audio (some w) (some u) p = refl

  merge-port :
      (q : Option ℕ) (v a : Option (List ℕ)) (p : Option ℕ)
      → merge (record caps { rtp_port = unwrap_or caps.rtp_port q }) v a p
        ≡ merge caps v a (or_else p q)
  merge-port none none a none = refl
  merge-port (some n) none a none = refl
  merge-port q none a (some u) = refl
  merge-port none (some w) a none = refl
  merge-port (some n) (some w) a none = refl
  merge-port q (some w) a (some u) = refl

module _ (caps : SinkCaps) (value : List ℕ) (v a : Option (List ℕ)) (p : Option ℕ) where
  abbrev Steps : SinkCaps → List ℕ → Type 0
  Steps caps' key =
      merge caps' v a p
      ≡ merge caps (or_else v (named video key value)) (or_else a (named audio key value))
          (or_else p (port_in (named ports key value)))

  value-Steps : (key : List ℕ) → Steps (take_value caps key value) key
  unfolding take_value
  value-Steps key = elim (Bool-cases (same_bytes key video)) [
    | inl t ↦
        subst (λ k. Steps (take_value caps k value) k) (sym (same_bytes-eq key video t))
          (rw (or_none a, or_none p) (merge-video caps value v a p))
    | inr e ↦ elim (Bool-cases (same_bytes key audio)) [
      | inl t ↦
          subst (λ k. Steps (take_value caps k value) k) (sym (same_bytes-eq key audio t))
            (rw (or_none v, or_none p) (merge-audio caps value v a p))
      | inr f ↦ elim (Bool-cases (same_bytes key ports)) [
        | inl t ↦
            subst (λ k. Steps (take_value caps k value) k) (sym (same_bytes-eq key ports t))
              (rw (or_none v, or_none a) (merge-port caps value (port_of value) v a p))
        | inr g ↦ rw (e, f, g, or_none v, or_none a, or_none p) refl
      ]
    ]
  ]

pair-Steps :
    (caps : SinkCaps) (pair : Option (List ℕ × List ℕ)) (v a : Option (List ℕ)) (p : Option ℕ)
    → merge (take_pair caps pair) v a p
      ≡ merge caps
          (or_else v (named_in video pair))
          (or_else a (named_in audio pair))
          (or_else p (port_in (named_in ports pair)))
pair-Steps caps none v a p = rw (or_none v, or_none a, or_none p) refl
pair-Steps caps (some (key, value)) v a p = value-Steps caps (trim value) v a p (trim key)

same_fields : (caps : SinkCaps) → caps ≡ merge caps none none none
same_fields caps = refl

take_lines-merge :
    (caps : SinkCaps) (ls : List (List ℕ))
    → take_lines caps ls ≡ merge caps (latest video ls) (latest audio ls) (latest_port ls)
unfolding take_lines
take_lines-merge caps [] = same_fields caps
take_lines-merge caps (l ∷ ls) =
    let pair = split_once b':' l in
    take_lines-merge (take_pair caps pair) ls
    ∙ pair-Steps caps pair (latest video ls) (latest audio ls) (latest_port ls)

-- In whatever order the lines of M3 come, and however often: the formats are those of the last line
-- with formats, the audio codecs those of the last line with codecs, and the port the last one that
-- a line gives; what no line gives is as in the default.
pub parse_caps-merge :
    (body : List ℕ)
    → let ls = lines body in
      parse_caps body ≡ merge default (latest video ls) (latest audio ls) (latest_port ls)
unfolding parse_caps
parse_caps-merge body = take_lines-merge default (lines body)
