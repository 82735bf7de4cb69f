-- ===== src/Wfd/Formats/Tests.antt =====
-- Runs of the text of capabilities.rs, and its theorems there.
use big_net_screen.Base.{ℕ, ◌≡◌, refl, false, some, List, [], ◌∷◌, ◌++◌, All, arith}
use big_net_screen.Base.Text.{codes}
use big_net_screen.Base.Text.Words.{lines}
use big_net_screen.Wfd.Tables.{WfdMode, cea}
use big_net_screen.Wfd.Tables.Naming.{all_modes}
use big_net_screen.Wfd.Formats.{default, parse_caps, m4_video_formats}
use big_net_screen.Wfd.Formats.RoundTrip.{IsReadBack, modes-IsReadBack}
use big_net_screen.Wfd.Formats.Latest.{video, audio, latest, latest_port, merge, parse_caps-merge}

abbrev crlf : List ℕ
crlf = 13 ∷ 10 ∷ []

-- The answer of a projector, with a second line of audio codecs.
abbrev m3_body : List ℕ
m3_body =
    codes "wfd_audio_codecs: LPCM 00000003 00"
    ++ (crlf
        ++ (codes
              "wfd_video_formats: 40 00 01 10 00000100 00000000 00000000 00 0000 00c8 01 none none"
            ++ (crlf
                ++ (codes "wfd_client_rtp_ports: RTP/AVP/UDP;unicast 19002 0 mode=play"
                    ++ (crlf ++ (codes "wfd_audio_codecs: AAC 00000001 00" ++ crlf))))))

abbrev panel : WfdMode
panel = record { width = 1920; height = 1080; fps = 60; interlaced = false; table = cea; index = 8 }

projector_answer : parse_caps m3_body ≡ record {
  video_formats = some (codes "40 00 01 10 00000100 00000000 00000000 00 0000 00c8 01 none none");
  modes = panel ∷ [];
  profile = 0x01;
  level = 0x10;
  audio_codecs = some (codes "AAC 00000001 00");
  rtp_port = 19002;
  native = some panel;
}
unfolding parse_caps
projector_answer = refl

selected_panel :
    m4_video_formats panel 0x03 0x10
    ≡ codes "40 00 01 10 00000100 00000000 00000000 00 0000 0000 00 none none"
unfolding m4_video_formats
selected_panel = refl

parse_caps-merge_example :
    let ls = lines m3_body in
    parse_caps m3_body ≡ merge default (latest video ls) (latest audio ls) (latest_port ls)
parse_caps-merge_example = parse_caps-merge m3_body

modes-IsReadBack_example : All (IsReadBack 0x03 0x10) all_modes
modes-IsReadBack_example = modes-IsReadBack 0x03 0x10 (omega arith) (omega arith)
