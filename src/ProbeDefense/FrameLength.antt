-- ===== src/ProbeDefense/FrameLength.antt =====
-- ClassifyFrameLength: what a peer sent in place of a frame, read off the length.
use hao_vpn.Prelude.{
  ℕ, Bool, false, List, ◌∷◌, ◌||◌, ◌&&◌, Text, text_beq, codes, nat_beq, if◌then◌else◌,
}
use hao_vpn.Prelude.Int.{ℤ, pos, pos_part, leb_ℤ}
use hao_vpn.Transport.Frame.{put_uint32}

abbrev starts : List ℕ → ℕ → ℕ → Bool
starts (a ∷ b ∷ rest) x y = nat_beq a x && nat_beq b y
starts _ x y = false

unfoldable pub classify_frame_length : ℤ → Text
unfolding put_uint32
classify_frame_length n =
    let s = put_uint32 (pos_part n) in
    if leb_ℤ n (pos 0)
    then codes "frame_invalid"
    else if text_beq s (codes "GET ")
    then codes "http_get"
    else if text_beq s (codes "POST") || (text_beq s (codes "HEAD") || text_beq s (codes "OPTI"))
    then codes "http_method"
    else if text_beq s (codes "AMQP")
    then codes "amqp"
    else if text_beq s (codes "JRMI")
    then codes "jrmi"
    else if text_beq s (codes "GIOP")
    then codes "giop"
    else if text_beq s (codes "CONN")
    then codes "conn_probe"
    else if text_beq s (codes "HELP")
    then codes "help_probe"
    else if starts s 22 3
    then codes "nested_tls"
    else if starts s 13 10
    then codes "http_blank"
    else codes "frame_invalid"
