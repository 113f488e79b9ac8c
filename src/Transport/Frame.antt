-- ===== src/Transport/Frame.antt =====
-- internal/transport/frame.go: [4-byte big-endian length][1-byte type][payload], and the decoder
-- that reassembles frames from the chunks that TLS reads return. Bytes are numbers. On a 64-bit `int` a decoded length is never negative,
-- so `n <= 0` is `n == 0`.
pub mod Step
pub mod Stream
pub mod Chunks
use hao_vpn.Prelude.{
  ℕ, zero, suc, ◌+◌, ◌*◌, ◌/◌, ◌%◌, Bool, ◌||◌, List, [], ◌∷◌, ◌++◌, length, take, drop, ltb,
  if◌then◌else◌, ◌==◌, nat_eq, Result, ok, err, All,
}

abbrev pub frame_header_size : ℕ
frame_header_size = 4

abbrev pub max_frame_size : ℕ
max_frame_size = 1048576

pub record Frame : Type 0 where
  pub typ : ℕ
  pub payload : List ℕ

pub data FrameError : Type 0 where
  frame_too_large : ℕ → FrameError
  invalid_frame_length : ℕ → FrameError

-- binary.BigEndian.PutUint32(out, uint32(n))
unfoldable pub put_uint32 : ℕ → List ℕ
put_uint32 n = (n / 16777216 % 256) ∷ (n / 65536 % 256) ∷ (n / 256 % 256) ∷ (n % 256) ∷ []

-- binary.BigEndian.Uint32; the callers read it off four bytes or more.
unfoldable pub uint32 : List ℕ → ℕ
uint32 (a ∷ b ∷ c ∷ d ∷ rest) = a * 16777216 + b * 65536 + c * 256 + d
uint32 _ = 0

unfoldable pub encode_frame : ℕ → List ℕ → Result FrameError (List ℕ)
encode_frame typ payload =
    let body = typ ∷ payload in
    if ltb max_frame_size (length body)
    then err (frame_too_large (length body))
    else ok (put_uint32 (length body) ++ body)

-- One round of the loop in Feed.
pub data Next : Type 0 where
  need_more : Next
  invalid : ℕ → Next
  complete : Frame → List ℕ → Next

-- `body[0]` and `body[1:]`; the length test leaves no empty body.
abbrev frame_of : List ℕ → Frame
frame_of [] = record { typ = 0; payload = [] }
frame_of (t ∷ rest) = record { typ = t; payload = rest }

unfoldable pub next_frame : List ℕ → Next
next_frame buf =
    if ltb (length buf) frame_header_size
    then need_more
    else let n = uint32 (take frame_header_size buf) in
      if n == 0 || ltb max_frame_size n
      then invalid n
      else let total = frame_header_size + n in
        if ltb (length buf) total
        then need_more
        else complete (frame_of (drop frame_header_size (take total buf))) (drop total buf)

-- What Feed leaves in `d.buf`, and what it returns. An error drops the frames of this call.
pub record Fed : Type 0 where
  pub rest : List ℕ
  pub frames : Result FrameError (List Frame)

abbrev pub with_frame : Frame → Fed → Fed
with_frame f fed = elim fed.frames [ ok fs ↦ record fed { frames = ok (f ∷ fs) } | err e ↦ fed ]

-- The loop of Feed on fuel; each round but the last takes a frame of five bytes or more.
unfoldable pub feed_loop : ℕ → List ℕ → Fed
feed_loop zero buf = record { rest = buf; frames = ok [] }
feed_loop (suc fuel) buf = elim (next_frame buf) [
  | need_more ↦ record { rest = buf; frames = ok [] }
  | invalid n ↦ record { rest = buf; frames = err (invalid_frame_length n) }
  | complete f rest ↦ with_frame f (feed_loop fuel rest)
]

-- Feed on a decoder that holds `buf`.
unfoldable pub feed : List ℕ → List ℕ → Fed
feed buf bytes = let buf' = buf ++ bytes in feed_loop (suc (length buf')) buf'
