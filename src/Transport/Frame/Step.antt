-- ===== src/Transport/Frame/Step.antt =====
-- One round of the decoder: how it reads an encoded frame, how bytes that arrive later leave it
-- alone, and how it shortens the buffer.
use hao_vpn.Prelude.{
  ℕ, suc, ◌+◌, ◌<◌, ◌≡◌, List, ◌∷◌, ◌++◌, arith, length, take, length-append, length-drop,
  take-append, drop-append, take-length_append, drop-length_append, ok,
}
use hao_vpn.Transport.Frame.{Frame, put_uint32, uint32, encode_frame, next_frame, invalid, complete}

pub uint32-put_uint32 :
    (n : ℕ) (rest : List ℕ) → n < 4294967296 → uint32 (take 4 (put_uint32 n ++ rest)) ≡ n
unfolding put_uint32 uint32
uint32-put_uint32 n rest h = omega arith

-- A complete frame makes the buffer shorter.
pub next_frame_shorter :
    (buf : List ℕ) {f : Frame} {rest : List ℕ}
    → next_frame buf ≡ complete f rest
    → length rest < length buf
unfolding next_frame
next_frame_shorter buf {f} {rest} h = ground (arith, length-drop (4 + uint32 (take 4 buf)) buf)

-- Bytes behind a complete frame stay behind it.
pub next_frame-append :
    (buf bytes : List ℕ) {f : Frame} {rest : List ℕ}
    → next_frame buf ≡ complete f rest
    → next_frame (buf ++ bytes) ≡ complete f (rest ++ bytes)
unfolding next_frame
next_frame-append buf bytes {f} {rest} h = ground (
  arith,
  length-append buf bytes,
  take-append 4 buf bytes,
  take-append (4 + uint32 (take 4 buf)) buf bytes,
  drop-append (4 + uint32 (take 4 buf)) buf bytes,
)

-- An invalid length stays invalid.
pub next_frame_invalid-append :
    (buf bytes : List ℕ) {n : ℕ}
    → next_frame buf ≡ invalid n
    → next_frame (buf ++ bytes) ≡ invalid n
unfolding next_frame
next_frame_invalid-append buf bytes {n} h =
    ground (arith, length-append buf bytes, take-append 4 buf bytes)

-- The decoder reads back one encoded frame, whatever follows it.
pub next_frame-encode_frame :
    (typ : ℕ) (payload rest : List ℕ) {wire : List ℕ}
    → encode_frame typ payload ≡ ok wire
    → next_frame (wire ++ rest) ≡ complete (record { typ = typ; payload = payload }) rest
unfolding next_frame encode_frame put_uint32
next_frame-encode_frame typ payload rest h = ground (
  arith,
  uint32-put_uint32 (suc (length payload)) (typ ∷ (payload ++ rest)),
  length-append payload rest,
  take-length_append payload rest,
  drop-length_append payload rest,
)
