-- ===== src/Transport/Frame/Chunks.antt =====
-- Frames that are encoded, cut into chunks at any places and decoded come back as they were.
use hao_vpn.Prelude.{
  ℕ, zero, suc, ◌<◌, ◌≡◌, refl, ap, ◌∙◌, List, [], ◌∷◌, ◌++◌, arith, length, Result, ok, err,
  append_assoc, append-nil, inl, inr, Result-cases,
}
use hao_vpn.Transport.Frame.{
  Frame, FrameError, Fed, with_frame, next_frame, feed_loop, feed, encode_frame,
}
use hao_vpn.Transport.Frame.Step.{next_frame-encode_frame, next_frame_shorter}
use hao_vpn.Transport.Frame.Stream.{then_feed, feed-append}

-- The bytes that a sender writes for a list of frames.
abbrev pub wire_of : List Frame → Result FrameError (List ℕ)
wire_of [] = ok []
wire_of (f ∷ fs) = elim (encode_frame f.typ f.payload) [
  | ok w ↦ elim (wire_of fs) [ ok ws ↦ ok (w ++ ws) | err e ↦ err e ]
  | err e ↦ err e
]

-- The read loop of a connection: each chunk goes to Feed, on what the calls before it left.
abbrev pub feed_chunks : Fed → List (List ℕ) → Fed
feed_chunks fed [] = fed
feed_chunks fed (c ∷ cs) = feed_chunks (then_feed fed c) cs

abbrev pub flat : List (List ℕ) → List ℕ
flat [] = []
flat (c ∷ cs) = c ++ flat cs

-- A decoder as NewDecoder makes it, which has returned nothing yet.
abbrev pub fresh : Fed
fresh = record { rest = []; frames = ok [] }

feed_chunks-flat :
    (bytes : List ℕ) (cs : List (List ℕ))
    → feed_chunks (feed [] bytes) cs ≡ feed [] (bytes ++ flat cs)
feed_chunks-flat bytes [] = rw append-nil
feed_chunks-flat bytes (c ∷ cs) =
    rw (← feed-append [] bytes c)
      (feed_chunks-flat (bytes ++ c) cs ∙ ap (feed []) (append_assoc bytes c (flat cs)))

wire_of-cons :
    (f : Frame) (fs : List Frame) (wire : List ℕ)
    → wire_of (f ∷ fs) ≡ ok wire
    → (w : List ℕ) × (ws : List ℕ) × (encode_frame f.typ f.payload ≡ ok w)
      × (wire_of fs ≡ ok ws)
      × (wire ≡ w ++ ws)
wire_of-cons f fs wire e = elim (Result-cases (encode_frame f.typ f.payload)) [
  | inl (w, ew) ↦ elim (Result-cases (wire_of fs)) [
    | inl (ws, es) ↦ (w, ws, ew, es, ground arith)
    | inr (x, es) ↦ absurd (ground arith)
  ]
  | inr (x, ew) ↦ absurd (ground arith)
]

feed_loop-wire_of :
    (k : ℕ) (fs : List Frame) (wire : List ℕ)
    → wire_of fs ≡ ok wire
    → length wire < k
    → feed_loop k wire ≡ record { rest = []; frames = ok fs }
unfolding feed_loop
feed_loop-wire_of zero fs wire e h = elim h [ ]
feed_loop-wire_of (suc k) [] wire e h = unfold next_frame in ground arith
feed_loop-wire_of (suc k) (f ∷ fs) wire e h =
    let (w, ws, ew, es, joined) = wire_of-cons f fs wire e in
    let read = next_frame-encode_frame f.typ f.payload ws ew in
    let shorter = next_frame_shorter (w ++ ws) read in
    rw (joined, read, feed_loop)
      (ap (with_frame f) (feed_loop-wire_of k fs ws es (omega (arith, ap length joined))))

-- Frames that the encoder accepts, written one after another and delivered in any chunks, come out
-- of the decoder in order, all of them, with nothing left in its buffer.
pub feed_chunks-wire_of :
    (fs : List Frame) (wire : List ℕ) (cs : List (List ℕ))
    → wire_of fs ≡ ok wire
    → flat cs ≡ wire
    → feed_chunks fresh cs ≡ record { rest = []; frames = ok fs }
unfolding feed
feed_chunks-wire_of fs wire cs e j =
    start
    ∙ feed_chunks-flat [] cs
    ∙ ap (feed []) j
    ∙ feed_loop-wire_of (suc (length wire)) fs wire e (omega arith)
  where
    start : feed_chunks fresh cs ≡ feed_chunks (feed [] []) cs
    start = unfold feed_loop next_frame in refl
