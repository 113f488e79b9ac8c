-- ===== src/Examples/Frames.antt =====
-- Frames on the wire.
use hao_vpn.Prelude.{◌≡◌, refl, [], ◌∷◌, ok}
use hao_vpn.Transport.Frame.{Frame, encode_frame, feed, put_uint32}
use hao_vpn.Transport.Frame.Stream.{Stops, feed-Stops}
use hao_vpn.Transport.Frame.Chunks.{feed_chunks, feed_chunks-wire_of, fresh, wire_of}

abbrev ping : Frame
ping = record { typ = 2; payload = [] }

abbrev data_frame : Frame
data_frame = record { typ = 1; payload = 9 ∷ 8 ∷ [] }

encode_frame_run : encode_frame 1 (9 ∷ 8 ∷ []) ≡ ok (0 ∷ 0 ∷ 0 ∷ 3 ∷ 1 ∷ 9 ∷ 8 ∷ [])
unfolding encode_frame put_uint32
encode_frame_run = refl

-- A reader that gets the two frames in three pieces.
feed_chunks-wire_of_example :
    feed_chunks fresh ((0 ∷ 0 ∷ []) ∷ (0 ∷ 1 ∷ 2 ∷ 0 ∷ 0 ∷ []) ∷ (0 ∷ 3 ∷ 1 ∷ 9 ∷ 8 ∷ []) ∷ [])
    ≡ record { rest = []; frames = ok (ping ∷ data_frame ∷ []) }
feed_chunks-wire_of_example =
    feed_chunks-wire_of (ping ∷ data_frame ∷ [])
      (0 ∷ 0 ∷ 0 ∷ 1 ∷ 2 ∷ 0 ∷ 0 ∷ 0 ∷ 3 ∷ 1 ∷ 9 ∷ 8 ∷ [])
      ((0 ∷ 0 ∷ []) ∷ (0 ∷ 1 ∷ 2 ∷ 0 ∷ 0 ∷ []) ∷ (0 ∷ 3 ∷ 1 ∷ 9 ∷ 8 ∷ []) ∷ []) written refl
  where
    written :
        wire_of (ping ∷ data_frame ∷ []) ≡ ok (0 ∷ 0 ∷ 0 ∷ 1 ∷ 2 ∷ 0 ∷ 0 ∷ 0 ∷ 3 ∷ 1 ∷ 9 ∷ 8 ∷ [])
    written = unfold encode_frame put_uint32 in refl

feed-Stops_example : Stops (feed [] (0 ∷ 0 ∷ 0 ∷ 0 ∷ 2 ∷ []))
feed-Stops_example = feed-Stops [] (0 ∷ 0 ∷ 0 ∷ 0 ∷ 2 ∷ [])
