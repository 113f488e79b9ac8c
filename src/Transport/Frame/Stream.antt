-- ===== src/Transport/Frame/Stream.antt =====
-- The decoder over a whole stream: its fuel suffices, and the chunks do not matter.
use hao_vpn.Prelude.{
  ℕ, zero, suc, ◌<◌, ◌≡◌, refl, ap, sym, ◌∙◌, List, [], ◌∷◌, ◌++◌, arith, length, length-append, ok,
  err, append_assoc, ◌⊎◌, inl, inr,
}
use hao_vpn.Transport.Frame.{
  Frame, Fed, with_frame, next_frame, Next, need_more, invalid, complete, feed_loop, feed,
  invalid_frame_length,
}
use hao_vpn.Transport.Frame.Step.{next_frame_shorter, next_frame-append, next_frame_invalid-append}

Next-cases :
    (x : Next)
    → (x ≡ need_more)
      ⊎ ((n : ℕ) × (x ≡ invalid n))
      ⊎ ((f : Frame) × (rest : List ℕ) × (x ≡ complete f rest))
Next-cases need_more = inl refl
Next-cases (invalid n) = inr (inl (n, refl))
Next-cases (complete f rest) = inr (inr (f, rest, refl))

-- Any fuel above the length of the buffer gives the same result.
pub feed_loop_fuel :
    (k m : ℕ) (buf : List ℕ) → length buf < k → length buf < m → feed_loop k buf ≡ feed_loop m buf
unfolding feed_loop
feed_loop_fuel zero m buf h j = elim h [ ]
feed_loop_fuel (suc k) zero buf h j = elim j [ ]
feed_loop_fuel (suc k) (suc m) buf h j = elim (Next-cases (next_frame buf)) [
  | inl e ↦ rw (e, feed_loop)
  | inr (inl (n, e)) ↦ rw (e, feed_loop)
  | inr (inr (f, rest, e)) ↦
      let shorter = next_frame_shorter buf e in
      rw (e, feed_loop) (ap (with_frame f) (feed_loop_fuel k m rest (omega arith) (omega arith)))
]

-- The loop stops because the buffer holds no further frame, or on an invalid length.
abbrev pub Stops : Fed → Type 0
Stops fed = elim fed.frames [
  | ok fs ↦ next_frame fed.rest ≡ need_more
  | err (invalid_frame_length n) ↦ next_frame fed.rest ≡ invalid n
  | err e ↦ ⊥
]

Stops-with_frame : (f : Frame) (fed : Fed) → Stops fed → Stops (with_frame f fed)
Stops-with_frame f fed h = ground arith

pub feed_loop-Stops : (k : ℕ) (buf : List ℕ) → length buf < k → Stops (feed_loop k buf)
unfolding feed_loop
feed_loop-Stops zero buf h = elim h [ ]
feed_loop-Stops (suc k) buf h = elim (Next-cases (next_frame buf)) [
  | inl e ↦ rw (e, feed_loop) e
  | inr (inl (n, e)) ↦ rw (e, feed_loop) e
  | inr (inr (f, rest, e)) ↦
      let shorter = next_frame_shorter buf e in
      rw (e, feed_loop)
        (Stops-with_frame f (feed_loop k rest) (feed_loop-Stops k rest (omega arith)))
]

-- Feed reads on until the rest is no whole frame, or until an invalid length, which it reports; it
-- always gets there.
pub feed-Stops : (buf bytes : List ℕ) → Stops (feed buf bytes)
unfolding feed
feed-Stops buf bytes = feed_loop-Stops (suc (length (buf ++ bytes))) (buf ++ bytes) (omega arith)

-- Frames that an earlier call returned, in front of those of a later one.
abbrev pub with_frames : List Frame → Fed → Fed
with_frames [] fed = fed
with_frames (f ∷ fs) fed = with_frame f (with_frames fs fed)

-- What a reader that calls Feed again after `first` has collected.
abbrev pub then_feed : Fed → List ℕ → Fed
then_feed first bytes = elim first.frames [
  | ok fs ↦ with_frames fs (feed first.rest bytes)
  | err e ↦ record first { rest = first.rest ++ bytes }
]

then_feed-with_frame :
    (f : Frame) (fed : Fed) (bytes : List ℕ)
    → then_feed (with_frame f fed) bytes ≡ with_frame f (then_feed fed bytes)
then_feed-with_frame f fed bytes = ground arith

feed_loop-append :
    (k m : ℕ) (buf bytes : List ℕ)
    → length buf < k
    → length (buf ++ bytes) < m
    → feed_loop m (buf ++ bytes) ≡ then_feed (feed_loop k buf) bytes
unfolding feed_loop
feed_loop-append zero m buf bytes h j = elim h [ ]
feed_loop-append (suc k) zero buf bytes h j = elim j [ ]
feed_loop-append (suc k) (suc m) buf bytes h j = elim (Next-cases (next_frame buf)) [
  | inl e ↦
      rw (e, feed_loop)
        (unfold feed in
          feed_loop_fuel (suc m) (suc (length (buf ++ bytes))) (buf ++ bytes) j (omega arith))
  | inr (inl (n, e)) ↦ rw (e, feed_loop) (rw (next_frame_invalid-append buf bytes e, feed_loop))
  | inr (inr (f, rest, e)) ↦
      let shorter = next_frame_shorter buf e in
      rw (e, feed_loop, next_frame-append buf bytes e)
        (ap (with_frame f) (
            feed_loop-append k m rest bytes (omega arith)
              (omega (arith, length-append rest bytes, length-append buf bytes)))
          ∙ sym (then_feed-with_frame f (feed_loop k rest) bytes))
]

-- Feeding two pieces one after the other returns the same frames and buffer as feeding them
-- joined.
pub feed-append : (buf xs ys : List ℕ) → feed buf (xs ++ ys) ≡ then_feed (feed buf xs) ys
unfolding feed
feed-append buf xs ys =
    rw (← append_assoc buf xs ys) (feed_loop-append _ _ (buf ++ xs) ys (omega arith) (omega arith))
