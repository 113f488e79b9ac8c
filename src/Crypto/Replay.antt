-- ===== src/Crypto/Replay.antt =====
-- What Decrypt accepts, given what the AEAD and the filter promise.
use hao_vpn.Prelude.{
  ℕ, ◌+◌, ◌<◌, ◌≤◌, ◌≡◌, ◌≢◌, refl, subst, true, false, List, [], ◌∷◌, ◌++◌, arith, some, length,
  take, drop, ok, err, ◌⊎◌, inl, inr,
}
use hao_vpn.Transport.Frame.{put_uint32}
use hao_vpn.Crypto.{
  CipherAead, Filter, Session, too_short, tampered, encrypt, decrypt, counter_to_nonce,
  nonce_to_counter, replay_counter_limit,
}
use hao_vpn.Crypto.Nonce.{nonce_to_counter-counter_to_nonce}

-- A filter against replays: what it accepts it has seen, it forgets nothing that it has seen, and
-- what it has seen it refuses.
pub record IsReplayFilter {F : Type 0} (filter : Filter F) (Seen : F → ℕ → Type 0) : Type 0 where
  pub marks :
      (f : F) (n l : ℕ)
      → (filter.validate_counter f n l).0 ≡ true
      → Seen (filter.validate_counter f n l).1 n
  pub keeps : (f : F) (n m l : ℕ) → Seen f n → Seen (filter.validate_counter f m l).1 n
  pub refuses : (f : F) (n l : ℕ) → Seen f n → (filter.validate_counter f n l).0 ≡ false

-- An AEAD with the nonces of the session opens what it sealed.
pub record IsAead (aead : CipherAead) : Type 0 where
  pub nonces : aead.nonce_size ≡ 12
  pub tagged : (nonce p : List ℕ) → aead.overhead ≤ length (aead.seal nonce p)
  pub opens : (nonce p : List ℕ) → aead.open_sealed nonce (aead.seal nonce p) ≡ some p

-- A frame falls apart into its nonce and the rest.
cut_nonce :
    (n : ℕ) (xs : List ℕ)
    → (take 12 (counter_to_nonce n ++ xs) ≡ counter_to_nonce n)
      × (drop 12 (counter_to_nonce n ++ xs) ≡ xs)
      × (length (counter_to_nonce n ++ xs) ≡ 12 + length xs)
unfolding counter_to_nonce put_uint32
cut_nonce n xs = (refl, refl, omega arith)

module _ {F : Type 0} (aead : CipherAead) (filter : Filter F) where
  -- The session after some frames, whatever they are.
  pub after_received : List (List ℕ) → Session F → Session F
  after_received [] s = s
  after_received (f ∷ fs) s = after_received fs (decrypt aead filter s f).1

  abbrev pub counter_of : List ℕ → ℕ
  counter_of frame = nonce_to_counter (take aead.nonce_size frame)

  decrypt_accepted :
      (s : Session F) (frame out : List ℕ)
      → (decrypt aead filter s frame).0 ≡ ok out
      → let (is_new, marked) =
          filter.validate_counter s.replay (counter_of frame) replay_counter_limit in
        (is_new ≡ true) × ((decrypt aead filter s frame).1.replay ≡ marked)
  unfolding decrypt
  decrypt_accepted s frame out h = ground arith

  decrypt_replay :
      (s : Session F) (frame : List ℕ)
      → ((decrypt aead filter s frame).1.replay ≡ s.replay)
        ⊎ ((decrypt aead filter s frame).1.replay
            ≡ (filter.validate_counter s.replay (counter_of frame) replay_counter_limit).1)
  unfolding decrypt
  decrypt_replay s frame = ground arith

  -- A frame that is too short or does not open changes nothing, so its counter stays free for the
  -- genuine frame.
  pub decrypt_failed :
      (s : Session F) (frame : List ℕ)
      → ((decrypt aead filter s frame).0 ≡ err too_short)
        ⊎ ((decrypt aead filter s frame).0 ≡ err tampered)
      → (decrypt aead filter s frame).1 ≡ s
  unfolding decrypt
  decrypt_failed s frame h = ground arith

  module _ (Seen : F → ℕ → Type 0) (law : IsReplayFilter filter Seen) where
    after_received-Seen :
        (fs : List (List ℕ)) (s : Session F) (n : ℕ)
        → Seen s.replay n
        → Seen (after_received fs s).replay n
    unfolding after_received
    after_received-Seen [] s n seen = seen
    after_received-Seen (f ∷ fs) s n seen =
        after_received-Seen fs (decrypt aead filter s f).1 n (elim (decrypt_replay s f) [
          | inl e ↦ rw e seen
          | inr e ↦ rw e (law.keeps s.replay n (counter_of f) replay_counter_limit seen)
        ])

    -- Once a frame has been opened, no frame with its counter opens again, whatever frames come
    -- between them, if the replay filter refuses what it has seen and forgets nothing.
    pub decrypt-after_received :
        (s : Session F) (frame out : List ℕ) (between : List (List ℕ)) (again out' : List ℕ)
        → (decrypt aead filter s frame).0 ≡ ok out
        → counter_of again ≡ counter_of frame
        → (decrypt aead filter (after_received between (decrypt aead filter s frame).1) again).0
          ≢ ok out'
    decrypt-after_received s frame out between again out' first same second =
        let (was_new, marked) = decrypt_accepted s frame out first in
        let s' = (decrypt aead filter s frame).1 in
        let seen : Seen s'.replay (counter_of frame) =
          rw marked (law.marks s.replay (counter_of frame) replay_counter_limit was_new) in
        let (is_new, _) = decrypt_accepted (after_received between s') again out' second in
        let refused =
          law.refuses (after_received between s').replay (counter_of frame) replay_counter_limit
            (after_received-Seen between s' (counter_of frame) seen) in
        ground (arith, is_new, refused, same)

  decrypt_opens :
      (r : Session F) (frame p : List ℕ)
      → aead.nonce_size + aead.overhead ≤ length frame
      → (filter.validate_counter r.replay (counter_of frame) replay_counter_limit).0 ≡ true
      → aead.open_sealed (take aead.nonce_size frame) (drop aead.nonce_size frame) ≡ some p
      → (decrypt aead filter r frame).0 ≡ ok p
  unfolding decrypt
  decrypt_opens r frame p long takes opens = ground (arith, opens)

  -- What one side seals with a 64-bit counter the other opens to the same packet, if its filter
  -- takes the counter and the AEAD opens what it sealed under 12-byte nonces.
  pub decrypt-encrypt :
      (s r : Session F) (p frame : List ℕ) (s' : Session F)
      → IsAead aead
      → s.send_counter < 18446744073709551616
      → (filter.validate_counter r.replay s.send_counter replay_counter_limit).0 ≡ true
      → encrypt aead s p ≡ (some frame, s')
      → (decrypt aead filter r frame).0 ≡ ok p
  decrypt-encrypt s r p frame s' law small takes e =
      subst (λ (f : List ℕ). (decrypt aead filter r f).0 ≡ ok p) sent
        (decrypt_opens r (nonce ++ sealed) p long fresh opens)
    where
      nonce : List ℕ
      nonce = counter_to_nonce s.send_counter

      sealed : List ℕ
      sealed = aead.seal nonce p

      sent : nonce ++ sealed ≡ frame
      sent = unfold encrypt in ground (arith, e)

      cut_at :
          (take aead.nonce_size (nonce ++ sealed) ≡ nonce)
          × (drop aead.nonce_size (nonce ++ sealed) ≡ sealed)
          × (length (nonce ++ sealed) ≡ 12 + length sealed)
      cut_at = rw law.nonces (cut_nonce s.send_counter sealed)

      long : aead.nonce_size + aead.overhead ≤ length (nonce ++ sealed)
      long = omega (arith, cut_at.2, law.nonces, law.tagged nonce p)

      fresh :
          (filter.validate_counter r.replay (counter_of (nonce ++ sealed)) replay_counter_limit).0
          ≡ true
      fresh = rw (cut_at.0, nonce_to_counter-counter_to_nonce s.send_counter small) takes

      opens :
          aead.open_sealed
            (take aead.nonce_size (nonce ++ sealed))
            (drop aead.nonce_size (nonce ++ sealed))
          ≡ some p
      opens = rw (cut_at.0, cut_at.1) (law.opens nonce p)
