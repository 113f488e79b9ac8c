-- ===== src/Crypto/Nonce.antt =====
-- No nonce is used twice, and the receiver reads the sender's counter.
use hao_vpn.Prelude.{
  ℕ, suc, ◌+◌, ◌*◌, ◌/◌, ◌%◌, ◌<◌, ◌≡◌, ◌≢◌, sym, ap, ◌∙◌, List, [], ◌∷◌, ◌++◌, Option, some, refl,
  arith, length,
}
use hao_vpn.Transport.Frame.{put_uint32, uint32}
use hao_vpn.Crypto.{CipherAead, Session, encrypt, counter_to_nonce, nonce_to_counter}

four_bytes :
    (n : ℕ)
    → n < 4294967296
    → n / 16777216 % 256 * 16777216 + n / 65536 % 256 * 65536 + n / 256 % 256 * 256 + n % 256 ≡ n
four_bytes n h = omega arith

-- A counter of 64 bits is read back from its nonce.
pub nonce_to_counter-counter_to_nonce :
    (n : ℕ) → n < 18446744073709551616 → nonce_to_counter (counter_to_nonce n) ≡ n
unfolding nonce_to_counter counter_to_nonce put_uint32 uint32
nonce_to_counter-counter_to_nonce n h = omega (
  arith,
  four_bytes (n / 4294967296) (omega (arith, h)),
  four_bytes (n % 4294967296) (omega arith),
)

-- The frame of a packet is a nonce of 12 bytes and what the AEAD sealed of the packet under it.
abbrev pub IsSealed : CipherAead → List ℕ → List ℕ → Option (List ℕ) → Type 0
IsSealed aead nonce p frame = (length nonce ≡ 12) × (frame ≡ some (nonce ++ aead.seal nonce p))

module _ {F : Type 0} (aead : CipherAead) where
  -- The session after some packets, whatever they are.
  pub after_sent : List (List ℕ) → Session F → Session F
  after_sent [] s = s
  after_sent (p ∷ ps) s = after_sent ps (encrypt aead s p).1

  after_sent-send_counter :
      (ps : List (List ℕ)) (s : Session F)
      → s.send_counter < 18446744073709551616
      → (after_sent ps s).send_counter ≡ (s.send_counter + length ps) % 18446744073709551616
  unfolding after_sent encrypt
  after_sent-send_counter [] s h = omega (arith, h)
  after_sent-send_counter (p ∷ ps) s h =
      omega (arith, after_sent-send_counter ps (encrypt aead s p).1 (omega arith))

  counter_to_nonce-distinct :
      (p : List ℕ) (ps : List (List ℕ)) (s : Session F)
      → s.send_counter < 18446744073709551616
      → suc (length ps) < 18446744073709551616
      → counter_to_nonce s.send_counter ≢ counter_to_nonce (after_sent (p ∷ ps) s).send_counter
  counter_to_nonce-distinct p ps s h few same =
      let counted = after_sent-send_counter (p ∷ ps) s h in
      let back : s.send_counter ≡ (after_sent (p ∷ ps) s).send_counter =
        sym (nonce_to_counter-counter_to_nonce s.send_counter h)
        ∙ ap nonce_to_counter same
        ∙ nonce_to_counter-counter_to_nonce _ (omega (arith, counted)) in
      omega (arith, counted, back, h, few)

  encrypt-IsSealed :
      (p : List ℕ) (s : Session F)
      → IsSealed aead (counter_to_nonce s.send_counter) p (encrypt aead s p).0
  unfolding encrypt counter_to_nonce put_uint32
  encrypt-IsSealed p s = (refl, refl)

  -- Each of two packets that a session encrypts, with fewer than 2^64 packets from the first to
  -- the second, goes out as a nonce of 12 bytes followed by what the AEAD seals of the packet
  -- under that nonce, and the two nonces differ.
  pub encrypt-after_sent :
      (p q : List ℕ) (ps : List (List ℕ)) (s : Session F)
      → s.send_counter < 18446744073709551616
      → suc (length ps) < 18446744073709551616
      → (n m : List ℕ) × IsSealed aead n p (encrypt aead s p).0
        × IsSealed aead m q (encrypt aead (after_sent (p ∷ ps) s) q).0
        × (n ≢ m)
  encrypt-after_sent p q ps s h few = (
    counter_to_nonce s.send_counter,
    counter_to_nonce (after_sent (p ∷ ps) s).send_counter,
    encrypt-IsSealed p s,
    encrypt-IsSealed q (after_sent (p ∷ ps) s),
    counter_to_nonce-distinct p ps s h few,
  )
