-- ===== src/Examples/Sealing.antt =====
-- Sealed frames with a toy cipher and a filter that lists what it has seen.
use hao_vpn.Prelude.{
  ℕ, ◌≡◌, ◌≢◌, refl, Bool, true, false, List, [], ◌∷◌, Option, none, some, nat_beq, any, arith, ok,
  err, if◌then◌else◌,
}
use hao_vpn.Transport.Frame.{put_uint32, uint32}
use hao_vpn.Crypto.{
  CipherAead, Filter, Session, encrypt, decrypt, counter_to_nonce, nonce_to_counter, tampered,
}
use hao_vpn.Crypto.Nonce.{after_sent, IsSealed, encrypt-after_sent}
use hao_vpn.Crypto.Replay.{
  IsReplayFilter, IsAead, after_received, decrypt-after_received, decrypt-encrypt,
}

abbrev without_tag : List ℕ → Option (List ℕ)
without_tag [] = none
without_tag (tag ∷ p) = if nat_beq tag 7 then some p else none

abbrev tagging : CipherAead
tagging = record {
  seal = λ nonce p. 7 ∷ p;
  open_sealed = λ nonce c. without_tag c;
  nonce_size = 12;
  overhead = 1;
}

tagging-IsAead : IsAead tagging
tagging-IsAead = record { nonces = refl; tagged = λ nonce p. omega arith; opens = λ nonce p. refl }

abbrev listed : List ℕ → ℕ → Bool
listed f n = any (λ m. nat_beq m n) f

abbrev listing : Filter (List ℕ)
listing = record { validate_counter = λ f n l. if listed f n then (false, f) else (true, n ∷ f) }

listing-IsReplayFilter : IsReplayFilter listing (λ f n. listed f n ≡ true)
listing-IsReplayFilter = record {
  marks = λ f n l h. ground arith;
  keeps = λ f n m l h. ground arith;
  refuses = λ f n l h. ground arith;
}

abbrev idle : Session (List ℕ)
idle = record { send_counter = 5; replay = 3 ∷ [] }

abbrev sealed_frame : List ℕ
sealed_frame = 0 ∷ 0 ∷ 0 ∷ 0 ∷ 0 ∷ 0 ∷ 0 ∷ 0 ∷ 0 ∷ 0 ∷ 0 ∷ 5 ∷ 7 ∷ 1 ∷ 2 ∷ []

abbrev forged_frame : List ℕ
forged_frame = 0 ∷ 0 ∷ 0 ∷ 0 ∷ 0 ∷ 0 ∷ 0 ∷ 0 ∷ 0 ∷ 0 ∷ 0 ∷ 5 ∷ 6 ∷ 1 ∷ 2 ∷ []

encrypt_run :
    encrypt tagging idle (1 ∷ 2 ∷ []) ≡ (some sealed_frame, record idle { send_counter = 6 })
unfolding encrypt counter_to_nonce put_uint32
encrypt_run = refl

decrypt-encrypt_example : (decrypt tagging listing idle sealed_frame).0 ≡ ok (1 ∷ 2 ∷ [])
decrypt-encrypt_example =
    decrypt-encrypt tagging listing idle idle (1 ∷ 2 ∷ []) sealed_frame
      (record idle { send_counter = 6 }) tagging-IsAead (omega arith) refl encrypt_run

-- The frame a second time, after the forged one.
decrypt-after_received_example :
    (decrypt tagging listing
      (after_received tagging listing
        (forged_frame ∷ [])
        (decrypt tagging listing idle sealed_frame).1)
      sealed_frame).0
    ≢ ok (1 ∷ 2 ∷ [])
decrypt-after_received_example =
    decrypt-after_received tagging listing (λ f n. listed f n ≡ true) listing-IsReplayFilter idle
      sealed_frame (1 ∷ 2 ∷ []) (forged_frame ∷ []) sealed_frame (1 ∷ 2 ∷ []) decrypt-encrypt_run
      refl
  where
    decrypt-encrypt_run : (decrypt tagging listing idle sealed_frame).0 ≡ ok (1 ∷ 2 ∷ [])
    decrypt-encrypt_run = unfold decrypt nonce_to_counter uint32 in refl

forged_run : (decrypt tagging listing idle forged_frame).0 ≡ err tampered
unfolding decrypt nonce_to_counter uint32
forged_run = refl

encrypt-after_sent_example :
    (n m : List ℕ) × IsSealed tagging n (1 ∷ []) (encrypt tagging idle (1 ∷ [])).0
    × IsSealed tagging m
        (2 ∷ [])
        (encrypt tagging (after_sent tagging ((1 ∷ []) ∷ (1 ∷ []) ∷ []) idle) (2 ∷ [])).0
    × (n ≢ m)
encrypt-after_sent_example =
    encrypt-after_sent tagging (1 ∷ []) (2 ∷ []) ((1 ∷ []) ∷ []) idle (omega arith) (omega arith)
