-- ===== src/Crypto.antt =====
-- internal/crypto/wg_crypto.go: the sealed frames of a tunnel, with a counter as nonce and a filter
-- against replays. The AEAD and the filter are packages of others, and parameters. Decrypt holds its
-- lock throughout, and the send counter is atomic, so each call is one step.
pub mod Nonce
pub mod Replay
use hao_vpn.Prelude.{
  ℕ, ◌+◌, ◌*◌, ◌/◌, ◌%◌, Bool, List, [], ◌∷◌, ◌++◌, Option, none, some, length, take, drop, ltb,
  if◌then◌else◌, Result, ok, err,
}
use hao_vpn.Transport.Frame.{put_uint32, uint32}
use hao_vpn.SessionMgr.{Cipher}

-- cipherAEAD, without additional data; `open_sealed` is Open and gives none for an error.
pub record CipherAead : Type 0 where
  pub seal : List ℕ → List ℕ → List ℕ
  pub open_sealed : List ℕ → List ℕ → Option (List ℕ)
  pub nonce_size : ℕ
  pub overhead : ℕ

-- replay.Filter: whether a counter below the limit is new, and the filter with it marked.
pub record Filter (F : Type 0) : Type 0 where
  pub validate_counter : F → ℕ → ℕ → Bool × F

-- The parts of Session that change; its AEAD does not.
pub record Session (F : Type 0) : Type 0 where
  pub send_counter : ℕ  -- uint64
  pub replay : F

pub data DecryptError : Type 0 where
  too_short tampered : DecryptError
  replayed : ℕ → DecryptError

abbrev pub replay_counter_limit : ℕ
replay_counter_limit = 18446744073709551615

-- binary.BigEndian.PutUint64 and Uint64, by the two halves.
abbrev pub put_uint64 : ℕ → List ℕ
put_uint64 n = put_uint32 (n / 4294967296) ++ put_uint32 (n % 4294967296)

abbrev pub uint64 : List ℕ → ℕ
uint64 bytes = uint32 bytes * 4294967296 + uint32 (drop 4 bytes)

unfoldable pub counter_to_nonce : ℕ → List ℕ
counter_to_nonce counter = 0 ∷ 0 ∷ 0 ∷ 0 ∷ put_uint64 counter

unfoldable pub nonce_to_counter : List ℕ → ℕ
nonce_to_counter nonce = if ltb (length nonce) 12 then 0 else uint64 (take 8 (drop 4 nonce))

-- The cipher of an account's session needs no reason for an error.
abbrev opened : Result DecryptError (List ℕ) → Option (List ℕ)
opened (ok out) = some out
opened (err e) = none

module _ {F : Type 0} (aead : CipherAead) where
  -- Encrypt: `Add(1) - 1` is the counter before the call.
  unfoldable pub encrypt : Session F → List ℕ → Option (List ℕ) × Session F
  encrypt s plaintext =
      let nonce = counter_to_nonce s.send_counter in
      (
        some (nonce ++ aead.seal nonce plaintext),
        record s { send_counter = (s.send_counter + 1) % 18446744073709551616 },
      )

  -- Decrypt: the filter marks the counter at once, and is put back if the frame does not open.
  unfoldable pub decrypt : Filter F → Session F → List ℕ → Result DecryptError (List ℕ) × Session F
  decrypt filter s ciphertext =
      let ns = aead.nonce_size in
      if ltb (length ciphertext) (ns + aead.overhead)
      then (err too_short, s)
      else let nonce = take ns ciphertext in
        let counter = nonce_to_counter nonce in
        let (is_new, marked) = filter.validate_counter s.replay counter replay_counter_limit in
        if is_new
        then elim (aead.open_sealed nonce (drop ns ciphertext)) [
          | none ↦ (err tampered, s)
          | some out ↦ (ok out, record s { replay = marked })
        ]
        else (err (replayed counter), record s { replay = marked })

  -- A session as the cipher that the session manager takes.
  pub session_cipher : Filter F → Cipher (Session F)
  unfolding encrypt decrypt
  session_cipher filter = record {
    encrypt = encrypt;
    decrypt = λ s frame. let (r, s') = decrypt filter s frame in (opened r, s');
  }
