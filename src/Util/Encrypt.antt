-- ===== src/Util/Encrypt.antt =====
-- `gcm_encrypt` and `send_zmq_encrypted_message`.
pub mod Frames
use banjax.Base.{
  ℕ, ◌+◌, ◌-◌, Bool, true, false, not, ◌||◌, List, [], ◌∷◌, ◌++◌, Option, none, some, Bytes, length,
  take, drop, ltb, leb, if◌then◌else◌, ◌>>=◌,
}

-- OpenSSL, by the key, the initialization vector and the plain text. `none` is a failure.
pub record Cipher : Type 0 where
  pub rand_bytes : Option Bytes
  pub ctx_new : Bool
  pub encrypt_init : Bytes → Bytes → Bool
  pub encrypt_update : Bytes → Bytes → Bytes → Option Bytes
  pub encrypt_final : Bytes → Bytes → Bytes → Option Bytes
  pub get_tag : Bytes → Bytes → Bytes → Option Bytes

abbrev pub c_gcm_iv_size : ℕ
c_gcm_iv_size = 12

abbrev pub c_gcm_tag_size : ℕ
c_gcm_tag_size = 16

abbrev pub c_cipher_block_size : ℕ
c_cipher_block_size = 16

abbrev pub c_max_enc_length : ℕ
c_max_enc_length = 0x7fffffff

-- What `gcm_encrypt` leaves: the output of the update, whose length it returns, the output of the
-- end behind it, and the tag.
pub record Encrypted : Type 0 where
  pub ciphertext : Bytes
  pub rest : Bytes
  pub gcm_tag : Bytes

-- `sent` is the message with its flag for more, `overrun` an access outside the buffer.
pub data Sending : Type 0 where
  sent : Bytes → Bool → Sending
  encryption_exception overrun : Sending

-- A write into a buffer at an offset.
unfoldable pub write_at : ℕ → Bytes → Bytes → Option Bytes
write_at i v buffer =
    if leb (i + length v) (length buffer)
    then some (take i buffer ++ (v ++ drop (i + length v) buffer))
    else none

-- The two outputs of the cipher, behind the vector.
unfoldable pub write_ciphertext : Encrypted → Bytes → Option Bytes
unfolding write_at
write_ciphertext e enc_out = do
  b ← write_at c_gcm_iv_size e.ciphertext enc_out
  write_at (c_gcm_iv_size + length e.ciphertext) e.rest b

-- The writes into `enc_out` after the vector, and the message that is read out of it.
unfoldable pub send_encrypted : Bytes → Encrypted → Bool → Bytes → Sending
unfolding write_at write_ciphertext
send_encrypted mess e more enc_out =
    let enc_length = length e.ciphertext in
    elim (write_ciphertext e enc_out) [
      | none ↦ overrun
      | some b ↦
          if ltb enc_length (length mess) || ltb c_max_enc_length enc_length
          then encryption_exception
          else elim (write_at (c_gcm_iv_size + enc_length) e.gcm_tag b) [
            | none ↦ overrun
            | some m ↦ sent (take (c_gcm_iv_size + enc_length + c_gcm_tag_size) m) more
          ]
    ]

module _ (x : Cipher) where
  unfoldable pub gcm_encrypt : Bytes → Bytes → Bytes → Option Encrypted
  gcm_encrypt plaintext key iv =
      if not x.ctx_new then none else if not (x.encrypt_init key iv) then none else do
        c ← x.encrypt_update key iv plaintext
        f ← x.encrypt_final key iv plaintext
        t ← x.get_tag key iv plaintext
        some (record { ciphertext = c; rest = f; gcm_tag = t })

  -- With the outcome of `RAND_bytes`.
  unfoldable pub send_with : Bytes → Bytes → Bool → Bytes → Option Bytes → Sending
  unfolding gcm_encrypt send_encrypted write_at write_ciphertext
  send_with mess encryption_key more enc_out none = encryption_exception
  send_with mess encryption_key more enc_out (some iv) = elim (write_at 0 iv enc_out) [
    | none ↦ overrun
    | some b ↦ elim (gcm_encrypt mess encryption_key iv) [
      | none ↦ encryption_exception
      | some e ↦ send_encrypted mess e more b
    ]
  ]

  -- `uninitialized` is what the buffer of that length holds at first.
  unfoldable pub send_zmq_encrypted_message : (ℕ → Bytes) → Bytes → Bytes → Bool → Sending
  unfolding send_with
  send_zmq_encrypted_message uninitialized mess encryption_key more =
      let enc_out =
        uninitialized (c_gcm_iv_size + (length mess + c_cipher_block_size - 1) + c_gcm_tag_size) in
      send_with mess encryption_key more enc_out x.rand_bytes
