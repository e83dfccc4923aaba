-- ===== src/Util/Encrypt/Frames.antt =====
-- The writes of `send_zmq_encrypted_message` stay in the buffer, and the message is its three parts.
use mathlib.Core.List.{append_assoc}
use mathlib.Core.Option.{some-injective}
use banjax.Base.{
  ℕ, suc, ◌+◌, ◌-◌, ◌≤◌, ◌≡◌, ◌⊎◌, inl, inr, refl, ap, sym, subst, ◌∙◌, Bool, true, ◌||◌, [], ◌∷◌,
  ◌++◌, none, some, Bytes, length, take, drop, ltb, leb, ◌>>=◌, arith, length-append, length-drop,
  take-append, Bool-cases, Option-cases,
}
use banjax.Util.Encrypt.{
  Cipher, Encrypted, Sending, sent, encryption_exception, write_at, write_ciphertext, gcm_encrypt,
  send_encrypted, send_with, send_zmq_encrypted_message, c_max_enc_length,
}

the_suc : (n k : ℕ) → suc n + k ≡ suc (n + k)
the_suc n k = omega arith

drop-append_more : (k : ℕ) (xs ys : Bytes) → drop (length xs + k) (xs ++ ys) ≡ drop k ys
drop-append_more k [] ys = ap (λ n. drop n ys) (omega arith)
drop-append_more k (x ∷ xs) ys =
    ap (λ n. drop n (x ∷ (xs ++ ys))) (the_suc (length xs) k) ∙ drop-append_more k xs ys

le-leb : (m n : ℕ) → m ≤ n → leb m n ≡ true
le-leb m n h = ground (arith, h)

-- A write behind a prefix, where there is room for it.
write_at-append :
    (i : ℕ) (a v r : Bytes)
    → length a ≡ i
    → length v ≤ length r
    → write_at i v (a ++ r) ≡ some (a ++ (v ++ drop (length v) r))
unfolding write_at
write_at-append i a v r e h = rw (sym e) (
    rw (le-leb (length a + length v) (length (a ++ r)) (omega (arith, h, length-append {0} a r)))
      (rw (take-append a r, drop-append_more (length v) a r) refl))

-- The documented lengths of OpenSSL's outputs.
pub record IsCipher (x : Cipher) : Type 0 where
  pub iv_length : (iv : Bytes) → x.rand_bytes ≡ some iv → length iv ≡ 12
  pub encrypted_length :
      (key iv mess c f : Bytes)
      → x.encrypt_update key iv mess ≡ some c
      → x.encrypt_final key iv mess ≡ some f
      → length c + length f ≤ length mess + 15
  pub tag_length : (key iv mess t : Bytes) → x.get_tag key iv mess ≡ some t → length t ≡ 16

-- The message of an encryption, whose cipher text is not shorter than the text.
abbrev pub IsFrame : Cipher → Bytes → Bytes → Bool → Sending → Type 0
IsFrame x mess key more s =
    (iv : Bytes) × (e : Encrypted) × (x.rand_bytes ≡ some iv)
    × (gcm_encrypt x mess key iv ≡ some e)
    × (length mess ≤ length e.ciphertext)
    × (s ≡ sent (iv ++ (e.ciphertext ++ e.gcm_tag)) more)

module _ (mess : Bytes) (more : Bool) (iv r : Bytes) (e : Encrypted) (hi : length iv ≡ 12) where
  -- What the two writes of the cipher text leave behind it.
  behind : Bytes
  behind = e.rest ++ drop (length e.rest) (drop (length e.ciphertext) r)

  two_writes :
      length r ≡ length mess + 31
      → length e.ciphertext + length e.rest ≤ length mess + 15
      → write_ciphertext e (iv ++ r) ≡ some ((iv ++ e.ciphertext) ++ behind)
  unfolding behind write_ciphertext
  two_writes hr hc =
      let rest = drop (length e.ciphertext) r in
      let first = write_at-append 12 iv e.ciphertext r hi (omega (arith, hr, hc)) in
      let second =
        write_at-append (12 + length e.ciphertext) (iv ++ e.ciphertext) e.rest rest
          (omega (arith, hi, length-append {0} iv e.ciphertext))
          (omega (arith, hr, hc, length-drop {0} (length e.ciphertext) r)) in
      ap (λ o. o >>= λ b. write_at (12 + length e.ciphertext) e.rest b) first
      ∙ ap (write_at (12 + length e.ciphertext) e.rest) (sym (append_assoc iv e.ciphertext rest))
      ∙ second

  third_write :
      length r ≡ length mess + 31
      → length e.ciphertext + length e.rest ≤ length mess + 15
      → length e.gcm_tag ≡ 16
      → write_at (12 + length e.ciphertext) e.gcm_tag ((iv ++ e.ciphertext) ++ behind)
        ≡ some ((iv ++ e.ciphertext) ++ (e.gcm_tag ++ drop (length e.gcm_tag) behind))
  unfolding behind
  third_write hr hc ht =
      write_at-append (12 + length e.ciphertext) (iv ++ e.ciphertext) e.gcm_tag behind
        (omega (arith, hi, length-append {0} iv e.ciphertext))
        (omega (
          arith,
          hr,
          hc,
          ht,
          length-append {0} e.rest (drop (length e.rest) (drop (length e.ciphertext) r)),
          length-drop {0} (length e.rest) (drop (length e.ciphertext) r),
          length-drop {0} (length e.ciphertext) r,
        ))

  frame :
      (tail : Bytes)
      → length e.gcm_tag ≡ 16
      → take (12 + length e.ciphertext + 16) ((iv ++ e.ciphertext) ++ (e.gcm_tag ++ tail))
        ≡ iv ++ (e.ciphertext ++ e.gcm_tag)
  frame tail ht =
      let n : length ((iv ++ e.ciphertext) ++ e.gcm_tag) ≡ 12 + length e.ciphertext + 16 = omega (
        arith,
        hi,
        ht,
        length-append {0} iv e.ciphertext,
        length-append {0} (iv ++ e.ciphertext) e.gcm_tag,
      ) in
      rw (sym n) (
        ap (take (length ((iv ++ e.ciphertext) ++ e.gcm_tag)))
          (sym (append_assoc (iv ++ e.ciphertext) e.gcm_tag tail))
        ∙ take-append ((iv ++ e.ciphertext) ++ e.gcm_tag) tail
        ∙ append_assoc iv e.ciphertext e.gcm_tag)

  send_encrypted-IsFrame :
      length r ≡ length mess + 31
      → length e.ciphertext + length e.rest ≤ length mess + 15
      → length e.gcm_tag ≡ 16
      → (send_encrypted mess e more (iv ++ r) ≡ encryption_exception)
        ⊎ ((length mess ≤ length e.ciphertext)
            × (send_encrypted mess e more (iv ++ r)
                ≡ sent (iv ++ (e.ciphertext ++ e.gcm_tag)) more))
  unfolding send_encrypted
  send_encrypted-IsFrame hr hc ht =
      elim (Bool-cases
        (ltb (length e.ciphertext) (length mess) || ltb c_max_enc_length (length e.ciphertext))) [
          | inl b ↦ inl (rw (two_writes hr hc, b, send_encrypted) refl)
          | inr b ↦ inr (
            ground (arith, b),
            rw (two_writes hr hc, b, third_write hr hc ht, send_encrypted)
                (ap (λ m. sent m more) (frame (drop (length e.gcm_tag) behind) ht)),
          )
        ]

-- What a done `gcm_encrypt` is made of.
gcm_encrypt-lengths :
    (x : Cipher) (mess key iv : Bytes) (e : Encrypted)
    → IsCipher x
    → gcm_encrypt x mess key iv ≡ some e
    → (length e.ciphertext + length e.rest ≤ length mess + 15) × (length e.gcm_tag ≡ 16)
unfolding gcm_encrypt
gcm_encrypt-lengths x mess key iv e p h = elim (Bool-cases x.ctx_new) [
  | inr b ↦ absurd (cc (rw b at h))
  | inl b ↦ elim (Bool-cases (x.encrypt_init key iv)) [
    | inr d ↦ absurd (cc (rw (b, d) at h))
    | inl d ↦ elim (Option-cases (x.encrypt_update key iv mess)) [
      | inl n ↦ absurd (cc (rw (b, d, n) at h))
      | inr (c, hc) ↦ elim (Option-cases (x.encrypt_final key iv mess)) [
        | inl n ↦ absurd (cc (rw (b, d, hc, n) at h))
        | inr (f, hf) ↦ elim (Option-cases (x.get_tag key iv mess)) [
          | inl n ↦ absurd (cc (rw (b, d, hc, hf, n) at h))
          | inr (t, ht) ↦
              let q =
                some-injective (record { ciphertext = c; rest = f; gcm_tag = t }) e
                  (rw (b, d, hc, hf, ht) at h) in
              (
                subst (λ k. length k.ciphertext + length k.rest ≤ length mess + 15) q
                    (p.encrypted_length key iv mess c f hc hf),
                subst (λ k. length k.gcm_tag ≡ 16) q (p.tag_length key iv mess t ht),
              )
        ]
      ]
    ]
  ]
]

without_vector :
    (x : Cipher) (mess key : Bytes) (more : Bool) (enc_out : Bytes)
    → send_with x mess key more enc_out none ≡ encryption_exception
unfolding send_with
without_vector x mess key more enc_out = refl

-- With a vector of the right length, in a buffer of the right length.
send_with-IsFrame :
    (x : Cipher) (mess key : Bytes) (more : Bool) (enc_out iv : Bytes)
    → IsCipher x
    → length enc_out ≡ length mess + 43
    → length iv ≡ 12
    → (send_with x mess key more enc_out (some iv) ≡ encryption_exception)
      ⊎ ((e : Encrypted) × (gcm_encrypt x mess key iv ≡ some e)
          × (length mess ≤ length e.ciphertext)
          × (send_with x mess key more enc_out (some iv)
              ≡ sent (iv ++ (e.ciphertext ++ e.gcm_tag)) more))
unfolding send_with
send_with-IsFrame x mess key more enc_out iv p u l =
    let r = drop (length iv) enc_out in
    let first : write_at 0 iv enc_out ≡ some (iv ++ r) =
      write_at-append 0 [] iv enc_out refl (omega (arith, u, l)) in
    elim (Option-cases (gcm_encrypt x mess key iv)) [
      | inl n ↦ inl (rw (first, n, send_with) refl)
      | inr (e, g) ↦
          let (hc, ht) = gcm_encrypt-lengths x mess key iv e p g in
          elim (send_encrypted-IsFrame mess more iv r e l
            (omega (arith, u, l, length-drop {0} (length iv) enc_out)) hc ht) [
              | inl q ↦ inl (rw (first, g, send_with) q)
              | inr (n, q) ↦ inr (e, g, n, rw (first, g, send_with) q)
            ]
    ]

-- With output lengths as OpenSSL documents them, `send_zmq_encrypted_message` never writes outside
-- its buffer: it throws the encryption exception, or sends the vector, the cipher text and the
-- tag, where the cipher text is not shorter than the message.
pub send_zmq_encrypted_message-IsFrame :
    (x : Cipher) (uninitialized : ℕ → Bytes) (mess key : Bytes) (more : Bool)
    → IsCipher x
    → ((n : ℕ) → length (uninitialized n) ≡ n)
    → (send_zmq_encrypted_message x uninitialized mess key more ≡ encryption_exception)
      ⊎ IsFrame x mess key more (send_zmq_encrypted_message x uninitialized mess key more)
unfolding send_zmq_encrypted_message
send_zmq_encrypted_message-IsFrame x uninitialized mess key more p u =
    let enc_out = uninitialized (12 + (length mess + 16 - 1) + 16) in
    elim (Option-cases x.rand_bytes) [
      | inl n ↦
          inl (ap (send_with x mess key more enc_out) n ∙ without_vector x mess key more enc_out)
      | inr (iv, hi) ↦
          let step = ap (send_with x mess key more enc_out) hi in
          elim (send_with-IsFrame x mess key more enc_out iv p
            (omega (arith, u (12 + (length mess + 16 - 1) + 16))) (p.iv_length iv hi)) [
              | inl q ↦ inl (step ∙ q)
              | inr (e, g, n, q) ↦ inr (iv, e, hi, g, n, step ∙ q)
            ]
    ]
