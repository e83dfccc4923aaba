-- ===== src/CookieHash/Accept.antt =====
-- What a cookie that `GenerateCookie` made is worth, and what an accepted cookie shows.
use banjax.Base.{
  ℕ, ◌+◌, ◌^◌, ◌<◌, ◌≡◌, refl, ap, sym, ◌∙◌, List, [], ◌∷◌, ◌++◌, some, Bytes, All, c_str, length,
  take, drop, beq_refl, ltb, if◌then◌else◌, arith, length-append, take-append, drop-append,
  append-nil, le→ltb, Option-cases, Bool-cases, inl, inr,
}
use banjax.Base.Int.{ltb_ℤ}
use banjax.Base64.{encode}
use banjax.Base64.Groups.{IsByte, groups, encode-groups, length-groups}
use banjax.Base64.RoundTrip.{decode-encode, NonNul, groups-NonNul}
use banjax.CookieHash.Words.{le_bytes, signed64, length-le_bytes, le_bytes-IsByte, from_le-le_bytes}
use banjax.CookieHash.{
  hash_length, cookie_length, cookie_b64_length, secret_length, ibuf_length, valid, expired,
  signed_message, generate_cookie_hash, generate_cookie, validate_data, copy_cookie,
  validate_cookie,
}

c_str-NonNul : (s : Bytes) → All NonNul s → c_str s ≡ s
unfolding c_str
c_str-NonNul [] h = refl
c_str-NonNul (c ∷ cs) h = ground (arith, c_str-NonNul cs h.1)

All-append {ℓ κ} :
    {A : Type ℓ} (P : A → Type κ) (xs ys : List A) → All P xs → All P ys → All P (xs ++ ys)
All-append P [] ys h k = k
All-append P (x ∷ xs) ys h k = (h.0, All-append P xs ys h.1 k)

module _ {ℓ} {A : Type ℓ} where
  take_of_length : (n : ℕ) (xs ys : List A) → length xs ≡ n → take n (xs ++ ys) ≡ xs
  take_of_length n xs ys h = ap (λ k. take k (xs ++ ys)) (sym h) ∙ take-append xs ys

  drop_of_length : (n : ℕ) (xs ys : List A) → length xs ≡ n → drop n (xs ++ ys) ≡ ys
  drop_of_length n xs ys h = ap (λ k. drop k (xs ++ ys)) (sym h) ∙ drop-append xs ys

copy_cookie-full :
    (hmac : Bytes → Bytes → Bytes) (d : Bytes)
    → length d ≡ cookie_length
    → copy_cookie hmac d ≡ some d
unfolding copy_cookie
copy_cookie-full hmac d h =
    rw (le→ltb (length d + 1) cookie_length (omega arith))
      (ap some (take_of_length cookie_length d (0 ∷ []) h))

take_self {ℓ} : {A : Type ℓ} (n : ℕ) (xs : List A) → length xs ≡ n → take n xs ≡ xs
take_self n xs h = ap (take n) (sym (append-nil xs)) ∙ take_of_length n xs [] h

module _ (hmac : Bytes → Bytes → Bytes) where
  -- 28 bytes in base64 come to the last check whole.
  validate_cookie-groups :
      (captcha secret : Bytes) (now : ℕ) (addr d : Bytes)
      → length d ≡ cookie_length
      → All IsByte d
      → validate_cookie hmac captcha secret now addr (groups d)
        ≡ validate_data hmac captcha secret now addr d
  unfolding validate_cookie
  validate_cookie-groups captcha secret now addr d l b =
      let decoded = decode-encode d (groups d) b (encode-groups d b (omega arith)) in
      let size : length (groups d) ≡ cookie_b64_length = omega (arith, length-groups d) in
      rw (c_str-NonNul (groups d) (groups-NonNul d b))
        (rw size (rw decoded (rw (copy_cookie-full hmac d l))))

  generate_cookie_hash-eq-some :
      (captcha secret : Bytes) (t : ℕ) (addr h : Bytes)
      → generate_cookie_hash hmac captcha secret t addr ≡ some h
      → h ≡ hmac (take secret_length secret) (signed_message hmac captcha t addr)
  unfolding generate_cookie_hash
  generate_cookie_hash-eq-some captcha secret t addr h e =
      elim (Bool-cases (ltb ibuf_length (length (signed_message hmac captcha t addr)))) [
        | inl b ↦ cc (rw (b, generate_cookie_hash) at e)
        | inr b ↦ cc (rw (b, generate_cookie_hash) at e)
      ]

-- The facts about HMAC-SHA1 that the program relies on: 20 bytes come out.
module _ (hmac : Bytes → Bytes → Bytes)
    (length-hmac : (key message : Bytes) → length (hmac key message) ≡ hash_length)
    (hmac-IsByte : (key message : Bytes) → All IsByte (hmac key message)) where
  hash_facts :
      (captcha secret : Bytes) (t : ℕ) (addr h : Bytes)
      → generate_cookie_hash hmac captcha secret t addr ≡ some h
      → (length h ≡ hash_length) × All IsByte h
  hash_facts captcha secret t addr h e =
      rw (generate_cookie_hash-eq-some hmac captcha secret t addr h e)
        (length-hmac _ _, hmac-IsByte _ _)

  validate_data-own :
      (captcha secret : Bytes) (t now : ℕ) (addr h : Bytes)
      → t < 2 ^ 64
      → generate_cookie_hash hmac captcha secret t addr ≡ some h
      → length h ≡ hash_length
      → validate_data hmac captcha secret now addr (h ++ le_bytes 8 t)
        ≡ some (if ltb_ℤ (signed64 t) (signed64 now) then expired else valid)
  unfolding validate_data
  validate_data-own captcha secret t now addr h lt e l =
      rw (drop_of_length hash_length h (le_bytes 8 t) l, from_le-le_bytes t lt)
        (rw e (
          rw
            (take_of_length hash_length h (le_bytes 8 t) l, take_self hash_length h l, beq_refl h)))

  -- A cookie that `GenerateCookie` made is valid for the same answer, secret and address up to its
  -- time, and is expired afterwards. HMAC gives 20 bytes.
  pub validate_cookie-generate_cookie :
      (captcha secret : Bytes) (t now : ℕ) (addr ck : Bytes)
      → t < 2 ^ 64
      → generate_cookie hmac captcha secret t addr ≡ some ck
      → validate_cookie hmac captcha secret now addr ck
        ≡ some (if ltb_ℤ (signed64 t) (signed64 now) then expired else valid)
  unfolding generate_cookie
  validate_cookie-generate_cookie captcha secret t now addr ck lt g =
      elim (Option-cases (generate_cookie_hash hmac captcha secret t addr)) [
        | inl e ↦ cc (rw e at g)
        | inr (h, e) ↦
            let (l, b) = hash_facts captcha secret t addr h e in
            let d = h ++ le_bytes 8 t in
            let size : length d ≡ cookie_length =
              omega (arith, length-append {0} h (le_bytes 8 t), length-le_bytes 8 t) in
            let bytes = All-append IsByte h (le_bytes 8 t) b (le_bytes-IsByte 8 t) in
            let made : encode d ≡ some ck = rw (take_self hash_length h l) at (rw e at g) in
            let q : ck ≡ groups d = cc (encode-groups d bytes (omega arith)) in
            rw q (
              validate_cookie-groups hmac captcha secret now addr d size bytes
              ∙ validate_data-own captcha secret t now addr h lt e l)
      ]

  -- What `GenerateCookie` makes has the length that `ValidateCookie` asks for.
  pub length-generate_cookie :
      (captcha secret : Bytes) (t : ℕ) (addr ck : Bytes)
      → generate_cookie hmac captcha secret t addr ≡ some ck
      → length ck ≡ cookie_b64_length
  unfolding generate_cookie
  length-generate_cookie captcha secret t addr ck g =
      elim (Option-cases (generate_cookie_hash hmac captcha secret t addr)) [
        | inl e ↦ cc (rw e at g)
        | inr (h, e) ↦
            let (l, b) = hash_facts captcha secret t addr h e in
            let d = h ++ le_bytes 8 t in
            let size : length d ≡ cookie_length =
              omega (arith, length-append {0} h (le_bytes 8 t), length-le_bytes 8 t) in
            let bytes = All-append IsByte h (le_bytes 8 t) b (le_bytes-IsByte 8 t) in
            let made : encode d ≡ some ck = rw (take_self hash_length h l) at (rw e at g) in
            let q : ck ≡ groups d = cc (encode-groups d bytes (omega arith)) in
            rw q (omega (arith, length-groups d, size))
      ]
