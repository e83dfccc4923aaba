-- ===== src/CookieHash/Sound.antt =====
-- What an accepted cookie shows, and the answers that `ValidateCookie` cannot hold.
use banjax.Base.{
  ℕ, ◌+◌, ◌≤◌, ◌<◌, ◌≡◌, refl, Bool, true, false, not, [], ◌∷◌, ◌++◌, Option, none, some, Bytes,
  c_str, length, take, drop, beq, beq_iff, ltb, if◌then◌else◌, ◌>>=◌, arith, length-append,
  Option-cases, Bool-cases, ◌⊎◌, ◌↔◌, inl, inr, lt→ltb, le→ltb, ltb_false→le,
}
use banjax.Base.Int.{ltb_ℤ}
use banjax.Base64.{decode}
use banjax.CookieHash.Words.{from_le, signed64}
use banjax.CookieHash.{
  hash_length, cookie_length, secret_length, ibuf_length, Verdict, valid, expired, hash_mismatch,
  signed_message, generate_cookie_hash, validate_data, copy_cookie, validate_cookie,
}

module _ (hmac : Bytes → Bytes → Bytes) where
  -- The 28 bytes of a cookie carry the MAC of their own time, the address and the answer, and the
  -- time has not passed.
  pub record IsSigned (captcha secret : Bytes) (now : ℕ) (addr cookie : Bytes) : Type 0 where
    pub mac :
        take 20 cookie
        ≡ take 20
            (hmac (take 32 secret) (signed_message hmac captcha (from_le (drop 20 cookie)) addr))
    pub in_time : ltb_ℤ (signed64 (from_le (drop 20 cookie))) (signed64 now) ≡ false
    pub fits : length (signed_message hmac captcha (from_le (drop 20 cookie)) addr) ≤ 200

  bind-if :
      (b : Bool) (x : Bytes) (f : Bytes → Option Verdict)
      → (if b then none else some x) >>= f ≡ (if b then none else f x)
  bind-if true x f = refl
  bind-if false x f = refl

  -- The three tests of the source, as one lemma over their outcomes.
  verdict-valid :
      (big same late : Bool) (r : Option Verdict)
      → r ≡ (
          if big
          then none
          else some (if not same then hash_mismatch else if late then expired else valid))
      → r ≡ some valid
      → (big ≡ false) × (same ≡ true) × (late ≡ false)
  verdict-valid big same late r e h = ground arith

  validate_data-IsSigned :
      (captcha secret : Bytes) (now : ℕ) (addr cookie : Bytes)
      → validate_data hmac captcha secret now addr cookie ≡ some valid
      → IsSigned captcha secret now addr cookie
  unfolding validate_data generate_cookie_hash
  validate_data-IsSigned captcha secret now addr cookie h =
      let time = from_le (drop hash_length cookie) in
      let message = signed_message hmac captcha time addr in
      let hash = take hash_length (hmac (take secret_length secret) message) in
      let big = ltb ibuf_length (length message) in
      let same = beq (take hash_length cookie) hash in
      let late = ltb_ℤ (signed64 time) (signed64 now) in
      let (small, equal, early) =
        verdict-valid big same late (validate_data hmac captcha secret now addr cookie)
          (bind-if big _ _) h in
      record {
        mac = (beq_iff (take hash_length cookie) hash).0 equal;
        in_time = early;
        fits = ltb_false→le _ _ small;
      }

  -- 40 characters that decode to bytes whose first 28, with the NUL behind them, are signed.
  abbrev pub IsAccepted : Bytes → Bytes → ℕ → Bytes → Bytes → Type 0
  IsAccepted captcha secret now addr text =
      (d : Bytes) × (length text ≡ 40)
      × (decode text ≡ some d)
      × (27 ≤ length d)
      × IsSigned captcha secret now addr (take 28 (d ++ 0 ∷ []))

  valid-IsAccepted :
      (captcha secret : Bytes) (now : ℕ) (addr ck : Bytes)
      → validate_cookie hmac captcha secret now addr ck ≡ some valid
      → IsAccepted captcha secret now addr (c_str ck)
  unfolding validate_cookie copy_cookie
  valid-IsAccepted captcha secret now addr ck h = elim (Option-cases (decode (c_str ck))) [
    | inl e ↦ ground (arith, e)
    | inr (d, e) ↦ (
      d,
      ground arith,
      e,
      ground arith,
      validate_data-IsSigned captcha secret now addr (take cookie_length (d ++ 0 ∷ []))
          (ground arith),
    )
  ]

  IsSigned-validate_data :
      (captcha secret : Bytes) (now : ℕ) (addr cookie : Bytes)
      → IsSigned captcha secret now addr cookie
      → validate_data hmac captcha secret now addr cookie ≡ some valid
  unfolding validate_data generate_cookie_hash
  IsSigned-validate_data captcha secret now addr cookie s =
      let message = signed_message hmac captcha (from_le (drop hash_length cookie)) addr in
      let hash = take hash_length (hmac (take secret_length secret) message) in
      rw
        (
          le→ltb ibuf_length (length message) s.fits,
          (beq_iff (take hash_length cookie) hash).1 s.mac,
          s.in_time,
        )
        refl

  IsAccepted-valid :
      (captcha secret : Bytes) (now : ℕ) (addr ck : Bytes)
      → IsAccepted captcha secret now addr (c_str ck)
      → validate_cookie hmac captcha secret now addr ck ≡ some valid
  unfolding validate_cookie copy_cookie
  IsAccepted-valid captcha secret now addr ck (d, size, decoded, enough, signed) =
      let cookie = take cookie_length (d ++ 0 ∷ []) in
      let verdict = IsSigned-validate_data captcha secret now addr cookie signed in
      rw (size, decoded, le→ltb (length d + 1) cookie_length (omega (arith, enough))) verdict

  -- `ValidateCookie` accepts a cookie exactly if its text has 40 characters that decode to at
  -- least 27 bytes, and the first 28 of these, counting the NUL behind them, end with a time that
  -- has not passed and begin with the first 20 bytes of the MAC, under the first 32 bytes of the
  -- secret, of that time, the address and the answer, which fit together into 200 bytes.
  pub validate_cookie-IsAccepted :
      (captcha secret : Bytes) (now : ℕ) (addr ck : Bytes)
      → (validate_cookie hmac captcha secret now addr ck ≡ some valid)
        ↔ IsAccepted captcha secret now addr (c_str ck)
  validate_cookie-IsAccepted captcha secret now addr ck =
      (valid-IsAccepted captcha secret now addr ck, IsAccepted-valid captcha secret now addr ck)

  length-signed_message :
      (captcha : Bytes) (t : ℕ) (addr : Bytes)
      → length (signed_message hmac captcha t addr)
        ≡ 8 + length (c_str addr) + length (c_str captcha)
  length-signed_message captcha t addr =
      omega (arith, length-append {0} (c_str addr) (c_str captcha))

  validate_data_overrun :
      (captcha secret : Bytes) (now : ℕ) (addr cookie : Bytes)
      → 192 < length (c_str addr) + length (c_str captcha)
      → validate_data hmac captcha secret now addr cookie ≡ none
  unfolding validate_data generate_cookie_hash
  validate_data_overrun captcha secret now addr cookie long =
      let time = from_le (drop hash_length cookie) in
      rw (
        lt→ltb ibuf_length (length (signed_message hmac captcha time addr))
          (omega (arith, length-signed_message captcha time addr)))

  validate_data_fits :
      (captcha secret : Bytes) (now : ℕ) (addr cookie : Bytes)
      → length (c_str addr) + length (c_str captcha) ≤ 192
      → (v : Verdict) × (validate_data hmac captcha secret now addr cookie ≡ some v)
  unfolding validate_data generate_cookie_hash
  validate_data_fits captcha secret now addr cookie short =
      let time = from_le (drop hash_length cookie) in
      let hash = hmac (take secret_length secret) (signed_message hmac captcha time addr) in
      (
        (if not (beq (take hash_length cookie) (take hash_length hash))
            then hash_mismatch
            else if ltb_ℤ (signed64 time) (signed64 now)
            then expired
            else valid),
        rw
            (le→ltb ibuf_length (length (signed_message hmac captcha time addr))
              (omega (arith, length-signed_message captcha time addr)))
            refl,
      )

  -- The text has 40 characters and decodes to too few bytes for the copy of 28, or the address and
  -- the answer do not fit behind the 8 bytes of the time.
  abbrev pub Overruns : Bytes → Bytes → Bytes → Type 0
  Overruns captcha addr text =
      (d : Bytes) × (length text ≡ 40)
      × (decode text ≡ some d)
      × ((length d < 27) ⊎ (192 < length (c_str addr) + length (c_str captcha)))

  Overruns-none :
      (captcha secret : Bytes) (now : ℕ) (addr ck : Bytes)
      → Overruns captcha addr (c_str ck)
      → validate_cookie hmac captcha secret now addr ck ≡ none
  unfolding validate_cookie copy_cookie
  Overruns-none captcha secret now addr ck (d, size, decoded, inl few) =
      rw (size, decoded, lt→ltb (length d + 1) cookie_length (omega arith)) refl
  Overruns-none captcha secret now addr ck (d, size, decoded, inr long) =
      let cookie = take cookie_length (d ++ 0 ∷ []) in
      ground (arith, size, decoded, validate_data_overrun captcha secret now addr cookie long)

  none-Overruns :
      (captcha secret : Bytes) (now : ℕ) (addr ck : Bytes)
      → validate_cookie hmac captcha secret now addr ck ≡ none
      → Overruns captcha addr (c_str ck)
  unfolding validate_cookie copy_cookie
  none-Overruns captcha secret now addr ck h = elim (Option-cases (decode (c_str ck))) [
    | inl e ↦ ground (arith, e)
    | inr (d, e) ↦
        let cookie = take cookie_length (d ++ 0 ∷ []) in
        let long = length (c_str addr) + length (c_str captcha) in
        elim (Bool-cases (ltb 192 long)) [
          | inl b ↦ (d, ground (arith, e), e, inr (ground (arith, b)))
          | inr b ↦
              let (v, q) =
                validate_data_fits captcha secret now addr cookie (ltb_false→le 192 long b) in
              (d, ground (arith, e), e, inl (ground (arith, e, q)))
        ]
  ]

  -- `ValidateCookie` reads or writes outside a buffer exactly if the text of the cookie has 40
  -- characters that can be decoded and either they decode to fewer than 27 bytes, or the address
  -- and the answer together are longer than 192 bytes; neither the MAC nor the secret nor the time
  -- matters.
  pub validate_cookie_overrun :
      (captcha secret : Bytes) (now : ℕ) (addr ck : Bytes)
      → (validate_cookie hmac captcha secret now addr ck ≡ none) ↔ Overruns captcha addr (c_str ck)
  validate_cookie_overrun captcha secret now addr ck =
      (none-Overruns captcha secret now addr ck, Overruns-none captcha secret now addr ck)
