-- ===== src/CookieHash.antt =====
-- src/cookiehash.cpp: `GenerateCookieHash`, `GenerateCookie` and `ValidateCookie`.
-- OpenSSL's HMAC-SHA1 is the parameter `hmac`. A `time_t` is its bit pattern below 2 ^ 64, stored
-- with the lowest byte first. `none` is an access outside a buffer, whose effect C++ does not define.
pub mod Words
pub mod Accept
pub mod Sound
use banjax.Base.{
  ℕ, zero, suc, ◌+◌, ◌-◌, ◌*◌, ◌/◌, ◌%◌, ◌^◌, Bool, List, [], ◌∷◌, ◌++◌, Option, none, some, Bytes,
  c_str, length, take, drop, beq, ltb, leb, ◌==◌, not, if◌then◌else◌, ◌>>=◌,
}
use banjax.Base.Int.{ℤ, ltb_ℤ}
use banjax.Base64.{encode, decode}
use Words.{le_bytes, from_le, signed64}

abbrev pub hash_length : ℕ
hash_length = 20

abbrev pub cookie_length : ℕ
cookie_length = hash_length + 8

abbrev pub cookie_b64_length : ℕ
cookie_b64_length = (cookie_length + 2) / 3 * 4

abbrev pub secret_length : ℕ
secret_length = 32

-- `uchar ibuf[200]`
abbrev pub ibuf_length : ℕ
ibuf_length = 200

-- 1, -4, -3, -1 and -2 in the source.
pub data Verdict : Type 0 where
  valid bad_base64 length_mismatch hash_mismatch expired : Verdict

module _ (hmac : Bytes → Bytes → Bytes) where
  -- The message that is signed, as the three `memcpy` leave it in `ibuf`.
  abbrev pub signed_message : Bytes → ℕ → Bytes → Bytes
  signed_message captcha valid_till remoteaddress =
      le_bytes 8 valid_till ++ (c_str remoteaddress ++ c_str captcha)

  unfoldable pub generate_cookie_hash : Bytes → Bytes → ℕ → Bytes → Option Bytes
  generate_cookie_hash captcha secret valid_till remoteaddress =
      let message = signed_message captcha valid_till remoteaddress in
      if ltb ibuf_length (length message)
      then none
      else some (hmac (take secret_length secret) message)

  unfoldable pub generate_cookie : Bytes → Bytes → ℕ → Bytes → Option Bytes
  generate_cookie captcha secret valid_till remoteaddress = do
    hash ← generate_cookie_hash captcha secret valid_till remoteaddress
    encode (take hash_length hash ++ le_bytes 8 valid_till)

  -- The checks on the 28 bytes of a decoded cookie.
  unfoldable pub validate_data : Bytes → Bytes → ℕ → Bytes → Bytes → Option Verdict
  validate_data captcha secret now remoteaddress cookie = do
    let valid_until = from_le (drop hash_length cookie)
    hash ← generate_cookie_hash captcha secret valid_until remoteaddress
    some (
        if not (beq (take hash_length cookie) (take hash_length hash))
        then hash_mismatch
        else if ltb_ℤ (signed64 valid_until) (signed64 now)
        then expired
        else valid)

  -- `memcpy(cookie, cookiedata.c_str(), COOKIE_LENGTH)`: the string and its NUL may be read.
  unfoldable pub copy_cookie : Bytes → Option Bytes
  copy_cookie cookiedata =
      if ltb (length cookiedata + 1) cookie_length
      then none
      else some (take cookie_length (cookiedata ++ 0 ∷ []))

  unfoldable pub validate_cookie : Bytes → Bytes → ℕ → Bytes → Bytes → Option Verdict
  validate_cookie captcha secret now remoteaddress cookiestring =
      let text = c_str cookiestring in
      if not (length text == cookie_b64_length) then some length_mismatch else elim (decode text) [
        | none ↦ some bad_base64
        | some cookiedata ↦ do
          cookie ← copy_cookie cookiedata
          validate_data captcha secret now remoteaddress cookie
      ]
