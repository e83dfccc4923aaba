-- ===== src/Library.antt =====
-- The third-party functions that the filters call, as one parameter of the model.
use banjax.Base.{ℕ, Bool, Option, Bytes}

pub record Library : Type 0 where
  -- `ntohl(inet_addr(s))`, and `std::stoi` as an `unsigned int`, `none` for its exceptions.
  pub inet : Bytes → ℕ
  pub stoi : Bytes → Option ℕ
  -- `std::to_string` of an unsigned number.
  pub to_string : ℕ → Bytes
  -- OpenSSL: `HMAC(EVP_sha1(), key, message)` and `SHA256`.
  pub hmac : Bytes → Bytes → Bytes
  pub sha256 : Bytes → Bytes
  -- RE2, each with the text first and the pattern second.
  pub partial_match : Bytes → Bytes → Bool
  pub full_match : Bytes → Bytes → Bool
  -- `strftime(gmtime(t), "%a, %d %b %Y %T GMT")`.
  pub http_date : ℕ → Bytes
