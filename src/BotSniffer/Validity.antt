-- ===== src/BotSniffer/Validity.antt =====
-- The word of the valid parts, as the bot sniffer reads it.
use banjax.Base.{
  ℕ, ◌≡◌, ◌<◌, ◌+◌, ◌*◌, ◌/◌, ◌%◌, refl, Bool, true, false, [], ◌∷◌, ◌==◌, if◌then◌else◌, arith,
}
use banjax.CookieHash.Words.{from_le-le_bytes}
use banjax.Muncher.Parts.{
  Part, validity_stat, ip, url, host, ua, cookie, url_with_host, method, miss, status, protocol,
  content_length, flag_of, all_parts, Flags, flags, sum_flags, word_bytes,
}
use banjax.BotSniffer.{part_valid}

-- A flag as a bit.
bit : Bool → ℕ
bit true = 1
bit false = 0

bit-le : (b : Bool) → bit b < 2
unfolding bit
bit-le b = ground arith

flag-bit : (k : ℕ) (b : Bool) → (if b then k else 0) ≡ k * bit b
unfolding bit
flag-bit k true = omega arith
flag-bit k false = omega arith

-- The sum of the flags by its bits.
sum_flags-bits :
    (f : Flags)
    → sum_flags f all_parts
      ≡ bit (f ip)
        + 2 * bit (f url)
        + 4 * bit (f host)
        + 8 * bit (f ua)
        + 16 * bit (f cookie)
        + 32 * bit (f url_with_host)
        + 64 * bit (f method)
        + 128 * bit (f miss)
        + 256 * bit (f status)
        + 512 * bit (f protocol)
        + 1024 * bit (f content_length)
sum_flags-bits f = omega (
  arith,
  flag-bit 1 (f ip),
  flag-bit 2 (f url),
  flag-bit 4 (f host),
  flag-bit 8 (f ua),
  flag-bit 16 (f cookie),
  flag-bit 32 (f url_with_host),
  flag-bit 64 (f method),
  flag-bit 128 (f miss),
  flag-bit 256 (f status),
  flag-bit 512 (f protocol),
  flag-bit 1024 (f content_length),
)

-- The parts of a log line.
abbrev pub logged : Flags
logged = flags (ip ∷ url_with_host ∷ protocol ∷ status ∷ content_length ∷ ua ∷ [])

module _ (f : Flags) where
  word : ℕ
  word = sum_flags f all_parts

  word-lt : word < 2048
  unfolding word
  word-lt = omega (
    arith,
    sum_flags-bits f,
    bit-le (f ip),
    bit-le (f url),
    bit-le (f host),
    bit-le (f ua),
    bit-le (f cookie),
    bit-le (f url_with_host),
    bit-le (f method),
    bit-le (f miss),
    bit-le (f status),
    bit-le (f protocol),
    bit-le (f content_length),
  )

  word-ip : word / flag_of ip % 2 ≡ bit (f ip)
  unfolding word
  word-ip = omega (arith, sum_flags-bits f, bit-le (f ip))

  word-ua : word / flag_of ua % 2 ≡ bit (f ua)
  unfolding word
  word-ua =
      omega (arith, sum_flags-bits f, bit-le (f ip), bit-le (f url), bit-le (f host), bit-le (f ua))

  word-url_with_host : word / flag_of url_with_host % 2 ≡ bit (f url_with_host)
  unfolding word
  word-url_with_host = omega (
    arith,
    sum_flags-bits f,
    bit-le (f ip),
    bit-le (f url),
    bit-le (f host),
    bit-le (f ua),
    bit-le (f cookie),
    bit-le (f url_with_host),
  )

  word-status : word / flag_of status % 2 ≡ bit (f status)
  unfolding word
  word-status = omega (
    arith,
    sum_flags-bits f,
    bit-le (f ip),
    bit-le (f url),
    bit-le (f host),
    bit-le (f ua),
    bit-le (f cookie),
    bit-le (f url_with_host),
    bit-le (f method),
    bit-le (f miss),
    bit-le (f status),
  )

  word-protocol : word / flag_of protocol % 2 ≡ bit (f protocol)
  unfolding word
  word-protocol = omega (
    arith,
    sum_flags-bits f,
    bit-le (f ip),
    bit-le (f url),
    bit-le (f host),
    bit-le (f ua),
    bit-le (f cookie),
    bit-le (f url_with_host),
    bit-le (f method),
    bit-le (f miss),
    bit-le (f status),
    bit-le (f protocol),
  )

  word-content_length : word / flag_of content_length % 2 ≡ bit (f content_length)
  unfolding word
  word-content_length = omega (
    arith,
    sum_flags-bits f,
    bit-le (f ip),
    bit-le (f url),
    bit-le (f host),
    bit-le (f ua),
    bit-le (f cookie),
    bit-le (f url_with_host),
    bit-le (f method),
    bit-le (f miss),
    bit-le (f status),
    bit-le (f protocol),
    bit-le (f content_length),
  )

  word-bit : (p : Part) → logged p ≡ true → word / flag_of p % 2 ≡ bit (f p)
  word-bit ip e = word-ip
  word-bit ua e = word-ua
  word-bit url_with_host e = word-url_with_host
  word-bit status e = word-status
  word-bit protocol e = word-protocol
  word-bit content_length e = word-content_length
  word-bit validity_stat e = absurd (cc e)
  word-bit url e = absurd (cc e)
  word-bit host e = absurd (cc e)
  word-bit cookie e = absurd (cc e)
  word-bit method e = absurd (cc e)
  word-bit miss e = absurd (cc e)

  bit-test : (b : Bool) (n : ℕ) → n ≡ bit b → (n == 1) ≡ b
  unfolding bit
  bit-test true n e = rw e refl
  bit-test false n e = rw e refl

  -- The bytes of the word give each flag back.
  pub part_valid-word_bytes : (p : Part) → logged p ≡ true → part_valid (word_bytes f) p ≡ f p
  unfolding part_valid word
  part_valid-word_bytes p e =
      rw (from_le-le_bytes (sum_flags f all_parts) (omega (arith, word-lt)))
        (bit-test (f p) _ (word-bit p e))
