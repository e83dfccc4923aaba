-- ===== src/CookieHash/Words.antt =====
-- 64-bit words in memory, lowest byte first, and the integers that they stand for.
use banjax.Base.{
  ℕ, zero, suc, ◌+◌, ◌-◌, ◌*◌, ◌/◌, ◌%◌, ◌^◌, ◌<◌, ◌≡◌, refl, ap, [], ◌∷◌, Bytes, length, All, ltb,
  if◌then◌else◌, arith,
}
use banjax.Base.Int.{ℤ, pos, negsuc}

abbrev pub le_bytes : ℕ → ℕ → Bytes
le_bytes zero n = []
le_bytes (suc k) n = n % 256 ∷ le_bytes k (n / 256)

abbrev pub from_le : Bytes → ℕ
from_le [] = 0
from_le (c ∷ cs) = c + from_le cs * 256

abbrev pub signed64 : ℕ → ℤ
signed64 w = if ltb w (2 ^ 63) then pos w else negsuc (2 ^ 64 - w - 1)

pub length-le_bytes : (k n : ℕ) → length (le_bytes k n) ≡ k
length-le_bytes zero n = refl
length-le_bytes (suc k) n = ap suc (length-le_bytes k (n / 256))

pub le_bytes-IsByte : (k n : ℕ) → All (λ c. c < 256) (le_bytes k n)
le_bytes-IsByte zero n = tt
le_bytes-IsByte (suc k) n = (omega arith, le_bytes-IsByte k (n / 256))

pub from_le-le_bytes : (n : ℕ) → n < 2 ^ 64 → from_le (le_bytes 8 n) ≡ n
from_le-le_bytes n h = omega arith
