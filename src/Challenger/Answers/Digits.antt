-- ===== src/Challenger/Answers/Digits.antt =====
-- `check_sha` for a whole number of hexadecimal digits.
use banjax.Base.{
  ℕ, zero, suc, ◌+◌, ◌*◌, ◌/◌, ◌<◌, ◌≤◌, ◌≡◌, ◌≢◌, ◌⊎◌, refl, Bool, true, false, ◌&&◌, List, [],
  ◌∷◌, Bytes, c_str, length, All, ltb, leb, ◌==◌, if◌then◌else◌, arith, tested, holds_below, inl,
  inr,
}
use banjax.Challenger.Answers.{bit_order, count_clear, count_zeros, check_sha}
use banjax.Library.{Library}

-- The first k hexadecimal digits of the bytes are there, and are 0.
abbrev pub zero_digits : ℕ → Bytes → Bool
zero_digits zero hs = true
zero_digits (suc k) [] = false
zero_digits (suc zero) (h ∷ hs) = h / 16 == 0
zero_digits (suc (suc k)) (h ∷ hs) = h == 0 && zero_digits k hs

-- What the row of tests makes of one byte.
abbrev row_fits : ℕ → Bool
row_fits h =
    let n = count_clear h bit_order 0 in
    if h / 16 == 0 then (if h == 0 then n == 8 else leb 4 n && ltb n 8) else ltb n 4

rows : tested row_fits 256 ≡ true
unfolding tested count_clear
rows = refl

count_clear_rest :
    (h : ℕ) (masks : List ℕ) (rest : ℕ)
    → count_clear h masks rest ≡ (
        if count_clear h masks 0 == length masks
        then length masks + rest
        else count_clear h masks 0)
unfolding count_clear
count_clear_rest h [] rest = ground arith
count_clear_rest h (m ∷ ms) rest = ground (arith, count_clear_rest h ms rest)

row_cases :
    (h rest : ℕ)
    → h < 256
    → ((h / 16 ≢ 0) × (count_clear h bit_order rest < 4))
      ⊎ ((h ≢ 0)
          × (h / 16 ≡ 0)
          × (4 ≤ count_clear h bit_order rest)
          × (count_clear h bit_order rest < 8))
      ⊎ ((h ≡ 0) × (count_clear h bit_order rest ≡ 8 + rest))
row_cases h rest lt =
    ground (arith, holds_below row_fits 256 rows h lt, count_clear_rest h bit_order rest)

digits_no :
    (k h : ℕ) (hs : Bytes) (n : ℕ)
    → h ≢ 0
    → n < 8
    → leb (4 * suc (suc k)) n ≡ zero_digits (suc (suc k)) (h ∷ hs)
digits_no k h hs n nz lt = ground (arith, nz, lt)

digits_step :
    (k h : ℕ) (hs : Bytes)
    → h ≡ 0
    → (m n : ℕ) → n ≡ 8 + m
    → leb (4 * k) m ≡ zero_digits k hs
    → leb (4 * suc (suc k)) n ≡ zero_digits (suc (suc k)) (h ∷ hs)
digits_step k h hs z m n e ih = ground (arith, z, e, ih)

-- The digits of a sequence of bytes are 0 as far as the count of clear bits says.
count_zeros-zero_digits :
    (k : ℕ) (hs : Bytes) → All (λ h. h < 256) hs → leb (4 * k) (count_zeros hs) ≡ zero_digits k hs
unfolding count_zeros
count_zeros-zero_digits zero hs b = ground arith
count_zeros-zero_digits (suc k) [] b = ground arith
count_zeros-zero_digits (suc zero) (h ∷ hs) b = ground (arith, row_cases h (count_zeros hs) b.0)
count_zeros-zero_digits (suc (suc k)) (h ∷ hs) b = elim (row_cases h (count_zeros hs) b.0) [
  | inl (n, lt) ↦ digits_no k h hs (count_zeros (h ∷ hs)) (omega (arith, n)) (omega (arith, lt))
  | inr (inl (n, _, _, lt)) ↦ digits_no k h hs (count_zeros (h ∷ hs)) n lt
  | inr (inr (z, e)) ↦
      digits_step k h hs z (count_zeros hs) (count_zeros (h ∷ hs)) e
        (count_zeros-zero_digits k hs b.1)
]

-- With 4 k required zeros, a cookie passes `check_sha` exactly if the first k hexadecimal digits
-- of its SHA-256, the leading ones, are 0. SHA-256 gives bytes.
pub check_sha-zero_digits :
    (x : Library)
    → ((message : Bytes) → All (λ h. h < 256) (x.sha256 message))
    → (k : ℕ) (cookie : Bytes)
    → check_sha x (4 * k) cookie ≡ zero_digits k (x.sha256 (c_str cookie))
unfolding check_sha
check_sha-zero_digits x bytes k cookie =
    count_zeros-zero_digits k (x.sha256 (c_str cookie)) (bytes (c_str cookie))
