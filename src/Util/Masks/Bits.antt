-- ===== src/Util/Masks/Bits.antt =====
-- The digits of `&` with a mask whose ones are the high bits.
use Prim.Native.Nat.{bit_and, bit_and-bitwise, digits, min}
use native.Mathlib.Nat.{pow-suc, pow-succ', one-le-pow, div-div-eq-div-mul}
use banjax.Base.{
  ℕ, zero, suc, ◌+◌, ◌-◌, ◌*◌, ◌/◌, ◌%◌, ◌^◌, ◌≤◌, ◌<◌, ◌≡◌, refl, sym, ap, ◌∙◌, arith,
}

-- `&` by its digits, with `fuel` of them to go.
abbrev conjunction : ℕ → ℕ → ℕ → ℕ
conjunction fuel x m = digits (λ _. zero) min fuel x m

conjunction_enough : (f g x m : ℕ) → x ≤ f → x ≤ g → conjunction f x m ≡ conjunction g x m
conjunction_enough zero zero x m p q = refl
conjunction_enough zero (suc g) zero m p q = refl
conjunction_enough (suc f) zero zero m p q = refl
conjunction_enough (suc f) (suc g) zero m p q = refl
conjunction_enough zero _ (suc x) m p q = absurd (omega arith)
conjunction_enough (suc f) zero (suc x) m p q = absurd (omega arith)
conjunction_enough (suc f) (suc g) (suc x) m p q =
    ap (λ (t : ℕ). t * 2 + min (suc x % 2) (m % 2))
      (conjunction_enough f g (suc x / 2) (m / 2) (omega arith) (omega arith))

and_digit : (x m : ℕ) → bit_and x m ≡ bit_and (x / 2) (m / 2) * 2 + min (x % 2) (m % 2)
and_digit zero m = omega (arith, bit_and-bitwise 0 m, bit_and-bitwise 0 (m / 2))
and_digit (suc x) m =
    bit_and-bitwise (suc x) m
    ∙ ap (λ (t : ℕ). t * 2 + min (suc x % 2) (m % 2))
        (conjunction_enough x (suc x / 2) (suc x / 2) (m / 2) (omega arith) (omega arith)
          ∙ sym (bit_and-bitwise (suc x / 2) (m / 2)))

-- k ones keep a number of k digits.
and_ones : (k x : ℕ) → x < 2 ^ k → bit_and x (2 ^ k - 1) ≡ x
and_ones zero zero h = refl
and_ones zero (suc x) h = absurd (omega arith)
and_ones (suc k) x h = ground (
  arith,
  pow-suc 2 k,
  one-le-pow k 2 (omega arith),
  and_digit x (2 ^ suc k - 1),
  and_ones k (x / 2) (omega (arith, pow-suc 2 k)),
)

twice_shifted : (m j : ℕ) → m * 2 ^ suc j ≡ 2 * (m * 2 ^ j)
twice_shifted m j = omega (arith, ap (λ (t : ℕ). m * t) (pow-suc 2 j))

-- Zeros at the low end of the mask clear the low digits.
and_shifted : (j x m : ℕ) → bit_and x (m * 2 ^ j) ≡ bit_and (x / 2 ^ j) m * 2 ^ j
and_shifted zero x m = ground arith
and_shifted (suc j) x m = ground (
  arith,
  twice_shifted m j,
  twice_shifted (bit_and (x / 2 ^ suc j) m) j,
  and_digit x (m * 2 ^ suc j),
  and_shifted j (x / 2) m,
  div-div-eq-div-mul x 2 (2 ^ j),
  pow-succ' 2 j,
)

-- A mask of k ones above j zeros, on a number of k + j digits, is a division by 2 ^ j.
pub and_high : (k j x : ℕ) → x / 2 ^ j < 2 ^ k → bit_and x ((2 ^ k - 1) * 2 ^ j) ≡ x / 2 ^ j * 2 ^ j
and_high k j x h =
    and_shifted j x (2 ^ k - 1) ∙ ap (λ (t : ℕ). t * 2 ^ j) (and_ones k (x / 2 ^ j) h)
