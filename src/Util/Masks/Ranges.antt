-- ===== src/Util/Masks/Ranges.antt =====
-- A range `a.b.c.d/k` matches the addresses that share its first k bits.
use Prim.Native.Nat.{bit_and}
use native.Mathlib.Nat.{div-lt_iff_lt-mul, one-le-pow, mul-div_cancel}
use banjax.Base.{
  ℕ, ◌-◌, ◌*◌, ◌/◌, ◌^◌, ◌≤◌, ◌<◌, ◌≡◌, ◌≢◌, refl, Bool, true, ◌∷◌, ◌++◌, Option, some, Bytes,
  c_str, ◌==◌, arith, All, tested, holds_below, ==_iff, find-byte, take-append, drop-append-cons,
  Bool-cases, inl, inr, subst,
}
use banjax.Util.Masks.Bits.{and_high}
use banjax.Util.Masks.{SubnetRange, range, mask_of, make_mask_for_range, is_match}

abbrev is_high_mask : ℕ → Bool
is_high_mask j = mask_of (32 - j) == (2 ^ (32 - j) - 1) * 2 ^ j

high_masks : tested is_high_mask 32 ≡ true
unfolding tested mask_of
high_masks = refl

mask_of_lem : (j : ℕ) → j < 32 → mask_of (32 - j) ≡ (2 ^ (32 - j) - 1) * 2 ^ j
mask_of_lem j h = (==_iff _ _).0 (holds_below is_high_mask 32 high_masks j h)

abbrev splits_word : ℕ → Bool
splits_word j = 2 ^ (32 - j) * 2 ^ j == 2 ^ 32

powers : tested splits_word 32 ≡ true
unfolding tested
powers = refl

high_bits : (j x : ℕ) → j < 32 → x < 2 ^ 32 → x / 2 ^ j < 2 ^ (32 - j)
high_bits j x h k =
    let whole : 2 ^ (32 - j) * 2 ^ j ≡ 2 ^ 32 =
      (==_iff _ _).0 (holds_below splits_word 32 powers j h) in
    (div-lt_iff_lt-mul (one-le-pow j 2 (omega arith))).1 (omega (arith, whole))

and-mask_of : (j x : ℕ) → j < 32 → x < 2 ^ 32 → bit_and x (mask_of (32 - j)) ≡ x / 2 ^ j * 2 ^ j
and-mask_of j x h k = rw (mask_of_lem j h) (and_high (32 - j) j x (high_bits j x h k))

scaled-eq : (a b p : ℕ) → 0 < p → (a * p == b * p) ≡ (a == b)
scaled-eq a b p h = elim (Bool-cases (a == b)) [
  | inl e ↦ rw ((==_iff a b).0 e) (ground arith)
  | inr n ↦ rw n (ground (arith, mul-div_cancel a h, mul-div_cancel b h))
]

module _ (inet : Bytes → ℕ) (stoi : Bytes → Option ℕ)
    (inet-lt : (s : Bytes) → inet s < 2 ^ 32) where
  make_mask_for_range-slash :
      (base bits : Bytes) (k : ℕ)
      → All (λ c. c ≢ 47) base
      → stoi bits ≡ some k
      → 1 ≤ k
      → k ≤ 32
      → make_mask_for_range inet stoi (base ++ (47 ∷ bits))
        ≡ range (record { ip = inet (c_str base); mask = mask_of k })
  unfolding make_mask_for_range
  make_mask_for_range-slash base bits k b s lo hi =
      rw (find-byte 47 base bits b, make_mask_for_range)
        (rw (drop-append-cons base 47 bits, s) (rw (take-append base (47 ∷ bits)) (ground arith)))

  -- A range `base/k`, for k from 1 to 32, matches exactly the addresses that share its first k
  -- bits. `inet_addr` gives 32-bit numbers and `stoi` reads k.
  pub is_match-range :
      (base bits needle : Bytes) (k : ℕ)
      → All (λ c. c ≢ 47) base
      → stoi bits ≡ some k
      → 1 ≤ k
      → k ≤ 32
      → (r : SubnetRange) × (make_mask_for_range inet stoi (base ++ (47 ∷ bits)) ≡ range r)
        × (is_match inet needle r
            ≡ (inet (c_str base) / 2 ^ (32 - k) == inet (c_str needle) / 2 ^ (32 - k)))
  unfolding is_match
  is_match-range base bits needle k b s lo hi =
      (_, make_mask_for_range-slash base bits k b s lo hi, compared)
    where
      j : ℕ
      j = 32 - k

      masked : (x : ℕ) → x < 2 ^ 32 → bit_and x (mask_of k) ≡ x / 2 ^ j * 2 ^ j
      masked x h =
          subst (λ n. bit_and x (mask_of n) ≡ x / 2 ^ j * 2 ^ j) (omega arith)
            (and-mask_of j x (omega arith) h)

      compared :
          (bit_and (inet (c_str base)) (mask_of k) == bit_and (inet (c_str needle)) (mask_of k))
          ≡ (inet (c_str base) / 2 ^ j == inet (c_str needle) / 2 ^ j)
      compared =
          rw (masked (inet (c_str base)) (inet-lt _), masked (inet (c_str needle)) (inet-lt _))
            (scaled-eq _ _ (2 ^ j) (one-le-pow j 2 (omega arith)))
