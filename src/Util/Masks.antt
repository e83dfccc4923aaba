-- ===== src/Util/Masks.antt =====
-- `make_mask_for_range` and `is_match`.
mod Bits
pub mod Ranges
use Prim.Native.Nat.{bit_and}
use banjax.Base.{
  ℕ, ◌+◌, ◌-◌, ◌*◌, ◌/◌, ◌%◌, ◌^◌, Bool, [], ◌∷◌, Option, none, some, Bytes, c_str, find, take,
  drop, ltb, ◌==◌, if◌then◌else◌,
}

-- `pair<in_addr_t, uint32_t>`
pub record SubnetRange : Type 0 where
  pub ip : ℕ
  pub mask : ℕ

-- `not_a_number` is the exception of `std::stoi`. A shift by the whole width of the word, at
-- `keep_bits == 0`, has no defined result.
pub data RangeResult : Type 0 where
  range : SubnetRange → RangeResult
  invalid_conf not_a_number undefined_shift : RangeResult

abbrev pub u32_max : ℕ
u32_max = 0xffffffff

-- `(mask >> (32 - keep_bits)) << (32 - keep_bits)`, at a width that C++ defines.
unfoldable pub mask_of : ℕ → ℕ
mask_of keep_bits = u32_max / 2 ^ (32 - keep_bits) * 2 ^ (32 - keep_bits) % 2 ^ 32

module _ (inet : Bytes → ℕ) (stoi : Bytes → Option ℕ) where
  unfoldable pub make_mask_for_range : Bytes → RangeResult
  make_mask_for_range hay_ip = elim (find (47 ∷ []) hay_ip) [
    | none ↦ range (record { ip = inet (c_str hay_ip); mask = u32_max })
    | some slash_pos ↦ elim (stoi (drop (slash_pos + 1) hay_ip)) [
      | none ↦ not_a_number
      | some keep_bits ↦
          if ltb 32 keep_bits
          then invalid_conf
          else if keep_bits == 0
          then undefined_shift
          else range
              (record { ip = inet (c_str (take slash_pos hay_ip)); mask = mask_of keep_bits })
    ]
  ]

module _ (inet : Bytes → ℕ) where
  unfoldable pub is_match : Bytes → SubnetRange → Bool
  is_match needle_ip r = bit_and r.ip r.mask == bit_and (inet (c_str needle_ip)) r.mask
