-- ===== src/Base64/RoundTrip.antt =====
-- `Decode` after `Encode`.
use banjax.Base.{
  ℕ, ◌+◌, ◌*◌, ◌/◌, ◌%◌, ◌^◌, ◌<◌, ◌≡◌, ◌≢◌, refl, ◌∙◌, Bool, true, not, ◌&&◌, ◌||◌, [], ◌∷◌, ◌++◌,
  some, Bytes, isspace, length, All, append_assoc, append-nil, arith, leb, ◌==◌, tested,
  holds_below,
}
use banjax.Base64.{
  Decoder, b64_table, reverse_table, accept, decode_byte, decode_loop, encode, decode, u32_mod,
  size_max,
}
use banjax.Base64.Groups.{IsByte, groups, encode-groups, encode_limit}
use native.Mathlib.Decide.{dec_le}

abbrev is_accepted : ℕ → Bool
is_accepted i =
    let c = b64_table i in not (isspace c || c == 61) && (leb c 127 && reverse_table c == i)

accepted_table : tested is_accepted 64 ≡ true
unfolding tested b64_table reverse_table
accepted_table = refl

-- The two tables agree: a character that `Encode` writes is taken for its index.
decode_byte-b64_table :
    (d : Decoder) (i : ℕ) → i < 64 → decode_byte d (b64_table i) ≡ some (accept d i)
unfolding decode_byte
decode_byte-b64_table d i h = ground (arith, holds_below is_accepted 64 accepted_table i h)

abbrev at : Bytes → ℕ → ℕ → Decoder
at out bits acc = record { retval = out; bits_collected = bits; accumulator = acc }

abbrev next : ℕ → ℕ → ℕ
next acc v = acc * 64 % u32_mod + v

decode_loop_sextet :
    (d : Decoder) (i : ℕ) (cs : Bytes)
    → i < 64
    → decode_loop d (b64_table i ∷ cs) ≡ decode_loop (accept d i) cs
unfolding decode_loop
decode_loop_sextet d i cs h = rw (decode_byte-b64_table d i h)

-- Two, three and four characters of a group.
decode_loop_two :
    (out : Bytes) (acc x y : ℕ) (cs : Bytes)
    → x < 64
    → y < 64
    → decode_loop (at out 0 acc) (b64_table x ∷ b64_table y ∷ cs)
      ≡ decode_loop (at (out ++ next (next acc x) y / 2 ^ 4 % 256 ∷ []) 4 (next (next acc x) y)) cs
decode_loop_two out acc x y cs hx hy =
    decode_loop_sextet (at out 0 acc) x _ hx
    ∙ unfold accept in decode_loop_sextet (at out 6 (next acc x)) y cs hy

decode_loop_three :
    (out : Bytes) (acc z : ℕ) (cs : Bytes)
    → z < 64
    → decode_loop (at out 4 acc) (b64_table z ∷ cs)
      ≡ decode_loop (at (out ++ next acc z / 2 ^ 2 % 256 ∷ []) 2 (next acc z)) cs
decode_loop_three out acc z cs hz = unfold accept in decode_loop_sextet (at out 4 acc) z cs hz

decode_loop_four :
    (out : Bytes) (acc w : ℕ) (cs : Bytes)
    → w < 64
    → decode_loop (at out 2 acc) (b64_table w ∷ cs)
      ≡ decode_loop (at (out ++ next acc w / 2 ^ 0 % 256 ∷ []) 0 (next acc w)) cs
decode_loop_four out acc w cs hw = unfold accept in decode_loop_sextet (at out 2 acc) w cs hw

-- The bytes come back, whatever stands above them in the accumulator.
byte_first :
    (acc a b : ℕ)
    → a < 256
    → b < 256
    → next (next acc (a / 4)) (a % 4 * 16 + b / 16) / 2 ^ 4 % 256 ≡ a
byte_first acc a b ha hb = omega arith

byte_second :
    (acc a b c : ℕ)
    → b < 256
    → c < 256
    → next (next acc (a % 4 * 16 + b / 16)) (b % 16 * 4 + c / 64) / 2 ^ 2 % 256 ≡ b
byte_second acc a b c hb hc = omega arith

byte_third :
    (acc b c : ℕ) → c < 256 → next (next acc (b % 16 * 4 + c / 64)) (c % 64) / 2 ^ 0 % 256 ≡ c
byte_third acc b c hc = omega arith

decode_loop-groups :
    (s out : Bytes) (acc : ℕ)
    → All IsByte s
    → decode_loop (at out 0 acc) (groups s) ≡ some (out ++ s)
decode_loop-groups [] out acc h = unfold decode_loop in rw append-nil
decode_loop-groups (a ∷ []) out acc h =
    decode_loop_two out acc (a / 4) (a % 4 * 16 + 0 / 16) _ (omega arith) (omega arith)
    ∙ rw (byte_first acc a 0 h.0 (omega arith)) (unfold decode_loop decode_byte in refl)
decode_loop-groups (a ∷ b ∷ []) out acc h =
    decode_loop_two out acc (a / 4) (a % 4 * 16 + b / 16) _ (omega arith) (omega arith)
    ∙ decode_loop_three _ _ (b % 16 * 4 + 0 / 64) _ (omega arith)
    ∙ rw (byte_first acc a b h.0 h.1.0, byte_second (next acc (a / 4)) a b 0 h.1.0 (omega arith))
        (unfold decode_loop decode_byte in rw append_assoc)
decode_loop-groups (a ∷ b ∷ c ∷ r) out acc h =
    decode_loop_two out acc (a / 4) (a % 4 * 16 + b / 16) _ (omega arith) (omega arith)
    ∙ decode_loop_three _ _ (b % 16 * 4 + c / 64) _ (omega arith)
    ∙ decode_loop_four _ _ (c % 64) _ (omega arith)
    ∙ decode_loop-groups r _ _ h.1.1.1
    ∙ rw
        (
          byte_first acc a b h.0 h.1.0,
          byte_second (next acc (a / 4)) a b c h.1.0 h.1.1.0,
          byte_third (next (next acc (a / 4)) (a % 4 * 16 + b / 16)) b c h.1.1.0,
        )
        (simp append_assoc)

-- Whatever `Encode` makes of a string of bytes, `Decode` gives the string back.
pub decode-encode : (s t : Bytes) → All IsByte s → encode s ≡ some t → decode t ≡ some s
unfolding decode
decode-encode s t h e = elim (dec_le (length s) (size_max / 4 * 3)) [
  | yes k ↦ let q : t ≡ groups s = cc (encode-groups s h k) in rw q (decode_loop-groups s [] 0 h)
  | no k ↦ cc (encode_limit s (omega arith))
]

abbrev pub NonNul : ℕ → Type 0
NonNul c = c ≢ 0

nonnul_table : tested (λ i. not (b64_table i == 0)) 64 ≡ true
unfolding tested b64_table
nonnul_table = refl

b64_table-NonNul : (i : ℕ) → i < 64 → NonNul (b64_table i)
b64_table-NonNul i h = ground (arith, holds_below (λ i. not (b64_table i == 0)) 64 nonnul_table i h)

-- What `Encode` writes is a C string: it has no NUL.
pub groups-NonNul : (s : Bytes) → All IsByte s → All NonNul (groups s)
groups-NonNul [] h = tt
groups-NonNul (a ∷ []) h =
    let nz = b64_table-NonNul in
    (nz _ (omega arith), (nz _ (omega arith), (omega arith, (omega arith, tt))))
groups-NonNul (a ∷ b ∷ []) h =
    let nz = b64_table-NonNul in
    (nz _ (omega arith), (nz _ (omega arith), (nz _ (omega arith), (omega arith, tt))))
groups-NonNul (a ∷ b ∷ c ∷ r) h =
    let nz = b64_table-NonNul in
    (
      nz _ (omega arith),
      (nz _ (omega arith), (nz _ (omega arith), (nz _ (omega arith), groups-NonNul r h.1.1.1))),
    )
