-- ===== src/Base64.antt =====
-- src/base64.cpp: `Base64::Encode` and `Base64::Decode`.
-- A `string` is a list of bytes. `unsigned int` arithmetic wraps at 2 ^ 32. In `(x << k) | y` the
-- low k bits of the shifted number are 0 and y is below 2 ^ k, so `|` is written `+`.
pub mod Groups
pub mod RoundTrip
use banjax.Base.{
  ℕ, zero, suc, ◌+◌, ◌-◌, ◌*◌, ◌/◌, ◌%◌, ◌^◌, Bool, ◌&&◌, ◌||◌, List, [], ◌∷◌, ◌++◌, Option, none,
  some, Bytes, codes, isspace, length, get_elem?, set, replicate, ltb, leb, ◌==◌, if◌then◌else◌,
  ◌>>=◌,
}

abbrev pub u32_mod : ℕ
u32_mod = 2 ^ 32

abbrev pub size_max : ℕ
size_max = 2 ^ 64 - 1

-- `b64_table`; an index is below 64 wherever the source reads it.
unfoldable pub b64_table : ℕ → ℕ
b64_table i =
    let table = codes "ABCDEFGHIJKLMNOPQRSTUVWXYZabcdefghijklmnopqrstuvwxyz0123456789+/" in
    elim (get_elem? table i) [ none ↦ 0 | some c ↦ c ]

-- `reverse_table`, by its runs: `A`-`Z`, `a`-`z`, `0`-`9`, `+`, `/`, and 64 elsewhere.
pub reverse_table : ℕ → ℕ
reverse_table c =
    if leb 65 c && leb c 90
    then c - 65
    else if leb 97 c && leb c 122
    then c - 71
    else if leb 48 c && leb c 57
    then c + 4
    else if c == 43
    then 62
    else if c == 47
    then 63
    else 64

-- The variables of the loop in `Encode`.
pub record Encoder : Type 0 where
  pub retval : Bytes
  pub outpos : ℕ
  pub bits_collected : ℕ
  pub accumulator : ℕ

-- `bits_collected -= 6; retval[outpos++] = b64_table[(accumulator >> bits_collected) & 0x3f];`
unfoldable pub put_sextet : Encoder → Encoder
put_sextet e =
    let bits = e.bits_collected - 6 in
    record e {
      retval = set e.retval e.outpos (b64_table (e.accumulator / 2 ^ bits % 64));
      outpos = e.outpos + 1;
      bits_collected = bits;
    }

-- `while (bits_collected >= 6)`. Each round takes 6 bits, so `bits_collected` rounds are enough.
pub drain : ℕ → Encoder → Encoder
drain zero e = e
drain (suc fuel) e =
    let rest = drain fuel (put_sextet e) in if ltb e.bits_collected 6 then e else rest

pub collect : Encoder → ℕ → Encoder
collect e c = record e {
  bits_collected = e.bits_collected + 8;
  accumulator = e.accumulator * 256 % u32_mod + c % 256;
}

pub encode_byte : Encoder → ℕ → Encoder
unfolding drain collect put_sextet
encode_byte e c = let e' = collect e c in drain e'.bits_collected e'

pub encode_loop : Encoder → Bytes → Encoder
encode_loop e [] = e
encode_loop e (c ∷ cs) = encode_loop (encode_byte e c) cs

-- The bits left over at the end.
pub flush : Encoder → Encoder
flush e =
    if ltb 0 e.bits_collected
    then (let acc = e.accumulator * 2 ^ (6 - e.bits_collected) % u32_mod in
        record e {
          retval = set e.retval e.outpos (b64_table (acc % 64));
          outpos = e.outpos + 1;
          accumulator = acc;
        })
    else e

pub fresh_encoder : Bytes → Encoder
fresh_encoder bindata = record {
  retval = replicate ((length bindata + 2) / 3 * 4) 61;
  outpos = 0;
  bits_collected = 0;
  accumulator = 0;
}

-- `none` is the `length_error`.
unfoldable pub encode : Bytes → Option Bytes
unfolding encode_loop encode_byte flush fresh_encoder b64_table
encode bindata =
    if ltb (size_max / 4 * 3) (length bindata)
    then none
    else some (flush (encode_loop (fresh_encoder bindata) bindata)).retval

-- The variables of the loop in `Decode`.
pub record Decoder : Type 0 where
  pub retval : Bytes
  pub bits_collected : ℕ
  pub accumulator : ℕ

pub accept : Decoder → ℕ → Decoder
accept d v =
    let acc = d.accumulator * 64 % u32_mod + v in
    let bits = d.bits_collected + 6 in
    if leb 8 bits
    then record {
      retval = d.retval ++ acc / 2 ^ (bits - 8) % 256 ∷ [];
      bits_collected = bits - 8;
      accumulator = acc;
    }
    else record d { bits_collected = bits; accumulator = acc }

-- One round of the loop. A byte above 127 is a negative `char`, or one above 127: both are refused.
pub decode_byte : Decoder → ℕ → Option Decoder
decode_byte d c =
    if isspace c || c == 61
    then some d
    else if ltb 127 c || ltb 63 (reverse_table c)
    then none
    else some (accept d (reverse_table c))

pub decode_loop : Decoder → Bytes → Option Bytes
decode_loop d [] = some d.retval
decode_loop d (c ∷ cs) = do d' ← decode_byte d c; decode_loop d' cs

-- `none` is the `invalid_argument`.
unfoldable pub decode : Bytes → Option Bytes
unfolding decode_loop decode_byte accept reverse_table
decode = decode_loop (record { retval = []; bits_collected = 0; accumulator = 0 })
