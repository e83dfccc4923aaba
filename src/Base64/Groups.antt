-- ===== src/Base64/Groups.antt =====
-- `Encode` against the groups of RFC 4648: three bytes to four characters, padded by `=`.
use banjax.Base.{
  ℕ, suc, ◌+◌, ◌-◌, ◌*◌, ◌/◌, ◌%◌, ◌^◌, ◌≤◌, ◌<◌, ◌≡◌, refl, sym, ap, ◌∙◌, [], ◌∷◌, ◌++◌, none,
  some, Bytes, length, replicate, set, All, length-append, set-append, append_assoc, le→ltb, lt→ltb,
  none, arith,
}
use banjax.Base64.{
  Encoder, b64_table, put_sextet, encode_byte, encode_loop, flush, encode, u32_mod, size_max,
}

abbrev pub IsByte : ℕ → Type 0
IsByte c = c < 256

-- The four characters of the RFC.
abbrev pub first : ℕ → ℕ
first a = b64_table (a / 4)

abbrev pub second : ℕ → ℕ → ℕ
second a b = b64_table (a % 4 * 16 + b / 16)

abbrev pub third : ℕ → ℕ → ℕ
third b c = b64_table (b % 16 * 4 + c / 64)

abbrev pub fourth : ℕ → ℕ
fourth c = b64_table (c % 64)

abbrev pub groups : Bytes → Bytes
groups [] = []
groups (a ∷ []) = first a ∷ second a 0 ∷ 61 ∷ 61 ∷ []
groups (a ∷ b ∷ []) = first a ∷ second a b ∷ third b 0 ∷ 61 ∷ []
groups (a ∷ b ∷ c ∷ r) = first a ∷ second a b ∷ third b c ∷ fourth c ∷ groups r

-- The encoder with `out` written and `n` places left.
abbrev at : Bytes → ℕ → ℕ → ℕ → Encoder
at out n bits acc = record {
  retval = out ++ replicate n 61;
  outpos = length out;
  bits_collected = bits;
  accumulator = acc;
}

snoc_outpos : (out : Bytes) (v : ℕ) → length out + 1 ≡ length (out ++ v ∷ [])
snoc_outpos out v = omega (arith, length-append {0} out (v ∷ []))

snoc_retval :
    (out : Bytes) (n v : ℕ)
    → set (out ++ replicate (suc n) 61) (length out) v ≡ (out ++ v ∷ []) ++ replicate n 61
snoc_retval out n v =
    set-append out 61 v (replicate n 61) ∙ sym (append_assoc out (v ∷ []) (replicate n 61))

put_sextet-at :
    (out : Bytes) (n bits acc : ℕ)
    → put_sextet (at out (suc n) bits acc)
      ≡ at (out ++ b64_table (acc / 2 ^ (bits - 6) % 64) ∷ []) n (bits - 6) acc
unfolding put_sextet
put_sextet-at out n bits acc =
    rw (snoc_retval out n (b64_table (acc / 2 ^ (bits - 6) % 64)))
      (rw (snoc_outpos out (b64_table (acc / 2 ^ (bits - 6) % 64))) refl)

abbrev next : ℕ → ℕ → ℕ
next acc c = acc * 256 % u32_mod + c % 256

encode_byte_first :
    (out : Bytes) (n acc a : ℕ)
    → encode_byte (at out (suc n) 0 acc) a
      ≡ at (out ++ b64_table (next acc a / 2 ^ 2 % 64) ∷ []) n 2 (next acc a)
unfolding encode_byte
encode_byte_first out n acc a = put_sextet-at out n 8 (next acc a)

encode_byte_second :
    (out : Bytes) (n acc b : ℕ)
    → encode_byte (at out (suc n) 2 acc) b
      ≡ at (out ++ b64_table (next acc b / 2 ^ 4 % 64) ∷ []) n 4 (next acc b)
unfolding encode_byte
encode_byte_second out n acc b = put_sextet-at out n 10 (next acc b)

encode_byte_third :
    (out : Bytes) (n acc c : ℕ)
    → encode_byte (at out (suc (suc n)) 4 acc) c
      ≡ at
          ((out ++ b64_table (next acc c / 2 ^ 6 % 64) ∷ [])
            ++ b64_table (next acc c / 2 ^ 0 % 64) ∷ [])
          n
          0
          (next acc c)
unfolding encode_byte
encode_byte_third out n acc c =
    ap put_sextet (put_sextet-at out (suc n) 12 (next acc c))
    ∙ put_sextet-at (out ++ b64_table (next acc c / 2 ^ 6 % 64) ∷ []) n 6 (next acc c)

-- The places of the sextets in the accumulator, whatever stands above them.
sextet_first : (acc a : ℕ) → a < 256 → next acc a / 2 ^ 2 % 64 ≡ a / 4
sextet_first acc a h = omega arith

sextet_second :
    (acc a b : ℕ) → a < 256 → b < 256 → next (next acc a) b / 2 ^ 4 % 64 ≡ a % 4 * 16 + b / 16
sextet_second acc a b h k = omega arith

sextet_third :
    (acc b c : ℕ) → b < 256 → c < 256 → next (next acc b) c / 2 ^ 6 % 64 ≡ b % 16 * 4 + c / 64
sextet_third acc b c h k = omega arith

sextet_fourth : (acc c : ℕ) → c < 256 → next acc c / 2 ^ 0 % 64 ≡ c % 64
sextet_fourth acc c h = omega arith

-- Three bytes write the four characters of their group.
encode_loop_group :
    (out : Bytes) (n acc a b c : ℕ) (r : Bytes)
    → a < 256
    → b < 256
    → c < 256
    → encode_loop (at out (suc (suc (suc (suc n)))) 0 acc) (a ∷ b ∷ c ∷ r)
      ≡ encode_loop
          (at
            (out ++ first a ∷ second a b ∷ third b c ∷ fourth c ∷ [])
            n
            0
            (next (next (next acc a) b) c))
          r
unfolding encode_loop
encode_loop_group out n acc a b c r ha hb hc =
    ap (λ e. encode_loop e r)
      (ap (λ e. encode_byte (encode_byte e b) c) (encode_byte_first out (suc (suc (suc n))) acc a)
        ∙ ap (λ e. encode_byte e c) (encode_byte_second _ (suc (suc n)) (next acc a) b)
        ∙ encode_byte_third _ n (next (next acc a) b) c
        ∙ rw
            (
              sextet_first acc a ha,
              sextet_second acc a b ha hb,
              sextet_third (next acc a) b c hb hc,
              sextet_fourth (next (next acc a) b) c hc,
            )
            (simp append_assoc))

-- What the end of `Encode` makes of the state after the whole groups.
finish : Encoder → Bytes → Bytes
finish e s = (flush (encode_loop e s)).retval

pad : Bytes → ℕ
pad s = (length s + 2) / 3 * 4

flush_two :
    (out : Bytes) (n acc : ℕ)
    → (flush (at out (suc n) 2 acc)).retval
      ≡ (out ++ b64_table (acc * 2 ^ 4 % u32_mod % 64) ∷ []) ++ replicate n 61
unfolding flush
flush_two out n acc = snoc_retval out n _

flush_four :
    (out : Bytes) (n acc : ℕ)
    → (flush (at out (suc n) 4 acc)).retval
      ≡ (out ++ b64_table (acc * 2 ^ 2 % u32_mod % 64) ∷ []) ++ replicate n 61
unfolding flush
flush_four out n acc = snoc_retval out n _

rest_two : (acc a : ℕ) → a < 256 → next acc a * 2 ^ 4 % u32_mod % 64 ≡ a % 4 * 16 + 0 / 16
rest_two acc a h = omega arith

rest_four : (acc b : ℕ) → b < 256 → next acc b * 2 ^ 2 % u32_mod % 64 ≡ b % 16 * 4 + 0 / 64
rest_four acc b h = omega arith

pad_group : (n : ℕ) → (suc (suc (suc n)) + 2) / 3 * 4 ≡ suc (suc (suc (suc ((n + 2) / 3 * 4))))
pad_group n = omega arith

finish-groups :
    (s : Bytes) (out : Bytes) (acc : ℕ)
    → All IsByte s
    → finish (at out (pad s) 0 acc) s ≡ out ++ groups s
unfolding finish pad encode_loop
finish-groups [] out acc h = unfold flush in refl
finish-groups (a ∷ []) out acc h =
    ap (λ e. (flush e).retval) (encode_byte_first out 3 acc a)
    ∙ flush_two _ 2 (next acc a)
    ∙ rw (sextet_first acc a h.0, rest_two acc a h.0) (simp append_assoc)
finish-groups (a ∷ b ∷ []) out acc h =
    ap (λ e. (flush e).retval)
      (ap (λ e. encode_byte e b) (encode_byte_first out 3 acc a)
        ∙ encode_byte_second _ 2 (next acc a) b)
    ∙ flush_four _ 1 (next (next acc a) b)
    ∙ rw (sextet_first acc a h.0, sextet_second acc a b h.0 h.1.0, rest_four (next acc a) b h.1.0)
        (simp append_assoc)
finish-groups (a ∷ b ∷ c ∷ r) out acc h = rw (pad_group (length r)) (
    ap (λ e. (flush e).retval) (encode_loop_group out (pad r) acc a b c r h.0 h.1.0 h.1.1.0)
    ∙ finish-groups r _ (next (next (next acc a) b) c) h.1.1.1
    ∙ append_assoc out _ (groups r))

-- Up to the length limit, `Encode` gives the groups of four characters of the RFC, the last one
-- padded.
pub encode-groups :
    (s : Bytes) → All IsByte s → length s ≤ size_max / 4 * 3 → encode s ≡ some (groups s)
unfolding encode finish pad
encode-groups s h k = rw (le→ltb _ _ k) (ap some (finish-groups s [] 0 h))

-- The length of the groups: four characters for each three bytes begun.
pub length-groups : (s : Bytes) → length (groups s) ≡ (length s + 2) / 3 * 4
length-groups [] = refl
length-groups (a ∷ []) = refl
length-groups (a ∷ b ∷ []) = refl
length-groups (a ∷ b ∷ c ∷ r) = omega (arith, length-groups r)

-- Past the length limit `Encode` throws.
pub encode_limit : (s : Bytes) → size_max / 4 * 3 < length s → encode s ≡ none
unfolding encode
encode_limit s h = rw (lt→ltb _ _ h)
