-- ===== src/Cookie/Progress.antt =====
-- The loop over a cookie jar ends: each cookie that `consume` returns shortens the view.
use banjax.Base.{
  ℕ, zero, suc, ◌≤◌, ◌<◌, ◌≡◌, Bool, [], ◌∷◌, Option, none, some, Bytes, length, beq, arith,
  Option-cases, Bool-cases, inl, inr,
}
use banjax.Cookie.{
  Cookie, trim_space_prefix, span_before, span_after, in_name, in_value, skip_equals,
  skip_semicolon, consume_value, after_name, consume_trimmed, consume, find_cookie,
}

length-trim_space_prefix : (s : Bytes) → length (trim_space_prefix s) ≤ length s
unfolding trim_space_prefix
length-trim_space_prefix [] = omega arith
length-trim_space_prefix (c ∷ cs) = ground (arith, length-trim_space_prefix cs)

length-span_after : (p : Bytes → Bool) (s : Bytes) → length (span_after p s) ≤ length s
unfolding span_after
length-span_after p [] = omega arith
length-span_after p (c ∷ cs) = ground (arith, length-span_after p cs)

length-skip_equals : (s : Bytes) → length (skip_equals s) ≤ length s
unfolding skip_equals
length-skip_equals [] = omega arith
length-skip_equals (c ∷ cs) = ground (arith, length-skip_equals cs)

length-skip_semicolon : (s : Bytes) → length (skip_semicolon s) ≤ length s
unfolding skip_semicolon
length-skip_semicolon [] = omega arith
length-skip_semicolon (c ∷ cs) = ground arith

length-consume_value : (name s : Bytes) → length (consume_value name s).1 ≤ length s
unfolding consume_value
length-consume_value name s =
    omega (arith, length-skip_semicolon (span_after in_value s), length-span_after in_value s)

-- Behind a name no cookie comes with a longer rest, and a nonempty one gets shorter.
length-after_name :
    (name : Bytes) (c : ℕ) (cs : Bytes) (k : Cookie)
    → (after_name name (c ∷ cs)).0 ≡ some k
    → length (after_name name (c ∷ cs)).1 < length (c ∷ cs)
unfolding after_name
length-after_name name c cs k h = ground (
  arith,
  length-consume_value name (trim_space_prefix (skip_equals cs)),
  length-trim_space_prefix (skip_equals cs),
  length-skip_equals cs,
)

length-after_name_name :
    (name s : Bytes) (k : Cookie) (n : ℕ)
    → (after_name name s).0 ≡ some k
    → length s < n
    → length (after_name name s).1 < n
length-after_name_name name [] k n h lt = unfold after_name in omega arith
length-after_name_name name (c ∷ cs) k n h lt = omega (arith, length-after_name name c cs k h)

length-consume_trimmed :
    (s : Bytes) (k : Cookie)
    → (consume_trimmed s).0 ≡ some k
    → length (consume_trimmed s).1 < length s
unfolding consume_trimmed span_after trim_space_prefix
length-consume_trimmed [] k h = cc
length-consume_trimmed (c ∷ cs) k h =
    let name = span_before in_name (c ∷ cs) in
    let rest = span_after in_name cs in
    ground (
      arith,
      length-after_name_name name (trim_space_prefix rest) k (suc (length cs)),
      length-trim_space_prefix rest,
      length-span_after in_name cs,
      length-after_name name c cs k,
    )

-- Whenever `consume` returns a cookie, the view it leaves is shorter than the view it was given.
pub length-consume :
    (s : Bytes) (k : Cookie) → (consume s).0 ≡ some k → length (consume s).1 < length s
unfolding consume
length-consume s k h =
    omega (arith, length-consume_trimmed (trim_space_prefix s) k h, length-trim_space_prefix s)

-- The loop over a cookie jar ends: fuel above the length of the jar never runs out.
pub find_cookie_total :
    (fuel : ℕ) (name jar : Bytes)
    → length jar < fuel
    → (r : Option Bytes) × (find_cookie fuel name jar ≡ some r)
unfolding find_cookie
find_cookie_total zero name jar h = absurd (omega arith)
find_cookie_total (suc fuel) name jar h = elim (Option-cases (consume jar).0) [
  | inl e ↦ (none, rw (e, find_cookie))
  | inr (k, e) ↦ elim (Bool-cases (beq k.name name)) [
    | inl hit ↦ (some k.value, rw (e, find_cookie) (rw hit))
    | inr miss ↦
        let (r, q) =
          find_cookie_total fuel name (consume jar).1 (omega (arith, length-consume jar k e)) in
        (r, rw (e, find_cookie) (rw miss q))
  ]
]
