-- ===== src/Cookie/Jar.antt =====
-- A cookie header as a browser writes it, `a=1; b=2`, read back by `consume`.
use mathlib.Core.List.{reverse, reverse-append, reverse-reverse}
use banjax.Base.{
  ℕ, zero, suc, ◌<◌, ◌≡◌, ◌≢◌, ◌⊎◌, refl, ap, sym, ◌∙◌, Bool, true, false, List, [], ◌∷◌, ◌++◌,
  Option, none, some, Bytes, isspace, length, beq, if◌then◌else◌, arith, All, inl, inr,
}
use banjax.Cookie.{
  Cookie, trim_space_prefix, trim_space_suffix, span_before, span_after, in_name, in_value,
  skip_equals, skip_semicolon, consume_value, after_name, consume_trimmed, consume, find_cookie,
}

abbrev IsNameByte : ℕ → Type 0
IsNameByte c = in_name (c ∷ []) ≡ true

abbrev IsValueByte : ℕ → Type 0
IsValueByte c = (c ≢ 59) × (c ≢ 0) × (c ≢ 13)

-- The first byte is neither a space nor `=`, and the last is no space.
abbrev pub Starts : Bytes → Type 0
Starts [] = Unit
Starts (c ∷ cs) = (isspace c ≡ false) × (c ≢ 61)

abbrev pub Ends : Bytes → Type 0
Ends [] = Unit
Ends (c ∷ []) = isspace c ≡ false
Ends (c ∷ d ∷ cs) = Ends (d ∷ cs)

pub record WellFormed (k : Cookie) : Type 0 where
  pub name_bytes : All IsNameByte k.name
  pub name_ne_nil : k.name ≢ []
  pub value_bytes : All IsValueByte k.value
  pub starts : Starts k.value
  pub ends : Ends k.value

-- What may follow a value: nothing, or `;`.
abbrev IsTail : Bytes → Type 0
IsTail [] = Unit
IsTail (c ∷ cs) = c ≡ 59

module _ (tail : Bytes) where
  span_before-name : (n : Bytes) → All IsNameByte n → span_before in_name (n ++ (61 ∷ tail)) ≡ n
  unfolding span_before
  span_before-name [] h = refl
  span_before-name (c ∷ cs) h = ground (arith, span_before-name cs h.1)

  span_after-name :
      (n : Bytes) → All IsNameByte n → span_after in_name (n ++ (61 ∷ tail)) ≡ 61 ∷ tail
  unfolding span_after
  span_after-name [] h = refl
  span_after-name (c ∷ cs) h = ground (arith, span_after-name cs h.1)

in_value-IsValueByte : (c : ℕ) (cs : Bytes) → IsValueByte c → in_value (c ∷ cs) ≡ true
in_value-IsValueByte c [] h = ground arith
in_value-IsValueByte c (d ∷ cs) h = ground arith

span_before-value :
    (v tail : Bytes) → All IsValueByte v → IsTail tail → span_before in_value (v ++ tail) ≡ v
unfolding span_before
span_before-value [] [] h t = refl
span_before-value [] (c ∷ cs) h t = ground arith
span_before-value (c ∷ cs) tail h t =
    rw (in_value-IsValueByte c (cs ++ tail) h.0) (ap (◌∷◌ c) (span_before-value cs tail h.1 t))

span_after-value :
    (v tail : Bytes) → All IsValueByte v → IsTail tail → span_after in_value (v ++ tail) ≡ tail
unfolding span_after
span_after-value [] [] h t = refl
span_after-value [] (c ∷ cs) h t = ground arith
span_after-value (c ∷ cs) tail h t =
    rw (in_value-IsValueByte c (cs ++ tail) h.0) (span_after-value cs tail h.1 t)

Ends-split :
    (v : Bytes)
    → Ends v
    → (v ≡ []) ⊎ ((u : Bytes) × (x : ℕ) × (v ≡ u ++ x ∷ []) × (isspace x ≡ false))
Ends-split [] h = inl refl
Ends-split (c ∷ []) h = inr ([], c, refl, h)
Ends-split (c ∷ d ∷ cs) h = elim (Ends-split (d ∷ cs) h) [
  | inl e ↦ inl cc
  | inr (u, x, e, n) ↦ inr (c ∷ u, x, ap (◌∷◌ c) e, n)
]

trim_space_suffix-Ends : (v : Bytes) → Ends v → trim_space_suffix v ≡ v
unfolding trim_space_suffix
trim_space_suffix-Ends v h = elim (Ends-split v h) [
  | inl e ↦ rw e
  | inr (u, x, e, n) ↦
      rw (e, reverse-append u (x ∷ []), n)
        (ap reverse (sym (reverse-append u (x ∷ []))) ∙ reverse-reverse (u ++ x ∷ []))
]

trim_value :
    (v tail : Bytes)
    → Starts v
    → IsTail tail
    → trim_space_prefix (skip_equals (v ++ tail)) ≡ v ++ tail
unfolding trim_space_prefix skip_equals
trim_value [] [] s t = refl
trim_value [] (c ∷ cs) s t = ground arith
trim_value (c ∷ cs) tail s t = ground arith

abbrev pub print : Cookie → Bytes → Bytes
print k tail = k.name ++ (61 ∷ (k.value ++ tail))

consume_value-print :
    (name v tail : Bytes)
    → All IsValueByte v
    → Starts v
    → Ends v
    → IsTail tail
    → consume_value name (trim_space_prefix (skip_equals (v ++ tail)))
      ≡ (some (record { name = name; value = v }), skip_semicolon tail)
unfolding consume_value
consume_value-print name v tail b s e t =
    rw (trim_value v tail s t)
      (rw (span_before-value v tail b t, span_after-value v tail b t, trim_space_suffix-Ends v e))

consume_trimmed-name :
    (c : ℕ) (n rest : Bytes)
    → All IsNameByte (c ∷ n)
    → consume_trimmed (trim_space_prefix ((c ∷ n) ++ (61 ∷ rest))) ≡ after_name (c ∷ n) (61 ∷ rest)
unfolding consume_trimmed trim_space_prefix
consume_trimmed-name c n rest h =
    ground (arith, span_before-name rest (c ∷ n) h, span_after-name rest (c ∷ n) h)

consume-name_value :
    (n v tail : Bytes)
    → WellFormed (record { name = n; value = v })
    → IsTail tail
    → consume (n ++ (61 ∷ (v ++ tail)))
      ≡ (some (record { name = n; value = v }), skip_semicolon tail)
unfolding consume after_name
consume-name_value [] v tail w t = absurd (w.name_ne_nil refl)
consume-name_value (c ∷ n) v tail w t =
    consume_trimmed-name c n (v ++ tail) w.name_bytes
    ∙ consume_value-print (c ∷ n) v tail w.value_bytes w.starts w.ends t

-- `consume` reads one printed cookie, at the end of the header or in front of `;`.
pub consume-print :
    (k : Cookie) (tail : Bytes)
    → WellFormed k
    → IsTail tail
    → consume (print k tail) ≡ (some k, skip_semicolon tail)
consume-print k tail w t = consume-name_value k.name k.value tail w t

abbrev pub print_jar : List Cookie → Bytes
print_jar [] = []
print_jar (k ∷ []) = print k []
print_jar (k ∷ l ∷ ks) = print k (59 ∷ 32 ∷ print_jar (l ∷ ks))

abbrev pub first_named : Bytes → List Cookie → Option Bytes
first_named name [] = none
first_named name (k ∷ ks) = if beq k.name name then some k.value else first_named name ks

-- A space in front changes nothing.
find_cookie_space :
    (fuel : ℕ) (name s : Bytes) → find_cookie fuel name (32 ∷ s) ≡ find_cookie fuel name s
unfolding find_cookie consume trim_space_prefix
find_cookie_space zero name s = refl
find_cookie_space (suc fuel) name s = refl

find_cookie_step :
    (fuel : ℕ) (name s : Bytes) (k : Cookie) (rest : Bytes)
    → consume s ≡ (some k, rest)
    → find_cookie (suc fuel) name s
      ≡ (if beq k.name name then some (some k.value) else find_cookie fuel name rest)
unfolding find_cookie
find_cookie_step fuel name s k rest e = rw (e, find_cookie) (rw e)

find_cookie-nil : (fuel : ℕ) (name : Bytes) → find_cookie (suc fuel) name [] ≡ some none
unfolding find_cookie consume
find_cookie-nil fuel name = refl

if-some :
    (b : Bool) (x : Bytes) (o : Option Bytes)
    → (if b then some (some x) else some o) ≡ some (if b then some x else o)
if-some true x o = refl
if-some false x o = refl

-- For any list of well-formed cookies, printed the way a browser does, the loop over the jar finds
-- the value of the first cookie with the name, and nothing if there is none.
pub find_cookie-print_jar :
    (ks : List Cookie) (fuel : ℕ) (name : Bytes)
    → All WellFormed ks
    → length ks < fuel
    → find_cookie fuel name (print_jar ks) ≡ some (first_named name ks)
unfolding skip_semicolon
find_cookie-print_jar _ zero name w h = absurd (omega arith)
find_cookie-print_jar [] (suc fuel) name w h = find_cookie-nil fuel name
find_cookie-print_jar (k ∷ []) (suc zero) name w h = absurd (omega arith)
find_cookie-print_jar (k ∷ []) (suc (suc fuel)) name w h =
    find_cookie_step (suc fuel) name _ k _ (consume-print k [] w.0 tt)
    ∙ rw (find_cookie-nil fuel name) (if-some (beq k.name name) k.value none)
find_cookie-print_jar (k ∷ l ∷ ks) (suc fuel) name w h =
    find_cookie_step fuel name _ k _ (consume-print k (59 ∷ 32 ∷ print_jar (l ∷ ks)) w.0 refl)
    ∙ rw (find_cookie_space fuel name (print_jar (l ∷ ks))) (
        rw (find_cookie-print_jar (l ∷ ks) fuel name w.1 (omega arith))
          (if-some (beq k.name name) k.value (first_named name (l ∷ ks))))
