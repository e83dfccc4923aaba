-- ===== src/Cookie.antt =====
-- src/cookie.cpp and cookie.h: `Cookie::consume`, and the loop over a cookie jar of
-- `Challenger::check_cookie` (src/challenger.cpp).
-- A `string_view` is the list of the bytes in it. Reading `[0]` of the empty view reads the NUL
-- behind the underlying `std::string`, which no test of the source accepts.
pub mod Progress
pub mod Jar
use mathlib.Core.List.{reverse}
use banjax.Base.{
  ℕ, zero, suc, Bool, true, false, not, ◌&&◌, ◌||◌, List, [], ◌∷◌, Option, none, some, Bytes,
  isspace, beq, starts_with, ◌==◌, if◌then◌else◌,
}

pub record Cookie : Type 0 where
  pub name : Bytes
  pub value : Bytes

pub trim_space_prefix : Bytes → Bytes
trim_space_prefix [] = []
trim_space_prefix (c ∷ cs) = if isspace c then trim_space_prefix cs else c ∷ cs

pub trim_space_suffix : Bytes → Bytes
unfolding trim_space_prefix
trim_space_suffix s = reverse (trim_space_prefix (reverse s))

-- `while (end < s.size() && test) ++end;` where the test may look at all that follows: the bytes
-- before `end`, and those from it on.
pub span_before : (Bytes → Bool) → Bytes → Bytes
span_before p [] = []
span_before p (c ∷ cs) = if p (c ∷ cs) then c ∷ span_before p cs else []

pub span_after : (Bytes → Bool) → Bytes → Bytes
span_after p [] = []
span_after p (c ∷ cs) = if p (c ∷ cs) then span_after p cs else c ∷ cs

abbrev pub in_name : Bytes → Bool
in_name [] = false
in_name (c ∷ cs) = not (c == 59) && (not (c == 61) && (not (isspace c) && not (c == 0)))

abbrev is_eol : Bytes → Bool
is_eol [] = false
is_eol (c ∷ []) = false
is_eol (c ∷ d ∷ cs) = c == 13 && d == 10

abbrev pub in_value : Bytes → Bool
in_value [] = false
in_value (c ∷ cs) = not (c == 59) && (not (c == 0) && not (is_eol (c ∷ cs)))

-- `do cookie_s.remove_prefix(1); while (cookie_s[0] == '=')`, past the first `=`.
pub skip_equals : Bytes → Bytes
skip_equals [] = []
skip_equals (c ∷ cs) = if c == 61 then skip_equals cs else c ∷ cs

pub skip_semicolon : Bytes → Bytes
skip_semicolon [] = []
skip_semicolon (c ∷ cs) = if c == 59 then cs else c ∷ cs

-- The value token. The result of each step is the cookie, if any, and what is left of the view.
pub consume_value : Bytes → Bytes → Option Cookie × Bytes
consume_value name s = (
  some (record { name = name; value = trim_space_suffix (span_before in_value s) }),
  skip_semicolon (span_after in_value s),
)

-- Behind the name token and the spaces after it.
pub after_name : Bytes → Bytes → Option Cookie × Bytes
unfolding consume_value
after_name name [] = (some (record { name = name; value = [] }), [])
after_name name (c ∷ cs) =
    if c == 0 || c == 59
    then (some (record { name = name; value = [] }), cs)
    else if c == 61
    then consume_value name (trim_space_prefix (skip_equals cs))
    else (none, c ∷ cs)

-- Behind the spaces in front.
pub consume_trimmed : Bytes → Option Cookie × Bytes
consume_trimmed [] = (none, [])
consume_trimmed (c ∷ cs) =
    if not (in_name (c ∷ cs)) && not (c == 61)
    then (if c == 59 then (some (record { name = []; value = [] }), cs) else (none, c ∷ cs))
    else after_name (span_before in_name (c ∷ cs)) (trim_space_prefix (span_after in_name (c ∷ cs)))

unfoldable pub consume : Bytes → Option Cookie × Bytes
unfolding consume_trimmed after_name trim_space_prefix trim_space_suffix span_before span_after
    skip_equals skip_semicolon
consume s = consume_trimmed (trim_space_prefix s)

-- `while (cookie = Cookie::consume(jar)) if (cookie->name == name) return …;`: the value of the
-- first cookie of that name. The outer `none` means that the fuel ran out.
unfoldable pub find_cookie : ℕ → Bytes → Bytes → Option (Option Bytes)
find_cookie zero name jar = none
find_cookie (suc fuel) name jar =
    let (c, rest) = consume jar in
    elim c [
      | none ↦ some none
      | some k ↦ if beq k.name name then some (some k.value) else find_cookie fuel name rest
    ]
