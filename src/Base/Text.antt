-- ===== src/Base/Text.antt =====
-- Texts as lists of bytes: literals, equality, search of a piece, and the C library's views.
use Prim.Native.Char.{code}
use Prim.Native.Nat.{ℕ, suc}
use Prim.Native.String.{String}
use mathlib.Core.Bool.{Bool, true, false, ◌&&◌, ◌||◌}
use mathlib.Core.List.{List, [], ◌∷◌, ◌++◌}
use mathlib.Core.Logic.{◌↔◌, ◌≢◌}
use mathlib.Core.Option
use mathlib.Core.Option.{Option, none, some}
use mathlib.Core.Path.{◌≡◌, refl}
use native.Mathlib.Omega.{arith}
use banjax.Base.Lists.{length, All}
use banjax.Base.Tests.{leb, ◌==◌, if◌then◌else◌}

abbrev pub Bytes : Type 0
Bytes = List ℕ

-- The bytes of an ASCII literal.
abbrev pub codes : String → Bytes
codes String.[] = []
codes (String.◌∷◌ c s) = code c ∷ codes s

-- `operator==` of two strings.
unfoldable pub beq : Bytes → Bytes → Bool
beq [] [] = true
beq (x ∷ xs) (y ∷ ys) = x == y && beq xs ys
beq _ _ = false

pub beq_iff : (a b : Bytes) → (beq a b ≡ true) ↔ (a ≡ b)
unfolding beq
beq_iff (x ∷ a) (y ∷ b) = ground (arith, beq_iff a b)
beq_iff _ _ = ground arith

pub beq_refl : (a : Bytes) → beq a a ≡ true
beq_refl a = (beq_iff a a).1 refl

-- `string_view::starts_with`.
unfoldable pub starts_with : Bytes → Bytes → Bool
starts_with [] s = true
starts_with (c ∷ w) [] = false
starts_with (c ∷ w) (x ∷ s) = x == c && starts_with w s

-- `string::find`: the first place where `w` stands, or `npos`.
unfoldable pub find : Bytes → Bytes → Option ℕ
find w [] = if starts_with w [] then some 0 else none
find w (x ∷ s) = if starts_with w (x ∷ s) then some 0 else Option.map suc (find w s)

-- `isspace` in the C locale.
abbrev pub isspace : ℕ → Bool
isspace c = c == 32 || (leb 9 c && leb c 13)

-- What a C function sees of a string: the bytes before the first NUL.
unfoldable pub c_str : Bytes → Bytes
c_str [] = []
c_str (c ∷ cs) = if c == 0 then [] else c ∷ c_str cs

-- The search of one byte stops at its first occurrence.
pub find-byte :
    (c : ℕ) (b t : Bytes) → All (λ x. x ≢ c) b → find (c ∷ []) (b ++ (c ∷ t)) ≡ some (length b)
unfolding find starts_with
find-byte c [] t h = ground arith
find-byte c (x ∷ b) t h = ground (arith, find-byte c b t h.1)

pub find-byte_none : (c : ℕ) (b : Bytes) → All (λ x. x ≢ c) b → find (c ∷ []) b ≡ none
unfolding find starts_with
find-byte_none c [] h = refl
find-byte_none c (x ∷ b) h = ground (arith, find-byte_none c b h.1)
