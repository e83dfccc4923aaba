-- ===== src/Config/Priorities/Ordered.antt =====
-- The map of priorities stays in order.
use mathlib.Core.List.{Perm}
use mathlib.Core.List.Perm
use banjax.Base.{◌≡◌, inl, inr, true, false, List, [], ◌∷◌, Bytes, All, map, arith, Bool-cases}
use banjax.Base.Int.{ℤ, ltb_ℤ}
use banjax.Config.Priorities.{PriorityMap, count, put}

-- The keys go up.
abbrev pub IsAscending : PriorityMap → Type 0
IsAscending [] = Unit
IsAscending ((p, name) ∷ m) = All (λ e. ltb_ℤ p e.0 ≡ true) m × IsAscending m

abbrev pub names : PriorityMap → List Bytes
names m = map (λ e. e.1) m

ltb_ℤ_trans : (a b c : ℤ) → ltb_ℤ a b ≡ true → ltb_ℤ b c ≡ true → ltb_ℤ a c ≡ true
ltb_ℤ_trans a b c h k = ground arith

ltb_ℤ_same :
    (a b c : ℤ) → ltb_ℤ a b ≡ false → ltb_ℤ b a ≡ false → ltb_ℤ b c ≡ true → ltb_ℤ a c ≡ true
ltb_ℤ_same a b c h h' k = ground arith

pub All-map {ℓ} :
    {A : Type ℓ} {P Q : A → Type 0} (xs : List A) → ((x : A) → P x → Q x) → All P xs → All Q xs
All-map [] f a = tt
All-map (x ∷ xs) f (a, b) = (f x a, All-map xs f b)

pub put-All :
    (P : ℤ × Bytes → Type 0) (p : ℤ) (name : Bytes) (m : PriorityMap)
    → P (p, name)
    → All P m
    → All P (put p name m)
unfolding put
put-All P p name [] h a = (h, tt)
put-All P p name ((q, other) ∷ m) h (k, a) = elim (Bool-cases (ltb_ℤ p q)) [
  | inl b ↦ rw b (h, (k, a))
  | inr b ↦ elim (Bool-cases (ltb_ℤ q p)) [
    | inl c ↦ rw (b, c) (k, put-All P p name m h a)
    | inr c ↦ rw (b, c) (h, a)
  ]
]

pub put-IsAscending :
    (p : ℤ) (name : Bytes) (m : PriorityMap) → IsAscending m → IsAscending (put p name m)
unfolding put
put-IsAscending p name [] s = (tt, tt)
put-IsAscending p name ((q, other) ∷ m) (a, s) = elim (Bool-cases (ltb_ℤ p q)) [
  | inl b ↦ rw b ((b, All-map m (λ e h. ltb_ℤ_trans p q e.0 b h) a), (a, s))
  | inr b ↦ elim (Bool-cases (ltb_ℤ q p)) [
    | inl c ↦ rw (b, c) (put-All (λ e. ltb_ℤ q e.0 ≡ true) p name m c a, put-IsAscending p name m s)
    | inr c ↦ rw (b, c) (All-map m (λ e h. ltb_ℤ_same p q e.0 b c h) a, s)
  ]
]

pub put-names :
    (p : ℤ) (name : Bytes) (m : PriorityMap)
    → count p m ≡ false
    → Perm (names (put p name m)) (name ∷ names m)
unfolding put count
put-names p name [] n = Perm.refl (name ∷ [])
put-names p name ((q, other) ∷ m) n = elim (Bool-cases (ltb_ℤ p q)) [
  | inl b ↦ rw b (Perm.refl _)
  | inr b ↦ elim (Bool-cases (ltb_ℤ q p)) [
    | inr c ↦ absurd (ground (arith, n, b, c))
    | inl c ↦
        rw (b, c)
          (Perm.trans (Perm.cons other (put-names p name m (ground (arith, n, b, c))))
            (Perm.swap name other (names m)))
  ]
]
