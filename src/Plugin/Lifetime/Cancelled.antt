-- ===== src/Plugin/Lifetime/Cancelled.antt =====
-- `TSActionCancel` on a list of actions by their owners.
use banjax.Base.{
  ℕ, ◌≡◌, ◌<◌, ◌≤◌, ◌⊎◌, inl, inr, refl, arith, true, List, [], ◌∷◌, ◌++◌, Option, none, some, All,
}
use banjax.Plugin.State.{
  ActionKind, report_status_g, remove_expired_challenges_g, Action, same_action, cancel,
}
use banjax.Plugin.Lifetime.{prepend}

abbrev pub OwnsAction : ℕ → Option Action → Type 0
OwnsAction n none = Unit
OwnsAction n (some a) = a.owner ≡ n

abbrev pub IsAbove : ℕ → List Action → Type 0
IsAbove n l = All (λ a. n ≤ a.owner) l

abbrev pub IsUnder : ℕ → List Action → Type 0
IsUnder n l = All (λ a. a.owner < n) l

kind_cases : (k : ActionKind) → (k ≡ report_status_g) ⊎ (k ≡ remove_expired_challenges_g)
kind_cases report_status_g = inl refl
kind_cases remove_expired_challenges_g = inr refl

pub cancel-append :
    (o : Option Action) (l m : List Action) → cancel o (l ++ m) ≡ cancel o l ++ cancel o m
unfolding cancel
cancel-append none l m = refl
cancel-append (some a) [] m = refl
cancel-append (some a) (x ∷ l) m = ground (arith, cancel-append (some a) l m)

pub cancel-IsAbove :
    (n k : ℕ) (o : Option Action) (l : List Action)
    → k < n
    → OwnsAction k o
    → IsAbove n l
    → cancel o l ≡ l
unfolding cancel
cancel-IsAbove n k none l h w i = refl
cancel-IsAbove n k (some a) [] h w i = refl
cancel-IsAbove n k (some a) (x ∷ l) h w i = ground (arith, cancel-IsAbove n k (some a) l h w i.1)

pub cancel-IsUnder :
    (n : ℕ) (o : Option Action) (l : List Action) → OwnsAction n o → IsUnder n l → cancel o l ≡ l
unfolding cancel
cancel-IsUnder n none l w i = refl
cancel-IsUnder n (some a) [] w i = refl
cancel-IsUnder n (some a) (x ∷ l) w i = ground (arith, cancel-IsUnder n (some a) l w i.1)

same_action_refl : (a : Action) → same_action a a ≡ true
same_action_refl a = elim (kind_cases a.kind) [
  | inl e ↦ ground (arith, e)
  | inr e ↦ ground (arith, e)
]

-- The action in front goes.
cancel_head :
    (n : ℕ) (a : Action) (l : List Action) → a.owner ≡ n → IsUnder n l → cancel (some a) (a ∷ l) ≡ l
unfolding cancel
cancel_head n a l v i = rw (same_action_refl a) (cancel-IsUnder n (some a) l v i)

cancel_two :
    (n : ℕ) (a b : Action) (l : List Action)
    → a.owner ≡ n
    → b.owner ≡ n
    → IsUnder n l
    → cancel (some b) (cancel (some a) (a ∷ b ∷ l)) ≡ l
unfolding cancel
cancel_two n a b l v w i =
    let ea = cancel-IsUnder n (some a) l v i in
    let eb = cancel-IsUnder n (some b) l w i in
    ground (arith, same_action_refl a, same_action_refl b, ea, eb)

pub cancel-prepend :
    (n : ℕ) (r s : Option Action) (l : List Action)
    → OwnsAction n r
    → OwnsAction n s
    → IsUnder n l
    → cancel s (cancel r (prepend r (prepend s l))) ≡ l
unfolding cancel
cancel-prepend n none none l v w i = refl
cancel-prepend n none (some b) l v w i = cancel_head n b l w i
cancel-prepend n (some a) none l v w i = cancel_head n a l v i
cancel-prepend n (some a) (some b) l v w i = cancel_two n a b l v w i

pub prepend-append : (o : Option Action) (l m : List Action) → prepend o (l ++ m) ≡ prepend o l ++ m
prepend-append none l m = refl
prepend-append (some a) l m = refl

pub prepend-IsUnder :
    (k n : ℕ) (o : Option Action) (l : List Action)
    → k < n
    → OwnsAction k o
    → IsUnder n l
    → IsUnder n (prepend o l)
prepend-IsUnder k n none l h w i = i
prepend-IsUnder k n (some a) l h w i = (omega (arith, w), i)

pub prepend-IsAbove :
    (n : ℕ) (o : Option Action) (l : List Action)
    → OwnsAction n o
    → IsAbove n l
    → IsAbove n (prepend o l)
prepend-IsAbove n none l w i = i
prepend-IsAbove n (some a) l w i = (omega (arith, w), i)

pub IsAbove-append : (n : ℕ) (l m : List Action) → IsAbove n l → IsAbove n m → IsAbove n (l ++ m)
IsAbove-append n [] m i j = j
IsAbove-append n (a ∷ l) m i j = (i.0, IsAbove-append n l m i.1 j)

pub IsAbove-le : (n k : ℕ) (l : List Action) → k ≤ n → IsAbove n l → IsAbove k l
IsAbove-le n k [] h i = tt
IsAbove-le n k (a ∷ l) h i = (omega (arith, i.0), IsAbove-le n k l h i.1)
