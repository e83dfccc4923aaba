-- ===== src/Config/Priorities.antt =====
-- `Banjax::read_configuration`: the priorities of the filters.
pub mod Ordered
pub mod Assigned
use banjax.Base.{
  ℕ, Bool, true, false, not, ◌||◌, List, [], ◌∷◌, Option, none, some, Bytes, Dict, lookup, any,
  if◌then◌else◌,
}
use banjax.Base.Int.{ℤ, pos, ltb_ℤ, ◌+ℤ◌, in_int}
use banjax.Config.Read.{
  Reading, done, aborted, uncaught, overflow, ◌>>=◌, FilterConfig, Configuration,
}

-- `std::map<int, string>`, in the order of the keys.
abbrev pub PriorityMap : Type 0
PriorityMap = List (ℤ × Bytes)

abbrev pub same_ℤ : ℤ → ℤ → Bool
same_ℤ a b = not (ltb_ℤ a b || ltb_ℤ b a)

unfoldable pub count : ℤ → PriorityMap → Bool
count p m = any (λ e. same_ℤ p e.0) m

unfoldable pub put : ℤ → Bytes → PriorityMap → PriorityMap
put p name [] = (p, name) ∷ []
put p name ((q, other) ∷ m) =
    if ltb_ℤ p q
    then (p, name) ∷ (q, other) ∷ m
    else if ltb_ℤ q p
    then (q, other) ∷ put p name m
    else (p, name) ∷ m

abbrev larger : ℤ → ℤ → ℤ
larger a b = if ltb_ℤ b a then a else b

-- The loop over the list. The exception of a value that is no number is not caught there.
unfoldable pub max_of : List (Bytes × Option ℤ) → ℤ → Reading ℤ
max_of [] max_priority = done max_priority
max_of ((name, none) ∷ l) max_priority = uncaught
max_of ((name, some p) ∷ l) max_priority = max_of l (larger p max_priority)

unfoldable pub max_priority_of : List (Bytes × Option ℤ) → Reading ℤ
unfolding max_of
max_priority_of [] = done (pos 0)
max_priority_of ((name, none) ∷ l) = aborted
max_priority_of ((name, some p) ∷ l) = max_of ((name, some p) ∷ l) p

abbrev int_sum : ℤ → ℤ → Reading ℤ
int_sum a b = if in_int (a +ℤ b) then done (a +ℤ b) else overflow

-- The priority in the list, or one after all of the list.
unfoldable pub priority_of : List (Bytes × Option ℤ) → ℤ → Bytes → ℤ → Reading ℤ
priority_of priorities max_priority name old = elim (lookup name priorities) [
  | some (some p) ↦ done p
  | some none ↦ uncaught
  | none ↦ int_sum max_priority (pos 1) >>= int_sum old
]

module _ {N : Type 0} (priorities : List (Bytes × Option ℤ)) (max_priority : ℤ) where
  unfoldable pub assign_priorities :
      Dict (FilterConfig N) → PriorityMap → Reading (Dict (FilterConfig N) × PriorityMap)
  unfolding priority_of count put
  assign_priorities [] m = done ([], m)
  assign_priorities ((name, f) ∷ fs) m =
      priority_of priorities max_priority name f.priority >>= λ p.
      if count p m
      then aborted
      else (assign_priorities fs (put p name m) >>= λ (fs', m').
          done ((name, record f { priority = p }) ∷ fs', m'))

unfoldable pub read_priorities :
    {N : Type 0} → Configuration N → Reading (Configuration N × PriorityMap)
unfolding max_priority_of assign_priorities
read_priorities c = max_priority_of c.priorities >>= λ max_priority.
    assign_priorities c.priorities max_priority c.filter_config_map [] >>= λ (fs, m).
    done (record c { filter_config_map = fs }, m)
