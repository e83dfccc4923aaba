-- ===== src/Config/Priorities/Assigned.antt =====
-- Every filter of the configuration gets one place, in the order of the priorities.
use mathlib.Core.List.{Perm, perm_middle}
use mathlib.Core.List.Perm
use mathlib.Core.Option.{some-injective}
use banjax.Base.{
  ◌≡◌, inl, inr, ap, sym, ◌∙◌, subst, true, false, List, [], ◌∷◌, ◌++◌, Option, none, some, Bytes,
  Dict, lookup, All, map, arith, Bool-cases, Option-cases, append-nil, leb→le, lt→ltb, ltb_false→le,
  ◌+◌,
}
use banjax.Base.Int.{ℤ, pos, ltb_ℤ, leb_ℤ, ◌+ℤ◌, in_int, pos_part, neg_part}
use banjax.Config.Read.{done, done-bind, done_inj, FilterConfig, Configuration}
use banjax.Config.Priorities.{
  PriorityMap, count, put, max_of, max_priority_of, int_sum, priority_of, assign_priorities,
  read_priorities,
}
use banjax.Config.Priorities.Ordered.{
  IsAscending, names, All-map, put-All, put-IsAscending, put-names,
}

module _ {N : Type 0} (priorities : List (Bytes × Option ℤ)) (max_priority : ℤ)
    (P : ℤ × Bytes → Type 0) where
  -- Whatever priority a filter gets, its entry has the property.
  Fits : Bytes × FilterConfig N → Type 0
  Fits e = (p : ℤ) → priority_of priorities max_priority e.0 e.1.priority ≡ done p → P (p, e.0)

  Ordered : Dict (FilterConfig N) → PriorityMap → PriorityMap → Type 0
  Ordered fs m m' = IsAscending m' × Perm (names m') (map (λ e. e.0) fs ++ names m) × All P m'

  assign-Ordered :
      (fs fs' : Dict (FilterConfig N)) (m m' : PriorityMap)
      → assign_priorities priorities max_priority fs m ≡ done (fs', m')
      → IsAscending m
      → All P m
      → All Fits fs
      → Ordered fs m m'
  unfolding assign_priorities Ordered Fits
  assign-Ordered [] fs' m m' e s a fits =
      let q : m ≡ m' = ap (λ r. r.1) (done_inj ([], m) (fs', m') e) in
      subst (λ k. IsAscending k × Perm (names k) (names m) × All P k) q (s, Perm.refl (names m), a)
  assign-Ordered ((name, f) ∷ fs) fs' m m' e s a (fit, fits) =
      let (p, e1, e2) =
        done-bind (priority_of priorities max_priority name f.priority) _ (fs', m') e in
      elim (Bool-cases (count p m)) [
        | inl c ↦ absurd (cc (rw c at e2))
        | inr c ↦
            let (r, e3, e4) =
              done-bind (assign_priorities priorities max_priority fs (put p name m)) _ (fs', m')
                (rw c at e2) in
            let q : r.1 ≡ m' = ap (λ r. r.1) (done_inj _ (fs', m') e4) in
            let (s', perm, a') =
              assign-Ordered fs r.0 (put p name m) r.1 e3 (put-IsAscending p name m s)
                (put-All P p name m (fit p e1) a) fits in
            subst
              (λ k.
                IsAscending k × Perm (names k) (name ∷ (map (λ e. e.0) fs ++ names m)) × All P k)
              q
              (
                s',
                Perm.trans perm (
                    Perm.trans (Perm.append_left (map (λ e. e.0) fs) (put-names p name m c))
                      (perm_middle (map (λ e. e.0) fs) (names m))),
                a',
              )
      ]

-- The sum of integers, by their parts.
parts-sum :
    (a b : ℤ)
    → pos_part (a +ℤ b) + (neg_part a + neg_part b) ≡ neg_part (a +ℤ b) + (pos_part a + pos_part b)
parts-sum a b = ground arith

after_max :
    (q mx old s p : ℤ)
    → leb_ℤ q mx ≡ true
    → ltb_ℤ old (pos 0) ≡ false
    → s ≡ mx +ℤ pos 1
    → p ≡ old +ℤ s
    → ltb_ℤ q p ≡ true
after_max q mx old s p l n e f = lt→ltb _ _ (
    omega (
      arith,
      leb→le _ _ l,
      ltb_false→le _ _ n,
      parts-sum mx (pos 1),
      parts-sum old s,
      ap pos_part e,
      ap neg_part e,
      ap pos_part f,
      ap neg_part f,
    ))

int_sum-done : (a b s : ℤ) → int_sum a b ≡ done s → s ≡ a +ℤ b
int_sum-done a b s e = elim (Bool-cases (in_int (a +ℤ b))) [
  | inl i ↦ sym (done_inj (a +ℤ b) s (rw i at e))
  | inr i ↦ absurd (cc (rw i at e))
]

-- The numbers of the list are at most a bound.
Bounded : ℤ → List (Bytes × Option ℤ) → Type 0
Bounded mx l = All (λ e. (q : ℤ) → e.1 ≡ some q → leb_ℤ q mx ≡ true) l

max_of-Bounded :
    (l : List (Bytes × Option ℤ)) (x mx : ℤ)
    → max_of l x ≡ done mx
    → (leb_ℤ x mx ≡ true) × Bounded mx l
unfolding max_of Bounded
max_of-Bounded [] x mx e = (ground (arith, done_inj x mx e), tt)
max_of-Bounded ((name, none) ∷ l) x mx e = absurd (cc e)
max_of-Bounded ((name, some p) ∷ l) x mx e =
    let (h, b) = max_of-Bounded l _ mx e in (ground (arith, h), ((λ q k. ground (arith, h, k)), b))

max_priority_of-Bounded :
    (l : List (Bytes × Option ℤ)) (mx : ℤ) → max_priority_of l ≡ done mx → Bounded mx l
unfolding max_priority_of Bounded
max_priority_of-Bounded [] mx e = tt
max_priority_of-Bounded ((name, none) ∷ l) mx e = absurd (cc e)
max_priority_of-Bounded ((name, some p) ∷ l) mx e = (max_of-Bounded ((name, some p) ∷ l) p mx e).1

-- A filter in the list has its number there, any other filter comes after the whole list.
abbrev pub IsPlaced : List (Bytes × Option ℤ) → ℤ × Bytes → Type 0
IsPlaced priorities (p, name) =
    ((q : Option ℤ) → lookup name priorities ≡ some q → q ≡ some p)
    × (lookup name priorities ≡ none
        → All (λ e. (q : ℤ) → e.1 ≡ some q → ltb_ℤ q p ≡ true) priorities)

priority_of-IsPlaced :
    (priorities : List (Bytes × Option ℤ)) (mx : ℤ) (name : Bytes) (old p : ℤ)
    → Bounded mx priorities
    → ltb_ℤ old (pos 0) ≡ false
    → priority_of priorities mx name old ≡ done p
    → IsPlaced priorities (p, name)
unfolding priority_of Bounded
priority_of-IsPlaced priorities mx name old p b n e = elim (Option-cases (lookup name priorities)) [
  | inr (none, k) ↦ absurd (cc (rw (k, priority_of) at e))
  | inr (some v, k) ↦ (
    (λ q h.
        sym (some-injective (some v) q (sym k ∙ h))
        ∙ ap some (done_inj v p (rw (k, priority_of) at e))),
    (λ h. absurd (cc (sym k ∙ h))),
  )
  | inl k ↦
      let (s, e1, e2) = done-bind (int_sum mx (pos 1)) (int_sum old) p (rw (k, priority_of) at e) in
      (
        (λ q h. absurd (cc (sym k ∙ h))),
        (λ h.
            All-map priorities
              (λ r up q m.
                after_max q mx old s p (up q m) n (int_sum-done mx (pos 1) s e1)
                  (int_sum-done old s p e2))
              b),
      )
]

-- A configuration whose filters have their sequential numbers.
abbrev pub IsNumbered : {N : Type 0} → Configuration N → Type 0
IsNumbered c = All (λ e. ltb_ℤ e.1.priority (pos 0) ≡ false) c.filter_config_map

-- The map of priorities goes up, has each filter of the configuration once, and places it by the
-- priority list.
pub read_priorities-IsAscending :
    {N : Type 0}
    → (c c' : Configuration N) (m : PriorityMap) → IsNumbered c
    → read_priorities c ≡ done (c', m)
    → IsAscending m
      × Perm (names m) (map (λ e. e.0) c.filter_config_map)
      × All (IsPlaced c.priorities) m
unfolding read_priorities Ordered Fits
read_priorities-IsAscending c c' m n e =
    let (mx, e1, e2) = done-bind (max_priority_of c.priorities) _ (c', m) e in
    let (r, e3, e4) =
      done-bind (assign_priorities c.priorities mx c.filter_config_map []) _ (c', m) e2 in
    let q : r.1 ≡ m = ap (λ r. r.1) (done_inj _ (c', m) e4) in
    let (s, perm, a) =
      assign-Ordered c.priorities mx (IsPlaced c.priorities) c.filter_config_map r.0 [] r.1 e3 tt tt
        (All-map c.filter_config_map
          (λ x k p h.
            priority_of-IsPlaced c.priorities mx x.0 x.1.priority p
              (max_priority_of-Bounded c.priorities mx e1) k h)
          n) in
    subst
      (λ k.
        IsAscending k
        × Perm (names k) (map (λ e. e.0) c.filter_config_map)
        × All (IsPlaced c.priorities) k)
      q (s, rw (append-nil) at perm, a)

-- What holds of the filters of the configuration holds of the filters in the map of priorities.
pub read_priorities-All :
    {N : Type 0}
    → (P : Bytes → Type 0) (c c' : Configuration N) (m : PriorityMap)
    → All (λ e. P e.0) c.filter_config_map
    → read_priorities c ≡ done (c', m)
    → All (λ e. P e.1) m
unfolding read_priorities Ordered Fits
read_priorities-All P c c' m h e =
    let (mx, e1, e2) = done-bind (max_priority_of c.priorities) _ (c', m) e in
    let (r, e3, e4) =
      done-bind (assign_priorities c.priorities mx c.filter_config_map []) _ (c', m) e2 in
    let q : r.1 ≡ m = ap (λ r. r.1) (done_inj _ (c', m) e4) in
    let (s, perm, a) =
      assign-Ordered c.priorities mx (λ e. P e.1) c.filter_config_map r.0 [] r.1 e3 tt tt
        (All-map c.filter_config_map (λ x k p _. k) h) in
    subst (All (λ e. P e.1)) q a
