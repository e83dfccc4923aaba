-- ===== src/Plugin/Lifetime/Actions.antt =====
-- The scheduled actions: those of the `Banjax` that are alive, in the order of their numbers.
use banjax.Base.{
  ℕ, ◌≡◌, ◌<◌, ◌≤◌, inl, inr, refl, sym, arith, List, [], ◌∷◌, ◌++◌, All, append_assoc, Bool-cases,
  if◌then◌else◌,
}
use banjax.Plugin.State.{Action, Banjax, cancel, destroy}
use banjax.Plugin.Lifetime.{Started, held, prepend, with_actions, drop_unheld}
use banjax.Plugin.Lifetime.Cancelled.{
  OwnsAction, IsAbove, IsUnder, cancel-append, cancel-IsAbove, cancel-prepend, prepend-append,
  prepend-IsUnder, prepend-IsAbove, IsAbove-append, IsAbove-le,
}

module _ {N : Type 0} where
  -- The actions of a `Banjax` are its own.
  abbrev pub OwnsActions : Banjax N → Type 0
  OwnsActions b =
      OwnsAction b.number b.report_status_action
      × OwnsAction b.number b.remove_expired_challenges_action

  -- The numbers fall strictly, from below `n`.
  abbrev pub IsBelow : ℕ → List (Banjax N) → Type 0
  IsBelow n [] = Unit
  IsBelow n (b ∷ bs) = (b.number < n) × IsBelow b.number bs

  abbrev pub all_actions : List (Banjax N) → List Action
  all_actions [] = []
  all_actions (b ∷ bs) = with_actions b (all_actions bs)

  abbrev pub kept : List Started → List (Banjax N) → List (Banjax N)
  kept ts [] = []
  kept ts (b ∷ bs) = let rest = kept ts bs in if held ts b.number then b ∷ rest else rest

  -- `b` is the one of some list that is tested next.
  destroy-with_actions :
      (n : ℕ) (b : Banjax N) (p l : List Action)
      → b.number < n
      → OwnsActions b
      → IsAbove n p
      → IsUnder b.number l
      → destroy b (p ++ with_actions b l) ≡ p ++ l
  unfolding destroy
  destroy-with_actions n b p l h w i j =
      let r = b.report_status_action in
      let s = b.remove_expired_challenges_action in
      rw
        (
          cancel-append r p (with_actions b l),
          cancel-IsAbove n b.number r p h w.0 i,
          cancel-append s p (cancel r (with_actions b l)),
          cancel-IsAbove n b.number s p h w.1 i,
          cancel-prepend b.number r s l w.0 w.1 j,
        )
        refl

  IsBelow-le : (n k : ℕ) (bs : List (Banjax N)) → n ≤ k → IsBelow n bs → IsBelow k bs
  IsBelow-le n k [] h i = tt
  IsBelow-le n k (b ∷ bs) h i = (omega (arith, i.0), i.1)

  pub kept-IsBelow :
      (ts : List Started) (n : ℕ) (bs : List (Banjax N)) → IsBelow n bs → IsBelow n (kept ts bs)
  kept-IsBelow ts n [] i = tt
  kept-IsBelow ts n (b ∷ bs) i =
      let j = kept-IsBelow ts b.number bs i.1 in
      elim (Bool-cases (held ts b.number)) [
        | inl e ↦ rw e (i.0, j)
        | inr e ↦ rw e (IsBelow-le b.number n (kept ts bs) (omega (arith, i.0)) j)
      ]

  pub kept-All :
      (P : Banjax N → Type 0) (ts : List Started) (bs : List (Banjax N))
      → All P bs
      → All P (kept ts bs)
  kept-All P ts [] i = tt
  kept-All P ts (b ∷ bs) i = elim (Bool-cases (held ts b.number)) [
    | inl e ↦ rw e (i.0, kept-All P ts bs i.1)
    | inr e ↦ rw e (kept-All P ts bs i.1)
  ]

  all_actions-IsUnder :
      (n : ℕ) (bs : List (Banjax N))
      → IsBelow n bs
      → All OwnsActions bs
      → IsUnder n (all_actions bs)
  all_actions-IsUnder n [] i w = tt
  all_actions-IsUnder n (b ∷ bs) i w =
      let j = all_actions-IsUnder n bs (IsBelow-le b.number n bs (omega (arith, i.0)) i.1) w.1 in
      prepend-IsUnder b.number n b.report_status_action _ i.0 w.0.0
        (prepend-IsUnder b.number n b.remove_expired_challenges_action _ i.0 w.0.1 j)

  with_actions-append :
      (b : Banjax N) (p l : List Action) → p ++ with_actions b l ≡ (p ++ with_actions b []) ++ l
  with_actions-append b p l =
      let r = b.report_status_action in
      let s = b.remove_expired_challenges_action in
      rw
        (
          append_assoc p (with_actions b []) l,
          sym (prepend-append r (prepend s []) l),
          sym (prepend-append s [] l),
        )
        refl

  -- What is destroyed takes its actions along, and nothing else does.
  drop_unheld-kept :
      (ts : List Started) (n : ℕ) (bs : List (Banjax N)) (p : List Action)
      → IsBelow n bs
      → All OwnsActions bs
      → IsAbove n p
      → drop_unheld ts bs (p ++ all_actions bs) ≡ (kept ts bs, p ++ all_actions (kept ts bs))
  unfolding drop_unheld
  drop_unheld-kept ts n [] p i w a = refl
  drop_unheld-kept ts n (b ∷ bs) p i w a =
      let k = kept ts bs in
      let above : IsAbove b.number (p ++ with_actions b []) =
        IsAbove-append b.number p (with_actions b [])
          (IsAbove-le n b.number p (omega (arith, i.0)) a)
          (prepend-IsAbove b.number b.report_status_action _ w.0.0
            (prepend-IsAbove b.number b.remove_expired_challenges_action [] w.0.1 tt)) in
      let ih = drop_unheld-kept ts b.number bs (p ++ with_actions b []) i.1 w.1 above in
      let gone : destroy b (p ++ with_actions b (all_actions k)) ≡ p ++ all_actions k =
        destroy-with_actions n b p (all_actions k) i.0 w.0 a (
          all_actions-IsUnder b.number k (kept-IsBelow ts b.number bs i.1)
            (kept-All OwnsActions ts bs w.1)) in
      let step : drop_unheld ts bs (p ++ with_actions b (all_actions bs))
          ≡ (k, p ++ with_actions b (all_actions k)) =
        rw (with_actions-append b p (all_actions bs), with_actions-append b p (all_actions k)) ih in
      elim (Bool-cases (held ts b.number)) [
        | inl e ↦ rw (e, step) refl
        | inr e ↦ rw (e, step, gone) refl
      ]

  -- The same for those behind the current one.
  pub drop_unheld-older :
      (ts : List Started) (b : Banjax N) (bs : List (Banjax N))
      → IsBelow b.number bs
      → OwnsActions b
      → All OwnsActions bs
      → drop_unheld ts bs (with_actions b (all_actions bs))
        ≡ (kept ts bs, with_actions b (all_actions (kept ts bs)))
  drop_unheld-older ts b bs i v w =
      let above : IsAbove b.number (with_actions b []) =
        prepend-IsAbove b.number b.report_status_action _ v.0
          (prepend-IsAbove b.number b.remove_expired_challenges_action [] v.1 tt) in
      rw
        (
          with_actions-append b [] (all_actions bs),
          with_actions-append b [] (all_actions (kept ts bs)),
        )
        (drop_unheld-kept ts b.number bs (with_actions b []) i w above)
