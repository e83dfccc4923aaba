-- ===== src/Plugin/Lifetime/Settled.antt =====
-- The start and the end of a transaction, and the end of a `Banjax` that nobody holds.
use banjax.Base.{
  ℕ, ◌≡◌, inl, inr, refl, sym, ap, subst, arith, true, List, [], ◌∷◌, All, ◌==◌, Bool-cases,
}
use banjax.Plugin.State.{Banjax}
use banjax.Plugin.Lifetime.{
  Started, Process, StartEvent, txn_start, unexpected, held, without, with_actions, drop_unheld,
  settle, handle_transaction_start, end_transaction,
}
use banjax.Plugin.Lifetime.Actions.{
  OwnsActions, all_actions, kept, drop_unheld-older, kept-IsBelow, kept-All,
}
use banjax.Plugin.Lifetime.Living.{All-imp, IsRetired, is_among, living, IsSound, IsUnsettled}

holders-held : (ts : List Started) → All (λ t. held ts t.banjax ≡ true) ts
holders-held [] = tt
holders-held (u ∷ ts) =
    let rest =
      All-imp (λ t. held ts t.banjax ≡ true) (λ t. held ts t.banjax ≡ true)
        (λ t. held (u ∷ ts) t.banjax ≡ true) ts (λ t h k. ground (arith, h)) in
    (ground arith, rest (holders-held ts) (holders-held ts))

without-All :
    (P : Started → Type 0) (txnp : ℕ) (ts : List Started) → All P ts → All P (without txnp ts)
unfolding without
without-All P txnp [] i = tt
without-All P txnp (t ∷ ts) i = elim (Bool-cases (t.txnp == txnp)) [
  | inl e ↦ rw e (without-All P txnp ts i.1)
  | inr e ↦ rw e (i.0, without-All P txnp ts i.1)
]

module _ {N : Type 0} where
  kept-held :
      (ts : List Started) (bs : List (Banjax N)) → All (λ b. held ts b.number ≡ true) (kept ts bs)
  kept-held ts [] = tt
  kept-held ts (b ∷ bs) = elim (Bool-cases (held ts b.number)) [
    | inl e ↦ rw e (e, kept-held ts bs)
    | inr e ↦ rw e (kept-held ts bs)
  ]

  is_among-kept :
      (ts : List Started) (bs : List (Banjax N)) (n : ℕ)
      → held ts n ≡ true
      → is_among bs n ≡ true
      → is_among (kept ts bs) n ≡ true
  is_among-kept ts [] n h i = i
  is_among-kept ts (b ∷ bs) n h i = elim (Bool-cases (held ts b.number)) [
    | inl e ↦ ground (arith, e, is_among-kept ts bs n h)
    | inr e ↦ ground (arith, e, is_among-kept ts bs n h)
  ]

  abbrev settled : Process N → Process N
  settled p =
      let k = kept p.transactions p.older in
      record p { older = k; actions = with_actions p.plugin.current_state (all_actions k) }

  settle-settled : (p : Process N) → IsUnsettled p → settle p ≡ settled p
  unfolding settle
  settle-settled p u =
      let c = p.plugin.current_state in
      let e : drop_unheld p.transactions p.older p.actions ≡ (
        kept p.transactions p.older,
        with_actions c (all_actions (kept p.transactions p.older)),
      ) =
        rw u.actions_live (
          drop_unheld-older p.transactions c p.older u.numbers_fall.1 u.actions_own.0
            u.actions_own.1) in
      ap (λ r. record p { older = r.0; actions = r.1 }) e

  settled-IsSound : (p : Process N) → IsUnsettled p → IsSound (settled p)
  settled-IsSound p u =
      let ts = p.transactions in
      let c = p.plugin.current_state in
      record {
        numbers_fall = (u.numbers_fall.0, kept-IsBelow ts c.number p.older u.numbers_fall.1);
        actions_own = (u.actions_own.0, kept-All OwnsActions ts p.older u.actions_own.1);
        actions_live = refl;
        consumer_current = u.consumer_current;
        older_retired = kept-All IsRetired ts p.older u.older_retired;
        transactions_safe =
            All-imp (λ t. held ts t.banjax ≡ true) (λ t. is_among (living p) t.banjax ≡ true)
              (λ t. is_among (c ∷ kept ts p.older) t.banjax ≡ true) ts
              (λ t h i. ground (arith, is_among-kept ts p.older t.banjax h)) (holders-held ts)
              u.transactions_safe;
        older_held = kept-held ts p.older;
      }

  pub settle-IsSound : (p : Process N) → IsUnsettled p → IsSound (settle p)
  settle-IsSound p u = subst IsSound (sym (settle-settled p u)) (settled-IsSound p u)

  pub handle_transaction_start-IsSound :
      (event : StartEvent) (txnp : ℕ) (p : Process N)
      → IsSound p
      → IsSound (handle_transaction_start event txnp p)
  unfolding handle_transaction_start
  handle_transaction_start-IsSound unexpected txnp p s = s
  handle_transaction_start-IsSound txn_start txnp p s = record {
    numbers_fall = s.numbers_fall;
    actions_own = s.actions_own;
    actions_live = s.actions_live;
    consumer_current = s.consumer_current;
    older_retired = s.older_retired;
    transactions_safe = (ground arith, s.transactions_safe);
    older_held =
        All-imp (λ b. held p.transactions b.number ≡ true)
          (λ b. held p.transactions b.number ≡ true) _ p.older (λ b h k. ground (arith, h))
          s.older_held s.older_held;
  }

  pub end_transaction-IsSound :
      (txnp : ℕ) (p : Process N) → IsSound p → IsSound (end_transaction txnp p)
  unfolding end_transaction
  end_transaction-IsSound txnp p s =
      settle-IsSound (record p { transactions = without txnp p.transactions })
        (record {
          numbers_fall = s.numbers_fall;
          actions_own = s.actions_own;
          actions_live = s.actions_live;
          consumer_current = s.consumer_current;
          older_retired = s.older_retired;
          transactions_safe =
              without-All (λ t. is_among (living p) t.banjax ≡ true) txnp p.transactions
                s.transactions_safe;
        })
