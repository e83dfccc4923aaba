-- ===== src/Config/Read/Collected.antt =====
-- The nodes that each filter gets.
use mathlib.Core.Option.{some-injective}
use banjax.Base.{
  ℕ, ◌≡◌, ◌≢◌, inl, inr, refl, ap, sym, ◌∙◌, subst, Bool, true, false, List, [], ◌∷◌, ◌++◌, Option,
  none, some, Bytes, beq, Dict, lookup, insert_sorted, lookup-insert_sorted, beq_iff, bytes_ltb,
  if◌then◌else◌, arith, All, Bool-cases, Option-cases, append-nil, append_assoc,
}
use banjax.Base.Int.{pos, ltb_ℤ}
use banjax.Config.Read.{
  done, Document, Yaml, FilterConfig, Configuration, filter_node, swabber_node, priority_node,
  include_node, kafka_node, report_status_interval, remove_expired_interval, unknown_node, kind_of,
  is_filter, add_filter_node, process_config,
}
use banjax.Config.Read.Expanded.{expand, Effect, Ran, stop, step, process_config-Ran}

is_filter-kind_of : (f : Bytes) → is_filter f ≡ true → kind_of f ≡ filter_node
unfolding kind_of
is_filter-kind_of f e = rw e refl

-- The other branches of the chain end with other kinds.
other_kind :
    (a b c d e f : Bool)
    → (if a
        then swabber_node
        else if b
        then priority_node
        else if c
        then include_node
        else if d
        then kafka_node
        else if e
        then report_status_interval
        else if f
        then remove_expired_interval
        else unknown_node)
      ≢ filter_node
other_kind true b c d e f h = cc h
other_kind false true c d e f h = cc h
other_kind false false true d e f h = cc h
other_kind false false false true e f h = cc h
other_kind false false false false true f h = cc h
other_kind false false false false false true h = cc h
other_kind false false false false false false h = cc h

kind_of-is_filter : (f : Bytes) → kind_of f ≡ filter_node → is_filter f ≡ true
unfolding kind_of
kind_of-is_filter f e = elim (Bool-cases (is_filter f)) [
  | inl b ↦ b
  | inr b ↦ absurd (other_kind _ _ _ _ _ _ (rw (b, kind_of) at e))
]

module _ {N : Type 0} where
  abbrev config_nodes : Option (FilterConfig N) → List N
  config_nodes none = []
  config_nodes (some f) = f.config_node_list

  -- The list of nodes of a filter, and the nodes that a list of entries has under its name.
  unfoldable pub nodes_in : Bytes → Dict (FilterConfig N) → List N
  nodes_in name m = config_nodes (lookup name m)

  unfoldable pub nodes_of : Bytes → List (Bytes × N) → List N
  nodes_of name [] = []
  nodes_of name ((key, node) ∷ l) = if beq key name then node ∷ nodes_of name l else nodes_of name l

  nodes_in-insert :
      (f key : Bytes) (g : FilterConfig N) (m : Dict (FilterConfig N))
      → nodes_in f (insert_sorted key g m)
        ≡ (if beq key f then g.config_node_list else nodes_in f m)
  unfolding nodes_in
  nodes_in-insert f key g m = elim (Bool-cases (beq key f)) [
    | inl b ↦ ap config_nodes (lookup-insert_sorted key f g m) ∙ rw b refl
    | inr b ↦ ap config_nodes (lookup-insert_sorted key f g m) ∙ rw b refl
  ]

  -- What is known of the map under a key is known under an equal key.
  nodes_in_same :
      (f key : Bytes) (m : Dict (FilterConfig N)) → beq key f ≡ true → nodes_in key m ≡ nodes_in f m
  nodes_in_same f key m b = ap (λ k. nodes_in k m) ((beq_iff key f).0 b)

  nodes_in_eq :
      (key : Bytes) (m : Dict (FilterConfig N)) (o : Option (FilterConfig N))
      → lookup key m ≡ o
      → nodes_in key m ≡ config_nodes o
  unfolding nodes_in
  nodes_in_eq key m o e = ap config_nodes e

  nodes_in-add :
      (f key : Bytes) (node : N) (n : ℕ) (m : Dict (FilterConfig N))
      → nodes_in f (add_filter_node key node n m).1
        ≡ (if beq key f then nodes_in key m ++ node ∷ [] else nodes_in f m)
  unfolding add_filter_node
  nodes_in-add f key node n m = elim (Option-cases (lookup key m)) [
    | inl o ↦
        rw (o, add_filter_node) (nodes_in-insert f key _ m)
        ∙ ap (λ l. if beq key f then l ++ node ∷ [] else nodes_in f m)
            (sym (nodes_in_eq key m none o))
    | inr (g, o) ↦
        rw (o, add_filter_node) (nodes_in-insert f key _ m)
        ∙ ap (λ l. if beq key f then l ++ node ∷ [] else nodes_in f m)
            (sym (nodes_in_eq key m (some g) o))
  ]

  nodes_in-Effect :
      (f key : Bytes) (node : N) (m m' : Dict (FilterConfig N))
      → kind_of f ≡ filter_node
      → Effect key node m m'
      → nodes_in f m' ≡ nodes_in f m ++ nodes_of f ((key, node) ∷ [])
  unfolding Effect nodes_of
  nodes_in-Effect f key node m m' k (inl (_, n, q)) = elim (Bool-cases (beq key f)) [
    | inl b ↦
        ap (nodes_in f) q
        ∙ nodes_in-add f key node n m
        ∙ rw b (ap (λ l. l ++ node ∷ []) (nodes_in_same f key m b))
    | inr b ↦
        ap (nodes_in f) q ∙ nodes_in-add f key node n m ∙ rw b (sym (append-nil (nodes_in f m)))
  ]
  nodes_in-Effect f key node m m' k (inr (n, q)) = elim (Bool-cases (beq key f)) [
    | inl b ↦ absurd (n (ap kind_of ((beq_iff key f).0 b) ∙ k))
    | inr b ↦ ap (nodes_in f) q ∙ rw b (sym (append-nil (nodes_in f m)))
  ]

  nodes_of-cons :
      (f key : Bytes) (node : N) (l : List (Bytes × N))
      → nodes_of f ((key, node) ∷ l) ≡ nodes_of f ((key, node) ∷ []) ++ nodes_of f l
  unfolding nodes_of
  nodes_of-cons f key node l = ground arith

  nodes_in-Ran :
      (f : Bytes) {m m' : Dict (FilterConfig N)} {l : List (Bytes × N)}
      → kind_of f ≡ filter_node
      → Ran m l m'
      → nodes_in f m' ≡ nodes_in f m ++ nodes_of f l
  unfolding nodes_of
  nodes_in-Ran f k stop = sym (append-nil _)
  nodes_in-Ran f k (step {m = m} {m1 = m1} {name = key} {node = node} {l = l} e r) =
      nodes_in-Ran f k r
      ∙ ap (λ x. x ++ nodes_of f l) (nodes_in-Effect f key node m m1 k e)
      ∙ append_assoc (nodes_in f m) (nodes_of f ((key, node) ∷ [])) (nodes_of f l)
      ∙ ap (◌++◌ (nodes_in f m)) (sym (nodes_of-cons f key node l))

  -- The nodes that a filter has after the configuration is read are those it had, and after them
  -- the nodes under its name in the configuration with each included file in the place of its
  -- name, in that order.
  pub process_config-nodes_in :
      (yaml : Yaml N) (dir : Bytes) (fuel : ℕ) (cfg : Document N) (c c' : Configuration N)
      (f : Bytes)
      → is_filter f ≡ true
      → process_config yaml dir fuel cfg c ≡ done c'
      → nodes_in f c'.filter_config_map
        ≡ nodes_in f c.filter_config_map ++ nodes_of f (expand yaml dir fuel cfg)
  process_config-nodes_in yaml dir fuel cfg c c' f k e =
      nodes_in-Ran f (is_filter-kind_of f k) (process_config-Ran yaml dir fuel cfg c c' e)

  -- An entry of the map that any `add_filter_node` leaves.
  abbrev pub IsEntry : Bytes × FilterConfig N → Type 0
  IsEntry e = (is_filter e.0 ≡ true) × (ltb_ℤ e.1.priority (pos 0) ≡ false)

  insert_sorted-All :
      (P : Bytes × FilterConfig N → Type 0) (key : Bytes) (g : FilterConfig N)
      (m : Dict (FilterConfig N))
      → P (key, g)
      → All P m
      → All P (insert_sorted key g m)
  unfolding insert_sorted
  insert_sorted-All P key g [] h a = (h, tt)
  insert_sorted-All P key g ((j, w) ∷ m) h (k, a) = elim (Bool-cases (bytes_ltb key j)) [
    | inl b ↦ rw b (h, (k, a))
    | inr b ↦ elim (Bool-cases (bytes_ltb j key)) [
      | inl d ↦ rw (b, d) (k, insert_sorted-All P key g m h a)
      | inr d ↦ rw (b, d) (h, a)
    ]
  ]

  lookup-All :
      (key : Bytes) (g : FilterConfig N) (m : Dict (FilterConfig N))
      → lookup key m ≡ some g
      → All IsEntry m
      → ltb_ℤ g.priority (pos 0) ≡ false
  unfolding lookup
  lookup-All key g [] e a = absurd (cc e)
  lookup-All key g ((j, w) ∷ m) e ((_, k), a) = elim (Bool-cases (beq j key)) [
    | inl b ↦ ap (λ x. ltb_ℤ x.priority (pos 0)) (sym (some-injective w g (rw b at e))) ∙ k
    | inr b ↦ lookup-All key g m (rw b at e) a
  ]

  Effect-All :
      (key : Bytes) (node : N) (m m' : Dict (FilterConfig N))
      → Effect key node m m'
      → All IsEntry m
      → All IsEntry m'
  unfolding Effect add_filter_node
  Effect-All key node m m' (inr (_, q)) a = subst (All IsEntry) (sym q) a
  Effect-All key node m m' (inl (k, n, q)) a = elim (Option-cases (lookup key m)) [
    | inl o ↦
        subst (All IsEntry) (sym (rw (o, add_filter_node) at q))
          (insert_sorted-All IsEntry key _ m (kind_of-is_filter key k, ground arith) a)
    | inr (g, o) ↦
        subst (All IsEntry) (sym (rw (o, add_filter_node) at q))
          (insert_sorted-All IsEntry key _ m (kind_of-is_filter key k, lookup-All key g m o a) a)
  ]

  Ran-All :
      {m m' : Dict (FilterConfig N)} {l : List (Bytes × N)}
      → Ran m l m'
      → All IsEntry m
      → All IsEntry m'
  Ran-All stop a = a
  Ran-All (step {m = m} {m1 = m1} {name = key} {node = node} e r) a =
      Ran-All r (Effect-All key node m m1 e a)

  pub process_config-IsEntry :
      (yaml : Yaml N) (dir : Bytes) (fuel : ℕ) (cfg : Document N) (c c' : Configuration N)
      → All IsEntry c.filter_config_map
      → process_config yaml dir fuel cfg c ≡ done c'
      → All IsEntry c'.filter_config_map
  process_config-IsEntry yaml dir fuel cfg c c' a e =
      Ran-All (process_config-Ran yaml dir fuel cfg c c' e) a
