-- ===== src/Config/Read/Depth.antt =====
-- The fuel of `process_config` is enough for files that include one another to its depth.
use banjax.Base.{
  ℕ, zero, suc, ◌≡◌, ◌≢◌, inl, inr, refl, List, [], ◌∷◌, ◌++◌, Option, none, some, Bytes, codes,
  All, Option-cases,
}
use banjax.Base.Int.{ℤ}
use banjax.Config.Read.{
  Reading, done, aborted, uncaught, overflow, too_deep, ◌>>=◌, Document, Yaml, Configuration,
  NodeKind, filter_node, swabber_node, priority_node, include_node, kafka_node,
  report_status_interval, remove_expired_interval, unknown_node, kind_of, reset, set_priorities,
  include_all, process_node, process_nodes, process_config,
}

too_deep-bind {ℓ κ} :
    {A : Type ℓ} {B : Type κ} (r : Reading A) (f : A → Reading B)
    → r ≢ too_deep
    → ((a : A) → r ≡ done a → f a ≢ too_deep)
    → (r >>= f) ≢ too_deep
too_deep-bind (done a) f n h e = h a refl e
too_deep-bind aborted f n h e = cc e
too_deep-bind uncaught f n h e = cc e
too_deep-bind overflow f n h e = cc e
too_deep-bind too_deep f n h e = n refl

done-too_deep {ℓ} : {A : Type ℓ} (a : A) → done a ≢ too_deep
done-too_deep a e = cc e

module _ {N : Type 0} (yaml : Yaml N) (dir : Bytes) where
  priorities_end :
      (old l : List (Bytes × Option ℤ)) (c : Configuration N) → set_priorities old l c ≢ too_deep
  priorities_end [] l c e = cc e
  priorities_end (p ∷ ps) l c e = cc e

  -- The files of an `include` have the property.
  Includes : (Document N → Type 0) → List (Option Bytes) → Type 0
  Includes P subs =
      All
        (λ o.
          (sub : Bytes) (cfg : Document N)
          → o ≡ some sub
          → yaml.load_file (dir ++ codes "/" ++ sub) ≡ some cfg
          → P cfg)
        subs

  -- The files that a document includes, those that they include, and so on, end at a depth.
  unfoldable pub IsNested : ℕ → Document N → Type 0
  unfolding Includes
  IsNested zero cfg = ⊥
  IsNested (suc fuel) cfg =
      All
        (λ e.
          (name : Bytes)
          → e.0 ≡ some name
          → kind_of name ≡ include_node
          → Includes (IsNested fuel) (yaml.elements e.1))
        cfg

  module _ (nested : Document N → Configuration N → Reading (Configuration N))
      (P : Document N → Type 0)
      (ends : (cfg : Document N) (c : Configuration N) → P cfg → nested cfg c ≢ too_deep) where
    include_all-ends :
        (subs : List (Option Bytes)) (c : Configuration N)
        → Includes P subs
        → include_all yaml dir nested subs c ≢ too_deep
    unfolding include_all Includes
    include_all-ends [] c h e = cc e
    include_all-ends (none ∷ subs) c h e = cc e
    include_all-ends (some sub ∷ subs) c (h, hs) e =
        elim (Option-cases (yaml.load_file (dir ++ codes "/" ++ sub))) [
          | inl n ↦ cc (rw (n, include_all) at e)
          | inr (cfg, k) ↦
              too_deep-bind (nested cfg c) (include_all yaml dir nested subs)
                (ends cfg c (h sub cfg refl k)) (λ d _. include_all-ends subs d hs)
                (rw (k, include_all) at e)
        ]

    process_node-ends :
        (k : NodeKind) (name : Bytes) (node : N) (n : ℕ) (c : Configuration N)
        → kind_of name ≡ k
        → (kind_of name ≡ include_node → Includes P (yaml.elements node))
        → process_node yaml dir nested name node (n, c) ≢ too_deep
    unfolding process_node
    process_node-ends filter_node name node n c q h e = cc (rw (q, process_node) at e)
    process_node-ends swabber_node name node n c q h e = cc (rw (q, process_node) at e)
    process_node-ends kafka_node name node n c q h e = cc (rw (q, process_node) at e)
    process_node-ends unknown_node name node n c q h e = cc (rw (q, process_node) at e)
    process_node-ends priority_node name node n c q h e =
        too_deep-bind (set_priorities c.priorities (yaml.priority_list node) c) _
          (priorities_end c.priorities (yaml.priority_list node) c) (λ d _. done-too_deep _)
          (rw (q, process_node) at e)
    process_node-ends include_node name node n c q h e =
        too_deep-bind (include_all yaml dir nested (yaml.elements node) c) _
          (include_all-ends (yaml.elements node) c (h q)) (λ d _. done-too_deep _)
          (rw (q, process_node) at e)
    process_node-ends report_status_interval name node n c q h e =
        elim (Option-cases (yaml.as_int node)) [
          | inl o ↦ cc (rw (q, o, process_node) at e)
          | inr (v, o) ↦ cc (rw (q, o, process_node) at e)
        ]
    process_node-ends remove_expired_interval name node n c q h e =
        elim (Option-cases (yaml.as_int node)) [
          | inl o ↦ cc (rw (q, o, process_node) at e)
          | inr (v, o) ↦ cc (rw (q, o, process_node) at e)
        ]

    process_nodes-ends :
        (cfg : Document N) (n : ℕ) (c : Configuration N)
        → All
            (λ e.
              (name : Bytes)
              → e.0 ≡ some name
              → kind_of name ≡ include_node
              → Includes P (yaml.elements e.1))
            cfg
        → process_nodes yaml dir nested cfg (n, c) ≢ too_deep
    unfolding process_nodes
    process_nodes-ends [] n c h e = cc e
    process_nodes-ends ((none, node) ∷ cfg) n c h e = cc e
    process_nodes-ends ((some name, node) ∷ cfg) n c (h, hs) e =
        too_deep-bind (process_node yaml dir nested name node (n, c))
          (process_nodes yaml dir nested cfg)
          (process_node-ends (kind_of name) name node n c refl (h name refl))
          (λ s _. process_nodes-ends cfg s.0 s.1 hs) e

  -- For files that include one another to some depth, fuel of that depth never runs out.
  pub process_config-ends :
      (fuel : ℕ) (cfg : Document N) (c : Configuration N)
      → IsNested fuel cfg
      → process_config yaml dir fuel cfg c ≢ too_deep
  unfolding process_config IsNested
  process_config-ends zero cfg c h e = h
  process_config-ends (suc fuel) cfg c h e =
      too_deep-bind (process_nodes yaml dir (process_config yaml dir fuel) cfg (0, reset c)) _
        (process_nodes-ends (process_config yaml dir fuel) (IsNested fuel)
          (process_config-ends fuel) cfg 0 (reset c) h)
        (λ s _. done-too_deep s.1) e
