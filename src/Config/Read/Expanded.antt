-- ===== src/Config/Read/Expanded.antt =====
-- The configuration with the included files in their places, and the states that a run goes through.
use banjax.Base.{
  ℕ, zero, suc, ◌≡◌, ◌≢◌, ◌⊎◌, inl, inr, refl, ap, sym, ◌∙◌, subst, List, [], ◌∷◌, ◌++◌, Option,
  none, some, Bytes, codes, Dict, Option-cases,
}
use banjax.Base.Int.{ℤ}
use banjax.Config.Read.{
  Reading, done, Document, Yaml, FilterConfig, Configuration, NodeKind, filter_node, swabber_node,
  priority_node, include_node, kafka_node, report_status_interval, remove_expired_interval,
  unknown_node, kind_of, add_filter_node, reset, set_priorities, include_all, process_node,
  process_nodes, process_config, Progress, done-bind, done_inj,
}

module _ {N : Type 0} (yaml : Yaml N) (banjax_config_dir : Bytes) where
  module _ (nested : Document N → List (Bytes × N)) where
    unfoldable pub expand_all : List (Option Bytes) → List (Bytes × N)
    expand_all [] = []
    expand_all (none ∷ subs) = expand_all subs
    expand_all (some sub ∷ subs) = elim (yaml.load_file (banjax_config_dir ++ codes "/" ++ sub)) [
      | none ↦ expand_all subs
      | some cfg ↦ nested cfg ++ expand_all subs
    ]

    -- An `include` stands for the entries of its files, any other entry for itself.
    unfoldable pub expand_node : NodeKind → Bytes → N → List (Bytes × N)
    unfolding expand_all
    expand_node include_node name node = expand_all (yaml.elements node)
    expand_node filter_node name node = (name, node) ∷ []
    expand_node swabber_node name node = (name, node) ∷ []
    expand_node priority_node name node = (name, node) ∷ []
    expand_node kafka_node name node = (name, node) ∷ []
    expand_node report_status_interval name node = (name, node) ∷ []
    expand_node remove_expired_interval name node = (name, node) ∷ []
    expand_node unknown_node name node = (name, node) ∷ []

    unfoldable pub expand_nodes : Document N → List (Bytes × N)
    unfolding expand_node
    expand_nodes [] = []
    expand_nodes ((none, node) ∷ cfg) = expand_nodes cfg
    expand_nodes ((some name, node) ∷ cfg) =
        expand_node (kind_of name) name node ++ expand_nodes cfg

  unfoldable pub expand : ℕ → Document N → List (Bytes × N)
  unfolding expand_nodes
  expand zero cfg = []
  expand (suc fuel) cfg = expand_nodes (expand fuel) cfg

-- What one entry, which is no `include`, does to the filters.
unfoldable pub Effect :
    {N : Type 0} → Bytes → N → Dict (FilterConfig N) → Dict (FilterConfig N) → Type 0
Effect name node m m' =
    ((kind_of name ≡ filter_node) × (n : ℕ) × (m' ≡ (add_filter_node name node n m).1))
    ⊎ ((kind_of name ≢ filter_node) × (m' ≡ m))

-- A run over a list of entries.
pub data Ran {N : Type 0}
    : Dict (FilterConfig N) → List (Bytes × N) → Dict (FilterConfig N) → Type 0 where
  stop : {m : Dict (FilterConfig N)} → Ran m [] m
  step :
      {m m1 m' : Dict (FilterConfig N)} {name : Bytes} {node : N} {l : List (Bytes × N)}
      → Effect name node m m1
      → Ran m1 l m'
      → Ran m ((name, node) ∷ l) m'

module _ {N : Type 0} where
  Ran-append :
      {m m1 m2 : Dict (FilterConfig N)} {l k : List (Bytes × N)}
      → Ran m l m1
      → Ran m1 k m2
      → Ran m (l ++ k) m2
  Ran-append stop r = r
  Ran-append (step e t) r = step e (Ran-append t r)

  -- Whatever an included file does is a run.
  abbrev pub Runs :
      (Document N → Configuration N → Reading (Configuration N))
      → (Document N → List (Bytes × N))
      → Type 0
  Runs nested flat =
      (cfg : Document N) (c c' : Configuration N)
      → nested cfg c ≡ done c'
      → Ran c.filter_config_map (flat cfg) c'.filter_config_map

  not_filter :
      (name : Bytes) (node : N) (k : NodeKind)
      → kind_of name ≡ k
      → k ≢ filter_node
      → (m m' : Dict (FilterConfig N)) → m' ≡ m
      → Ran m ((name, node) ∷ []) m'
  unfolding Effect
  not_filter name node k e n m m' q = step (inr ((λ f. n (sym e ∙ f)), q)) stop

  kept :
      (k : NodeKind) (name : Bytes) (node : N) (n n' : ℕ) (c c' : Configuration N)
      → kind_of name ≡ k
      → k ≢ filter_node
      → ◌≡◌ {A = Reading (Progress N)} (done (n, c)) (done (n', c'))
      → Ran c.filter_config_map ((name, node) ∷ []) c'.filter_config_map
  kept k name node n n' c c' e f q =
      not_filter name node k e f c.filter_config_map c'.filter_config_map
        (sym (ap (λ s. s.1.filter_config_map) (done_inj (n, c) (n', c') q)))

  set_priorities-map :
      (old l : List (Bytes × Option ℤ)) (c d : Configuration N)
      → set_priorities old l c ≡ done d
      → d.filter_config_map ≡ c.filter_config_map
  set_priorities-map [] l c d e = sym (ap (λ s. s.filter_config_map) (done_inj _ d e))
  set_priorities-map (p ∷ ps) l c d e = absurd (cc e)

  module _ (yaml : Yaml N) (dir : Bytes)
      (nested : Document N → Configuration N → Reading (Configuration N))
      (flat : Document N → List (Bytes × N)) (runs : Runs nested flat) where
    include_all-Ran :
        (subs : List (Option Bytes)) (c c' : Configuration N)
        → include_all yaml dir nested subs c ≡ done c'
        → Ran c.filter_config_map (expand_all yaml dir flat subs) c'.filter_config_map
    unfolding include_all expand_all
    include_all-Ran [] c c' e =
        subst (λ d. Ran c.filter_config_map [] d.filter_config_map) (done_inj c c' e) stop
    include_all-Ran (none ∷ subs) c c' e = absurd (cc e)
    include_all-Ran (some sub ∷ subs) c c' e =
        elim (Option-cases (yaml.load_file (dir ++ codes "/" ++ sub))) [
          | inl n ↦ absurd (cc (rw (n, include_all) at e))
          | inr (cfg, k) ↦
              let (d, e1, e2) =
                done-bind (nested cfg c) (include_all yaml dir nested subs) c'
                  (rw (k, include_all) at e) in
              rw (k, expand_all) (Ran-append (runs cfg c d e1) (include_all-Ran subs d c' e2))
        ]

    -- One entry, by its kind.
    node_of_kind :
        (k : NodeKind) (name : Bytes) (node : N) (n n' : ℕ) (c c' : Configuration N)
        → kind_of name ≡ k
        → process_node yaml dir nested name node (n, c) ≡ done (n', c')
        → Ran c.filter_config_map (expand_node yaml dir flat k name node) c'.filter_config_map
    unfolding process_node expand_node Effect
    node_of_kind filter_node name node n n' c c' e h =
        let q = done_inj _ (n', c') (rw (e, process_node) at h) in
        step (inl (e, n, sym (ap (λ s. s.1.filter_config_map) q))) stop
    node_of_kind swabber_node name node n n' c c' e h =
        kept swabber_node name node n n' _ c' e (λ f. cc f) (rw (e, process_node) at h)
    node_of_kind kafka_node name node n n' c c' e h =
        kept kafka_node name node n n' _ c' e (λ f. cc f) (rw (e, process_node) at h)
    node_of_kind priority_node name node n n' c c' e h =
        let (d, e1, e2) =
          done-bind (set_priorities c.priorities (yaml.priority_list node) c) _ (n', c')
            (rw (e, process_node) at h) in
        not_filter name node priority_node e (λ f. cc f) c.filter_config_map c'.filter_config_map
          (sym (ap (λ s. s.1.filter_config_map) (done_inj _ (n', c') e2))
            ∙ set_priorities-map c.priorities (yaml.priority_list node) c d e1)
    node_of_kind include_node name node n n' c c' e h =
        let (d, e1, e2) =
          done-bind (include_all yaml dir nested (yaml.elements node) c) _ (n', c')
            (rw (e, process_node) at h) in
        let q = done_inj _ (n', c') e2 in
        subst (λ m. Ran c.filter_config_map (expand_all yaml dir flat (yaml.elements node)) m)
          (ap (λ s. s.1.filter_config_map) q) (include_all-Ran (yaml.elements node) c d e1)
    node_of_kind report_status_interval name node n n' c c' e h =
        elim (Option-cases (yaml.as_int node)) [
          | inl o ↦ absurd (cc (rw (e, o, process_node) at h))
          | inr (v, o) ↦
              kept report_status_interval name node n n' _ c' e (λ f. cc f)
                (rw (e, o, process_node) at h)
        ]
    node_of_kind remove_expired_interval name node n n' c c' e h =
        elim (Option-cases (yaml.as_int node)) [
          | inl o ↦ absurd (cc (rw (e, o, process_node) at h))
          | inr (v, o) ↦
              kept remove_expired_interval name node n n' _ c' e (λ f. cc f)
                (rw (e, o, process_node) at h)
        ]
    node_of_kind unknown_node name node n n' c c' e h = absurd (cc (rw (e, process_node) at h))

    process_nodes-Ran :
        (cfg : Document N) (n n' : ℕ) (c c' : Configuration N)
        → process_nodes yaml dir nested cfg (n, c) ≡ done (n', c')
        → Ran c.filter_config_map (expand_nodes yaml dir flat cfg) c'.filter_config_map
    unfolding process_nodes expand_nodes
    process_nodes-Ran [] n n' c c' e =
        subst (λ s. Ran c.filter_config_map [] s.1.filter_config_map) (done_inj (n, c) (n', c') e)
          stop
    process_nodes-Ran ((none, node) ∷ cfg) n n' c c' e = absurd (cc e)
    process_nodes-Ran ((some name, node) ∷ cfg) n n' c c' e =
        let (s, e1, e2) =
          done-bind (process_node yaml dir nested name node (n, c))
            (process_nodes yaml dir nested cfg) (n', c') e in
        Ran-append (node_of_kind (kind_of name) name node n s.0 c s.1 refl e1)
          (process_nodes-Ran cfg s.0 n' s.1 c' e2)

  pub process_config-Ran :
      (yaml : Yaml N) (dir : Bytes) (fuel : ℕ)
      → Runs (process_config yaml dir fuel) (expand yaml dir fuel)
  unfolding process_config expand
  process_config-Ran yaml dir zero cfg c c' e = absurd (cc e)
  process_config-Ran yaml dir (suc fuel) cfg c c' e =
      let (s, e1, e2) =
        done-bind (process_nodes yaml dir (process_config yaml dir fuel) cfg (0, reset c)) _ c' e in
      subst (λ d. Ran c.filter_config_map (expand yaml dir (suc fuel) cfg) d.filter_config_map)
        (done_inj s.1 c' e2)
        (process_nodes-Ran yaml dir (process_config yaml dir fuel) (expand yaml dir fuel)
          (process_config-Ran yaml dir fuel) cfg 0 s.0 (reset c) s.1 e1)
