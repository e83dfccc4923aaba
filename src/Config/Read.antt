-- ===== src/Config/Read.antt =====
-- `Banjax::process_config`. A YAML document is the list of its entries: the key, `none` where it is
-- no string, and the value, of a type `N` that yaml-cpp reads.
pub mod Depth
pub mod Expanded
pub mod Collected
use banjax.Base.{
  ℕ, zero, suc, ◌+◌, ◌≡◌, refl, Bool, true, false, not, List, [], ◌∷◌, ◌++◌, Option, none, some,
  Bytes, codes, beq, Dict, lookup, insert_sorted, any, if◌then◌else◌,
}
use banjax.Base.Int.{ℤ, pos}

-- `aborted` is `abort_traffic_server`, `uncaught` an exception that nothing catches, `overflow` a
-- signed overflow, which C++ leaves undefined. `too_deep` is the end of the fuel.
pub data Reading {ℓ} (A : Type ℓ) : Type ℓ where
  done : A → Reading A
  aborted uncaught overflow too_deep : Reading A

infixl 10 ◌>>=◌
abbrev pub ◌>>=◌ {ℓ κ} : {A : Type ℓ} {B : Type κ} → Reading A → (A → Reading B) → Reading B
done a >>= f = f a
aborted >>= f = aborted
uncaught >>= f = uncaught
overflow >>= f = overflow
too_deep >>= f = too_deep

abbrev pub Document : Type 0 → Type 0
Document N = List (Option Bytes × N)

-- yaml-cpp, for a type of nodes.
pub record Yaml (N : Type 0) : Type 0 where
  -- The elements of a node, as strings.
  pub elements : N → List (Option Bytes)
  -- The entries of a node, with their values as `int`.
  pub priority_list : N → List (Bytes × Option ℤ)
  pub as_int : N → Option ℤ
  -- `none` for a file that cannot be read or is no YAML.
  pub load_file : Bytes → Option (Document N)

-- filter_list.h
abbrev pub all_filters_names : List Bytes
all_filters_names =
    codes "regex_banner"
    ∷ codes "challenger"
    ∷ codes "bot_sniffer"
    ∷ codes "white_lister"
    ∷ codes "denialator"
    ∷ []

pub record FilterConfig (N : Type 0) : Type 0 where
  pub config_node_list : List N
  pub priority : ℤ

pub record Configuration (N : Type 0) : Type 0 where
  pub filter_config_map : Dict (FilterConfig N)
  pub swabber_conf : List N
  pub priorities : List (Bytes × Option ℤ)
  pub kafka_conf : Option N
  pub report_status_interval_seconds : ℤ
  pub remove_expired_challenges_interval_seconds : ℤ

unfoldable pub is_filter : Bytes → Bool
is_filter s = any (beq s) all_filters_names

-- The kinds of a node, as the chain of tests tells them apart.
pub data NodeKind : Type 0 where
  filter_node swabber_node priority_node include_node kafka_node : NodeKind
  report_status_interval remove_expired_interval unknown_node : NodeKind

unfoldable pub kind_of : Bytes → NodeKind
kind_of s =
    if is_filter s
    then filter_node
    else if beq s (codes "swabber")
    then swabber_node
    else if beq s (codes "priority")
    then priority_node
    else if beq s (codes "include")
    then include_node
    else if beq s (codes "kafka")
    then kafka_node
    else if beq s (codes "report_status_interval_seconds")
    then report_status_interval
    else if beq s (codes "remove_expired_challenges_interval_seconds")
    then remove_expired_interval
    else unknown_node

-- The counter `current_sequential_priority`, and the state.
abbrev pub Progress : Type 0 → Type 0
Progress N = ℕ × Configuration N

module _ {N : Type 0} where
  -- The counter and the map, after an entry of a filter.
  unfoldable pub add_filter_node : Bytes → N → ℕ → Dict (FilterConfig N) → ℕ × Dict (FilterConfig N)
  add_filter_node node_name node n m = elim (lookup node_name m) [
    | none ↦ (
      suc n,
      insert_sorted node_name (record { config_node_list = node ∷ []; priority = pos n }) m,
    )
    | some f ↦ (
      n,
      insert_sorted node_name (record f { config_node_list = f.config_node_list ++ node ∷ [] }) m,
    )
  ]

  -- Every call sets these back, also the call for an included file.
  abbrev pub reset : Configuration N → Configuration N
  reset c = record c {
    kafka_conf = none;
    report_status_interval_seconds = pos 0;
    remove_expired_challenges_interval_seconds = pos 0;
  }

  -- With the list that is there already.
  abbrev pub set_priorities :
      List (Bytes × Option ℤ)
      → List (Bytes × Option ℤ)
      → Configuration N
      → Reading (Configuration N)
  set_priorities [] l c = done (record c { priorities = l })
  set_priorities (p ∷ ps) l c = aborted

  module _ (yaml : Yaml N) (banjax_config_dir : Bytes) where
    -- `nested` is `process_config`, for the file that is included.
    unfoldable pub include_all :
        (Document N → Configuration N → Reading (Configuration N))
        → List (Option Bytes)
        → Configuration N
        → Reading (Configuration N)
    include_all nested [] c = done c
    include_all nested (none ∷ subs) c = aborted
    include_all nested (some sub ∷ subs) c =
        elim (yaml.load_file (banjax_config_dir ++ codes "/" ++ sub)) [
          | none ↦ aborted
          | some cfg ↦ nested cfg c >>= include_all nested subs
        ]

    unfoldable pub process_node :
        (Document N → Configuration N → Reading (Configuration N))
        → Bytes
        → N
        → Progress N
        → Reading (Progress N)
    process_node nested node_name node (n, c) = elim (kind_of node_name) [
      | filter_node ↦
          let (n', m) = add_filter_node node_name node n c.filter_config_map in
          done (n', record c { filter_config_map = m })
      | swabber_node ↦ done (n, record c { swabber_conf = c.swabber_conf ++ node ∷ [] })
      | priority_node ↦
          set_priorities c.priorities (yaml.priority_list node) c >>= λ c'. done (n, c')
      | include_node ↦ include_all nested (yaml.elements node) c >>= λ c'. done (n, c')
      | kafka_node ↦ done (n, record c { kafka_conf = some node })
      | report_status_interval ↦ elim (yaml.as_int node) [
        | none ↦ aborted
        | some s ↦ done (n, record c { report_status_interval_seconds = s })
      ]
      | remove_expired_interval ↦ elim (yaml.as_int node) [
        | none ↦ aborted
        | some s ↦ done (n, record c { remove_expired_challenges_interval_seconds = s })
      ]
      | unknown_node ↦ aborted
    ]

    unfoldable pub process_nodes :
        (Document N → Configuration N → Reading (Configuration N))
        → Document N
        → Progress N
        → Reading (Progress N)
    process_nodes nested [] s = done s
    process_nodes nested ((none, node) ∷ cfg) s = aborted
    process_nodes nested ((some node_name, node) ∷ cfg) s =
        process_node nested node_name node s >>= process_nodes nested cfg

    -- The fuel is the depth of the files that include one another. A file that includes itself
    -- never ends in the source.
    unfoldable pub process_config : ℕ → Document N → Configuration N → Reading (Configuration N)
    process_config zero cfg c = too_deep
    process_config (suc fuel) cfg c =
        process_nodes (process_config fuel) cfg (0, reset c) >>= λ s. done s.1

-- A chain that is done has done each of its steps.
pub done-bind {ℓ κ} :
    {A : Type ℓ} {B : Type κ} (r : Reading A) (f : A → Reading B) (b : B)
    → (r >>= f) ≡ done b
    → (a : A) × (r ≡ done a) × (f a ≡ done b)
done-bind (done a) f b e = (a, refl, e)
done-bind aborted f b e = absurd (cc e)
done-bind uncaught f b e = absurd (cc e)
done-bind overflow f b e = absurd (cc e)
done-bind too_deep f b e = absurd (cc e)

pub done_inj {ℓ} : {A : Type ℓ} (a b : A) → done a ≡ done b → a ≡ b
done_inj a b e = cc e
