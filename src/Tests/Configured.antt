-- ===== src/Tests/Configured.antt =====
-- A configuration of two files.
use mathlib.Core.List.{Perm}
use mathlib.Core.Option.{some-injective}
use banjax.Base.{
  ◌≡◌, ◌≢◌, ◌++◌, get_elem?, refl, ap, sym, subst, ◌∙◌, ℕ, suc, Bool, true, false, List, [], ◌∷◌,
  Option, none, some, Bytes, codes, beq, map, All, if◌then◌else◌, Dict, lookup, insert_sorted,
  bytes_ltb,
}
use banjax.Base.Int.{ℤ, pos}
use banjax.Muncher.Parts.{Muncher, fresh_muncher, url_with_host}
use banjax.Muncher.Request.{retrieve_parts}
use banjax.Muncher.Request.Served.{has}
use banjax.Config.Read.{
  Reading, done, Document, Yaml, FilterConfig, Configuration, NodeKind, filter_node, priority_node,
  include_node, kind_of, is_filter, add_filter_node, include_all, process_node, process_nodes,
  process_config,
}
use banjax.Config.Read.Expanded.{expand}
use banjax.Config.Read.Collected.{nodes_in, nodes_of, process_config-nodes_in}
use banjax.Config.Read.Depth.{IsNested, process_config-ends}
use banjax.Config.Priorities.{
  PriorityMap, count, put, max_of, max_priority_of, priority_of, assign_priorities, read_priorities,
}
use banjax.Config.Priorities.Assigned.{IsPlaced}
use banjax.Config.Priorities.Ordered.{IsAscending, names}
use banjax.Config.Build.{
  ExecutionQueue, http_request, Filter, challenger, Built, nothing_built, filter_of, queued_tasks,
  requested_info, add_filter, build_filters,
}
use banjax.Config.Build.Queues.{queue_of, filters_of, build_filters-retrieve_parts}
use banjax.Config.Start.{fresh_configuration, read_configuration, read_configuration-queues}
use banjax.Tests.Retrieved.{page_request, fresh_muncher-IsCovered}

-- A node is a list of strings. A list of priorities numbers its names from 1.
abbrev StringNode : Type 0
StringNode = List Bytes

abbrev numbered : ℕ → List Bytes → List (Bytes × Option ℤ)
numbered n [] = []
numbered n (name ∷ l) = (name, some (pos n)) ∷ numbered (suc n) l

abbrev main_file : Document StringNode
main_file =
    (some (codes "priority"), codes "white_lister" ∷ codes "challenger" ∷ [])
    ∷ (some (codes "challenger"), codes "one" ∷ [])
    ∷ (some (codes "include"), codes "more.conf" ∷ [])
    ∷ (some (codes "regex_banner"), codes "two" ∷ [])
    ∷ []

abbrev more_file : Document StringNode
more_file =
    (some (codes "challenger"), codes "three" ∷ [])
    ∷ (some (codes "white_lister"), codes "four" ∷ [])
    ∷ []

abbrev dir : Bytes
dir = codes "d"

abbrev files : Yaml StringNode
files = record {
  elements = λ n. map some n;
  priority_list = numbered 1;
  as_int = λ n. none;
  load_file = λ path.
      if beq path (codes "d/banjax.conf")
      then some main_file
      else if beq path (codes "d/more.conf")
      then some more_file
      else none;
}

abbrev filter_configs : Dict (FilterConfig StringNode)
filter_configs =
    (
      codes "challenger",
      record {
        config_node_list = (codes "one" ∷ []) ∷ (codes "three" ∷ []) ∷ [];
        priority = pos 0;
      },
    )
    ∷ (
      codes "regex_banner",
      record { config_node_list = (codes "two" ∷ []) ∷ []; priority = pos 1 },
    )
    ∷ (
      codes "white_lister",
      record { config_node_list = (codes "four" ∷ []) ∷ []; priority = pos 0 },
    )
    ∷ []

abbrev configuration : Configuration StringNode
configuration = record fresh_configuration {
  filter_config_map = filter_configs;
  priorities = numbered 1 (codes "white_lister" ∷ codes "challenger" ∷ []);
}

main_file_read : process_config files dir 2 main_file fresh_configuration ≡ done configuration
unfolding process_config process_nodes process_node include_all add_filter_node insert_sorted
    bytes_ltb lookup kind_of is_filter beq
main_file_read = refl

process_config-nodes_in_example :
    nodes_in (codes "challenger") filter_configs
    ≡ nodes_in (codes "challenger") []
      ++ nodes_of (codes "challenger") (expand files dir 2 main_file)
unfolding is_filter beq
process_config-nodes_in_example =
    process_config-nodes_in files dir 2 main_file fresh_configuration configuration
      (codes "challenger") refl main_file_read

-- An entry that is no `include`.
leaf :
    {P : Type 0}
    → (key : Bytes) (k : NodeKind) → kind_of key ≡ k
    → k ≢ include_node
    → (name : Bytes) → some key ≡ some name
    → kind_of name ≡ include_node
    → P
leaf key k q n name e h = absurd (n (sym q ∙ ap kind_of (some-injective key name e) ∙ h))

more_file_loaded : files.load_file (dir ++ codes "/" ++ codes "more.conf") ≡ some more_file
unfolding beq
more_file_loaded = refl

more_file-IsNested : IsNested files dir 1 more_file
unfolding IsNested kind_of is_filter beq
more_file-IsNested = (
  (λ name e k. leaf (codes "challenger") filter_node refl (λ x. cc x) name e k),
  ((λ name e k. leaf (codes "white_lister") filter_node refl (λ x. cc x) name e k), tt),
)

main_file-IsNested : IsNested files dir 2 main_file
unfolding IsNested kind_of is_filter beq
main_file-IsNested = (
  (λ name e k. leaf (codes "priority") priority_node refl (λ x. cc x) name e k),
  (
    (λ name e k. leaf (codes "challenger") filter_node refl (λ x. cc x) name e k),
    (
      (λ name e k. (
        (λ sub cfg o l.
            subst (IsNested files dir 1)
              (some-injective more_file cfg (
                sym more_file_loaded
                ∙ ap (λ s. files.load_file (dir ++ codes "/" ++ s))
                    (some-injective (codes "more.conf") sub o)
                ∙ l))
              more_file-IsNested),
        tt,
      )),
      ((λ name e k. leaf (codes "regex_banner") filter_node refl (λ x. cc x) name e k), tt),
    ),
  ),
)

process_config-ends_example :
    process_config files dir 2 main_file fresh_configuration ≢ Reading.too_deep
process_config-ends_example =
    process_config-ends files dir 2 main_file fresh_configuration main_file-IsNested

abbrev order : PriorityMap
order =
    (pos 1, codes "white_lister") ∷ (pos 2, codes "challenger") ∷ (pos 4, codes "regex_banner") ∷ []

-- The configuration with the priorities that its filters get.
abbrev assigned : Configuration StringNode
assigned = record configuration {
  filter_config_map =
      (
        codes "challenger",
        record {
          config_node_list = (codes "one" ∷ []) ∷ (codes "three" ∷ []) ∷ [];
          priority = pos 2;
        },
      )
      ∷ (
        codes "regex_banner",
        record { config_node_list = (codes "two" ∷ []) ∷ []; priority = pos 4 },
      )
      ∷ (
        codes "white_lister",
        record { config_node_list = (codes "four" ∷ []) ∷ []; priority = pos 1 },
      )
      ∷ [];
}

priorities_read : read_priorities configuration ≡ done (assigned, order)
unfolding read_priorities max_priority_of max_of assign_priorities priority_of count put lookup beq
priorities_read = refl

abbrev never : Filter → FilterConfig StringNode → Bool
never f k = false

abbrev built : Built StringNode
built = elim (build_filters never assigned.filter_config_map order nothing_built) [
  | done b ↦ b
  | _ ↦ nothing_built
]

filters_were_built : build_filters never assigned.filter_config_map order nothing_built ≡ done built
unfolding build_filters filter_of add_filter lookup beq
filters_were_built = refl

order_known : All (λ e. is_filter e.1 ≡ true) order
unfolding is_filter beq
order_known = (refl, (refl, (refl, tt)))

second_in_queue : get_elem? (built.task_queues http_request) 1 ≡ some challenger
unfolding build_filters filter_of add_filter lookup beq queued_tasks
second_in_queue = refl

asks_for_url : requested_info challenger url_with_host ≡ true
unfolding requested_info
asks_for_url = refl

build_filters-retrieve_parts_example :
    (t' : Muncher) × (retrieve_parts page_request built.all_filters_requested_part fresh_muncher
      ≡ some t')
    × (has url_with_host t' ≡ true)
build_filters-retrieve_parts_example =
    build_filters-retrieve_parts never assigned.filter_config_map (λ f k. refl) order order_known
      built filters_were_built page_request refl (λ h. refl) fresh_muncher fresh_muncher-IsCovered
      http_request 1 challenger url_with_host second_in_queue asks_for_url

main_file_loaded : files.load_file (dir ++ codes "/" ++ codes "banjax.conf") ≡ some main_file
unfolding beq
main_file_loaded = refl

configuration_read : read_configuration files dir never 2 ≡ done (assigned, order, built)
unfolding read_configuration process_config process_nodes process_node include_all add_filter_node
    insert_sorted bytes_ltb lookup kind_of is_filter beq read_priorities max_priority_of max_of
    assign_priorities priority_of count put build_filters filter_of add_filter
configuration_read = refl

read_configuration-queues_example :
    IsAscending order
    × Perm (names order) (map (λ e. e.0) filter_configs)
    × All (IsPlaced configuration.priorities) order
    × ((q : ExecutionQueue) → built.task_queues q ≡ queue_of q (filters_of order))
read_configuration-queues_example =
    read_configuration-queues files dir never (λ f k. refl) 2 main_file configuration assigned order
      built main_file_loaded main_file_read configuration_read
