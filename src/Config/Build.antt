-- ===== src/Config/Build.antt =====
-- `Banjax::build_filters`, and what the filters of banjax_filter.h register for and ask for. A
-- constructor of a filter that throws a `YAML::Exception` is an argument, `throws`.
pub mod Queues
use banjax.Base.{
  ℕ, zero, suc, Bool, true, false, ◌||◌, List, [], ◌∷◌, ◌++◌, Option, none, some, Bytes, codes, beq,
  Dict, lookup, if◌then◌else◌,
}
use banjax.Base.Int.{pos}
use banjax.Muncher.Parts.{
  ip, url, host, ua, cookie, url_with_host, method, status, protocol, content_length, Flags, flags,
  or_flags,
}
use banjax.Config.Read.{Reading, done, aborted, FilterConfig, Configuration}
use banjax.Config.Priorities.{PriorityMap}

pub data ExecutionQueue : Type 0 where
  http_start http_request http_read_cache http_send_to_origin http_response http_close :
      ExecutionQueue

pub data Filter : Type 0 where
  regex_manager challenger white_lister bot_sniffer denialator : Filter

-- The chain of tests on the name.
unfoldable pub filter_of : Bytes → Option Filter
filter_of name =
    if beq name (codes "regex_banner")
    then some regex_manager
    else if beq name (codes "challenger")
    then some challenger
    else if beq name (codes "white_lister")
    then some white_lister
    else if beq name (codes "bot_sniffer")
    then some bot_sniffer
    else if beq name (codes "denialator")
    then some denialator
    else none

abbrev is_http_request : ExecutionQueue → Bool
is_http_request http_request = true
is_http_request http_start = false
is_http_request http_read_cache = false
is_http_request http_send_to_origin = false
is_http_request http_response = false
is_http_request http_close = false

abbrev is_http_close : ExecutionQueue → Bool
is_http_close http_close = true
is_http_close http_start = false
is_http_close http_request = false
is_http_close http_read_cache = false
is_http_close http_send_to_origin = false
is_http_close http_response = false

-- Whether the constructor of the filter sets the entry of `queued_tasks`: regex_manager.h:89,
-- challenger.h:274, white_lister.h:31, bot_sniffer.h:50 and denialator.h:42.
unfoldable pub queued_tasks : Filter → ExecutionQueue → Bool
queued_tasks regex_manager = is_http_request
queued_tasks challenger = is_http_request
queued_tasks white_lister = is_http_request
queued_tasks bot_sniffer = is_http_close
queued_tasks denialator = is_http_request

-- regex_manager.h:99, challenger.h:293, white_lister.h:35, bot_sniffer.h:67 and denialator.h:60.
unfoldable pub requested_info : Filter → Flags
requested_info regex_manager = flags (ip ∷ method ∷ url ∷ host ∷ ua ∷ [])
requested_info challenger = flags (ip ∷ url ∷ host ∷ ua ∷ url_with_host ∷ cookie ∷ [])
requested_info white_lister = flags (ip ∷ host ∷ [])
requested_info bot_sniffer = flags (ip ∷ ua ∷ url_with_host ∷ protocol ∷ [])
requested_info denialator = flags (ip ∷ [])

-- bot_sniffer.h:79; the other filters have the default of banjax_filter.h.
unfoldable pub response_info : Filter → Flags
response_info regex_manager = flags []
response_info challenger = flags []
response_info white_lister = flags []
response_info bot_sniffer = flags (status ∷ content_length ∷ [])
response_info denialator = flags []

pub record Built (N : Type 0) : Type 0 where
  -- The filters with the configurations that they were made from.
  pub filters : List (Filter × FilterConfig N)
  pub task_queues : ExecutionQueue → List Filter
  pub all_filters_requested_part : Flags
  pub all_filters_response_part : Flags

module _ {N : Type 0} where
  -- A new `Banjax` before its filters are made.
  abbrev pub nothing_built : Built N
  nothing_built = record {
    filters = [];
    task_queues = λ q. [];
    all_filters_requested_part = λ p. false;
    all_filters_response_part = λ p. false;
  }

  unfoldable pub add_filter : Filter → FilterConfig N → Built N → Built N
  add_filter f cur_config b = record {
    filters = b.filters ++ (f, cur_config) ∷ [];
    task_queues = λ q. if queued_tasks f q then b.task_queues q ++ f ∷ [] else b.task_queues q;
    all_filters_requested_part = or_flags b.all_filters_requested_part (requested_info f);
    all_filters_response_part = or_flags b.all_filters_response_part (response_info f);
  }

  -- `filter_config_map[name]`, which makes a new entry for a name that has none.
  abbrev config_of : Bytes → Dict (FilterConfig N) → FilterConfig N
  config_of name m = elim (lookup name m) [
    | none ↦ record { config_node_list = []; priority = pos 0 }
    | some f ↦ f
  ]

  module _ (throws : Filter → FilterConfig N → Bool)
      (filter_config_map : Dict (FilterConfig N)) where
    unfoldable pub build_filters : PriorityMap → Built N → Reading (Built N)
    build_filters [] b = done b
    build_filters ((p, name) ∷ m) b =
        let rest = build_filters m in
        elim (filter_of name) [
          | none ↦ aborted
          | some f ↦
              let cur_config = config_of name filter_config_map in
              if throws f cur_config then aborted else rest (add_filter f cur_config b)
        ]
