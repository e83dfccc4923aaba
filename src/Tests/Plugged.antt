-- ===== src/Tests/Plugged.antt =====
-- A plugin that is loaded, starts a transaction and is reloaded.
use banjax.Base.{
  ℕ, ◌≡◌, refl, true, false, List, [], ◌∷◌, ◌++◌, Option, none, some, Bytes, codes, beq, lookup,
  insert, insert_sorted, bytes_ltb, if◌then◌else◌,
}
use banjax.Base.Int.{ℤ, pos}
use banjax.Challenger.State.{Challenger}
use banjax.Challenger.Load
use banjax.Challenger.Load.{
  load_static, load_dynamic, load_challenges, ChallengerNode, absent, value,
}
use banjax.Tests.Samples.{library, spec, surroundings}
use banjax.Commands.{NameValue}
use banjax.BotSniffer
use banjax.BotSniffer.{BotSniffer, take_socket}
use banjax.Swabber
use banjax.Swabber.{bind, load_config, read_nodes, rebind}
use banjax.KafkaConsumer
use banjax.KafkaConsumer.{
  KafkaSettings, KafkaConsumer, producer_config, set_fields, set_single_config_field, new_consumer,
  reload_config,
}
use banjax.Config.Read.{
  done, Document, Yaml, FilterConfig, kind_of, is_filter, add_filter_node, process_node,
  process_nodes, process_config,
}
use banjax.Config.Priorities.{
  count, put, max_priority_of, priority_of, assign_priorities, read_priorities,
}
use banjax.Config.Build.{
  challenger, bot_sniffer, nothing_built, filter_of, add_filter, build_filters,
}
use banjax.Config.Start.{fresh_configuration, read_files}
use banjax.Plugin.Construct
use banjax.Plugin.State.{
  ActionKind, report_status_g, remove_expired_challenges_g, Action, Banjax, Outside, interval_msec,
  schedule_every, release, destroy, cancel, new_shared,
}
use banjax.Plugin.Construct.{
  swabber_nodes, make_sniffer, make_white_list, make_challenger, set_up_kafka, assemble, new_banjax,
}
use banjax.Plugin.Lifetime
use banjax.Plugin.Lifetime.{
  Process, txn_start, mgmt_update, handle_management, with_actions, settle, drop_unheld,
  handle_transaction_start, end_transaction, ban_by, starts, closes, reloads, bans, delivers,
  expires, deliver, expire, here, next,
}
use banjax.Plugin.Start.{
  PluginLoad, check_ts_version, is_directory, config_folder, new_plugin, ts_plugin_init,
}
use banjax.Plugin.Lifetime.New.{HasNoDynamic}
use banjax.Plugin.Lifetime.Living.{IsSound}
use banjax.Plugin.Lifetime.Sound.{Reachable-IsSound}
use banjax.Plugin.Lifetime.Rebound.{reload_config-takes_over}

abbrev plugin_file : Document ℕ
plugin_file =
    (some (codes "bot_sniffer"), 1)
    ∷ (some (codes "challenger"), 3)
    ∷ (some (codes "kafka"), 2)
    ∷ []

abbrev plugin_yaml : Yaml ℕ
plugin_yaml = record {
  elements = λ n. [];
  priority_list = λ n. [];
  as_int = λ n. none;
  load_file = λ path. if beq path (codes "d/banjax.conf") then some plugin_file else none;
}

abbrev plugin_settings : KafkaSettings
plugin_settings =
    (codes "metadata.broker.list", some (codes "broker"))
    ∷ (codes "security.protocol", none)
    ∷ (codes "ssl.ca.location", none)
    ∷ (codes "ssl.certificate.location", none)
    ∷ (codes "ssl.key.location", none)
    ∷ (codes "ssl.key.password", none)
    ∷ (codes "report_topic", some (codes "reports"))
    ∷ (codes "command_topic", some (codes "commands"))
    ∷ []

abbrev no_challenges : ChallengerNode
no_challenges = record {
  challenges = [];
  key = value (codes "key");
  difficulty = value 4;
  dynamic_expiry_seconds = absent;
  dynamic_challenger_config = none;
}

abbrev outside : Outside ℕ
outside = record {
  yaml = plugin_yaml;
  fuel = 1;
  library = library;
  surroundings = surroundings;
  throws = λ f k. false;
  swabber_node = λ n. none;
  sniffer_port = λ k. some 7;
  sniffer_key = λ k. some (codes "key");
  white_list_entries = λ k. [];
  challenger_node = λ k. no_challenges;
  read_file = λ path. [];
  load_time = 5;
  unset_expiry = 0;
  kafka_settings = λ n. plugin_settings;
  conf_set = λ field value. true;
  producer_created = true;
  garbage = false;
  scheduled = λ k. true;
}

-- Traffic Server 9 loads the plugin with a folder of its own.
abbrev loading : PluginLoad
loading = record {
  scan = λ version. (3, pos 9);
  traffic_server_version = some (codes "9.0.1");
  plugin_dir = codes "p";
  stat_is_dir = λ path. some true;
  registers = true;
  now = 5;
}

abbrev argv : List Bytes
argv = codes "banjax.so" ∷ codes "d" ∷ []

abbrev bot_config : FilterConfig ℕ
bot_config = record { config_node_list = 1 ∷ []; priority = pos 1 }

abbrev challenger_config : FilterConfig ℕ
challenger_config = record { config_node_list = 3 ∷ []; priority = pos 2 }

abbrev loaded_challenger : Challenger
loaded_challenger = record {
  hashed_key = library.sha256 (codes "key");
  number_of_trailing_zeros = 4;
  dynamic_expiry_seconds = 0;
  host_challenges_static = [];
  host_to_challenge_dynamic = [];
  ip_to_challenge_dynamic = [];
  global_white_list = some (record { white_list = []; per_host = [] });
  kafka_producer = true;
}

abbrev swabber_endpoint : Bytes
swabber_endpoint = codes "tcp://*:22620"

-- The endpoint with the port 7, in the digits of `library`.
abbrev sniffer_endpoint : Bytes
sniffer_endpoint = codes "tcp://*:" ++ 7 ∷ []

abbrev bound_sniffer : BotSniffer
bound_sniffer = record {
  socket = some sniffer_endpoint;
  encryption_key = library.sha256 (codes "key");
  local_endpoint = sniffer_endpoint;
}

abbrev action : ActionKind → ℕ → ℤ → Option Action
action kind n msec = some (record { owner = n; kind = kind; every_msec = msec })

-- The n-th `Banjax` of the configuration.
abbrev nth_banjax : ℕ → KafkaConsumer → Banjax ℕ
nth_banjax n consumer = record {
  number = n;
  configuration = record fresh_configuration {
    filter_config_map =
        (codes "bot_sniffer", bot_config) ∷ (codes "challenger", challenger_config) ∷ [];
    kafka_conf = some 2;
  };
  priority_map = (pos 1, codes "bot_sniffer") ∷ (pos 2, codes "challenger") ∷ [];
  built = add_filter challenger challenger_config (add_filter bot_sniffer bot_config nothing_built);
  shared = record (new_shared 2 (some swabber_endpoint)) { local_endpoint = swabber_endpoint };
  global_ip_white_list = record { white_list = []; per_host = [] };
  own_challenger = some loaded_challenger;
  sniffer = some bound_sniffer;
  botsniffer_socket_reuse = none;
  kafka_consumer = some consumer;
  kafka_producer = some ((codes "metadata.broker.list", codes "broker") ∷ [], codes "reports");
  report_status_action = action report_status_g n (pos 15000);
  remove_expired_challenges_action = action remove_expired_challenges_g n (pos 16000);
}

abbrev first_consumer : KafkaConsumer
first_consumer = new_consumer false plugin_settings 0

abbrev first_banjax : Banjax ℕ
first_banjax = nth_banjax 0 first_consumer

abbrev second_banjax : Banjax ℕ
second_banjax = nth_banjax 1 (reload_config plugin_settings 1 first_consumer)

abbrev challenge_command : Option NameValue
challenge_command = some (record { name = codes "challenge_host"; value = codes "a.org" })

abbrev loaded_plugin : Process ℕ
loaded_plugin = record {
  plugin = record {
    config_dir = codes "d";
    current_state = first_banjax;
    restart_time = 5;
    reload_time = 5;
  };
  older = [];
  transactions = [];
  actions = with_actions first_banjax [];
  created = 1;
}

plugin_loaded : ts_plugin_init outside loading argv ≡ done loaded_plugin
unfolding ts_plugin_init check_ts_version config_folder is_directory new_plugin new_banjax
    read_files process_config process_nodes process_node add_filter_node insert_sorted bytes_ltb
    lookup kind_of is_filter beq read_priorities assign_priorities priority_of max_priority_of count
    put assemble swabber_nodes build_filters filter_of add_filter load_config read_nodes rebind bind
    new_shared make_sniffer BotSniffer.load_config take_socket Construct.find_config make_white_list
    make_challenger Load.load_config load_static load_dynamic load_challenges set_up_kafka
    new_consumer producer_config set_fields set_single_config_field insert schedule_every
    interval_msec
plugin_loaded = refl

abbrev in_transaction : Process ℕ
in_transaction = handle_transaction_start txn_start 7 loaded_plugin

-- The `Banjax` before stays for the transaction, without its sockets and the consumer.
abbrev reloaded : Process ℕ
reloaded = record in_transaction {
  plugin = record loaded_plugin.plugin { current_state = second_banjax; reload_time = 9 };
  older = (release first_banjax).1 ∷ [];
  actions = with_actions second_banjax (with_actions first_banjax []);
  created = 2;
}

plugin_reloaded : Lifetime.reload_config outside 9 in_transaction ≡ done reloaded
unfolding handle_transaction_start Lifetime.reload_config release Swabber.release_socket
    BotSniffer.release_socket KafkaConsumer.reload_config settle drop_unheld destroy cancel
    new_banjax read_files process_config process_nodes process_node add_filter_node insert_sorted
    bytes_ltb lookup kind_of is_filter beq read_priorities assign_priorities priority_of
    max_priority_of count put assemble swabber_nodes build_filters filter_of add_filter load_config
    read_nodes rebind bind new_shared make_sniffer BotSniffer.load_config take_socket
    Construct.find_config make_white_list make_challenger Load.load_config load_static load_dynamic
    load_challenges set_up_kafka new_consumer producer_config set_fields set_single_config_field
    insert schedule_every interval_msec
plugin_reloaded = refl

-- The reload is followed by a command from Kafka, the removal of expired challenges, a ban by the
-- `Banjax` before, and the close of its transaction.
abbrev plugin_served : Process ℕ
plugin_served = expire 10 (deliver outside spec challenge_command reloaded)

Reachable-IsSound_example :
    IsSound (end_transaction 7 (ban_by outside 0 (codes "10.0.0.1") (codes "test") plugin_served))
unfolding handle_management
Reachable-IsSound_example =
    Reachable-IsSound outside loading argv loaded_plugin
      (end_transaction 7 (ban_by outside 0 (codes "10.0.0.1") (codes "test") plugin_served))
      plugin_loaded
      (next
        (next
          (next
            (next
              (next (next here (starts txn_start 7))
                (reloads outside mgmt_update 9 plugin_reloaded))
              (delivers outside spec challenge_command))
            (expires 10))
          (bans outside 0 (codes "10.0.0.1") (codes "test")))
        (closes 7))

reload_config-takes_over_example :
    (second_banjax.shared.socket ≡ some swabber_endpoint)
    × (bound_sniffer.socket ≡ some sniffer_endpoint)
    × (second_banjax.shared.calls ≡ first_banjax.shared.calls)
    × (second_banjax.shared.swabber_ip_db ≡ [])
    × (second_banjax.shared.challenger_ip_db ≡ [])
    × (second_banjax.shared.regex_manager_ip_db ≡ [])
    × HasNoDynamic second_banjax.own_challenger
    × (reloaded.transactions ≡ in_transaction.transactions)
unfolding new_shared handle_transaction_start
reload_config-takes_over_example =
    reload_config-takes_over outside 9 in_transaction reloaded swabber_endpoint sniffer_endpoint
      bound_sniffer bound_sniffer plugin_reloaded refl refl refl refl refl refl
