-- ===== src/Plugin/Construct.antt =====
-- src/banjax.cpp: the constructor of `Banjax` with the rest of `read_configuration`.
use banjax.Base.{
  ℕ, Bool, true, false, List, [], ◌∷◌, Option, none, some, Bytes, codes, lookup, if◌then◌else◌,
}
use banjax.Challenger.State.{Challenger}
use banjax.Challenger.Load
use banjax.Challenger.Load.{ChallengerNode, Loading, loaded, thrown, terminated}
use banjax.WhiteList
use banjax.WhiteList.{WhiteList, Entry}
use banjax.World.{M}
use banjax.Swabber
use banjax.Swabber.{Node}
use banjax.BotSniffer
use banjax.BotSniffer.{BotSniffer}
use banjax.KafkaConsumer
use banjax.KafkaConsumer.{KafkaSettings, KafkaConsumer, producer_config, new_consumer}
use banjax.Config.Read.{Reading, done, aborted, uncaught, ◌>>=◌, FilterConfig, Configuration}
use banjax.Config.Priorities.{PriorityMap}
use banjax.Config.Build.{
  Filter, regex_manager, challenger, white_lister, bot_sniffer, denialator, nothing_built,
  build_filters,
}
use banjax.Config.Start.{read_files}
use banjax.Plugin.State.{
  Banjax, Handed, KafkaProducer, Outside, interval_msec, new_shared, remove_expired_challenges_g,
  report_status_g, schedule_every,
}

abbrev pub is_bot_sniffer : Filter → Bool
is_bot_sniffer regex_manager = false
is_bot_sniffer challenger = false
is_bot_sniffer white_lister = false
is_bot_sniffer bot_sniffer = true
is_bot_sniffer denialator = false

abbrev pub is_challenger : Filter → Bool
is_challenger regex_manager = false
is_challenger challenger = true
is_challenger white_lister = false
is_challenger bot_sniffer = false
is_challenger denialator = false

abbrev pub is_white_lister : Filter → Bool
is_white_lister regex_manager = false
is_white_lister challenger = false
is_white_lister white_lister = true
is_white_lister bot_sniffer = false
is_white_lister denialator = false

module _ {N : Type 0} where
  -- The configuration of the filter that passes the test, if it was built.
  unfoldable pub find_config :
      (Filter → Bool) → List (Filter × FilterConfig N) → Option (FilterConfig N)
  find_config is [] = none
  find_config is ((f, k) ∷ fs) = let rest = find_config is fs in if is f then some k else rest

  module _ (o : Outside N) where
    -- The first node that cannot be read throws.
    unfoldable pub swabber_nodes : List N → Reading (List Node)
    swabber_nodes [] = done []
    swabber_nodes (n ∷ ns) = elim (o.swabber_node n) [
      | none ↦ uncaught
      | some node ↦ swabber_nodes ns >>= λ nodes. done (node ∷ nodes)
    ]

    -- The bot sniffer takes the socket that is kept for it; without one the socket stays there.
    unfoldable pub make_sniffer :
        Option (FilterConfig N) → Option Bytes → M (Reading (Option BotSniffer × Option Bytes))
    make_sniffer none reuse w = (done (none, reuse), w)
    make_sniffer (some k) reuse w =
        let (s, w') =
          BotSniffer.load_config o.library o.surroundings (o.sniffer_port k) (o.sniffer_key k) reuse
            w in
        (elim s [ none ↦ aborted | some b ↦ done (some b, none) ], w')

    -- A range that cannot be read throws no `YAML::Exception`, which is all that is caught; a mask
    -- that C++ does not define is counted with it.
    unfoldable pub make_white_list : Option (FilterConfig N) → Reading WhiteList
    make_white_list none = done (record { white_list = []; per_host = [] })
    make_white_list (some k) =
        elim (WhiteList.load_config o.library.inet o.library.stoi (o.white_list_entries k)
          (record { white_list = []; per_host = [] })) [ none ↦ uncaught | some w ↦ done w ]

    -- Before its nodes are read.
    abbrev pub fresh_challenger : WhiteList → Challenger
    fresh_challenger w = record {
      hashed_key = [];
      number_of_trailing_zeros = 0;
      dynamic_expiry_seconds = o.unset_expiry;
      host_challenges_static = [];
      host_to_challenge_dynamic = [];
      ip_to_challenge_dynamic = [];
      global_white_list = some w;
      kafka_producer = false;
    }

    abbrev pub of_loading : Loading → Reading (Option Challenger)
    of_loading (loaded c) = done (some c)
    of_loading thrown = aborted
    of_loading terminated = uncaught

    unfoldable pub make_challenger :
        Bytes → Option (FilterConfig N) → WhiteList → Reading (Option Challenger)
    make_challenger dir none w = done none
    make_challenger dir (some k) w = of_loading (
        Load.load_config o.library o.read_file dir o.load_time (o.challenger_node k)
          (fresh_challenger w))

    abbrev pub consumer_for : KafkaSettings → ℕ → Option KafkaConsumer → KafkaConsumer
    consumer_for config number none = new_consumer o.garbage config number
    consumer_for config number (some consumer) = KafkaConsumer.reload_config config number consumer

    -- A `throw` in the constructor of the producer is caught by nothing.
    abbrev pub with_producer :
        KafkaConsumer → Option KafkaProducer → Reading (Option KafkaConsumer × Option KafkaProducer)
    with_producer consumer none = uncaught
    with_producer consumer (some p) =
        if o.producer_created then done (some consumer, some p) else uncaught

    unfoldable pub set_up_kafka :
        ℕ → Option N → Option KafkaConsumer → Reading (Option KafkaConsumer × Option KafkaProducer)
    set_up_kafka number none consumer = done (none, none)
    set_up_kafka number (some node) consumer =
        let config = o.kafka_settings node in
        elim (lookup (codes "metadata.broker.list") config) [
          | none ↦ done (none, none)
          | some brokers ↦
              with_producer (consumer_for config number consumer)
                (producer_config o.conf_set config)
        ]

    -- The challenger asks its `Banjax` for the producer, each time.
    abbrev pub with_producer_view : Option KafkaProducer → Option Challenger → Option Challenger
    with_producer_view p none = none
    with_producer_view none (some c) = some (record c { kafka_producer = false })
    with_producer_view (some p) (some c) = some (record c { kafka_producer = true })

    -- From the swabber on, with the configuration and the priorities. Where several filters fail,
    -- each of them ends the process, and which is the first is not told.
    unfoldable pub assemble :
        Bytes → Handed → ℕ → ℕ → Configuration N × PriorityMap → Reading (Banjax N)
    assemble dir h number calls (c, m) = swabber_nodes c.swabber_conf >>= λ nodes.
        build_filters o.throws c.filter_config_map m nothing_built >>= λ b.
        make_white_list (find_config is_white_lister b.filters) >>= λ l.
        make_challenger dir (find_config is_challenger b.filters) l >>= λ ch.
        let e = o.surroundings in
        let w = (Swabber.load_config e nodes (new_shared calls h.swabber_socket)).1 in
        let (s, w') = make_sniffer (find_config is_bot_sniffer b.filters) h.bot_sniffer_socket w in
        s >>= λ (sniffer, reuse). set_up_kafka number c.kafka_conf h.kafka_consumer >>= λ (k, p).
        done (record {
          number = number;
          configuration = c;
          priority_map = m;
          built = b;
          shared = w';
          global_ip_white_list = l;
          own_challenger = with_producer_view p ch;
          sniffer = sniffer;
          botsniffer_socket_reuse = reuse;
          kafka_consumer = k;
          kafka_producer = p;
          report_status_action =
              schedule_every (o.scheduled report_status_g) report_status_g number
                (interval_msec 15 c.report_status_interval_seconds);
          remove_expired_challenges_action =
              schedule_every (o.scheduled remove_expired_challenges_g) remove_expired_challenges_g
                number (interval_msec 16 c.remove_expired_challenges_interval_seconds);
        })

    -- The constructor. `calls` numbers the calls that are answered from here on.
    unfoldable pub new_banjax : Bytes → Handed → ℕ → ℕ → Reading (Banjax N)
    unfolding assemble
    new_banjax dir h number calls = read_files o.yaml dir o.fuel >>= assemble dir h number calls
