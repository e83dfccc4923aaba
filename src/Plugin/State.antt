-- ===== src/Plugin/State.antt =====
-- src/banjax.h and src/banjax.cpp: the state of a `Banjax`, its scheduled actions, its destructor, and
-- what it hands over to the next one.
use banjax.Base.{
  ℕ, ◌+◌, ◌*◌, Bool, true, false, ◌&&◌, List, [], ◌∷◌, Option, none, some, Bytes, Dict, ◌==◌,
  if◌then◌else◌,
}
use banjax.Base.Int.{ℤ, pos, negsuc}
use banjax.Challenger
use banjax.Challenger.State.{Challenger}
use banjax.Challenger.Load.{ChallengerNode}
use banjax.Library.{Library}
use banjax.WhiteList.{WhiteList, Entry}
use banjax.World.{Surroundings, World}
use banjax.Swabber
use banjax.Swabber.{Node}
use banjax.BotSniffer
use banjax.BotSniffer.{BotSniffer}
use banjax.KafkaConsumer.{KafkaSettings, KafkaConsumer}
use banjax.Config.Read.{Yaml, FilterConfig, Configuration}
use banjax.Config.Priorities.{PriorityMap}
use banjax.Config.Build.{Filter, Built}

pub data ActionKind : Type 0 where
  report_status_g remove_expired_challenges_g : ActionKind

-- A scheduled continuation, with the number of the `Banjax` that scheduled it.
pub record Action : Type 0 where
  pub owner : ℕ
  pub kind : ActionKind
  pub every_msec : ℤ

-- The configuration and the topic of a producer.
abbrev pub KafkaProducer : Type 0
KafkaProducer = Dict Bytes × Bytes

-- `number` tells the objects apart. `shared` has the ip databases and the swabber.
pub record Banjax (N : Type 0) : Type 0 where
  pub number : ℕ
  pub configuration : Configuration N
  pub priority_map : PriorityMap
  pub built : Built N
  pub shared : World
  pub global_ip_white_list : WhiteList
  pub own_challenger : Option Challenger
  pub sniffer : Option BotSniffer
  pub botsniffer_socket_reuse : Option Bytes
  pub kafka_consumer : Option KafkaConsumer
  pub kafka_producer : Option KafkaProducer
  pub report_status_action : Option Action
  pub remove_expired_challenges_action : Option Action

-- What the constructor is given of the `Banjax` before.
pub record Handed : Type 0 where
  pub swabber_socket : Option Bytes
  pub bot_sniffer_socket : Option Bytes
  pub kafka_consumer : Option KafkaConsumer

abbrev pub nothing_handed : Handed
nothing_handed = record { swabber_socket = none; bot_sniffer_socket = none; kafka_consumer = none }

-- The code that the constructor calls outside of this repository.
pub record Outside (N : Type 0) : Type 0 where
  pub yaml : Yaml N
  pub fuel : ℕ
  pub library : Library
  pub surroundings : Surroundings
  -- A constructor of a filter that is not built below throws a `YAML::Exception`.
  pub throws : Filter → FilterConfig N → Bool
  -- The nodes of the swabber, of the bot sniffer (port and key) and of Kafka, as yaml-cpp reads
  -- them; `none` where `as` throws.
  pub swabber_node : N → Option Node
  pub sniffer_port : FilterConfig N → Option ℕ
  pub sniffer_key : FilterConfig N → Option Bytes
  -- The nodes of the white lister and of the challenger, the files of its pages, the time at which
  -- they are read, and what `dynamic_expiry_seconds` holds where nothing sets it.
  pub white_list_entries : FilterConfig N → List Entry
  pub challenger_node : FilterConfig N → ChallengerNode
  pub read_file : Bytes → Bytes
  pub load_time : ℕ
  pub unset_expiry : ℕ
  pub kafka_settings : N → KafkaSettings
  -- librdkafka: `Conf::set`, and whether `Producer::create` returns an object.
  pub conf_set : Bytes → Bytes → Bool
  pub producer_created : Bool
  -- What `config_valid` of a new consumer holds before it is set.
  pub garbage : Bool
  -- Whether `TSContScheduleEvery` returns an action.
  pub scheduled : ActionKind → Bool

-- The ip databases start empty. A socket that is not handed over is a new one, which is not bound.
unfoldable pub new_shared : ℕ → Option Bytes → World
new_shared calls s = record {
  calls = calls;
  swabber_ip_db = [];
  challenger_ip_db = [];
  regex_manager_ip_db = [];
  socket = some (elim s [ none ↦ [] | some bound ↦ bound ]);
  local_endpoint = [];
  grace_period = pos 0;
  ban_ip_list = [];
  sent = [];
  messages = [];
}

-- 1000 times, and the interval that is taken for 0.
abbrev times_1000 : ℤ → ℤ
times_1000 (pos n) = pos (n * 1000)
times_1000 (negsuc n) = negsuc (n * 1000 + 999)

unfoldable pub interval_msec : ℕ → ℤ → ℤ
interval_msec otherwise (pos n) = if n == 0 then pos (otherwise * 1000) else times_1000 (pos n)
interval_msec otherwise (negsuc n) = times_1000 (negsuc n)

unfoldable pub schedule_every : Bool → ActionKind → ℕ → ℤ → Option Action
schedule_every false kind number msec = none
schedule_every true kind number msec =
    some (record { owner = number; kind = kind; every_msec = msec })

abbrev pub same_kind : ActionKind → ActionKind → Bool
same_kind report_status_g report_status_g = true
same_kind report_status_g remove_expired_challenges_g = false
same_kind remove_expired_challenges_g report_status_g = false
same_kind remove_expired_challenges_g remove_expired_challenges_g = true

abbrev pub same_action : Action → Action → Bool
same_action x a = x.owner == a.owner && same_kind x.kind a.kind

-- `TSActionCancel`, unless the action is null.
unfoldable pub cancel : Option Action → List Action → List Action
cancel none actions = actions
cancel (some a) [] = []
cancel (some a) (x ∷ actions) =
    let rest = cancel (some a) actions in if same_action x a then rest else x ∷ rest

module _ {N : Type 0} where
  -- The destructor.
  unfoldable pub destroy : Banjax N → List Action → List Action
  destroy b actions =
      cancel b.remove_expired_challenges_action (cancel b.report_status_action actions)

  -- `release_swabber_socket`, `release_botsniffer_socket` and `release_kafka_consumer`.
  unfoldable pub release : Banjax N → Handed × Banjax N
  release b =
      let s = Swabber.release_socket b.shared in
      let t : Option Bytes × Option BotSniffer = elim b.sniffer [
        | none ↦ (none, none)
        | some k ↦ let r = BotSniffer.release_socket k in (r.0, some r.1)
      ] in
      (
        record {
          swabber_socket = s.0;
          bot_sniffer_socket = t.0;
          kafka_consumer = b.kafka_consumer;
        },
        record b { shared = s.1; sniffer = t.1; kafka_consumer = none },
      )

-- With the result: 0, or -1 where there is nothing to do it on.
abbrev pub expired_of : ℕ → Option Challenger → ℤ × Option Challenger
expired_of now none = (negsuc 0, none)
expired_of now (some c) = (pos 0, some (Challenger.State.remove_expired_challenges now c))

module _ {N : Type 0} where
  unfoldable pub remove_expired_challenges : ℕ → Banjax N → ℤ × Banjax N
  remove_expired_challenges now b =
      let r = expired_of now b.own_challenger in (r.0, record b { own_challenger = r.1 })
