-- ===== src/KafkaConsumer.antt =====
-- src/kafka.cpp: the configuration of librdkafka, and the thread of `KafkaConsumer` beside the
-- reloads of the plugin. A section under `stored_config_lock` is one step.
pub mod Current
pub mod Reloaded
use banjax.Base.{
  ℕ, ◌≡◌, Bool, true, false, not, ◌&&◌, List, [], ◌∷◌, ◌++◌, Option, none, some, Bytes, codes, Dict,
  lookup, insert, if◌then◌else◌, ◌>>=◌,
}
use banjax.Commands.{NameValue}

-- A map of the configuration, with `none` for the value `Null`.
abbrev pub KafkaSettings : Type 0
KafkaSettings = Dict (Option Bytes)

-- `RdKafka::Conf::set`, as whether it is `CONF_OK`.
module _ (conf_set : Bytes → Bytes → Bool) where
  -- `none` is the `throw`.
  unfoldable pub set_single_config_field : KafkaSettings → Bytes → Dict Bytes → Option (Dict Bytes)
  set_single_config_field yaml_conf field rd_conf = elim (lookup field yaml_conf) [
    | none ↦ none
    | some none ↦ some rd_conf
    | some (some value) ↦ if conf_set field value then some (insert field value rd_conf) else none
  ]

  unfoldable pub set_fields : KafkaSettings → List Bytes → Dict Bytes → Option (Dict Bytes)
  unfolding set_single_config_field
  set_fields yaml_conf [] rd_conf = some rd_conf
  set_fields yaml_conf (field ∷ fields) rd_conf = do
    rd_conf' ← set_single_config_field yaml_conf field rd_conf
    set_fields yaml_conf fields rd_conf'

  abbrev connection_fields : List Bytes
  connection_fields =
      codes "metadata.broker.list"
      ∷ codes "security.protocol"
      ∷ codes "ssl.ca.location"
      ∷ codes "ssl.certificate.location"
      ∷ codes "ssl.key.location"
      ∷ codes "ssl.key.password"
      ∷ []

  -- A setting that is read as a string; `none` is the exception.
  abbrev string_of : Option (Option Bytes) → Option Bytes
  string_of none = none
  string_of (some v) = v

  -- The configuration of a producer and its topic.
  unfoldable pub producer_config : KafkaSettings → Option (Dict Bytes × Bytes)
  unfolding set_fields
  producer_config config = do
    conf ← set_fields config connection_fields []
    report_topic ← string_of (lookup (codes "report_topic") config)
    some (conf, report_topic)

  -- The configuration of a consumer, whose group is the host, and its topic.
  unfoldable pub consumer_config : Bytes → KafkaSettings → Option (Dict Bytes × Bytes)
  unfolding set_fields
  consumer_config host_name stored_config = do
    topic ← string_of (lookup (codes "command_topic") stored_config)
    conf ← set_fields stored_config connection_fields []
    if conf_set (codes "group.id") host_name
        then some (insert (codes "group.id") host_name conf, topic)
        else none

-- What `consume` returns: a message is its payload, `none` for one that is no JSON.
pub data Received : Type 0 where
  timed_out other_error : Received
  payload : Option (Option NameValue) → Received

-- Where the thread is, with the configuration that it has made of the stored one.
pub data Phase : Type 0 where
  loading ended : Phase
  loaded consuming : Dict Bytes × Bytes → Phase
  received : Dict Bytes × Bytes → Received → Phase

-- `banjax` is the number of the `Banjax` that the messages go to.
pub record KafkaConsumer : Type 0 where
  pub config_valid : Bool
  pub shutting_down : Bool
  pub stored_config : KafkaSettings
  pub banjax : ℕ
  pub phase : Phase
  pub delivered : List (ℕ × Option NameValue)

-- The answers to one step of the thread: of `create` and `subscribe`, of `consume`, and of the try
-- of the lock.
pub record Answers : Type 0 where
  pub subscribed : Bool
  pub consumed : Received
  pub locked : Bool

unfoldable pub reload_config : KafkaSettings → ℕ → KafkaConsumer → KafkaConsumer
reload_config config new_banjax s = record s {
  stored_config = config;
  banjax = new_banjax;
  config_valid = false;
}

unfoldable pub shutdown : KafkaConsumer → KafkaConsumer
shutdown s = record s { shutting_down = true }

unfoldable pub msg_consume : Bool → Received → KafkaConsumer → KafkaConsumer
msg_consume false message s = s
msg_consume true timed_out s = s
msg_consume true other_error s = s
msg_consume true (payload none) s = s
msg_consume true (payload (some m)) s = record s { delivered = s.delivered ++ (s.banjax, m) ∷ [] }

module _ (conf_set : Bytes → Bytes → Bool) (host_name : Bytes) where
  -- One step of the thread; `none` is a `throw`, which ends the process, or the end of the thread.
  unfoldable pub thread_step : Answers → KafkaConsumer → Phase → Option KafkaConsumer
  unfolding consumer_config msg_consume
  thread_step a s loading = if s.shutting_down then some (record s { phase = ended }) else (do
    conf ← consumer_config conf_set host_name s.stored_config
    some (record s { phase = loaded conf; config_valid = true }))
  thread_step a s (loaded conf) =
      if a.subscribed then some (record s { phase = consuming conf }) else none
  thread_step a s (consuming conf) =
      if s.config_valid && not s.shutting_down
      then some (record s { phase = received conf a.consumed })
      else some (record s { phase = loading })
  thread_step a s (received conf message) =
      some (msg_consume a.locked message (record s { phase = consuming conf }))
  thread_step a s ended = none

  -- A step of the thread, or of the thread that reloads and shuts down.
  pub data Step : KafkaConsumer → KafkaConsumer → Type 0 where
    by_thread : {s s' : KafkaConsumer} (a : Answers) → thread_step a s s.phase ≡ some s' → Step s s'
    by_reload :
        {s : KafkaConsumer} (config : KafkaSettings) (b : ℕ) → Step s (reload_config config b s)
    by_shutdown : {s : KafkaConsumer} → Step s (shutdown s)

  pub data Reachable : KafkaConsumer → KafkaConsumer → Type 0 where
    here : {s : KafkaConsumer} → Reachable s s
    next : {s t u : KafkaConsumer} → Reachable s t → Step t u → Reachable s u

-- A consumer as it is constructed. `config_valid` is not set before the thread has read the
-- configuration.
unfoldable pub new_consumer : Bool → KafkaSettings → ℕ → KafkaConsumer
new_consumer garbage new_config new_banjax = record {
  config_valid = garbage;
  shutting_down = false;
  stored_config = new_config;
  banjax = new_banjax;
  phase = loading;
  delivered = [];
}
