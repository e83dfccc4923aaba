-- ===== src/Tests/Reloads.antt =====
-- A reload of the Kafka consumer.
use banjax.Base.{
  ◌≡◌, ◌≤◌, refl, ℕ, Bool, true, false, [], ◌∷◌, none, some, Bytes, codes, Dict, lookup, insert,
  beq,
}
use banjax.KafkaConsumer.{
  KafkaSettings, KafkaConsumer, consuming, timed_out, Answers, consumer_config,
  set_single_config_field, set_fields, reload_config, by_reload, here, next, new_consumer,
}
use banjax.KafkaConsumer.Current.{IsCurrent, Reachable-IsCurrent}
use banjax.KafkaConsumer.Reloaded.{thread_steps, IsLoaded, reload_config-thread_steps}

abbrev accept_all : Bytes → Bytes → Bool
accept_all field value = true

abbrev host_name : Bytes
host_name = codes "edge"

-- KafkaSettings with a topic, a list of brokers, and nothing for the encryption.
abbrev settings : Bytes → KafkaSettings
settings topic =
    (codes "command_topic", some topic)
    ∷ (codes "metadata.broker.list", some (codes "broker"))
    ∷ (codes "security.protocol", none)
    ∷ (codes "ssl.ca.location", none)
    ∷ (codes "ssl.certificate.location", none)
    ∷ (codes "ssl.key.location", none)
    ∷ (codes "ssl.key.password", none)
    ∷ []

abbrev conf_of : Bytes → Dict Bytes × Bytes
conf_of topic =
    ((codes "metadata.broker.list", codes "broker") ∷ (codes "group.id", host_name) ∷ [], topic)

settings-consumer_config :
    consumer_config accept_all host_name (settings (codes "two")) ≡ some (conf_of (codes "two"))
unfolding consumer_config set_fields set_single_config_field lookup insert beq
settings-consumer_config = refl

abbrev answers : Answers
answers = record { subscribed = true; consumed = timed_out; locked = true }

-- A consumer that runs with its first topic.
abbrev running : KafkaConsumer
running = record (new_consumer false (settings (codes "one")) 1) {
  config_valid = true;
  phase = consuming (conf_of (codes "one"));
}

reload_config-thread_steps_example :
    (n : ℕ) × (s' : KafkaConsumer) × (n ≤ 4)
    × (thread_steps accept_all host_name answers n
          (reload_config (settings (codes "two")) 2 running)
        ≡ some s')
    × IsLoaded accept_all host_name (conf_of (codes "two")) s'
    × (s'.banjax ≡ 2)
unfolding new_consumer
reload_config-thread_steps_example =
    reload_config-thread_steps accept_all host_name answers (conf_of (codes "two")) refl running
      (settings (codes "two")) 2 refl (λ e. cc e) settings-consumer_config

Reachable-IsCurrent_example :
    IsCurrent accept_all host_name
      (reload_config (settings (codes "two")) 2 (new_consumer true (settings (codes "one")) 1))
Reachable-IsCurrent_example =
    Reachable-IsCurrent accept_all host_name true (settings (codes "one")) 1
      (reload_config (settings (codes "two")) 2 (new_consumer true (settings (codes "one")) 1))
      (next here (by_reload (settings (codes "two")) 2))
