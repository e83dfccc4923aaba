-- ===== src/Plugin/Status.antt =====
-- src/banjax.cpp: the two scheduled continuations, with `Banjax::report_status` and
-- `Banjax::remove_expired_challenges`; `send_message` of src/kafka.cpp.
use banjax.Base.{
  ℕ, Bool, List, [], ◌∷◌, Option, none, some, Bytes, codes, Dict, insert, length, if◌then◌else◌,
}
use banjax.Base.Int.{ℤ, pos, negsuc}
use banjax.Challenger.State.{Challenger}
use banjax.IpDb.{size}
use banjax.Plugin.State.{remove_expired_challenges, Banjax, KafkaProducer}
use banjax.Plugin.Lifetime.{BanjaxPlugin}

-- A value of a message. A `TSMgmtFloat` is its bit pattern.
pub data Json : Type 0 where
  text : Bytes → Json
  number : ℕ → Json
  integer : ℤ → Json
  float_bits : ℕ → Json

-- The metrics of the Kafka configuration, `none` without the key and `some none` where `as` throws;
-- and what Traffic Server knows of a metric.
pub record Metrics (N : Type 0) : Type 0 where
  pub ats_metrics_to_report : N → Option (Option (List Bytes))
  pub int_get : Bytes → Option ℤ
  pub float_get : Bytes → Option ℕ

-- A call that returns, with what it has given to librdkafka; a null pointer; an exception.
pub data StatusCall : Type 0 where
  returned : ℤ → List (Bytes × Bytes) → StatusCall
  null_pointer uncaught : StatusCall

module _ {N : Type 0} (x : Metrics N) where
  abbrev pub insert_metric : Bytes → Option ℤ → Option ℕ → Dict Json → Dict Json
  insert_metric name (some v) f message = insert name (integer v) message
  insert_metric name none (some v) message = insert name (float_bits v) message
  insert_metric name none none message = message

  unfoldable pub insert_metrics : List Bytes → Dict Json → Dict Json
  insert_metrics [] message = message
  insert_metrics (stat_name ∷ metrics) message =
      insert_metrics metrics
        (insert_metric stat_name (x.int_get stat_name) (x.float_get stat_name) message)

  -- `none` is an exception.
  abbrev pub with_metrics : Option (Option (List Bytes)) → Dict Json → Option (Dict Json)
  with_metrics none message = some message
  with_metrics (some none) message = none
  with_metrics (some (some metrics)) message = some (insert_metrics metrics message)

  abbrev pub metrics_of : Option N → Option (Option (List Bytes))
  metrics_of none = none
  metrics_of (some kafka_conf) = x.ats_metrics_to_report kafka_conf

-- `KafkaProducer::send_message`: the text of the message, and whether `produce` takes it.
module _ (dump : Dict Json → Bytes) (produce : Bytes → Bytes → Bool) where
  unfoldable pub send_message : KafkaProducer → Dict Json → StatusCall
  send_message p message =
      let serialized_message = dump message in
      returned (if produce p.1 serialized_message then pos 0 else negsuc 0)
        ((p.1, serialized_message) ∷ [])

-- The sizes of the maps of challenges.
abbrev pub dynamic_host_challenges_size : Challenger → ℕ
dynamic_host_challenges_size c = length c.host_to_challenge_dynamic

abbrev pub dynamic_ip_challenges_size : Challenger → ℕ
dynamic_ip_challenges_size c = length c.ip_to_challenge_dynamic

module _ {N : Type 0} (x : Metrics N) (dump : Dict Json → Bytes) (produce : Bytes → Bytes → Bool)
    (host_name : Bytes) where
  -- The sizes of the databases are read with no lock.
  unfoldable pub status_message : BanjaxPlugin N → Banjax N → Challenger → ℕ → Dict Json
  status_message g b challenger current_timestamp =
      (codes "id", text host_name)
      ∷ (codes "name", text (codes "status"))
      ∷ (codes "num_of_host_challenges", number (dynamic_host_challenges_size challenger))
      ∷ (codes "num_of_ip_challenges", number (dynamic_ip_challenges_size challenger))
      ∷ (codes "timestamp", number current_timestamp)
      ∷ (codes "restart_time", number g.restart_time)
      ∷ (codes "reload_time", number g.reload_time)
      ∷ (codes "swabber_ip_db_size", number (size b.shared.swabber_ip_db))
      ∷ (codes "challenger_ip_db_size", number (size b.shared.challenger_ip_db))
      ∷ (codes "regex_manager_ip_db_size", number (size b.shared.regex_manager_ip_db))
      ∷ []

  abbrev pub send_status : KafkaProducer → Option (Dict Json) → StatusCall
  send_status p none = uncaught
  send_status p (some message) = send_message dump produce p message

  -- The challenger is read with no test for null, unlike below.
  abbrev pub report_status_of :
      BanjaxPlugin N → Banjax N → Option KafkaProducer → Option Challenger → ℕ → StatusCall
  report_status_of g b none challenger now = returned (negsuc 0) []
  report_status_of g b (some p) none now = null_pointer
  report_status_of g b (some p) (some c) now =
      send_status p
        (with_metrics x (metrics_of x b.configuration.kafka_conf) (status_message g b c now))

  unfoldable pub report_status : BanjaxPlugin N → Banjax N → ℕ → StatusCall
  unfolding status_message insert_metrics send_message
  report_status g b now = report_status_of g b b.kafka_producer b.own_challenger now

  -- The scheduled continuation, whatever `Banjax` has scheduled it.
  unfoldable pub report_status_g : Option (BanjaxPlugin N) → ℕ → StatusCall
  unfolding report_status
  report_status_g none now = returned (negsuc 0) []
  report_status_g (some g) now = report_status g g.current_state now

module _ {N : Type 0} where
  unfoldable pub remove_expired_challenges_g :
      ℕ → Option (BanjaxPlugin N) → ℤ × Option (BanjaxPlugin N)
  unfolding remove_expired_challenges
  remove_expired_challenges_g now none = (negsuc 0, none)
  remove_expired_challenges_g now (some g) =
      let r = remove_expired_challenges now g.current_state in
      (r.0, some (record g { current_state = r.1 }))
