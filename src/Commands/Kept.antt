-- ===== src/Commands/Kept.antt =====
-- A command from Kafka leaves the socket of the swabber as it is.
use banjax.Base.{◌≡◌, inl, inr, refl, Bool, Option, none, some, codes, beq, Bool-cases}
use banjax.Challenger.State.{Challenger}
use banjax.Commands.{NameValue, consume_command, kafka_message_consume}
use banjax.Filter.{HostChallengeSpec}
use banjax.Kafka.Kept.{report_if_ip_in_database-socket}
use banjax.World.{Surroundings, World}

module _ (e : Surroundings) (producer : Bool) (spec : HostChallengeSpec) where
  consume_command-socket :
      (m : NameValue) (c : Challenger) (w : World)
      → (consume_command e producer spec m c w).1.socket ≡ w.socket
  consume_command-socket m c w = elim (Bool-cases (beq m.name (codes "challenge_host"))) [
    | inl a ↦ rw a refl
    | inr a ↦ elim (Bool-cases (beq m.name (codes "challenge_ip"))) [
      | inl b ↦ rw (a, b) (report_if_ip_in_database-socket e producer m.value w)
      | inr b ↦ rw (a, b) refl
    ]
  ]

  pub kafka_message_consume-socket :
      (m : Option NameValue) (c : Option Challenger) (w : World)
      → (kafka_message_consume e producer spec m c w).1.socket ≡ w.socket
  unfolding kafka_message_consume
  kafka_message_consume-socket none c w = refl
  kafka_message_consume-socket (some m) none w = refl
  kafka_message_consume-socket (some m) (some c) w = consume_command-socket m c w
