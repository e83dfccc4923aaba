-- ===== src/Kafka/Kept.antt =====
-- A message to Kafka leaves the socket of the swabber as it is.
use banjax.Base.{◌≡◌, refl, Bool, true, false, Bytes}
use banjax.World.{Surroundings, World}
use banjax.Kafka.{challenger_state, report, report_if_ip_in_database}

module _ (e : Surroundings) where
  pub report_if_ip_in_database-socket :
      (producer : Bool) (ip : Bytes) (w : World)
      → (report_if_ip_in_database e producer ip w).1.socket ≡ w.socket
  unfolding report_if_ip_in_database report challenger_state
  report_if_ip_in_database-socket true ip w = refl
  report_if_ip_in_database-socket false ip w = refl
