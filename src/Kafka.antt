-- ===== src/Kafka.antt =====
-- The messages that src/banjax.cpp sends to Kafka about an address: `report_pass_or_failure`,
-- `report_pass_or_failure2`, `report_ip_banned` and `report_if_ip_in_database`.
-- The first argument is whether there is a `kafka_producer`. The host name, which is the same in
-- every message, is left out.
pub mod Kept
use banjax.Base.{ℕ, Bool, [], ◌∷◌, ◌++◌, Option, Bytes, codes, if◌then◌else◌}
use banjax.IpDb.{get_ip_state}
use banjax.World.{Surroundings, M, ◌>>=◌, return, modify, try_lock}

module _ (e : Surroundings) where
  -- `challenger_ip_db.get_ip_state(ip)`.
  unfoldable pub challenger_state : Bytes → M (Option ℕ)
  challenger_state ip = do
    locked ← try_lock e
    λ w. (get_ip_state 0 locked ip w.challenger_ip_db, w)

  pub report : Bool → Bytes → Bytes → Bytes → M (Unit {0})
  unfolding challenger_state
  report producer name site ip =
      if producer
      then (do
        state ← challenger_state ip
        modify (λ w. record w {
          messages =
              w.messages
              ++ record {
                name = name;
                value_ip = ip;
                value_site = site;
                value_challenger_db = state;
              }
                ∷ [];
        }))
      else return tt

  unfoldable pub report_pass_or_failure : Bool → Bytes → Bytes → Bool → M (Unit {0})
  unfolding report
  report_pass_or_failure producer site ip passed =
      report producer (if passed then codes "ip_passed_challenge" else codes "ip_failed_challenge")
        site ip

  unfoldable pub report_pass_or_failure2 : Bool → Bytes → Bytes → Bool → M (Unit {0})
  unfolding report
  report_pass_or_failure2 producer site ip passed =
      report producer
        (if passed then codes "ip_passed_challenge2" else codes "ip_failed_challenge2") site ip

  unfoldable pub report_ip_banned : Bool → Bytes → Bytes → M (Unit {0})
  unfolding report
  report_ip_banned producer site ip = report producer (codes "ip_banned") site ip

  -- This one has no site.
  unfoldable pub report_if_ip_in_database : Bool → Bytes → M (Unit {0})
  unfolding report
  report_if_ip_in_database producer ip = report producer (codes "ip_in_database") [] ip
