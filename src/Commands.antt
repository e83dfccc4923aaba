-- ===== src/Commands.antt =====
-- src/banjax.cpp: `kafka_message_consume`, the commands that come from Kafka.
pub mod Served
pub mod Kept
use banjax.Base.{Bool, Option, none, some, Bytes, codes, beq, if◌then◌else◌}
use banjax.Challenger.State.{Challenger, load_single_host_challenge, load_single_ip_challenge}
use banjax.Filter.{HostChallengeSpec}
use banjax.Kafka.{report_if_ip_in_database}
use banjax.World.{Surroundings, M, ◌>>=◌, ◌>>◌, return}

pub record NameValue : Type 0 where
  pub name : Bytes
  pub value : Bytes

module _ (e : Surroundings) where
  -- `spec` is what `parse_single_challenge` makes of `dynamic_challenger_config` at the time.
  abbrev pub consume_command : Bool → HostChallengeSpec → NameValue → Challenger → M Challenger
  consume_command producer spec m c =
      if beq m.name (codes "challenge_host")
      then return (load_single_host_challenge m.value spec c)
      else if beq m.name (codes "challenge_ip")
      then (do
        report_if_ip_in_database e producer m.value
        return (load_single_ip_challenge m.value spec c))
      else return c

  -- A message that is no pair of texts is `none`, and so is the challenger while there is none.
  unfoldable pub kafka_message_consume :
      Bool → HostChallengeSpec → Option NameValue → Option Challenger → M (Option Challenger)
  kafka_message_consume producer spec none challenger = return challenger
  kafka_message_consume producer spec (some m) none = return none
  kafka_message_consume producer spec (some m) (some c) = do
    c' ← consume_command producer spec m c
    return (some c')
