-- ===== src/Challenger/Failures.antt =====
-- `report_failure` and `report_success`: the number of failed answers of an address.
pub mod Counting
use banjax.Base.{
  ℕ, zero, suc, ◌+◌, ◌%◌, ◌^◌, Bool, true, false, [], ◌∷◌, ◌++◌, Option, none, some, Bytes, codes,
  leb, if◌then◌else◌,
}
use banjax.Filter.{Parts, HostChallengeSpec}
use banjax.IpDb.{get_ip_state, set_ip_state, drop_ip}
use banjax.Kafka.{challenger_state}
use banjax.Library.{Library}
use banjax.Swabber.{ban}
use banjax.Util.{encapsulate_in_quotes}
use banjax.World.{Surroundings, World, M, ◌>>=◌, ◌>>◌, return, modify, try_lock}

module _ (e : Surroundings) where
  unfoldable pub set_failures : Bytes → ℕ → M (Unit {0})
  set_failures ip n = do
    locked ← try_lock e
    modify (λ w. record w { challenger_ip_db = (set_ip_state locked ip n w.challenger_ip_db).0 })

  unfoldable pub drop_failures : Bytes → M (Unit {0})
  drop_failures ip = do
    locked ← try_lock e
    modify (λ w. record w { challenger_ip_db = (drop_ip locked ip w.challenger_ip_db).0 })

  unfoldable pub report_success : Bytes → M (Unit {0})
  report_success client_ip = set_failures client_ip 1

module _ (x : Library) (e : Surroundings) where
  pub banning_reason : HostChallengeSpec → Parts → ℕ → Bytes
  banning_reason spec parts n =
      codes "failed challenge "
      ++ (spec.name
          ++ (codes " for host "
              ++ (parts.host
                  ++ (codes " "
                      ++ (x.to_string n
                          ++ (codes " times, "
                              ++ (encapsulate_in_quotes parts.url
                                  ++ (codes ", "
                                      ++ (parts.host
                                          ++ (codes ", " ++ encapsulate_in_quotes parts.ua))))))))))

  -- `(**ip_state)++` on a `uint64_t`, and the comparison with the threshold.
  unfoldable pub count_failure : HostChallengeSpec → Parts → ℕ → M Bool
  count_failure spec parts n =
      if leb spec.fail_tolerance_threshold n
      then (do ban e parts.ip (banning_reason spec parts n); drop_failures e parts.ip; return true)
      else (do set_failures e parts.ip n; return false)

  unfoldable pub report_failure : HostChallengeSpec → Parts → M Bool
  report_failure spec parts = do
    found ← challenger_state e parts.ip
    elim found [ none ↦ return false | some n ↦ count_failure spec parts ((n + 1) % 2 ^ 64) ]
