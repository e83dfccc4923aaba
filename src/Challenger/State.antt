-- ===== src/Challenger/State.antt =====
-- The fields of `Challenger`, and the challenges that come from Kafka.
pub mod Expiry
use banjax.Base.{
  ℕ, ◌≡◌, Bool, true, false, List, [], ◌∷◌, Option, none, some, Bytes, Dict, lookup, insert, ltb,
  if◌then◌else◌,
}
use banjax.Base.Int.{pos, sub_ℕ, ltb_ℤ}
use banjax.Filter.{HostChallengeSpec}
use banjax.WhiteList.{WhiteList}
use banjax.World.{Surroundings, World, M, ◌>>=◌, ◌>>◌, return, try_lock}

pub record Challenger : Type 0 where
  pub hashed_key : Bytes
  pub number_of_trailing_zeros : ℕ
  pub dynamic_expiry_seconds : ℕ
  pub host_challenges_static : Dict (List HostChallengeSpec)
  pub host_to_challenge_dynamic : Dict HostChallengeSpec
  pub ip_to_challenge_dynamic : Dict HostChallengeSpec
  pub global_white_list : Option WhiteList
  -- `banjax->kafka_producer` is there. `banjax` itself is the object that made this filter.
  pub kafka_producer : Bool

-- `load_single_host_challenge` and `load_single_ip_challenge`, with the parsed specification. Their
-- locks are waited for, not tried.
unfoldable pub load_single_host_challenge : Bytes → HostChallengeSpec → Challenger → Challenger
load_single_host_challenge domain spec c = record c {
  host_to_challenge_dynamic = insert domain spec c.host_to_challenge_dynamic;
}

unfoldable pub load_single_ip_challenge : Bytes → HostChallengeSpec → Challenger → Challenger
load_single_ip_challenge ip spec c = record c {
  ip_to_challenge_dynamic = insert ip spec c.ip_to_challenge_dynamic;
}

-- `current_timestamp - time_added > dynamic_expiry_seconds`, between signed numbers.
abbrev pub is_expired : ℕ → ℕ → HostChallengeSpec → Bool
is_expired expiry now spec = ltb_ℤ (pos expiry) (sub_ℕ now spec.time_added)

-- The loop with `erase` over one map.
unfoldable pub erase_expired : ℕ → ℕ → Dict HostChallengeSpec → Dict HostChallengeSpec
erase_expired expiry now [] = []
erase_expired expiry now ((k, spec) ∷ m) =
    let rest = erase_expired expiry now m in
    if is_expired expiry now spec then rest else (k, spec) ∷ rest

unfoldable pub remove_expired_challenges : ℕ → Challenger → Challenger
remove_expired_challenges now c = record c {
  host_to_challenge_dynamic =
      erase_expired c.dynamic_expiry_seconds now c.host_to_challenge_dynamic;
  ip_to_challenge_dynamic = erase_expired c.dynamic_expiry_seconds now c.ip_to_challenge_dynamic;
}

module _ (e : Surroundings) (c : Challenger) where
  -- Behind the lock of the address map: the iterator that the inner branch leaves is pushed there,
  -- and pushed once more behind the branch of the host.
  abbrev by_ip : Bytes → M (Option (List HostChallengeSpec))
  by_ip ip = do
    locked ← try_lock e
    return (
        if locked
        then elim (lookup ip c.ip_to_challenge_dynamic) [
          | none ↦ none
          | some spec ↦ some (spec ∷ spec ∷ [])
        ]
        else none)

  -- The challenges that `on_http_request` runs; `none` is `GO_AHEAD_NO_COMMENT` with no challenge.
  unfoldable pub challenges_to_run : Bytes → Bytes → M (Option (List HostChallengeSpec))
  challenges_to_run host ip = elim (lookup host c.host_challenges_static) [
    | some specs ↦ return (some specs)
    | none ↦ do
      locked ← try_lock e
      if locked
          then elim (lookup host c.host_to_challenge_dynamic) [
            | some spec ↦ return (some (spec ∷ []))
            | none ↦ by_ip ip
          ]
          else return none
  ]
