-- ===== src/Challenger/State/Expiry.antt =====
-- What is left of the challenges from Kafka once the expired ones are removed.
use banjax.Base.{ℕ, ◌≡◌, [], ◌∷◌, Option, none, some, Dict, lookup, if◌then◌else◌}
use banjax.Challenger.State.{Challenger, is_expired}
use banjax.Filter.{HostChallengeSpec}

-- No key twice, as in a `std::map`.
abbrev pub Distinct : {A : Type 0} → Dict A → Type 0
Distinct [] = Unit
Distinct ((k, a) ∷ m) = (lookup k m ≡ none) × Distinct m

abbrev pub unexpired : ℕ → ℕ → Option HostChallengeSpec → Option HostChallengeSpec
unexpired expiry now none = none
unexpired expiry now (some spec) = if is_expired expiry now spec then none else some spec
