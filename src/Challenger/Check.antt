-- ===== src/Challenger/Check.antt =====
-- `check_cookie`, and the reports on it.
pub mod Issued
use banjax.Base.{
  ℕ, zero, suc, Bool, true, false, ◌&&◌, List, [], ◌∷◌, Option, none, some, Bytes, codes, c_str,
  length, take, ltb, if◌then◌else◌,
}
use banjax.Challenger.Answers.{check_sha, check_auth_validity}
use banjax.Challenger.State.{Challenger}
use banjax.Cookie.{find_cookie}
use banjax.CookieHash.{
  Verdict, valid, bad_base64, length_mismatch, hash_mismatch, expired, cookie_b64_length,
  validate_cookie,
}
use banjax.Filter.{Parts, HostChallengeSpec, ChallengeType, sha_inverse, captcha, auth}
use banjax.Kafka.{report_pass_or_failure2}
use banjax.Library.{Library}
use banjax.World.{Surroundings, World, M, ◌>>=◌, ◌>>◌, return, time}

-- The loop over the jar up to the first `deflect` cookie; fuel above the length is enough.
unfoldable pub deflect_cookie : Bytes → Option (Option Bytes)
deflect_cookie jar = find_cookie (suc (length jar)) (codes "deflect") jar

abbrev pub is_valid : Verdict → Bool
is_valid valid = true
is_valid bad_base64 = false
is_valid length_mismatch = false
is_valid hash_mismatch = false
is_valid expired = false

abbrev pub option_map {ℓ κ} : {A : Type ℓ} {B : Type κ} → (A → B) → Option A → Option B
option_map f none = none
option_map f (some a) = some (f a)

module _ (x : Library) (c : Challenger) where
  -- The `switch` on the type of the challenge.
  unfoldable pub challenge_prevailed : HostChallengeSpec → ChallengeType → Bytes → Option Bool
  challenge_prevailed spec sha_inverse cookie = some (check_sha x c.number_of_trailing_zeros cookie)
  challenge_prevailed spec auth cookie = check_auth_validity x cookie spec.password_hash
  challenge_prevailed spec captcha cookie = some true

  abbrev pub cut : Bytes → Bytes
  cut cookie =
      if ltb cookie_b64_length (length cookie) then take cookie_b64_length cookie else cookie

  -- Both halves of the test, at the time `now`. `none` is an access outside a buffer.
  unfoldable pub cookie_passes : Bytes → Bytes → ℕ → HostChallengeSpec → Bytes → Option Bool
  cookie_passes answer ip now spec cookie =
      elim (challenge_prevailed spec spec.challenge_type cookie) [
        | none ↦ none
        | some prevailed ↦
            option_map (λ v. prevailed && is_valid v)
              (validate_cookie x.hmac answer c.hashed_key now ip (cut cookie))
      ]

  module _ (e : Surroundings) where
    abbrev judge : Parts → Option Bool → M (Option Bool)
    judge parts none = return none
    judge parts (some passed) = do
      report_pass_or_failure2 e c.kafka_producer parts.host parts.ip passed
      return (some passed)

    unfoldable pub check_cookie : Bytes → Parts → HostChallengeSpec → M (Option Bool)
    check_cookie answer parts spec = elim (deflect_cookie parts.cookie) [
      | none ↦ return none
      | some found ↦ elim found [
        | none ↦ return (some false)
        | some cookie ↦ do now ← time e; judge parts (cookie_passes answer parts.ip now spec cookie)
      ]
    ]
