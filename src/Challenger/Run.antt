-- ===== src/Challenger/Run.antt =====
-- `on_http_request`: the challenges of a host, one after the other.
pub mod Cleared
use banjax.Base.{
  ℕ, zero, suc, Bool, true, false, not, ◌||◌, List, [], ◌∷◌, Option, none, some, Bytes, codes, find,
  length, take, any, ◌==◌, if◌then◌else◌,
}
use banjax.Challenger.Check.{check_cookie}
use banjax.Challenger.Failures.{report_failure, report_success}
use banjax.Challenger.State.{Challenger, challenges_to_run}
use banjax.Denialator.{is_globally_white_listed}
use banjax.Filter.{
  Parts, HostChallengeSpec, ChallengeType, sha_inverse, captcha, auth, MagicWord, substr, regexp,
  FilterResponse, Generator, challenge, extended, respond, plain, go_ahead_no_comment,
  serve_immediately_dont_cache, serve_fresh,
}
use banjax.Kafka.{report_pass_or_failure}
use banjax.Library.{Library}
use banjax.Util.{is_match}
use banjax.World.{Surroundings, World, M, ◌>>=◌, ◌>>◌, return}

-- `s.find(w) != npos`; `rfind` finds a piece exactly if `find` does.
unfoldable pub contains : Bytes → Bytes → Bool
contains w s = elim (find w s) [ none ↦ false | some _ ↦ true ]

unfoldable pub is_captcha_url : Bytes → Bool
is_captcha_url url = contains (codes "__captcha") url

unfoldable pub is_captcha_answer : Bytes → Bool
is_captcha_answer url = contains (codes "__validate/") url

-- `std::search(s.begin(), s.end(), w.begin(), w.end()) != s.end()`.
unfoldable pub search_hits : Bytes → Bytes → Bool
search_hits s w = elim (find w s) [ none ↦ false | some i ↦ not (i == length s) ]

-- What stands before the `?` of the query.
unfoldable pub before_query : Bytes → Bytes
before_query url = elim (find (63 ∷ []) url) [ none ↦ url | some i ↦ take i url ]

module _ (x : Library) where
  unfoldable pub word_matches : Bytes → MagicWord → Bool
  word_matches url (substr w) = contains w url
  word_matches url (regexp w) = x.partial_match url w

  unfoldable pub needs_authentication : Bytes → HostChallengeSpec → Bool
  needs_authentication url spec =
      if not (any (word_matches url) spec.magic_words)
      then false
      else if any (search_hits (before_query url)) spec.magic_word_exceptions
      then false
      else true

-- What one challenge makes of the request: an answer, or the next challenge.
pub data Outcome : Type 0 where
  stop : FilterResponse → Outcome
  next : Outcome

abbrev pub deflect_deleted : Bytes
deflect_deleted = codes "deflect=deleted; path=/; expires=Thu, 01 Jan 1970 00:00:00 GMT; HttpOnly"

module _ (x : Library) (e : Surroundings) (c : Challenger) where
  abbrev custom_response : HostChallengeSpec → FilterResponse
  custom_response spec = respond (extended (challenge spec))

  -- The answer to a failed challenge, with the failure counted if there is a threshold.
  unfoldable pub fail : Bytes → Parts → HostChallengeSpec → M (Option Outcome)
  fail set_cookie parts spec = do
    report_pass_or_failure e c.kafka_producer parts.host parts.ip false
    banned ←
        (if spec.fail_tolerance_threshold == 0 then return false else report_failure x e spec parts)
    return (
        some (
          stop (
            respond (record (extended (challenge spec)) {
              banned_ip = banned;
              set_cookie_header = set_cookie;
            }))))

  unfoldable pub run_captcha : Parts → HostChallengeSpec → M (Option Outcome)
  run_captcha parts spec =
      if is_globally_white_listed x c.global_white_list parts.ip
      then return (some next)
      else if is_captcha_url parts.url_with_host || is_captcha_answer parts.url_with_host
      then return (some (stop (custom_response spec)))
      else do
        passed ← check_cookie x c e [] parts spec
        elim passed [
          | none ↦ return none
          | some ok ↦
              if ok
              then (do
                report_success e parts.ip
                report_pass_or_failure e c.kafka_producer parts.host parts.ip true
                return (some next))
              else fail [] parts spec
        ]

  unfoldable pub run_sha_inverse : Parts → HostChallengeSpec → M (Option Outcome)
  run_sha_inverse parts spec =
      if is_globally_white_listed x c.global_white_list parts.ip then return (some next) else do
        passed ← check_cookie x c e [] parts spec
        elim passed [
          | none ↦ return none
          | some ok ↦
              if ok
              then (do
                report_pass_or_failure e c.kafka_producer parts.host parts.ip true
                return (some next))
              else fail deflect_deleted parts spec
        ]

  unfoldable pub run_auth : Parts → HostChallengeSpec → M (Option Outcome)
  run_auth parts spec = do
    passed ← check_cookie x c e [] parts spec
    elim passed [
      | none ↦ return none
      | some ok ↦
          if ok
          then (do
            report_success e parts.ip
            report_pass_or_failure e c.kafka_producer parts.host parts.ip true
            return (some (stop (plain serve_fresh))))
          else if needs_authentication x parts.url_with_host spec
          then fail deflect_deleted parts spec
          else do
            report_pass_or_failure e c.kafka_producer parts.host parts.ip false
            return (some next)
    ]

  abbrev pub run_type : ChallengeType → Parts → HostChallengeSpec → M (Option Outcome)
  run_type captcha = run_captcha
  run_type sha_inverse = run_sha_inverse
  run_type auth = run_auth

  -- The list of addresses that need no challenge comes first.
  unfoldable pub run_one : Parts → HostChallengeSpec → M (Option Outcome)
  run_one parts spec =
      if any (is_match x.inet parts.ip) spec.white_listed_ips
      then return (some (stop (plain serve_immediately_dont_cache)))
      else run_type spec.challenge_type parts spec

  unfoldable pub run_challenges : Parts → List HostChallengeSpec → M (Option FilterResponse)
  run_challenges parts [] = do report_success e parts.ip; return (some (plain go_ahead_no_comment))
  run_challenges parts (spec ∷ specs) = do
    o ← run_one parts spec
    elim o [
      | none ↦ return none
      | some o' ↦ elim o' [ stop r ↦ return (some r) | next ↦ run_challenges parts specs ]
    ]

  -- `none` is an access outside a buffer on the way.
  unfoldable pub on_http_request : Parts → M (Option FilterResponse)
  on_http_request parts = do
    specs ← challenges_to_run e c parts.host parts.ip
    elim specs [
      | none ↦ return (some (plain go_ahead_no_comment))
      | some l ↦ run_challenges parts l
    ]
