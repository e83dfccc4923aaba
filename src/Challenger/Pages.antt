-- ===== src/Challenger/Pages.antt =====
-- `generate_response` and `generate_html`: what a challenge sends back.
pub mod Answered
use banjax.Base.{
  ℕ, zero, suc, ◌+◌, Bool, true, false, List, [], ◌∷◌, ◌++◌, Option, none, some, Bytes, codes, find,
  starts_with, length, take, drop, ◌==◌, if◌then◌else◌,
}
use banjax.Challenger.Check.{check_cookie}
use banjax.Challenger.Failures.{report_failure}
use banjax.Challenger.Run.{is_captcha_url, is_captcha_answer}
use banjax.Challenger.State.{Challenger}
use banjax.CookieHash.{generate_cookie}
use banjax.Filter.{Parts, HostChallengeSpec, ExtendedResponse}
use banjax.Library.{Library}
use banjax.World.{Surroundings, World, M, ◌>>=◌, ◌>>◌, return, time, draw_captcha}

-- The first occurrence is replaced.
unfoldable pub replace : Bytes → Bytes → Bytes → Bytes
replace original from to = elim (find from original) [
  | none ↦ original
  | some start_pos ↦ take start_pos original ++ (to ++ drop (start_pos + length from) original)
]

-- `std::string::rfind` of a text that is not empty.
unfoldable pub rfind : Bytes → Bytes → Option ℕ
rfind w [] = none
rfind w (c ∷ cs) = elim (rfind w cs) [
  | some i ↦ some (suc i)
  | none ↦ if starts_with w (c ∷ cs) then some 0 else none
]

-- What follows the last `__validate/`.
unfoldable pub answer_of : Bytes → Bytes
answer_of url = elim (rfind (codes "__validate/") url) [
  | none ↦ drop 10 url
  | some found ↦ drop (found + 11) url
]

abbrev pub cookie_header : Bytes → Bytes
cookie_header cookie = codes "deflect=" ++ (cookie ++ codes "; path=/; HttpOnly")

abbrev too_many_failures_message : Bytes
too_many_failures_message =
    codes "<html><header></header><body>you are banned by deflect/banjax</body></html>"

-- The body and the response, whose header, code and type the page sets. `none` is an access outside
-- a buffer.
abbrev pub Page : Type 0
Page = Option (Bytes × ExtendedResponse)

abbrev pub with_cookie : ExtendedResponse → Bytes → ExtendedResponse
with_cookie r cookie = record r { set_cookie_header = r.set_cookie_header ++ cookie_header cookie }

module _ (x : Library) (e : Surroundings) (c : Challenger) where
  unfoldable pub captcha_image : Bytes → ExtendedResponse → M Page
  captcha_image ip r = do
    drawn ← draw_captcha e
    now ← time e
    return (elim (generate_cookie x.hmac drawn.0 c.hashed_key (now + 120) ip) [
      | none ↦ none
      | some cookie ↦ some (
        drawn.1,
        with_cookie (record r { response_code = 200; content_type = some (codes "image/gif") })
            cookie,
      )
    ])

  -- The branch of a wrong answer.
  abbrev wrong_answer : Parts → HostChallengeSpec → ExtendedResponse → M Page
  wrong_answer parts spec r = do
    banned ←
        (if spec.fail_tolerance_threshold == 0
          then return r.banned_ip
          else report_failure x e spec parts)
    return (
        some (
          if banned then codes "Too many failures" else codes "X",
          record r { banned_ip = banned },
        ))

  abbrev right_answer : Bytes → ℕ → ExtendedResponse → Page
  right_answer ip t r = elim (generate_cookie x.hmac [] c.hashed_key t ip) [
    | none ↦ none
    | some cookie ↦ some (codes "OK", with_cookie (record r { response_code = 200 }) cookie)
  ]

  unfoldable pub captcha_answer : Bytes → ℕ → Parts → HostChallengeSpec → ExtendedResponse → M Page
  captcha_answer ip t parts spec r = do
    let html = record r { content_type = some (codes "text/html"); response_code = 403 }
    passed ← check_cookie x c e (answer_of parts.url_with_host) parts spec
    elim passed [
      | none ↦ return none
      | some ok ↦ if ok then return (right_answer ip t html) else wrong_answer parts spec html
    ]

  -- The template of the challenge with its four places filled in.
  unfoldable pub fill_page : Bytes → ℕ → Bytes → Bytes → Bytes
  fill_page page t token url =
      replace
        (replace (replace (replace page (codes "$time") (x.http_date t)) (codes "$token") token)
          (codes "$url") url)
        (codes "$zeros") (x.to_string c.number_of_trailing_zeros)

  unfoldable pub generate_html :
      Bytes → ℕ → Bytes → Parts → HostChallengeSpec → ExtendedResponse → M Page
  generate_html ip t url parts spec r =
      if is_captcha_url url
      then captcha_image ip r
      else if is_captcha_answer url
      then captcha_answer ip t parts spec r
      else return (elim (generate_cookie x.hmac [] c.hashed_key t ip) [
        | none ↦ none
        | some token ↦ some (fill_page spec.challenge_stream t token url, r)
      ])

  -- Nothing sets an `alternative_url`, so the page is for the URL of the request.
  unfoldable pub generate_response : Parts → HostChallengeSpec → ExtendedResponse → M Page
  generate_response parts spec r =
      if r.banned_ip then return (some (too_many_failures_message, r)) else do
        now ← time e
        generate_html parts.ip (now + spec.challenge_validity_period) parts.url_with_host parts spec
            r
