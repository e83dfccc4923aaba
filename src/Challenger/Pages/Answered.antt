-- ===== src/Challenger/Pages/Answered.antt =====
-- A captcha that is solved.
use banjax.Base.{
  ℕ, ◌^◌, ◌<◌, ◌≡◌, ap, ◌∙◌, true, false, not, List, [], some, Bytes, codes, length, arith, All,
}
use banjax.Base.Int.{ltb_ℤ}
use banjax.Base64.Groups.{IsByte}
use banjax.Challenger.Check.{check_cookie}
use banjax.Challenger.Check.Issued.{check_cookie-issued}
use banjax.Challenger.Pages.{answer_of, captcha_answer, generate_html, with_cookie}
use banjax.Challenger.Run.{is_captcha_url, is_captcha_answer}
use banjax.Challenger.State.{Challenger}
use banjax.Cookie.{Cookie}
use banjax.Cookie.Jar.{WellFormed, print_jar, first_named}
use banjax.CookieHash.{hash_length, generate_cookie}
use banjax.CookieHash.Words.{signed64}
use banjax.Filter.{Parts, HostChallengeSpec, captcha, ExtendedResponse}
use banjax.Library.{Library}
use banjax.World.{Surroundings, World}

module _ (x : Library)
    (length-hmac : (key message : Bytes) → length (x.hmac key message) ≡ hash_length)
    (hmac-IsByte : (key message : Bytes) → All IsByte (x.hmac key message)) (c : Challenger)
    (e : Surroundings) where
  -- If the jar holds, as its first `deflect` cookie, one made for the address and for the answer
  -- in the URL, and its time has not passed, then the page is "OK" with code 200 and sets a new
  -- cookie; and a later request of that address with the new cookie passes the check of a captcha
  -- challenge up to the time of that cookie. HMAC gives 20 bytes.
  pub generate_html-solved :
      (parts : Parts) (spec : HostChallengeSpec) (r : ExtendedResponse) (ks : List Cookie)
      (t0 t : ℕ) (ck new : Bytes) (w : World) (later : Parts) (ls : List Cookie) (v : World)
      → t0 < 2 ^ 64
      → t < 2 ^ 64
      → spec.challenge_type ≡ captcha
      → is_captcha_url parts.url_with_host ≡ false
      → is_captcha_answer parts.url_with_host ≡ true
      → generate_cookie x.hmac (answer_of parts.url_with_host) c.hashed_key t0 parts.ip ≡ some ck
      → generate_cookie x.hmac [] c.hashed_key t parts.ip ≡ some new
      → parts.cookie ≡ print_jar ks
      → All WellFormed ks
      → first_named (codes "deflect") ks ≡ some ck
      → ltb_ℤ (signed64 t0) (signed64 (e.clock w.calls)) ≡ false
      → later.ip ≡ parts.ip
      → later.cookie ≡ print_jar ls
      → All WellFormed ls
      → first_named (codes "deflect") ls ≡ some new
      → ltb_ℤ (signed64 t) (signed64 (e.clock v.calls)) ≡ false
      → ((generate_html x e c parts.ip t parts.url_with_host parts spec r w).0
          ≡ some (
            codes "OK",
            with_cookie
                (record r { content_type = some (codes "text/html"); response_code = 200 })
                new,
          ))
        × ((check_cookie x c e [] later spec v).0 ≡ some true)
  unfolding generate_html captcha_answer
  generate_html-solved parts spec r ks t0 t ck new w later ls v f0 f kind image answer made made'
        jar well here early same jar' well' here' early' =
      let passed =
        check_cookie-issued x length-hmac hmac-IsByte c e (answer_of parts.url_with_host) parts spec
          ks t0 ck w f0 made kind jar well here in
      let own : generate_cookie x.hmac [] c.hashed_key t later.ip ≡ some new =
        ap (generate_cookie x.hmac [] c.hashed_key t) same ∙ made' in
      let passed' =
        check_cookie-issued x length-hmac hmac-IsByte c e [] later spec ls t new v f own kind jar'
          well' here' in
      (ground (arith, image, answer, passed, early, made'), passed' ∙ ap (λ b. some (not b)) early')
