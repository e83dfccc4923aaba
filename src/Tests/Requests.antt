-- ===== src/Tests/Requests.antt =====
-- A visitor with a ticket.
use banjax.Base.{◌≡◌, refl, true, [], ◌∷◌, All, some, codes, arith, beq, find, starts_with}
use banjax.Challenger.Check.{check_cookie, deflect_cookie}
use banjax.Challenger.Check.Issued.{check_cookie-issued}
use banjax.Challenger.Pages.{generate_html, with_cookie, answer_of, rfind}
use banjax.Challenger.Pages.Answered.{generate_html-solved}
use banjax.Challenger.Run.{
  contains, run_challenges, run_one, run_auth, word_matches, needs_authentication, is_captcha_url,
  is_captcha_answer,
}
use banjax.Challenger.Run.Cleared.{IsCleared, run_challenges-IsCleared}
use banjax.Cookie.{consume, find_cookie}
use banjax.Cookie.Jar.{print_jar}
use banjax.Filter.{
  Parts, HostChallengeSpec, auth, plain, go_ahead_no_comment, ExtendedResponse, extended, challenge,
}
use banjax.Kafka.{report_pass_or_failure}
use banjax.Tests.Cookies.{ticket, ticket_made, jar, jar-WellFormed}
use banjax.Tests.Samples.{
  library, surroundings, world, spec, challenger, visitor, length-mac, mac-IsByte,
}

abbrev holder : Parts
holder = record visitor { cookie = print_jar jar }

check_cookie-issued_example :
    (check_cookie library challenger surroundings [] holder spec world).0 ≡ some true
unfolding beq
check_cookie-issued_example =
    check_cookie-issued library length-mac mac-IsByte challenger surroundings [] holder spec jar
      2000 ticket world (omega arith) ticket_made refl refl jar-WellFormed refl

-- A page behind a password, for a visitor who does not ask for it.
abbrev auth_spec : HostChallengeSpec
auth_spec = record spec { challenge_type = auth }

auth_passes :
    (run_challenges library surroundings challenger visitor (auth_spec ∷ []) world).0
    ≡ some (plain go_ahead_no_comment)
unfolding run_challenges run_one run_auth check_cookie deflect_cookie find_cookie consume
    needs_authentication word_matches contains find starts_with report_pass_or_failure
auth_passes = refl

run_challenges-IsCleared_example :
    All (IsCleared library surroundings challenger visitor) (auth_spec ∷ [])
run_challenges-IsCleared_example =
    run_challenges-IsCleared library surroundings challenger visitor (auth_spec ∷ []) world
      auth_passes

abbrev answerer : Parts
answerer = record holder { url_with_host = codes "example.com/__validate/" }

abbrev response : ExtendedResponse
response = extended (challenge spec)

-- The empty answer is the right one for the ticket.
generate_html-solved_example :
    ((generate_html library surroundings challenger answerer.ip 2000 answerer.url_with_host answerer
        spec response world).0
      ≡ some (
        codes "OK",
        with_cookie
            (record response { content_type = some (codes "text/html"); response_code = 200 })
            ticket,
      ))
    × ((check_cookie library challenger surroundings [] holder spec world).0 ≡ some true)
unfolding beq is_captcha_url is_captcha_answer contains find starts_with answer_of rfind
generate_html-solved_example =
    generate_html-solved library length-mac mac-IsByte challenger surroundings answerer spec
      response jar 2000 2000 ticket ticket world holder jar world (omega arith) (omega arith) refl
      refl refl ticket_made ticket_made refl jar-WellFormed refl refl refl refl jar-WellFormed refl
      refl
