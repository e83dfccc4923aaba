-- ===== src/Tests/Cookies.antt =====
-- Cookies: issued, printed, read and checked.
use banjax.Base.{
  ℕ, inr, ◌≡◌, ◌≢◌, refl, Bool, true, not, ◌&&◌, List, [], ◌∷◌, ◌++◌, c_str, All, some, none,
  Option, Bytes, codes, arith, ◌==◌, beq,
}
use banjax.Base64.{b64_table}
use banjax.Base64.Groups.{groups, encode-groups}
use banjax.Base64.RoundTrip.{decode-encode}
use banjax.Cookie.{Cookie, in_name, find_cookie}
use banjax.Cookie.Jar.{WellFormed, find_cookie-print_jar, print_jar, Starts, Ends}
use banjax.Cookie.Progress.{find_cookie_total}
use banjax.CookieHash.{generate_cookie, generate_cookie_hash, validate_cookie, valid}
use banjax.CookieHash.Accept.{validate_cookie-generate_cookie}
use banjax.CookieHash.Sound.{IsAccepted, validate_cookie-IsAccepted, validate_cookie_overrun}
use banjax.CookieHash.Words.{le_bytes}
use banjax.Tests.Samples.{mac, length-mac, mac-IsByte, every, All-every, All-IsByte}

-- The bytes of a cookie for the test address, good until 2000.
abbrev pub ticket_data : Bytes
ticket_data = mac [] (le_bytes 8 2000 ++ codes "1.2.3.4") ++ le_bytes 8 2000

abbrev pub ticket : Bytes
ticket = groups ticket_data

pub ticket_made : generate_cookie mac [] (codes "secret") 2000 (codes "1.2.3.4") ≡ some ticket
unfolding generate_cookie generate_cookie_hash c_str
ticket_made = encode-groups ticket_data (All-IsByte ticket_data refl) (omega arith)

validate_cookie-generate_cookie_example :
    validate_cookie mac [] (codes "secret") 1500 (codes "1.2.3.4") ticket ≡ some valid
validate_cookie-generate_cookie_example =
    validate_cookie-generate_cookie mac length-mac mac-IsByte [] (codes "secret") 2000 1500
      (codes "1.2.3.4") ticket (omega arith) ticket_made

pub ticket_valid :
    validate_cookie mac [] (codes "secret") 1500 (codes "1.2.3.4") ticket ≡ some valid
ticket_valid =
    validate_cookie-generate_cookie mac length-mac mac-IsByte [] (codes "secret") 2000 1500
      (codes "1.2.3.4") ticket (omega arith) ticket_made

validate_cookie-IsAccepted_example :
    IsAccepted mac [] (codes "secret") 1500 (codes "1.2.3.4") (c_str ticket)
validate_cookie-IsAccepted_example =
    (validate_cookie-IsAccepted mac [] (codes "secret") 1500 (codes "1.2.3.4") ticket).0
      ticket_valid

abbrev long_answer : Bytes
long_answer =
    codes
      "aaaaaaaaaaaaaaaaaaaaaaaaaaaaaaaaaaaaaaaaaaaaaaaaaaaaaaaaaaaaaaaaaaaaaaaaaaaaaaaaaaaaaaaaaaaaaaaaaaaaaaaaaaaaaaaaaaaaaaaaaaaaaaaaaaaaaaaaaaaaaaaaaaaaaaaaaaaaaaaaaaaaaaaaaaaaaaaaaaaaaaaaaaaaaaaaaaaaaaaaaaaa"

validate_cookie_overrun_example :
    validate_cookie mac long_answer (codes "secret") 1500 (codes "1.2.3.4") ticket ≡ none
unfolding c_str b64_table
validate_cookie_overrun_example =
    (validate_cookie_overrun mac long_answer (codes "secret") 1500 (codes "1.2.3.4") ticket).1 (
      ticket_data,
      refl,
      decode-encode ticket_data ticket (All-IsByte ticket_data refl)
          (encode-groups ticket_data (All-IsByte ticket_data refl) (omega arith)),
      inr (omega arith),
    )

abbrev is_value_byte : ℕ → Bool
is_value_byte c = not (c == 59) && (not (c == 0) && not (c == 13))

well_formed :
    (name value : Bytes)
    → every (λ c. in_name (c ∷ [])) name ≡ true
    → name ≢ []
    → every is_value_byte value ≡ true
    → Starts value
    → Ends value
    → WellFormed (record { name = name; value = value })
well_formed name value n e v s t = record {
  name_bytes = All-every (λ c. in_name (c ∷ []) ≡ true) (λ c. in_name (c ∷ [])) (λ c h. h) name n;
  name_ne_nil = e;
  value_bytes =
      All-every (λ c. (c ≢ 59) × (c ≢ 0) × (c ≢ 13)) is_value_byte (λ c h. ground (arith, h)) value
        v;
  starts = s;
  ends = t;
}

-- The jar of a browser: two cookies, the ticket second.
abbrev pub jar : List Cookie
jar =
    record { name = codes "lang"; value = codes "en" }
    ∷ record { name = codes "deflect"; value = ticket }
    ∷ []

pub jar-WellFormed : All WellFormed jar
unfolding b64_table
jar-WellFormed = (
  well_formed (codes "lang") (codes "en") refl (λ e. cc e) refl (refl, omega arith) refl,
  (well_formed (codes "deflect") ticket refl (λ e. cc e) refl (refl, omega arith) refl, tt),
)

find_cookie-print_jar_example : find_cookie 9 (codes "deflect") (print_jar jar) ≡ some (some ticket)
unfolding beq
find_cookie-print_jar_example =
    find_cookie-print_jar jar 9 (codes "deflect") jar-WellFormed (omega arith)

find_cookie_total_example :
    (r : Option Bytes) × (find_cookie 20 (codes "deflect") (codes "a=1; deflect=x") ≡ some r)
find_cookie_total_example =
    find_cookie_total 20 (codes "deflect") (codes "a=1; deflect=x") (omega arith)
