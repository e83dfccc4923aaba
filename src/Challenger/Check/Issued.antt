-- ===== src/Challenger/Check/Issued.antt =====
-- A cookie that was issued for an address, brought back in a jar.
use banjax.Base.{
  ℕ, suc, ◌^◌, ◌≤◌, ◌<◌, ◌≡◌, refl, ap, ◌∙◌, Bool, true, false, not, List, [], ◌∷◌, ◌++◌, some,
  Bytes, codes, length, length-append, All, if◌then◌else◌, arith,
}
use banjax.Base.Int.{ltb_ℤ}
use banjax.Base64.Groups.{IsByte}
use banjax.Challenger.Check.{
  deflect_cookie, is_valid, challenge_prevailed, cookie_passes, check_cookie,
}
use banjax.Challenger.State.{Challenger}
use banjax.Cookie.{Cookie}
use banjax.Cookie.Jar.{WellFormed, print, print_jar, first_named, find_cookie-print_jar}
use banjax.CookieHash.{valid, expired, hash_length, generate_cookie}
use banjax.CookieHash.Accept.{validate_cookie-generate_cookie, length-generate_cookie}
use banjax.CookieHash.Words.{signed64}
use banjax.Filter.{Parts, HostChallengeSpec, captcha}
use banjax.Library.{Library}
use banjax.World.{Surroundings, World}

length-print : (k : Cookie) (tail : Bytes) → length tail < length (print k tail)
length-print k tail =
    omega (arith, length-append {0} k.name (61 ∷ (k.value ++ tail)), length-append {0} k.value tail)

length-print_jar : (ks : List Cookie) → length ks ≤ length (print_jar ks)
length-print_jar [] = omega arith
length-print_jar (k ∷ []) = omega (arith, length-print k [])
length-print_jar (k ∷ l ∷ ks) =
    omega (arith, length-print k (59 ∷ 32 ∷ print_jar (l ∷ ks)), length-print_jar (l ∷ ks))

deflect_cookie-print_jar :
    (ks : List Cookie)
    → All WellFormed ks
    → deflect_cookie (print_jar ks) ≡ some (first_named (codes "deflect") ks)
unfolding deflect_cookie
deflect_cookie-print_jar ks h =
    find_cookie-print_jar ks (suc (length (print_jar ks))) (codes "deflect") h
      (omega (arith, length-print_jar ks))

passes : (late : Bool) → is_valid (if late then expired else valid) ≡ not late
passes true = refl
passes false = refl

-- HMAC-SHA1 gives 20 bytes.
module _ (x : Library)
    (length-hmac : (key message : Bytes) → length (x.hmac key message) ≡ hash_length)
    (hmac-IsByte : (key message : Bytes) → All IsByte (x.hmac key message)) (c : Challenger) where
  cookie_passes-issued :
      (answer : Bytes) (spec : HostChallengeSpec) (t now : ℕ) (ip ck : Bytes)
      → t < 2 ^ 64
      → generate_cookie x.hmac answer c.hashed_key t ip ≡ some ck
      → spec.challenge_type ≡ captcha
      → cookie_passes x c answer ip now spec ck ≡ some (not (ltb_ℤ (signed64 t) (signed64 now)))
  unfolding cookie_passes challenge_prevailed
  cookie_passes-issued answer spec t now ip ck fits made kind =
      let size =
        length-generate_cookie x.hmac length-hmac hmac-IsByte answer c.hashed_key t ip ck made in
      let verdict =
        validate_cookie-generate_cookie x.hmac length-hmac hmac-IsByte answer c.hashed_key t now ip
          ck fits made in
      rw (kind, challenge_prevailed)
        (rw size (rw verdict (ap some (passes (ltb_ℤ (signed64 t) (signed64 now))))))

  -- In a jar of well-formed cookies, printed the way a browser does, whose first cookie named
  -- `deflect` is one issued to the address for the answer, that cookie passes the check of a
  -- captcha challenge with that address and answer up to its time and fails it afterwards. Its
  -- time is a 64-bit number. HMAC gives 20 bytes.
  pub check_cookie-issued :
      (e : Surroundings) (answer : Bytes) (parts : Parts) (spec : HostChallengeSpec)
      (ks : List Cookie) (t : ℕ) (ck : Bytes) (w : World)
      → t < 2 ^ 64
      → generate_cookie x.hmac answer c.hashed_key t parts.ip ≡ some ck
      → spec.challenge_type ≡ captcha
      → parts.cookie ≡ print_jar ks
      → All WellFormed ks
      → first_named (codes "deflect") ks ≡ some ck
      → (check_cookie x c e answer parts spec w).0
        ≡ some (not (ltb_ℤ (signed64 t) (signed64 (e.clock w.calls))))
  unfolding check_cookie
  check_cookie-issued e answer parts spec ks t ck w fits made kind jar well here =
      let found : deflect_cookie parts.cookie ≡ some (some ck) =
        ap deflect_cookie jar ∙ deflect_cookie-print_jar ks well ∙ ap some here in
      rw (found, check_cookie)
        (rw (cookie_passes-issued answer spec t (e.clock w.calls) parts.ip ck fits made kind))
