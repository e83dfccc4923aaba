-- ===== src/Challenger/Run/Cleared.antt =====
-- A request that goes ahead has met every challenge of its host.
use banjax.Base.{
  ℕ, ◌≡◌, ◌≢◌, ◌⊎◌, refl, inl, inr, true, false, List, [], ◌∷◌, Option, none, some, Bytes, any, All,
  arith, Bool-cases, Option-cases,
}
use banjax.Challenger.Check.{check_cookie, cookie_passes, deflect_cookie}
use banjax.Challenger.State.{Challenger}
use banjax.Challenger.Run.{
  Outcome, stop, next, fail, run_captcha, run_sha_inverse, run_auth, run_one, run_challenges,
  needs_authentication, deflect_deleted, run_type,
}
use banjax.Denialator.{is_globally_white_listed}
use banjax.Filter.{
  Parts, HostChallengeSpec, ChallengeType, sha_inverse, captcha, auth, FilterResponse,
  ExtendedResponse, respond, plain, go_ahead_no_comment,
}
use banjax.Library.{Library}
use banjax.Util.{is_match}
use banjax.World.{Surroundings, World}

module _ (x : Library) (e : Surroundings) (c : Challenger) (parts : Parts) where
  -- The jar has a `deflect` cookie, and it passed the checks of the challenge at some time.
  pub Passed : HostChallengeSpec → Type 0
  Passed spec =
      (cookie : Bytes) × (now : ℕ) × (deflect_cookie parts.cookie ≡ some (some cookie))
      × (cookie_passes x c [] parts.ip now spec cookie ≡ some true)

  -- What lets a request by a challenge of each type.
  abbrev pub ClearedAs : ChallengeType → HostChallengeSpec → Type 0
  ClearedAs captcha spec =
      (is_globally_white_listed x c.global_white_list parts.ip ≡ true) ⊎ Passed spec
  ClearedAs sha_inverse spec =
      (is_globally_white_listed x c.global_white_list parts.ip ≡ true) ⊎ Passed spec
  ClearedAs auth spec = needs_authentication x parts.url_with_host spec ≡ false

  abbrev pub Cleared : HostChallengeSpec → Type 0
  Cleared spec = ClearedAs spec.challenge_type spec

  check_cookie-Passed :
      (spec : HostChallengeSpec) (w : World)
      → (check_cookie x c e [] parts spec w).0 ≡ some true
      → Passed spec
  unfolding check_cookie Passed
  check_cookie-Passed spec w h = elim (Option-cases (deflect_cookie parts.cookie)) [
    | inl a ↦ ground (arith, a)
    | inr (found, a) ↦ elim (Option-cases found) [
      | inl b ↦ ground (arith, a, b)
      | inr (cookie, b) ↦ (cookie, e.clock w.calls, cc, ground (arith, a, b))
    ]
  ]

  abbrev IsStop : Option Outcome → Type 0
  IsStop o = (d : ExtendedResponse) × (o ≡ some (stop (respond d)))

  fail-IsStop :
      (s : Bytes) (spec : HostChallengeSpec) (w : World) → IsStop (fail x e c s parts spec w).0
  unfolding fail
  fail-IsStop s spec w = (_, refl)

  abbrev Lets : HostChallengeSpec → Type 0
  Lets spec = (is_globally_white_listed x c.global_white_list parts.ip ≡ true) ⊎ Passed spec

  -- The world behind the check of the cookie.
  abbrev checked : HostChallengeSpec → World → World
  checked spec w = (check_cookie x c e [] parts spec w).1

  -- Each type either answers the request itself, ends without a result, or has been cleared.
  run_captcha-next :
      (spec : HostChallengeSpec) (w : World)
      → (run_captcha x e c parts spec w).0 ≡ some next
      → Lets spec
  unfolding run_captcha
  run_captcha-next spec w h =
      ground (arith, check_cookie-Passed spec w, (fail-IsStop [] spec (checked spec w)).1)

  run_sha_inverse-next :
      (spec : HostChallengeSpec) (w : World)
      → (run_sha_inverse x e c parts spec w).0 ≡ some next
      → Lets spec
  unfolding run_sha_inverse
  run_sha_inverse-next spec w h =
      ground
        (arith, check_cookie-Passed spec w, (fail-IsStop deflect_deleted spec (checked spec w)).1)

  run_auth-next :
      (spec : HostChallengeSpec) (w : World)
      → (run_auth x e c parts spec w).0 ≡ some next
      → needs_authentication x parts.url_with_host spec ≡ false
  unfolding run_auth
  run_auth-next spec w h = ground (arith, (fail-IsStop deflect_deleted spec (checked spec w)).1)

  -- No challenge stops a request by letting it go ahead.
  run_captcha-ne-go_ahead :
      (spec : HostChallengeSpec) (w : World)
      → (run_captcha x e c parts spec w).0 ≢ some (stop (plain go_ahead_no_comment))
  unfolding run_captcha
  run_captcha-ne-go_ahead spec w h = ground (arith, (fail-IsStop [] spec (checked spec w)).1)

  run_sha_inverse-ne-go_ahead :
      (spec : HostChallengeSpec) (w : World)
      → (run_sha_inverse x e c parts spec w).0 ≢ some (stop (plain go_ahead_no_comment))
  unfolding run_sha_inverse
  run_sha_inverse-ne-go_ahead spec w h =
      ground (arith, (fail-IsStop deflect_deleted spec (checked spec w)).1)

  run_auth-ne-go_ahead :
      (spec : HostChallengeSpec) (w : World)
      → (run_auth x e c parts spec w).0 ≢ some (stop (plain go_ahead_no_comment))
  unfolding run_auth
  run_auth-ne-go_ahead spec w h =
      ground (arith, (fail-IsStop deflect_deleted spec (checked spec w)).1)

  pub IsCleared : HostChallengeSpec → Type 0
  IsCleared spec = (any (is_match x.inet parts.ip) spec.white_listed_ips ≡ false) × Cleared spec

  run_type-next :
      (t : ChallengeType) (spec : HostChallengeSpec) (w : World)
      → (run_type x e c t parts spec w).0 ≡ some next
      → ClearedAs t spec
  run_type-next captcha spec w h = run_captcha-next spec w h
  run_type-next sha_inverse spec w h = run_sha_inverse-next spec w h
  run_type-next auth spec w h = run_auth-next spec w h

  run_type-ne-go_ahead :
      (t : ChallengeType) (spec : HostChallengeSpec) (w : World)
      → (run_type x e c t parts spec w).0 ≢ some (stop (plain go_ahead_no_comment))
  run_type-ne-go_ahead captcha spec w h = run_captcha-ne-go_ahead spec w h
  run_type-ne-go_ahead sha_inverse spec w h = run_sha_inverse-ne-go_ahead spec w h
  run_type-ne-go_ahead auth spec w h = run_auth-ne-go_ahead spec w h

  run_one-next :
      (spec : HostChallengeSpec) (w : World)
      → (run_one x e c parts spec w).0 ≡ some next
      → IsCleared spec
  unfolding run_one IsCleared
  run_one-next spec w h = elim (Bool-cases (any (is_match x.inet parts.ip) spec.white_listed_ips)) [
    | inl b ↦ cc (rw (b, run_one) at h)
    | inr b ↦ (b, run_type-next spec.challenge_type spec w (rw (b, run_one) at h))
  ]

  run_one-ne-go_ahead :
      (spec : HostChallengeSpec) (w : World)
      → (run_one x e c parts spec w).0 ≢ some (stop (plain go_ahead_no_comment))
  unfolding run_one
  run_one-ne-go_ahead spec w h =
      elim (Bool-cases (any (is_match x.inet parts.ip) spec.white_listed_ips)) [
        | inl b ↦ cc (rw (b, run_one) at h)
        | inr b ↦ run_type-ne-go_ahead spec.challenge_type spec w (rw (b, run_one) at h)
      ]

  run_challenges-none :
      (spec : HostChallengeSpec) (specs : List HostChallengeSpec) (w : World)
      → (run_one x e c parts spec w).0 ≡ none
      → (run_challenges x e c parts (spec ∷ specs) w).0 ≡ none
  unfolding run_challenges
  run_challenges-none spec specs w a = ground (arith, a)

  run_challenges-stop :
      (spec : HostChallengeSpec) (specs : List HostChallengeSpec) (w : World) (r : FilterResponse)
      → (run_one x e c parts spec w).0 ≡ some (stop r)
      → (run_challenges x e c parts (spec ∷ specs) w).0 ≡ some r
  unfolding run_challenges
  run_challenges-stop spec specs w r a = ground (arith, a)

  run_challenges-next :
      (spec : HostChallengeSpec) (specs : List HostChallengeSpec) (w : World)
      → (run_one x e c parts spec w).0 ≡ some next
      → (run_challenges x e c parts (spec ∷ specs) w).0
        ≡ (run_challenges x e c parts specs (run_one x e c parts spec w).1).0
  unfolding run_challenges
  run_challenges-next spec specs w a = ground (arith, a)

  -- If the challenges of a host let a request go ahead, then for each of them the address is not
  -- one that the challenge serves at once, and a captcha or computation was solved by a `deflect`
  -- cookie in the jar (or the address is globally white listed), or the page behind a password was
  -- not asked for.
  pub run_challenges-IsCleared :
      (specs : List HostChallengeSpec) (w : World)
      → (run_challenges x e c parts specs w).0 ≡ some (plain go_ahead_no_comment)
      → All IsCleared specs
  run_challenges-IsCleared [] w h = tt
  run_challenges-IsCleared (spec ∷ specs) w h = elim (Option-cases (run_one x e c parts spec w).0) [
    | inl a ↦ cc (run_challenges-none spec specs w a)
    | inr (stop r, a) ↦
        let q = run_challenges-stop spec specs w r a in
        absurd (run_one-ne-go_ahead spec w (cc (q, a)))
    | inr (next, a) ↦ (
      run_one-next spec w a,
      run_challenges-IsCleared specs (run_one x e c parts spec w).1
          (cc (run_challenges-next spec specs w a)),
    )
  ]
