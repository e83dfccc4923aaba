-- ===== src/Muncher/Request/Levels.antt =====
-- The two levels of `retrieve_parts`: the call of a filter, and the call for the host and the URL
-- that it makes for `URL_WITH_HOST`.
use mathlib.Core.Option.{some-injective}
use banjax.Base.{
  ℕ, suc, ◌≡◌, inl, inr, refl, sym, ◌∙◌, Bool, true, false, ◌||◌, [], ◌∷◌, Option, some, Bytes,
  arith, Bool-cases, Option-cases, subst,
}
use banjax.Muncher.Parts.{
  Part, validity_stat, ip, url, host, ua, cookie, url_with_host, method, miss, status, protocol,
  content_length, Flags, flags, or_flags, missing, any_flag, Muncher,
}
use banjax.Muncher.Request.{
  Request, retrieve_url_with_host, first_parts, last_parts, mark_valid, retrieve_missing,
  retrieve_parts_within, retrieve_parts,
}
use banjax.Muncher.Request.Served.{
  has, request_parts, IsCovered, Serves, Kept, todo, done, done-Serves, first_parts-has,
  has-retrieve_url_with_host,
}
use banjax.Muncher.Request.Valid.{valid-first_parts, valid-retrieve_url_with_host}

module _ (r : Request) (requested : Flags) (m : Muncher) (c : IsCovered m) where
  first : Muncher
  first = first_parts r (missing m.valid_parts requested) m

  first-IsCovered : IsCovered first
  unfolding first todo
  first-IsCovered q p v =
      first_parts-has r requested m m q
        (c q p (sym (valid-first_parts r q (missing m.valid_parts requested) m) ∙ v))

  -- Without `URL_WITH_HOST` there is no nested call.
  without_nested :
      (nested : Muncher → Option Muncher)
      → missing m.valid_parts requested url_with_host ≡ false
      → (m' : Muncher) × (retrieve_missing r nested (missing m.valid_parts requested) requested m
          ≡ some m')
        × Serves requested m m'
  unfolding first done todo Kept retrieve_missing
  without_nested nested n = (
    done r requested m first,
    rw n refl,
    done-Serves r requested m first c (λ q h. h) (λ t. cc) first-IsCovered,
  )

  module _ (sets : (h : Bytes) → r.url_host_set h ≡ true) where
    with_nested :
        (nested : Muncher → Option Muncher) (n : Muncher)
        → missing m.valid_parts requested url_with_host ≡ true
        → nested first ≡ some n
        → Serves (flags (host ∷ url ∷ [])) first n
        → (m' : Muncher) × (retrieve_missing r nested (missing m.valid_parts requested) requested m
            ≡ some m')
          × Serves requested m m'
    unfolding first done todo Kept retrieve_missing
    with_nested nested n t e (cn, grows, given) =
        let u = retrieve_url_with_host r n in
        let kept : (q : Part) → has q n ≡ true → has q u ≡ true =
          (λ q h. has-retrieve_url_with_host r q sets n ∙ ground (arith, h)) in
        (
          done r requested m u,
          rw (t, e) refl,
          done-Serves r requested m u c (λ q h. kept q (grows q h))
              (λ t. has-retrieve_url_with_host r url_with_host sets n)
              (λ q p v. kept q (cn q p (sym (valid-retrieve_url_with_host r q sets n) ∙ v))),
        )

false-any_flag : (f : Flags) (p : Part) → any_flag f ≡ false → request_parts p ≡ true → f p ≡ false
false-any_flag f ip e _ = ground (arith, e)
false-any_flag f url e _ = ground (arith, e)
false-any_flag f host e _ = ground (arith, e)
false-any_flag f ua e _ = ground (arith, e)
false-any_flag f cookie e _ = ground (arith, e)
false-any_flag f url_with_host e _ = ground (arith, e)
false-any_flag f method e _ = ground (arith, e)
false-any_flag f protocol e _ = ground (arith, e)
false-any_flag f validity_stat e p = cc
false-any_flag f miss e p = cc
false-any_flag f status e p = cc
false-any_flag f content_length e p = cc

module _ (r : Request) (get : r.client_req_get ≡ true) where
  or_get : (b : Bool) → b || r.client_req_get ≡ true
  or_get b = ground (arith, get)

  Answers : (Flags → Muncher → Option Muncher) → Flags → Muncher → Type 0
  Answers f requested m = (m' : Muncher) × (f requested m ≡ some m') × Serves requested m m'

  -- A call that has nothing to do.
  idle :
      (fuel : ℕ) (requested : Flags) (m : Muncher)
      → IsCovered m
      → any_flag (missing m.valid_parts requested) ≡ false
      → Answers (retrieve_parts_within r (suc fuel)) requested m
  unfolding Answers retrieve_parts_within
  idle fuel requested m c n = (
    m,
    rw n refl,
    (
      c,
      (λ q h. h),
      λ q p e. c q p (
          let f : missing m.valid_parts requested q ≡ false =
            false-any_flag (missing m.valid_parts requested) q n p in
          ground (arith, f, e)),
    ),
  )

  retrieve_parts_step :
      (fuel : ℕ) (requested : Flags) (m : Muncher)
      → any_flag (missing m.valid_parts requested) ≡ true
      → retrieve_parts_within r (suc fuel) requested m
        ≡ retrieve_missing r
            (retrieve_parts_within r fuel (flags (host ∷ url ∷ [])))
            (missing m.valid_parts requested)
            requested
            m
  unfolding retrieve_parts_within
  retrieve_parts_step fuel requested m t = rw (t, or_get m.request_header) refl

  -- A call that goes on to the header.
  busy :
      (fuel : ℕ) (requested : Flags) (m : Muncher)
      → any_flag (missing m.valid_parts requested) ≡ true
      → (m' : Muncher) × (retrieve_missing r
            (retrieve_parts_within r fuel (flags (host ∷ url ∷ [])))
            (missing m.valid_parts requested)
            requested
            m
          ≡ some m')
        × Serves requested m m'
      → Answers (retrieve_parts_within r (suc fuel)) requested m
  unfolding Answers
  busy fuel requested m t (m', e, s) = (m', retrieve_parts_step fuel requested m t ∙ e, s)

  -- The call for the host and the URL.
  inner :
      (fuel : ℕ) (m : Muncher)
      → IsCovered m
      → Answers (retrieve_parts_within r (suc fuel)) (flags (host ∷ url ∷ [])) m
  inner fuel m c = elim (Bool-cases (any_flag (missing m.valid_parts (flags (host ∷ url ∷ []))))) [
    | inr n ↦ idle fuel _ m c n
    | inl t ↦ busy fuel _ m t (
        without_nested r _ m c (retrieve_parts_within r fuel (flags (host ∷ url ∷ [])))
          (ground arith))
  ]

  module _ (sets : (h : Bytes) → r.url_host_set h ≡ true) where
    outer : (requested : Flags) (m : Muncher) → IsCovered m → Answers (retrieve_parts r) requested m
    unfolding retrieve_parts Answers
    outer requested m c = elim (Bool-cases (any_flag (missing m.valid_parts requested))) [
      | inr n ↦ idle 1 requested m c n
      | inl t ↦ busy 1 requested m t (
          let nested = retrieve_parts_within r 1 (flags (host ∷ url ∷ [])) in
          elim (Bool-cases (missing m.valid_parts requested url_with_host)) [
            | inr n ↦ without_nested r requested m c nested n
            | inl w ↦
                let (n, e, s) = inner 0 (first r requested m c) (first-IsCovered r requested m c) in
                with_nested r requested m c sets nested n w e s
          ])
    ]

-- For the parts IP, URL, HOST, UA, COOKIE, URL_WITH_HOST, METHOD and PROTOCOL: if each of them
-- that is marked valid has an entry, the header of the transaction can be read and its URL takes
-- any host, then `retrieve_parts` returns, each of them that is then marked valid has an entry,
-- and so has each of them that was asked for.
pub retrieve_parts-has :
    (r : Request)
    → r.client_req_get ≡ true
    → ((h : Bytes) → r.url_host_set h ≡ true)
    → (requested : Flags) (m : Muncher) → IsCovered m
    → (p : Part) → request_parts p ≡ true
    → requested p ≡ true
    → (m' : Muncher) × (retrieve_parts r requested m ≡ some m') × IsCovered m' × (has p m' ≡ true)
unfolding Answers
retrieve_parts-has r get sets requested m c p q e =
    let (m', f, s) = outer r get sets requested m c in (m', f, s.0, s.2 p q e)

any_flag-false : (f : Flags) → ((p : Part) → f p ≡ false) → any_flag f ≡ false
any_flag-false f h =
    rw
      (
        h ip,
        h url,
        h host,
        h ua,
        h cookie,
        h url_with_host,
        h method,
        h miss,
        h status,
        h protocol,
        h content_length,
      )
      refl

module _ (r : Request) (requested : Flags) where
  marked_missing : (v : Flags) (p : Part) → missing (or_flags v requested) requested p ≡ false
  marked_missing v p = ground arith

  -- What a call leaves for the next one: none of its parts is missing, and the same call, whatever
  -- Traffic Server answers then, does nothing.
  abbrev pub IsRetrieved : Request → Muncher → Type 0
  IsRetrieved r' m' =
      (any_flag (missing m'.valid_parts requested) ≡ false)
      × (retrieve_parts r' requested m' ≡ some m')

  nothing_missing :
      (r' : Request) (m' : Muncher)
      → any_flag (missing m'.valid_parts requested) ≡ false
      → IsRetrieved r' m'
  unfolding retrieve_parts retrieve_parts_within
  nothing_missing r' m' n = (n, rw n refl)

  -- A call that goes on to the header ends with its parts marked.
  retrieve_missing-marks :
      (nested : Muncher → Option Muncher) (t : Flags) (m m' : Muncher)
      → retrieve_missing r nested t requested m ≡ some m'
      → (x : Muncher) × (m' ≡ mark_valid r requested x)
  unfolding retrieve_missing
  retrieve_missing-marks nested t m m' e = elim (Bool-cases (t url_with_host)) [
    | inr n ↦ (last_parts r t (first_parts r t m), sym (some-injective _ m' (rw n at e)))
    | inl w ↦ elim (Option-cases (nested (first_parts r t m))) [
      | inl n ↦ absurd (cc (rw (w, n) at e))
      | inr (u, n) ↦
          (last_parts r t (retrieve_url_with_host r u), sym (some-injective _ m' (rw (w, n) at e)))
    ]
  ]

  -- When `retrieve_parts` has returned, none of the parts that it was asked for is missing from
  -- those marked valid, and a second call for the same parts changes nothing, whatever Traffic
  -- Server would answer by then.
  pub retrieve_parts-retrieve_parts :
      (m m' : Muncher) (r' : Request) → retrieve_parts r requested m ≡ some m' → IsRetrieved r' m'
  unfolding retrieve_parts retrieve_parts_within
  retrieve_parts-retrieve_parts m m' r' e =
      elim (Bool-cases (any_flag (missing m.valid_parts requested))) [
        | inr n ↦
            subst (λ k. IsRetrieved r' k) (some-injective m m' (rw n at e)) (nothing_missing r' m n)
        | inl t ↦ elim (Bool-cases (m.request_header || r.client_req_get)) [
          | inr n ↦ absurd (cc (rw (t, n) at e))
          | inl g ↦
              let (x, q) =
                retrieve_missing-marks (retrieve_parts_within r 1 (flags (host ∷ url ∷ [])))
                  (missing m.valid_parts requested) m m' (rw (t, g) at e) in
              subst (λ k. IsRetrieved r' k) (sym q)
                (nothing_missing r' (mark_valid r requested x) (
                  any_flag-false (missing (or_flags x.valid_parts requested) requested)
                    (marked_missing x.valid_parts)))
        ]
      ]
