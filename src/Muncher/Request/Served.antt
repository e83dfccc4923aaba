-- ===== src/Muncher/Request/Served.antt =====
-- The filters find the parts that they have asked for.
use banjax.Base.{
  ◌≡◌, ◌⊎◌, inl, inr, refl, ap, sym, ◌∙◌, Bool, true, false, ◌&&◌, ◌||◌, [], ◌∷◌, Option, none,
  some, Bytes, arith, Bool-cases, Option-cases,
}
use banjax.Muncher.Parts.{
  Part, validity_stat, ip, url, host, ua, cookie, url_with_host, method, miss, status, protocol,
  content_length, is_part, Flags, flags, missing, assign, insert_new, Muncher,
}
use banjax.Muncher.Request.Valid.{valid-last_parts}
use banjax.Muncher.Request.{
  Request, with_new, when, host_of, retrieve_ip, retrieve_url, retrieve_url_with_host,
  retrieve_method, retrieve_host, retrieve_ua, retrieve_cookie, first_parts, last_parts, mark_valid,
}

abbrev pub is_some : Option Bytes → Bool
is_some none = false
is_some (some s) = true

-- The map has an entry for a part.
abbrev pub has : Part → Muncher → Bool
has p m = is_some (m.cur_trans_parts p)

-- The parts that come from the request.
abbrev pub request_parts : Flags
request_parts = flags (ip ∷ url ∷ host ∷ ua ∷ cookie ∷ url_with_host ∷ method ∷ protocol ∷ [])

is_some-insert_new :
    (p : Part) (v : Bytes) (m : Part → Option Bytes) (q : Part)
    → is_some (insert_new p v m q) ≡ is_part p q || is_some (m q)
is_some-insert_new p v m q = elim (Option-cases (m q)) [
  | inl n ↦ ground (arith, n)
  | inr (s, n) ↦ ground (arith, n)
]

is_some-assign :
    (p : Part) (v : Bytes) (m : Part → Option Bytes) (q : Part)
    → is_some (assign p v m q) ≡ is_part p q || is_some (m q)
is_some-assign p v m q = ground arith

or_swap : (a b c : Bool) → a || (b || c) ≡ b || (a || c)
or_swap a b c = ground arith

or_assoc : (a b c : Bool) → a || (b || c) ≡ (a || b) || c
or_assoc a b c = ground arith

module _ (r : Request) (q : Part) where
  has-retrieve_ip : (m : Muncher) → has q (retrieve_ip r m) ≡ is_part ip q || has q m
  unfolding retrieve_ip
  has-retrieve_ip m = is_some-assign ip _ m.cur_trans_parts q

  has-with_new :
      (p : Part) (v : Bytes) (m : Muncher) → has q (with_new p v m) ≡ is_part p q || has q m
  has-with_new p v m = is_some-insert_new p v m.cur_trans_parts q

  has_two :
      (p p' : Part) (v v' : Bytes) (m : Muncher)
      → has q (with_new p v (with_new p' v' m)) ≡ is_part p' q || (is_part p q || has q m)
  has_two p p' v v' m =
      has-with_new p v (with_new p' v' m)
      ∙ ap (λ b. is_part p q || b) (has-with_new p' v' m)
      ∙ or_swap (is_part p q) (is_part p' q) (has q m)

  has-retrieve_url :
      (m : Muncher) → has q (retrieve_url r m) ≡ is_part url q || (is_part protocol q || has q m)
  unfolding retrieve_url
  has-retrieve_url m = elim (Bool-cases r.url_get) [
    | inr b ↦ rw b (has_two protocol url [] [] m)
    | inl b ↦ elim (Option-cases (r.url_string m.url_host)) [
      | inl n ↦ rw (b, n) (has_two protocol url [] [] m)
      | inr (s, n) ↦ rw (b, n) (has_two protocol url r.url_scheme s m)
    ]
  ]

  pub has-retrieve_url_with_host :
      ((h : Bytes) → r.url_host_set h ≡ true)
      → (m : Muncher) → has q (retrieve_url_with_host r m) ≡ is_part url_with_host q || has q m
  unfolding retrieve_url_with_host
  has-retrieve_url_with_host sets m = elim (Bool-cases r.url_get) [
    | inr b ↦ rw b (has-with_new url_with_host [] m)
    | inl b ↦
        rw (b, sets (host_of r m))
          (has-with_new url_with_host _ (record m { url_host = some (host_of r m) }))
  ]

  has-when :
      (b t : Bool) (f : Muncher → Muncher) (m : Muncher)
      → has q (f m) ≡ t || has q m
      → has q (when r b f m) ≡ (b && t) || has q m
  has-when true t f m e = e
  has-when false t f m e = refl

  has-last_parts :
      (todo : Flags) (m : Muncher)
      → has q (last_parts r todo m)
        ≡ (todo cookie && is_part cookie q)
          || ((todo ua && is_part ua q)
              || ((todo host && is_part host q) || ((todo method && is_part method q) || has q m)))
  unfolding retrieve_method retrieve_host retrieve_ua retrieve_cookie
  has-last_parts todo m =
      let m1 = when r (todo method) (retrieve_method r) m in
      let m2 = when r (todo host) (retrieve_host r) m1 in
      let m3 = when r (todo ua) (retrieve_ua r) m2 in
      let e1 =
        has-when (todo method) (is_part method q) (retrieve_method r) m (has-with_new method _ m) in
      let e2 =
        has-when (todo host) (is_part host q) (retrieve_host r) m1 (has-with_new host _ m1) in
      let e3 = has-when (todo ua) (is_part ua q) (retrieve_ua r) m2 (has-with_new ua _ m2) in
      has-when (todo cookie) (is_part cookie q) (retrieve_cookie r) m3 (has-with_new cookie _ m3)
      ∙ ap (λ b. (todo cookie && is_part cookie q) || b)
          (e3
            ∙ ap (λ b. (todo ua && is_part ua q) || b)
                (e2 ∙ ap (λ b. (todo host && is_part host q) || b) e1))

  has-first_parts :
      (todo : Flags) (m : Muncher)
      → has q (first_parts r todo m)
        ≡ ((todo url || todo protocol) && (is_part url q || is_part protocol q))
          || ((todo ip && is_part ip q) || has q m)
  has-first_parts todo m =
      let m0 = record m { request_header = true } in
      let m1 = when r (todo ip) (retrieve_ip r) m0 in
      let e1 = has-when (todo ip) (is_part ip q) (retrieve_ip r) m0 (has-retrieve_ip m0) in
      has-when (todo url || todo protocol) (is_part url q || is_part protocol q) (retrieve_url r) m1
        (has-retrieve_url m1 ∙ or_assoc (is_part url q) (is_part protocol q) (has q m1))
      ∙ ap (λ b. ((todo url || todo protocol) && (is_part url q || is_part protocol q)) || b) e1

  has-mark_valid :
      (requested : Flags) (m : Muncher)
      → has q (mark_valid r requested m) ≡ is_part validity_stat q || has q m
  has-mark_valid requested m = is_some-assign validity_stat _ m.cur_trans_parts q

module _ (r : Request) (requested : Flags) (m u : Muncher) where
  unfoldable pub todo : Flags
  todo = missing m.valid_parts requested

  unfoldable pub done : Muncher
  done = mark_valid r requested (last_parts r todo u)

  -- What has been there, or has been asked for, is there at the end.
  unfoldable pub Kept : Part → Type 0
  Kept q = has q (first_parts r todo m) ≡ true → has q u ≡ true

  done-has : (q : Part) → has q (last_parts r todo u) ≡ true → has q done ≡ true
  unfolding done
  done-has q h = has-mark_valid r q requested (last_parts r todo u) ∙ ground (arith, h)

  last_parts-has : (q : Part) → has q u ≡ true → has q (last_parts r todo u) ≡ true
  last_parts-has q h = has-last_parts r q todo u ∙ ground (arith, h)

  pub first_parts-has : (q : Part) → has q m ≡ true → has q (first_parts r todo m) ≡ true
  first_parts-has q h = has-first_parts r q todo m ∙ ground (arith, h)

  from_start : (q : Part) → Kept q → has q m ≡ true → has q done ≡ true
  unfolding Kept
  from_start q k h = done-has q (last_parts-has q (k (first_parts-has q h)))

  asked :
      (q : Part)
      → request_parts q ≡ true
      → Kept q
      → (todo url_with_host ≡ true → has url_with_host u ≡ true)
      → todo q ≡ true
      → has q done ≡ true
  unfolding Kept
  asked ip _ k w t =
      done-has ip (last_parts-has ip (k (has-first_parts r ip todo m ∙ ground (arith, t))))
  asked url _ k w t =
      done-has url (last_parts-has url (k (has-first_parts r url todo m ∙ ground (arith, t))))
  asked protocol _ k w t =
      done-has protocol
        (last_parts-has protocol (k (has-first_parts r protocol todo m ∙ ground (arith, t))))
  asked url_with_host _ k w t = done-has url_with_host (last_parts-has url_with_host (w t))
  asked host _ k w t = done-has host (has-last_parts r host todo u ∙ ground (arith, t))
  asked ua _ k w t = done-has ua (has-last_parts r ua todo u ∙ ground (arith, t))
  asked cookie _ k w t = done-has cookie (has-last_parts r cookie todo u ∙ ground (arith, t))
  asked method _ k w t = done-has method (has-last_parts r method todo u ∙ ground (arith, t))
  asked validity_stat p k w t = cc
  asked miss p k w t = cc
  asked status p k w t = cc
  asked content_length p k w t = cc

  valid-done : (q : Part) → done.valid_parts q ≡ u.valid_parts q || requested q
  unfolding done
  valid-done q = ap (λ b. b || requested q) (valid-last_parts r q todo u)

-- Each part of the request that is marked valid has an entry.
abbrev pub IsCovered : Muncher → Type 0
IsCovered m = (q : Part) → request_parts q ≡ true → m.valid_parts q ≡ true → has q m ≡ true

abbrev pub Grows : Muncher → Muncher → Type 0
Grows m m' = (q : Part) → has q m ≡ true → has q m' ≡ true

abbrev pub Has : Flags → Muncher → Type 0
Has requested m = (q : Part) → request_parts q ≡ true → requested q ≡ true → has q m ≡ true

-- What a call of `retrieve_parts` promises.
abbrev pub Serves : Flags → Muncher → Muncher → Type 0
Serves requested m m' = IsCovered m' × Grows m m' × Has requested m'

module _ (r : Request) (requested : Flags) (m u : Muncher) (c : IsCovered m) where
  or-cases : (a b : Bool) → a || b ≡ true → (a ≡ true) ⊎ (b ≡ true)
  or-cases true b e = inl refl
  or-cases false b e = inr e

  todo-cases :
      (q : Part) → requested q ≡ true → (m.valid_parts q ≡ true) ⊎ (todo r requested m u q ≡ true)
  unfolding todo
  todo-cases q e = elim (Bool-cases (m.valid_parts q)) [
    | inl v ↦ inl v
    | inr v ↦ inr (ground (arith, v, e))
  ]

  pub done-Serves :
      ((q : Part) → Kept r requested m u q)
      → (todo r requested m u url_with_host ≡ true → has url_with_host u ≡ true)
      → ((q : Part) → request_parts q ≡ true → u.valid_parts q ≡ true → has q u ≡ true)
      → Serves requested m (done r requested m u)
  done-Serves k w cu =
      let given : Has requested (done r requested m u) = (λ q p e. elim (todo-cases q e) [
        | inl v ↦ from_start r requested m u q (k q) (c q p v)
        | inr t ↦ asked r requested m u q p (k q) w t
      ]) in
      (
        (λ q p e.
            elim (or-cases (u.valid_parts q) (requested q)
              (sym (valid-done r requested m u q) ∙ e)) [
                | inl v ↦ done-has r requested m u q (last_parts-has r requested m u q (cu q p v))
                | inr e' ↦ given q p e'
              ]),
        (λ q h. from_start r requested m u q (k q) h),
        given,
      )
