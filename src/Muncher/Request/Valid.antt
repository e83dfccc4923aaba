-- ===== src/Muncher/Request/Valid.antt =====
-- The parts that are marked valid.
use banjax.Base.{◌≡◌, inl, inr, refl, ◌∙◌, Bool, true, false, ◌||◌, Bytes, Bool-cases, Option-cases}
use banjax.Muncher.Parts.{Part, ip, url, host, ua, cookie, method, protocol, Flags, Muncher}
use banjax.Muncher.Request.{
  Request, when, host_of, retrieve_ip, retrieve_url, retrieve_url_with_host, retrieve_method,
  retrieve_host, retrieve_ua, retrieve_cookie, first_parts, last_parts,
}

-- The steps that retrieve a part do not mark it.
module _ (r : Request) (q : Part) where
  valid-when :
      (b : Bool) (f : Muncher → Muncher) (m : Muncher)
      → (f m).valid_parts q ≡ m.valid_parts q
      → (when r b f m).valid_parts q ≡ m.valid_parts q
  valid-when true f m e = e
  valid-when false f m e = refl

  valid-retrieve_url : (m : Muncher) → (retrieve_url r m).valid_parts q ≡ m.valid_parts q
  unfolding retrieve_url
  valid-retrieve_url m = elim (Bool-cases r.url_get) [
    | inr b ↦ rw b refl
    | inl b ↦ elim (Option-cases (r.url_string m.url_host)) [
      | inl n ↦ rw (b, n) refl
      | inr (s, n) ↦ rw (b, n) refl
    ]
  ]

  pub valid-retrieve_url_with_host :
      ((h : Bytes) → r.url_host_set h ≡ true)
      → (m : Muncher) → (retrieve_url_with_host r m).valid_parts q ≡ m.valid_parts q
  unfolding retrieve_url_with_host
  valid-retrieve_url_with_host sets m = elim (Bool-cases r.url_get) [
    | inr b ↦ rw b refl
    | inl b ↦ rw (b, sets (host_of r m)) refl
  ]

  pub valid-first_parts :
      (todo : Flags) (m : Muncher) → (first_parts r todo m).valid_parts q ≡ m.valid_parts q
  unfolding retrieve_ip
  valid-first_parts todo m =
      let m0 = record m { request_header = true } in
      let m1 = when r (todo ip) (retrieve_ip r) m0 in
      valid-when (todo url || todo protocol) (retrieve_url r) m1 (valid-retrieve_url m1)
      ∙ valid-when (todo ip) (retrieve_ip r) m0 refl

  pub valid-last_parts :
      (todo : Flags) (m : Muncher) → (last_parts r todo m).valid_parts q ≡ m.valid_parts q
  unfolding retrieve_method retrieve_host retrieve_ua retrieve_cookie
  valid-last_parts todo m =
      let m1 = when r (todo method) (retrieve_method r) m in
      let m2 = when r (todo host) (retrieve_host r) m1 in
      let m3 = when r (todo ua) (retrieve_ua r) m2 in
      valid-when (todo cookie) (retrieve_cookie r) m3 refl
      ∙ valid-when (todo ua) (retrieve_ua r) m2 refl
      ∙ valid-when (todo host) (retrieve_host r) m1 refl
      ∙ valid-when (todo method) (retrieve_method r) m refl
