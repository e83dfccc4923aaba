-- ===== src/Muncher/Request/Total.antt =====
-- The parts can be retrieved whenever the header can.
use banjax.Base.{
  ◌≡◌, inl, inr, refl, Bool, true, ◌||◌, [], ◌∷◌, Option, some, Bool-cases, ℕ, suc, arith,
}
use banjax.Muncher.Parts.{host, url, url_with_host, Flags, flags, missing, any_flag, Muncher}
use banjax.Muncher.Request.{
  Request, first_parts, last_parts, mark_valid, retrieve_url_with_host, retrieve_missing,
  retrieve_parts_within, retrieve_parts,
}

module _ (r : Request) where
  Returns : (Muncher → Option Muncher) → Type 0
  Returns f = (m : Muncher) → (m' : Muncher) × (f m ≡ some m')

  -- Without the host there is no nested call, and with it that call has to return.
  retrieve_missing-Returns :
      (nested : Muncher → Option Muncher) (requested : Flags) (m : Muncher) (t : Flags)
      → (t url_with_host ≡ true → Returns nested)
      → (m' : Muncher) × (retrieve_missing r nested t requested m ≡ some m')
  unfolding retrieve_missing Returns
  retrieve_missing-Returns nested requested m t h = elim (Bool-cases (t url_with_host)) [
    | inr n ↦ (mark_valid r requested (last_parts r t (first_parts r t m)), rw n refl)
    | inl w ↦
        let (n, e) = h w (first_parts r t m) in
        (mark_valid r requested (last_parts r t (retrieve_url_with_host r n)), rw (w, e) refl)
  ]

  or_get : (b : Bool) → r.client_req_get ≡ true → b || r.client_req_get ≡ true
  or_get b get = ground (arith, get)

  module _ (get : r.client_req_get ≡ true) where
    retrieve_parts_within-Returns :
        (fuel : ℕ) (requested : Flags)
        → ((m : Muncher)
            → missing m.valid_parts requested url_with_host ≡ true
            → Returns (retrieve_parts_within r fuel (flags (host ∷ url ∷ []))))
        → Returns (retrieve_parts_within r (suc fuel) requested)
    unfolding retrieve_parts_within Returns
    retrieve_parts_within-Returns fuel requested h m =
        elim (Bool-cases (any_flag (missing m.valid_parts requested))) [
          | inr n ↦ (m, rw n refl)
          | inl t ↦
              let (m', e) =
                retrieve_missing-Returns (retrieve_parts_within r fuel (flags (host ∷ url ∷ [])))
                  requested m (missing m.valid_parts requested) (h m) in
              (m', rw (t, or_get m.request_header get) e)
        ]

    inner-Returns : Returns (retrieve_parts_within r 1 (flags (host ∷ url ∷ [])))
    inner-Returns =
        retrieve_parts_within-Returns 0 (flags (host ∷ url ∷ []))
          (λ m e. absurd (ground (arith, e)))

    pub retrieve_parts_total :
        (requested : Flags) (m : Muncher)
        → (m' : Muncher) × (retrieve_parts r requested m ≡ some m')
    unfolding retrieve_parts Returns
    retrieve_parts_total requested m =
        retrieve_parts_within-Returns 1 requested (λ k e. inner-Returns) m
