-- ===== src/Pipeline/Order.antt =====
-- What the order of the filters means for a request.
use banjax.Base.{
  ℕ, ◌≡◌, ◌⊎◌, refl, sym, ◌∙◌, inl, inr, Bool, not, ◌||◌, if◌then◌else◌, true, false, List, [], ◌∷◌,
  ◌++◌, append_assoc, Option, none, some, Bytes, All, any, ◌==◌, arith, Option-cases,
}
use banjax.Base.Int.{ℤ}
use banjax.Denialator.{is_globally_white_listed}
use banjax.Denialator.Denies.{after_denial, on_http_request_lem}
use banjax.Denialator as Denialator
use banjax.Filter.{
  Parts, FilterResponse, ResponseType, respond, extended, denied, go_ahead_no_comment, i_respond,
  serve_immediately_dont_cache, serve_fresh,
}
use banjax.IpDb.{find_state}
use banjax.Library.{Library}
use banjax.Pipeline.{
  Event, http_continue, http_error, Call, no_store, http_cache_off, set_status, append_header,
  set_error_body, reenable, Transaction, Handler, call, switch_on, serve_fresh_calls,
  handle_request,
}
use banjax.WhiteList.{WhiteList, Entry, load_config}
use banjax.WhiteList as WhiteLister
use banjax.WhiteList.Laws.{covers, on_http_request-load_config}
use banjax.World.{Surroundings, World, M, return, try_lock}

-- A call that leaves the transaction suspended.
abbrev pub IsQuiet : Call → Type 0
IsQuiet (reenable e) = ⊥
IsQuiet no_store = Unit
IsQuiet http_cache_off = Unit
IsQuiet (set_status n) = Unit
IsQuiet (append_header k v) = Unit
IsQuiet (set_error_body b c) = Unit

-- A filter of the queue answers r with a page to serve, in the world that the filters before it
-- leave; these let the request go on to it.
abbrev pub LeftBy : List Handler → Parts → World → FilterResponse → Type 0
LeftBy [] parts w r = ⊥
LeftBy (filter ∷ filters) parts w r =
    (((filter parts w).0 ≡ some r) × (r.response_type ≡ i_respond))
    ⊎ ((before : FilterResponse) × ((filter parts w).0 ≡ some before)
        × ((before.response_type ≡ go_ahead_no_comment) ⊎ (before.response_type ≡ serve_fresh))
        × LeftBy filters parts (filter parts w).1 r)

-- One event ends the calls: the transaction goes on with the response info it had, or as an error
-- with the response that a filter of the queue has left.
abbrev pub Settles : List Handler → Parts → World → Transaction → Transaction → Type 0
Settles filters parts w t t' =
    (cs : List Call) × (ev : Event) × (t'.calls ≡ t.calls ++ (cs ++ reenable ev ∷ []))
    × All IsQuiet cs
    × (((ev ≡ http_continue) × (t'.response_info ≡ t.response_info))
        ⊎ ((ev ≡ http_error) × LeftBy filters parts w t'.response_info))

-- White listing as a filter of the queue.
abbrev pub white_lister : (Bytes → ℕ) → WhiteList → Handler
white_lister inet l parts = return (some (WhiteLister.on_http_request inet l parts))

abbrev pub denialator : Library → Surroundings → Option WhiteList → ℤ → Handler
denialator x e l g parts w = let r = Denialator.on_http_request x e l g parts w in (some r.0, r.1)

Settles-fresh :
    (filters : List Handler) (parts : Parts) (w : World) (stored : Bool) (t t' : Transaction)
    → Settles filters parts w (serve_fresh_calls stored t) t'
    → Settles filters parts w t t'
unfolding serve_fresh_calls
Settles-fresh filters parts w true t t' (cs, ev, e, q, o) =
    (no_store ∷ http_cache_off ∷ cs, ev, e ∙ simp append_assoc, (tt, (tt, q)), o)
Settles-fresh filters parts w false t t' (cs, ev, e, q, o) =
    (no_store ∷ cs, ev, e ∙ simp append_assoc, (tt, q), o)

module _ (filter : Handler) (filters : List Handler) (parts : Parts) (w : World) where
  -- The request goes on from a filter to the rest of the queue.
  passed_on :
      (r : FilterResponse) (t t' : Transaction)
      → (filter parts w).0 ≡ some r
      → (r.response_type ≡ go_ahead_no_comment) ⊎ (r.response_type ≡ serve_fresh)
      → Settles filters parts (filter parts w).1 t t'
      → Settles (filter ∷ filters) parts w t t'
  passed_on r t t' n p (cs, ev, e, q, inl same) = (cs, ev, e, q, inl same)
  passed_on r t t' n p (cs, ev, e, q, inr (error, left)) =
      (cs, ev, e, q, inr (error, inr (r, n, p, left)))

  switch_on-Settles :
      (stored : Bool) (r : FilterResponse) (go_on : Transaction → M (Option Transaction))
      (t t' : Transaction) (ty : ResponseType)
      → (filter parts w).0 ≡ some r
      → r.response_type ≡ ty
      → ((u : Transaction)
          → (go_on u (filter parts w).1).0 ≡ some t'
          → Settles filters parts (filter parts w).1 u t')
      → (switch_on stored r go_on t ty (filter parts w).1).0 ≡ some t'
      → Settles (filter ∷ filters) parts w t t'
  switch_on-Settles stored r go_on t t' go_ahead_no_comment n e ih h =
      passed_on r t t' n (inl e) (ih t h)
  switch_on-Settles stored r go_on t t' serve_fresh n e ih h = passed_on r t t' n (inr e) (
      Settles-fresh filters parts (filter parts w).1 stored t t'
        (ih (serve_fresh_calls stored t) h))
  switch_on-Settles stored r go_on t t' serve_immediately_dont_cache n e ih h =
      let q : t' ≡ call (reenable http_continue) (call no_store t) = cc h in
      rw q (no_store ∷ [], http_continue, simp append_assoc, (tt, tt), inl (refl, refl))
  switch_on-Settles stored r go_on t t' i_respond n e ih h =
      let q : t' ≡ call (reenable http_error) (record t { response_info = r }) = cc h in
      rw q ([], http_error, refl, tt, inr (refl, inl (n, e)))

module _ (stored : Bool) where
  handle_request-none :
      (filter : Handler) (filters : List Handler) (parts : Parts) (t : Transaction) (w : World)
      → (filter parts w).0 ≡ none
      → (handle_request stored (filter ∷ filters) parts t w).0 ≡ none
  unfolding handle_request
  handle_request-none filter filters parts t w n = ground (arith, n)

  pub handle_request-switch_on :
      (filter : Handler) (filters : List Handler) (parts : Parts) (t : Transaction) (w : World)
      (r : FilterResponse)
      → (filter parts w).0 ≡ some r
      → (handle_request stored (filter ∷ filters) parts t w).0
        ≡ (switch_on stored r
            (handle_request stored filters parts)
            t
            r.response_type
            (filter parts w).1).0
  unfolding handle_request
  handle_request-switch_on filter filters parts t w r n = ground (arith, n)

  -- Whatever the filters of the queue answer, a request that they are done with is let on exactly
  -- once, as the last call: to continue with the response info it had, or as an error with the
  -- response, its data included, with which a filter of the queue answered after all filters
  -- before it had let the request go on.
  pub handle_request-Settles :
      (filters : List Handler) (parts : Parts) (t t' : Transaction) (w : World)
      → (handle_request stored filters parts t w).0 ≡ some t'
      → Settles filters parts w t t'
  unfolding handle_request
  handle_request-Settles [] parts t t' w h =
      let q : t' ≡ call (reenable http_continue) t = cc h in
      rw q ([], http_continue, refl, tt, inl (refl, refl))
  handle_request-Settles (filter ∷ filters) parts t t' w h =
      elim (Option-cases (filter parts w).0) [
        | inl n ↦ cc (handle_request-none filter filters parts t w n)
        | inr (r, n) ↦
            switch_on-Settles filter filters parts w stored r (handle_request stored filters parts)
              t t' r.response_type n refl
              (λ u. handle_request-Settles filters parts u t' (filter parts w).1)
              (sym (handle_request-switch_on filter filters parts t w r n) ∙ h)
      ]

  -- With the white lister first in the queue, a request that an entry covers goes on uncached and
  -- no other filter runs: the state that the filters share stays as it is.
  pub handle_request-white_lister :
      (inet : Bytes → ℕ) (stoi : Bytes → Option ℕ) (entries : List Entry) (l : WhiteList)
      (filters : List Handler) (parts : Parts) (t : Transaction) (w : World)
      → load_config inet stoi entries (record { white_list = []; per_host = [] }) ≡ some l
      → any (covers inet stoi parts.host parts.ip) entries ≡ true
      → handle_request stored (white_lister inet l ∷ filters) parts t w
        ≡ (some (call (reenable http_continue) (call no_store t)), w)
  unfolding handle_request
  handle_request-white_lister inet stoi entries l filters parts t w loaded covered =
      let served = on_http_request-load_config inet stoi entries l parts loaded in
      rw (served, covered) refl

  -- With the denialator first in the queue, a request of a white-listed address is handled by the
  -- rest of the queue in the same state; so is one without the lock of the database or without a
  -- time on record, after the try of the lock. Any other gets the page of the denialator and no
  -- other filter runs: all that happens besides is a `ban` of the address, if the grace period has
  -- passed since the time on record.
  pub handle_request-denialator :
      (x : Library) (e : Surroundings) (l : Option WhiteList) (g : ℤ) (filters : List Handler)
      (parts : Parts) (t : Transaction) (w : World)
      → handle_request stored (denialator x e l g ∷ filters) parts t w ≡ (
          if is_globally_white_listed x l parts.ip
          then handle_request stored filters parts t w
          else if not (e.lock w.calls) || find_state 0 parts.ip w.swabber_ip_db == 0
          then handle_request stored filters parts t (try_lock e w).1
          else (
            some (
                call
                  (reenable http_error)
                  (record t { response_info = respond (extended denied) })),
            after_denial x e g parts.ip (find_state 0 parts.ip w.swabber_ip_db) (try_lock e w).1,
          ))
  unfolding handle_request
  handle_request-denialator x e l g filters parts t w =
      ground (arith, on_http_request_lem x e l g parts w)
