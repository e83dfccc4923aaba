-- ===== src/Pipeline/Dispatch/Handled.antt =====
-- The handlers of a request and of a response re-enable the transaction.
use banjax.Base.{
  ℕ, ◌≡◌, inl, inr, refl, ◌∙◌, Bool, List, [], ◌∷◌, ◌++◌, append_assoc, Option, none, some, Bytes,
  codes, All, ◌==◌, Bool-cases,
}
use banjax.Filter.{
  Parts, FilterResponse, ExtendedResponse, ResponseType, go_ahead_no_comment, i_respond,
  serve_immediately_dont_cache, serve_fresh,
}
use banjax.Pipeline.{
  Event, http_continue, http_error, Call, reenable, set_status, set_error_body, append_header,
  Transaction, Handler, call, switch_on, handle_request, handle_response, send_page, pass_through,
  with_cookie_header, uncached, or_not_authorized,
}
use banjax.Pipeline.Order.{IsQuiet, handle_request-switch_on}
use banjax.World.{World, M}

-- One re-enabling call ends the calls that are added.
abbrev pub IsAnswered : Transaction → Transaction → Type 0
IsAnswered t t' =
    (cs : List Call) × (ev : Event) × (t'.calls ≡ t.calls ++ (cs ++ reenable ev ∷ []))
    × All IsQuiet cs

-- A step that has a result, in any state.
abbrev pub IsTotal : {A : Type 0} → M (Option A) → Type 0
IsTotal {A} f = (w : World) → (a : A) × ((f w).0 ≡ some a)

-- A response has its data.
abbrev pub HasData : FilterResponse → Type 0
HasData f = f.response_type ≡ i_respond → (r : ExtendedResponse) × (f.response_data ≡ some r)

module _ (stored : Bool) where
  switch_on_total :
      (r : FilterResponse) (go_on : Transaction → M (Option Transaction)) (t : Transaction)
      (w : World) (ty : ResponseType)
      → ((u : Transaction) → (t' : Transaction) × ((go_on u w).0 ≡ some t'))
      → (t' : Transaction) × ((switch_on stored r go_on t ty w).0 ≡ some t')
  switch_on_total r go_on t w go_ahead_no_comment h = h t
  switch_on_total r go_on t w serve_fresh h = h _
  switch_on_total r go_on t w serve_immediately_dont_cache h = (_, refl)
  switch_on_total r go_on t w i_respond h = (_, refl)

  pub handle_request_total :
      (filters : List Handler) (parts : Parts) (t : Transaction) (w : World)
      → All (λ f. (p : Parts) → IsTotal (f p)) filters
      → (t' : Transaction) × ((handle_request stored filters parts t w).0 ≡ some t')
  unfolding handle_request
  handle_request_total [] parts t w h = (_, refl)
  handle_request_total (f ∷ fs) parts t w (h, hs) =
      let (r, e) = h parts w in
      let (t', e') =
        switch_on_total r (handle_request stored fs parts) t (f parts w).1 r.response_type
          (λ u. handle_request_total fs parts u (f parts w).1 hs) in
      (t', handle_request-switch_on stored f fs parts t w r e ∙ e')

-- The last quiet calls of a page.
abbrev page_calls : Bytes → Option Bytes → List Call
page_calls body content_type =
    append_header (codes "Expires") (codes "Mon, 23 Aug 1982 12:00:00 GMT")
    ∷ append_header (codes "Cache-Control") (codes "no-store, no-cache, must-revalidate")
    ∷ append_header (codes "Pragma") (codes "no-cache")
    ∷ set_error_body body content_type
    ∷ []

-- The calls of a page are quiet up to the last one.
page-IsAnswered :
    (cookie body : Bytes) (code : ℕ) (content_type : Option Bytes) (t : Transaction)
    → IsAnswered t (
        call (reenable http_continue) (
          call (set_error_body body content_type) (
            uncached
              (with_cookie_header cookie (call (set_status code) (call (set_status 504) t))))))
page-IsAnswered [] body code content_type t = (
  set_status 504 ∷ set_status code ∷ page_calls body content_type,
  http_continue,
  simp append_assoc,
  (tt, (tt, (tt, (tt, (tt, (tt, tt)))))),
)
page-IsAnswered (c ∷ cs) body code content_type t = (
  set_status 504
      ∷ set_status code
      ∷ append_header (codes "Set-Cookie") (c ∷ cs)
      ∷ page_calls body content_type,
  http_continue,
  simp append_assoc,
  (tt, (tt, (tt, (tt, (tt, (tt, (tt, tt))))))),
)

send_page-IsAnswered :
    (body : Bytes) (d : ExtendedResponse) (t : Transaction)
    → IsAnswered t (send_page body d (call (set_status 504) t))
unfolding send_page
send_page-IsAnswered body d t =
    page-IsAnswered d.set_cookie_header (or_not_authorized body) d.response_code d.content_type t

pass_through-IsAnswered :
    (page : Bytes) (status : ℕ) (t : Transaction) → IsAnswered t (pass_through page status t)
pass_through-IsAnswered page status t = elim (Bool-cases (status == 110)) [
  | inl b ↦ rw b (set_error_body page none ∷ [], http_error, simp append_assoc, (tt, tt))
  | inr b ↦ rw b ([], http_continue, refl, tt)
]

module _ (generate : ExtendedResponse → M (Option (Bytes × ExtendedResponse)))
    (total : (r : ExtendedResponse) → IsTotal (generate r)) where
  pub handle_response-answers :
      (ty : ResponseType) (page : Bytes) (status : ℕ) (t : Transaction) (w : World)
      → t.response_info.response_type ≡ ty
      → (ty ≡ i_respond → (r : ExtendedResponse) × (t.response_info.response_data ≡ some r))
      → (t' : Transaction) × ((handle_response generate page status t w).0 ≡ some t')
        × IsAnswered t t'
  unfolding handle_response
  handle_response-answers go_ahead_no_comment page status t w e h =
      (pass_through page status t, rw e refl, pass_through-IsAnswered page status t)
  handle_response-answers serve_immediately_dont_cache page status t w e h =
      (pass_through page status t, rw e refl, pass_through-IsAnswered page status t)
  handle_response-answers serve_fresh page status t w e h =
      (pass_through page status t, rw e refl, pass_through-IsAnswered page status t)
  handle_response-answers i_respond page status t w e h =
      let (r, k) = h refl in
      let (p, g) = total r w in
      (
        send_page p.0 p.1 (call (set_status 504) t),
        rw (e, k, g) refl,
        send_page-IsAnswered p.0 p.1 t,
      )
