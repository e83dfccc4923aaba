-- ===== src/Pipeline.antt =====
-- src/transaction_data.cpp: what `TransactionData` does with a request and with its response.
pub mod Order
pub mod Dispatch
use banjax.Base.{
  ℕ, Bool, true, false, not, List, [], ◌∷◌, ◌++◌, Option, none, some, Bytes, codes, ◌==◌,
  if◌then◌else◌,
}
use banjax.Filter.{
  Parts, FilterResponse, ExtendedResponse, ResponseType, go_ahead_no_comment, i_respond,
  serve_immediately_dont_cache, serve_fresh,
}
use banjax.World.{World, M, ◌>>=◌, ◌>>◌, return}

-- `TSHttpTxnReenable` with one of its events.
pub data Event : Type 0 where
  http_continue http_error : Event

-- The calls of Traffic Server that change the transaction.
pub data Call : Type 0 where
  no_store http_cache_off : Call
  set_status : ℕ → Call
  append_header : Bytes → Bytes → Call
  set_error_body : Bytes → Option Bytes → Call
  reenable : Event → Call

-- The calls made so far, and `response_info`.
pub record Transaction : Type 0 where
  pub calls : List Call
  pub response_info : FilterResponse

-- `on_http_request` of a filter; `none` is an access outside a buffer.
abbrev pub Handler : Type 0
Handler = Parts → M (Option FilterResponse)

abbrev pub call : Call → Transaction → Transaction
call k t = record t { calls = t.calls ++ k ∷ [] }

-- `stored` is whether `TSHttpTxnServerRespNoStoreSet` succeeds: only then does `||` go on to the
-- next call.
module _ (stored : Bool) where
  unfoldable pub serve_fresh_calls : Transaction → Transaction
  serve_fresh_calls t = if stored then call http_cache_off (call no_store t) else call no_store t

  -- The `switch` on the answer of a filter, where `go_on` is the rest of the loop.
  abbrev pub switch_on :
      FilterResponse
      → (Transaction → M (Option Transaction))
      → Transaction
      → ResponseType
      → M (Option Transaction)
  switch_on r go_on t go_ahead_no_comment = go_on t
  switch_on r go_on t serve_immediately_dont_cache =
      return (some (call (reenable http_continue) (call no_store t)))
  switch_on r go_on t serve_fresh = go_on (serve_fresh_calls t)
  switch_on r go_on t i_respond =
      return (some (call (reenable http_error) (record t { response_info = r })))

  -- The loop over the filters of the queue.
  unfoldable pub handle_request : List Handler → Parts → Transaction → M (Option Transaction)
  handle_request [] parts t = return (some (call (reenable http_continue) t))
  handle_request (filter ∷ filters) parts t = do
    result ← filter parts
    elim result [
      | none ↦ return none
      | some r ↦ switch_on r (handle_request filters parts) t r.response_type
    ]

-- Forcefully disable caching.
abbrev pub uncached : Transaction → Transaction
uncached t = call (append_header (codes "Pragma") (codes "no-cache")) (
    call (append_header (codes "Cache-Control") (codes "no-store, no-cache, must-revalidate"))
      (call (append_header (codes "Expires") (codes "Mon, 23 Aug 1982 12:00:00 GMT")) t))

abbrev pub or_not_authorized : Bytes → Bytes
or_not_authorized [] = codes "Not authorized"
or_not_authorized (c ∷ cs) = c ∷ cs

abbrev pub with_cookie_header : Bytes → Transaction → Transaction
with_cookie_header [] t = t
with_cookie_header (c ∷ cs) t = call (append_header (codes "Set-Cookie") (c ∷ cs)) t

-- The calls that send a generated page.
unfoldable pub send_page : Bytes → ExtendedResponse → Transaction → Transaction
send_page body d t = call (reenable http_continue) (
    call (set_error_body (or_not_authorized body) d.content_type)
      (uncached (with_cookie_header d.set_cookie_header (call (set_status d.response_code) t))))

-- A response that no filter made.
abbrev pub pass_through : Bytes → ℕ → Transaction → Transaction
pass_through page status t =
    if status == 110
    then call (reenable http_error) (call (set_error_body page none) t)
    else call (reenable http_continue) t

-- `generate` is the response generator that the filter left, and `connect_fail` the page for an
-- origin that refuses the connection, with the status 110 in it. A response without data is read
-- through a null pointer.
unfoldable pub handle_response :
    (ExtendedResponse → M (Option (Bytes × ExtendedResponse)))
    → Bytes
    → ℕ
    → Transaction
    → M (Option Transaction)
unfolding send_page
handle_response generate connect_fail status t = elim t.response_info.response_type [
  | i_respond ↦ elim t.response_info.response_data [
    | none ↦ return none
    | some d ↦ do
      page ← generate d
      return
          (elim page [ none ↦ none | some p ↦ some (send_page p.0 p.1 (call (set_status 504) t)) ])
  ]
  | go_ahead_no_comment ↦ return (some (pass_through connect_fail status t))
  | serve_immediately_dont_cache ↦ return (some (pass_through connect_fail status t))
  | serve_fresh ↦ return (some (pass_through connect_fail status t))
]
