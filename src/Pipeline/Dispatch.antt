-- ===== src/Pipeline/Dispatch.antt =====
-- src/transaction_data.cpp: `handle_transaction_change`, with the retrieval of the parts.
pub mod Handled
pub mod Settled
use banjax.Base.{ℕ, Bool, true, false, not, List, [], ◌∷◌, ◌++◌, Option, none, some, Bytes}
use banjax.Filter.{
  Parts, FilterResponse, ExtendedResponse, ResponseType, plain, go_ahead_no_comment, i_respond,
  serve_immediately_dont_cache, serve_fresh,
}
use banjax.Muncher.Parts.{
  ip, url, host, ua, cookie, url_with_host, method, Flags, TransactionParts, Muncher, fresh_muncher,
  set_miss,
}
use banjax.Muncher.Request.{Request, or_empty, retrieve_parts}
use banjax.Muncher.Reply.{Reply, retrieve_response_parts, get_response_status}
use banjax.Pipeline.{
  Call, reenable, http_continue, Transaction, Handler, call, handle_request, handle_response,
}
use banjax.World.{World, M, ◌>>=◌, return}

-- The events of a transaction.
pub data HookEvent : Type 0 where
  read_request_hdr read_cache_hdr send_request_hdr send_response_hdr txn_close timeout unsolicited :
      HookEvent

-- What Traffic Server answers during the transaction: about the request, about the response, and
-- whether `TSHttpTxnServerRespNoStoreSet` succeeds. `connect_fail` is the page with the status 110.
pub record Server : Type 0 where
  pub request : Request
  pub reply : Reply
  pub to_string : ℕ → Bytes
  pub stored : Bool
  pub connect_fail : Bytes

-- The `Banjax` of the transaction: its queues, the parts that its filters ask for, and the
-- generators of their responses.
pub record Plugin : Type 0 where
  pub http_request_filters : List Handler
  pub http_close_filters : List (TransactionParts → M (Option (Unit {0})))
  pub all_filters_requested_part : Flags
  pub all_filters_response_part : Flags
  pub generate : Parts → ExtendedResponse → M (Option (Bytes × ExtendedResponse))

-- `alive` until the data of the transaction are destroyed with it.
pub record TransactionData : Type 0 where
  pub transaction : Transaction
  pub transaction_muncher : Muncher
  pub alive : Bool

unfoldable pub new_transaction_data : TransactionData
unfolding fresh_muncher
new_transaction_data = record {
  transaction = record { calls = []; response_info = plain go_ahead_no_comment };
  transaction_muncher = fresh_muncher;
  alive = true;
}

-- The entries that the filters read.
abbrev pub parts_of : TransactionParts → Parts
parts_of p = record {
  ip = or_empty (p ip);
  url = or_empty (p url);
  host = or_empty (p host);
  ua = or_empty (p ua);
  cookie = or_empty (p cookie);
  url_with_host = or_empty (p url_with_host);
  method = or_empty (p method);
}

-- The loop of `handle_http_close`.
unfoldable pub close_all :
    List (TransactionParts → M (Option (Unit {0}))) → TransactionParts → M (Option (Unit {0}))
close_all [] parts = return (some tt)
close_all (cur_task ∷ tasks) parts = do
  result ← cur_task parts
  elim result [ none ↦ return none | some u ↦ close_all tasks parts ]

abbrev reenabled : Transaction → Transaction
reenabled t = call (reenable http_continue) t

-- `none` is an exception, which nothing catches.
abbrev attempt : {A B : Type 0} → Option A → (A → M (Option B)) → M (Option B)
attempt none f = return none
attempt (some a) f = f a

module _ (s : Server) (b : Plugin) where
  unfoldable pub on_read_request : TransactionData → M (Option TransactionData)
  on_read_request d =
      attempt (retrieve_parts s.request b.all_filters_requested_part d.transaction_muncher) (λ m. do
        t ←
            handle_request s.stored b.http_request_filters (parts_of m.cur_trans_parts)
              d.transaction
        return (elim t [
          | none ↦ none
          | some t' ↦ some (record d { transaction = t'; transaction_muncher = m })
        ]))

  -- The parts of the request are read again for the generator of a response.
  abbrev pub generate_page : Muncher → ExtendedResponse → M (Option (Bytes × ExtendedResponse))
  generate_page m r =
      attempt (retrieve_parts s.request b.all_filters_requested_part m)
        (λ m'. b.generate (parts_of m'.cur_trans_parts) r)

  abbrev or_same : Muncher → Option Muncher → Muncher
  or_same m none = m
  or_same m (some m') = m'

  abbrev pub after_page : ResponseType → Muncher → Muncher
  after_page i_respond m = or_same m (retrieve_parts s.request b.all_filters_requested_part m)
  after_page go_ahead_no_comment m = m
  after_page serve_immediately_dont_cache m = m
  after_page serve_fresh m = m

  unfoldable pub on_send_response : TransactionData → M (Option TransactionData)
  on_send_response d =
      attempt (get_response_status s.to_string s.reply d.transaction_muncher) (λ (status, m).
        attempt (retrieve_response_parts s.to_string s.reply b.all_filters_response_part m) (λ m'.
          do
            t ← handle_response (generate_page m') s.connect_fail status d.transaction
            return (elim t [
              | none ↦ none
              | some t' ↦ some (record d {
                transaction = t';
                transaction_muncher = after_page d.transaction.response_info.response_type m';
              })
            ])))

  unfoldable pub on_close : TransactionData → M (Option TransactionData)
  on_close d =
      attempt (retrieve_parts s.request b.all_filters_requested_part d.transaction_muncher) (λ m. do
        done ← close_all b.http_close_filters m.cur_trans_parts
        return (elim done [
          | none ↦ none
          | some u ↦ some (record {
            transaction = reenabled d.transaction;
            transaction_muncher = m;
            alive = false;
          })
        ]))

  unfoldable pub handle_transaction_change :
      HookEvent → TransactionData → M (Option TransactionData)
  unfolding on_read_request on_send_response on_close
  handle_transaction_change read_request_hdr d = on_read_request d
  handle_transaction_change read_cache_hdr d =
      return (some (record d { transaction = reenabled d.transaction }))
  handle_transaction_change send_request_hdr d = return (
      some (record d {
        transaction = reenabled d.transaction;
        transaction_muncher = set_miss d.transaction_muncher;
      }))
  handle_transaction_change send_response_hdr d = on_send_response d
  handle_transaction_change txn_close d = on_close d
  handle_transaction_change timeout d = return (some d)
  handle_transaction_change unsolicited d = return (some d)
