-- ===== src/Pipeline/Dispatch/Settled.antt =====
-- Traffic Server waits for a re-enabling call after every event of a transaction: it gets one.
use banjax.Base.{
  ◌≡◌, inl, inr, refl, ◌∙◌, Bool, true, false, ◌||◌, List, [], ◌∷◌, Option, some, All, arith,
  Bool-cases,
}
use banjax.Filter.{Parts, ExtendedResponse}
use banjax.Muncher.Parts.{Muncher, TransactionParts, Flags, any_flag, missing}
use banjax.Muncher.Request.Total.{retrieve_parts_total}
use banjax.Muncher.Reply.{fill, retrieve_response_parts, get_response_status}
use banjax.Pipeline.{http_continue, reenable, call}
use banjax.Pipeline.Order.{handle_request-Settles}
use banjax.Pipeline.Dispatch.{
  Server, Plugin, TransactionData, HookEvent, read_request_hdr, read_cache_hdr, send_request_hdr,
  send_response_hdr, txn_close, timeout, unsolicited, close_all, handle_transaction_change,
  on_read_request, on_send_response, on_close, generate_page, after_page, parts_of,
}
use banjax.World.{World, M}
use banjax.Pipeline.Dispatch.Handled.{
  IsAnswered, IsTotal, HasData, handle_request_total, handle_response-answers,
}

module _ (s : Server) (b : Plugin) (resp : s.reply.client_resp_get ≡ true) where
  or_resp : (h : Bool) → h || s.reply.client_resp_get ≡ true
  or_resp h = ground (arith, resp)

  get_response_status_total :
      (m : Muncher)
      → (m' : Muncher) × (get_response_status s.to_string s.reply m
          ≡ some (s.reply.http_status, m'))
  unfolding get_response_status
  get_response_status_total m =
      (record m { response_header = true }, rw (or_resp m.response_header) refl)

  retrieve_response_parts_total :
      (requested : Flags) (m : Muncher)
      → (m' : Muncher) × (retrieve_response_parts s.to_string s.reply requested m ≡ some m')
  unfolding retrieve_response_parts
  retrieve_response_parts_total requested m =
      elim (Bool-cases (any_flag (missing m.valid_parts requested))) [
        | inr n ↦ (m, rw n refl)
        | inl t ↦ (
          fill s.to_string s.reply (missing m.valid_parts requested)
              (record m { response_header = true }),
          rw (t, or_resp m.response_header) refl,
        )
      ]

close_all_step :
    (f : TransactionParts → M (Option (Unit {0})))
    (fs : List (TransactionParts → M (Option (Unit {0})))) (parts : TransactionParts) (w : World)
    (u : Unit {0})
    → (f parts w).0 ≡ some u
    → (close_all (f ∷ fs) parts w).0 ≡ (close_all fs parts (f parts w).1).0
unfolding close_all
close_all_step f fs parts w u e = ground (arith, e)

close_all-IsTotal :
    (tasks : List (TransactionParts → M (Option (Unit {0})))) (parts : TransactionParts)
    → All (λ f. (p : TransactionParts) → IsTotal (f p)) tasks
    → IsTotal (close_all tasks parts)
unfolding close_all
close_all-IsTotal [] parts h w = (tt, refl)
close_all-IsTotal (f ∷ fs) parts (h, hs) w =
    let (u, e) = h parts w in
    let (v, e') = close_all-IsTotal fs parts hs (f parts w).1 in
    (v, close_all_step f fs parts w u e ∙ e')

-- Neither the filters nor the generators end in an exception or outside a buffer.
abbrev pub IsTotalPlugin : Plugin → Type 0
IsTotalPlugin b =
    All (λ f. (p : Parts) → IsTotal (f p)) b.http_request_filters
    × All (λ f. (p : TransactionParts) → IsTotal (f p)) b.http_close_filters
    × ((p : Parts) (r : ExtendedResponse) → IsTotal (b.generate p r))

-- The events that Traffic Server sends while it holds the transaction.
abbrev pub IsHooked : HookEvent → Type 0
IsHooked read_request_hdr = Unit
IsHooked read_cache_hdr = Unit
IsHooked send_request_hdr = Unit
IsHooked send_response_hdr = Unit
IsHooked txn_close = Unit
IsHooked timeout = ⊥
IsHooked unsolicited = ⊥

module _ (s : Server) (b : Plugin) (get : s.request.client_req_get ≡ true)
    (resp : s.reply.client_resp_get ≡ true) (total : IsTotalPlugin b) where
  Answers : (TransactionData → M (Option TransactionData)) → TransactionData → World → Type 0
  Answers f d w =
      (d' : TransactionData) × ((f d w).0 ≡ some d') × IsAnswered d.transaction d'.transaction

  read_request-Answers : (d : TransactionData) (w : World) → Answers (on_read_request s b) d w
  unfolding Answers on_read_request
  read_request-Answers d w =
      let (m, e) =
        retrieve_parts_total s.request get b.all_filters_requested_part d.transaction_muncher in
      let parts = parts_of m.cur_trans_parts in
      let (t, e') =
        handle_request_total s.stored b.http_request_filters parts d.transaction w total.0 in
      let (cs, ev, q, quiet, _) =
        handle_request-Settles s.stored b.http_request_filters parts d.transaction t w e' in
      (record d { transaction = t; transaction_muncher = m }, rw (e, e') refl, (cs, ev, q, quiet))

  generate_page-IsTotal : (m : Muncher) (r : ExtendedResponse) → IsTotal (generate_page s b m r)
  generate_page-IsTotal m r w =
      let (m', e) = retrieve_parts_total s.request get b.all_filters_requested_part m in
      let (p, e') = total.2 (parts_of m'.cur_trans_parts) r w in (p, rw e e')

  send_response-Answers :
      (d : TransactionData) (w : World)
      → HasData d.transaction.response_info
      → Answers (on_send_response s b) d w
  unfolding Answers on_send_response
  send_response-Answers d w h =
      let (m, e) = get_response_status_total s b resp d.transaction_muncher in
      let (m', e') = retrieve_response_parts_total s b resp b.all_filters_response_part m in
      let (t, e'', a) =
        handle_response-answers (generate_page s b m') (generate_page-IsTotal m')
          d.transaction.response_info.response_type s.connect_fail s.reply.http_status d.transaction
          w refl h in
      (
        record d {
          transaction = t;
          transaction_muncher = after_page s b d.transaction.response_info.response_type m';
        },
        rw (e, e', e'') refl,
        a,
      )

  close-Answers : (d : TransactionData) (w : World) → Answers (on_close s b) d w
  unfolding Answers on_close
  close-Answers d w =
      let (m, e) =
        retrieve_parts_total s.request get b.all_filters_requested_part d.transaction_muncher in
      let (u, e') = close_all-IsTotal b.http_close_filters m.cur_trans_parts total.1 w in
      (
        record {
          transaction = call (reenable http_continue) d.transaction;
          transaction_muncher = m;
          alive = false;
        },
        rw (e, e') refl,
        ([], http_continue, refl, tt),
      )

  -- Each event for which Traffic Server holds the transaction is answered: the handler returns,
  -- and one re-enabling call ends the calls that it makes. The headers can be read, the filters
  -- and generators return, and a response that a filter left has its data.
  pub handle_transaction_change-IsAnswered :
      (event : HookEvent)
      → IsHooked event
      → (d : TransactionData) (w : World) → HasData d.transaction.response_info
      → (d' : TransactionData) × ((handle_transaction_change s b event d w).0 ≡ some d')
        × IsAnswered d.transaction d'.transaction
  unfolding handle_transaction_change Answers
  handle_transaction_change-IsAnswered read_request_hdr _ d w h = read_request-Answers d w
  handle_transaction_change-IsAnswered read_cache_hdr _ d w h =
      (_, refl, ([], http_continue, refl, tt))
  handle_transaction_change-IsAnswered send_request_hdr _ d w h =
      (_, refl, ([], http_continue, refl, tt))
  handle_transaction_change-IsAnswered send_response_hdr _ d w h = send_response-Answers d w h
  handle_transaction_change-IsAnswered txn_close _ d w h = close-Answers d w
  handle_transaction_change-IsAnswered timeout never d w h = absurd never
  handle_transaction_change-IsAnswered unsolicited never d w h = absurd never
