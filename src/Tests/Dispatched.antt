-- ===== src/Tests/Dispatched.antt =====
-- A transaction from event to event, and the log line at its end.
use mathlib.Core.Option.{some-injective}
use banjax.Base.{
  ◌≡◌, ◌⊎◌, refl, ap, sym, ℕ, true, false, [], ◌∷◌, none, some, Bytes, codes, length, replicate,
  length-replicate, arith, Bool-cases, inl, inr,
}
use banjax.Filter.{plain, go_ahead_no_comment, respond, extended, denied}
use banjax.Muncher.Parts.{
  Muncher, Flags, Part, ip, url_with_host, flags, validity_stat, word_bytes, assign, is_part,
  fresh_muncher,
}
use banjax.Pipeline.{Handler}
use banjax.Pipeline.Dispatch.{
  Server, Plugin, TransactionData, send_response_hdr, handle_transaction_change,
}
use banjax.Pipeline.Dispatch.Handled.{IsAnswered}
use banjax.Pipeline.Dispatch.Settled.{IsTotalPlugin, handle_transaction_change-IsAnswered}
use banjax.Util.Encrypt.{Cipher, encryption_exception, send_zmq_encrypted_message}
use banjax.Util.Encrypt.Frames.{IsCipher, IsFrame, send_zmq_encrypted_message-IsFrame}
use banjax.BotSniffer.{BotSniffer, on_http_close}
use banjax.BotSniffer.Closed.{IsStored, IsPublished, on_http_close-IsPublished}
use banjax.BotSniffer.Validity.{logged}
use banjax.Muncher.Request.Served.{has}
use banjax.World.{return}
use banjax.Tests.Retrieved.{page_request}
use banjax.Tests.Samples.{surroundings, world}

abbrev server : Server
server = record {
  request = page_request;
  reply = record {
    client_resp_get = true;
    http_status = 200;
    content_length_field = some (codes "12");
  };
  to_string = λ n. n ∷ [];
  stored = true;
  connect_fail = codes "connection failed";
}

-- A filter that lets every request go on.
abbrev pass : Handler
pass parts = return (some (plain go_ahead_no_comment))

abbrev plugin : Plugin
plugin = record {
  http_request_filters = pass ∷ [];
  http_close_filters = (λ parts w. (some tt, w)) ∷ [];
  all_filters_requested_part = flags (ip ∷ url_with_host ∷ []);
  all_filters_response_part = flags [];
  generate = λ parts r w. (some (codes "denied", r), w);
}

plugin-IsTotal : IsTotalPlugin plugin
plugin-IsTotal = (
  ((λ p w. (plain go_ahead_no_comment, refl)), tt),
  ((λ p w. (tt, refl)), tt),
  (λ p r w. ((codes "denied", r), refl)),
)

-- The transaction that the denialator has answered.
abbrev answered_data : TransactionData
answered_data = record {
  transaction = record { calls = []; response_info = respond (extended denied) };
  transaction_muncher = fresh_muncher;
  alive = true;
}

handle_transaction_change-IsAnswered_example :
    (d' : TransactionData) × ((handle_transaction_change server plugin send_response_hdr
        answered_data world).0
      ≡ some d')
    × IsAnswered answered_data.transaction d'.transaction
handle_transaction_change-IsAnswered_example =
    handle_transaction_change-IsAnswered server plugin refl refl plugin-IsTotal send_response_hdr tt
      answered_data world (λ e. (extended denied, refl))

-- An encryption that leaves the text as it is.
abbrev cipher : Cipher
cipher = record {
  rand_bytes = some (replicate 12 7);
  ctx_new = true;
  encrypt_init = λ key iv. true;
  encrypt_update = λ key iv mess. some mess;
  encrypt_final = λ key iv mess. some [];
  get_tag = λ key iv mess. some (replicate 16 1);
}

cipher-IsCipher : IsCipher cipher
cipher-IsCipher = record {
  iv_length = λ iv e. ap length (sym (some-injective (replicate 12 7) iv e));
  encrypted_length = λ key iv mess c f e e'.
      omega (arith, ap length (some-injective mess c e), ap length (some-injective [] f e'));
  tag_length = λ key iv mess t e. ap length (sym (some-injective (replicate 16 1) t e));
}

abbrev zeros : ℕ → Bytes
zeros n = replicate n 0

zeros-length : (n : ℕ) → length (zeros n) ≡ n
zeros-length n = length-replicate n 0

send_zmq_encrypted_message-IsFrame_example :
    (send_zmq_encrypted_message cipher zeros (codes "line") (codes "key") false
      ≡ encryption_exception)
    ⊎ IsFrame cipher
        (codes "line")
        (codes "key")
        false
        (send_zmq_encrypted_message cipher zeros (codes "line") (codes "key") false)
send_zmq_encrypted_message-IsFrame_example =
    send_zmq_encrypted_message-IsFrame cipher zeros (codes "line") (codes "key") false
      cipher-IsCipher zeros-length

abbrev stored_flags : Flags
stored_flags = flags (ip ∷ url_with_host ∷ [])

abbrev stored_muncher : Muncher
stored_muncher = record {
  cur_trans_parts = assign validity_stat (word_bytes stored_flags) (λ p. some (codes "part"));
  valid_parts = stored_flags;
  request_header = true;
  response_header = false;
  url_host = none;
}

has_all : (p : Part) → logged p ≡ true → stored_flags p ≡ true → has p stored_muncher ≡ true
has_all p l v = elim (Bool-cases (is_part validity_stat p)) [
  | inl b ↦ rw b refl
  | inr b ↦ rw b refl
]

stored_muncher-IsStored : IsStored stored_muncher
stored_muncher-IsStored = (refl, has_all)

abbrev sniffer : BotSniffer
sniffer = record {
  socket = some (codes "tcp://*:22621");
  encryption_key = codes "key";
  local_endpoint = codes "tcp://*:22621";
}

on_http_close-IsPublished_example :
    IsPublished cipher zeros
      (codes "2015-10-21T16:29:00")
      (word_bytes stored_muncher.valid_parts)
      stored_muncher.cur_trans_parts
      (on_http_close cipher zeros
        (codes "2015-10-21T16:29:00")
        surroundings
        stored_muncher.cur_trans_parts
        sniffer
        world).0
on_http_close-IsPublished_example =
    on_http_close-IsPublished cipher zeros (codes "2015-10-21T16:29:00") surroundings stored_muncher
      sniffer world cipher-IsCipher zeros-length stored_muncher-IsStored
