-- ===== src/BotSniffer.antt =====
-- src/bot_sniffer.cpp: the log line of a transaction, published through a socket of its own.
pub mod Closed
pub mod Validity
pub mod Taken
use banjax.Base.{
  ℕ, ◌+◌, ◌/◌, ◌%◌, Bool, true, false, not, List, [], ◌∷◌, ◌++◌, Option, none, some, Bytes, codes,
  beq, ◌==◌, if◌then◌else◌,
}
use banjax.Base64.{encode}
use banjax.CookieHash.Words.{from_le}
use banjax.Library.{Library}
use banjax.Muncher.Parts.{
  Part, flag_of, validity_stat, ip, ua, url_with_host, protocol, status, content_length, miss,
  TransactionParts,
}
use banjax.Swabber.{bind, is_empty}
use banjax.Util.Encrypt.{
  Cipher, Sending, sent, encryption_exception, overrun, send_zmq_encrypted_message,
}
use banjax.World.{Surroundings, World, M, ◌>>=◌, return, try_lock}

-- `none` for a released socket; the endpoint is empty while it is not bound.
pub record BotSniffer : Type 0 where
  pub socket : Option Bytes
  pub encryption_key : Bytes
  pub local_endpoint : Bytes

-- The frames that were published, each with its flag for more, and how the call ended: it returned,
-- `at` found no entry, the text was too long for `Encode`, or the encryption failed.
pub data Ending : Type 0 where
  returned out_of_range too_long encryption_failed overran : Ending

pub record Closing : Type 0 where
  pub sniffer : BotSniffer
  pub frames : List (Bytes × Bool)
  pub ending : Ending

module _ (x : Library) (e : Surroundings) where
  abbrev is_at : Option Bytes → Bytes → Bool
  is_at none endpoint = false
  is_at (some bound) endpoint = beq bound endpoint

  -- Another socket than one that is bound there is replaced by a new one.
  unfoldable pub take_socket : Option Bytes → Bytes → M (Option Bytes)
  take_socket socket endpoint =
      if is_at socket endpoint
      then return socket
      else (do result ← bind e [] endpoint; return (some result.0))

  -- The nodes of the port and the key, `none` where `as` throws.
  unfoldable pub load_config : Option ℕ → Option Bytes → Option Bytes → M (Option BotSniffer)
  load_config none key socket = return none
  load_config (some port) none socket = return none
  load_config (some port) (some passphrase) socket = do
    let endpoint = codes "tcp://" ++ (codes "*" ++ (codes ":" ++ x.to_string port))
    taken ← take_socket socket endpoint
    return (
        some (record {
          socket = taken;
          encryption_key = x.sha256 passphrase;
          local_endpoint = endpoint;
        }))

unfoldable pub release_socket : BotSniffer → Option Bytes × BotSniffer
release_socket b = (b.socket, record b { socket = none })

-- `validity & part`, for the word that the bytes hold.
unfoldable pub part_valid : Bytes → Part → Bool
part_valid word p = from_le word / flag_of p % 2 == 1

-- `none` is a missing entry, `some none` an entry that is too long for `Encode`.
unfoldable pub valid_or_empty : Bytes → Part → TransactionParts → Option (Option Bytes)
unfolding part_valid
valid_or_empty word p parts =
    if part_valid word p
    then elim (parts p) [ none ↦ none | some v ↦ some (encode v) ]
    else some (some [])

-- The fields of the log, in their order.
abbrev comma : Bytes
comma = 44 ∷ []

-- The fields with commas between them, or the first exception.
unfoldable pub joined : List (Option (Option Bytes)) → Ending × Bytes
joined [] = (returned, [])
joined (none ∷ fs) = (out_of_range, [])
joined (some none ∷ fs) = (too_long, [])
joined (some (some f) ∷ []) = (returned, f)
joined (some (some f) ∷ g ∷ fs) = let (end, text) = joined (g ∷ fs) in (end, f ++ (comma ++ text))

abbrev hit_or_miss : Option Bytes → Bytes
hit_or_miss (some m) = codes "HIT"
hit_or_miss none = codes "MISS"

unfoldable pub log_fields : Bytes → Bytes → TransactionParts → List (Option (Option Bytes))
unfolding valid_or_empty part_valid
log_fields time_buffer word parts =
    valid_or_empty word ip parts
    ∷ some (encode time_buffer)
    ∷ valid_or_empty word url_with_host parts
    ∷ valid_or_empty word protocol parts
    ∷ valid_or_empty word status parts
    ∷ valid_or_empty word content_length parts
    ∷ valid_or_empty word ua parts
    ∷ some (encode (hit_or_miss (parts miss)))
    ∷ []

abbrev encrypted_ending : Sending → Ending
encrypted_ending (sent m more) = returned
encrypted_ending encryption_exception = encryption_failed
encrypted_ending overrun = overran

abbrev encrypted_frames : Sending → List (Bytes × Bool)
encrypted_frames (sent m more) = (m, more) ∷ []
encrypted_frames encryption_exception = []
encrypted_frames overrun = []

abbrev pub log_topic : Bytes × Bool
log_topic = (codes "botbanger_log", true)

abbrev topic_alone : Ending → BotSniffer → Closing
topic_alone end b = record { sniffer = b; frames = log_topic ∷ []; ending = end }

abbrev quiet : BotSniffer → Closing
quiet b = record { sniffer = b; frames = []; ending = returned }

module _ (c : Cipher) (uninitialized : ℕ → Bytes) where
  unfoldable pub send_line : Ending × Bytes → BotSniffer → Closing
  unfolding send_zmq_encrypted_message
  send_line (returned, text) b =
      let s = send_zmq_encrypted_message c uninitialized text b.encryption_key false in
      record { sniffer = b; frames = log_topic ∷ encrypted_frames s; ending = encrypted_ending s }
  send_line (out_of_range, text) b = topic_alone out_of_range b
  send_line (too_long, text) b = topic_alone too_long b
  send_line (encryption_failed, text) b = topic_alone encryption_failed b
  send_line (overran, text) b = topic_alone overran b

module _ (c : Cipher) (uninitialized : ℕ → Bytes) (time_buffer : Bytes) where
  -- The topic is published first, and then the text is made.
  unfoldable pub publish : Bytes → TransactionParts → BotSniffer → Closing
  unfolding joined log_fields send_line
  publish word parts b = send_line c uninitialized (joined (log_fields time_buffer word parts)) b

module _ (c : Cipher) (uninitialized : ℕ → Bytes) (time_buffer : Bytes) (e : Surroundings) where
  -- With the endpoint of the socket after the attempt to bind it, and whether it is bound.
  unfoldable pub close_with : Bytes → TransactionParts → BotSniffer → Bytes × Bool → Closing
  unfolding publish
  close_with word parts b (bound, true) =
      publish c uninitialized time_buffer word parts (record b { socket = some bound })
  close_with word parts b (bound, false) = quiet (record b { socket = some bound })

  -- Once the lock is taken.
  unfoldable pub close_locked : Bytes → TransactionParts → BotSniffer → Option Bytes → M Closing
  unfolding close_with
  close_locked word parts b none = return (quiet b)
  close_locked word parts b (some bound) = do
    result ← (if is_empty bound then bind e bound b.local_endpoint else return (bound, true))
    return (close_with word parts b result)

  unfoldable pub on_http_close : TransactionParts → BotSniffer → M Closing
  unfolding close_locked
  on_http_close parts b w = elim (parts validity_stat) [
    | none ↦ (record { sniffer = b; frames = []; ending = out_of_range }, w)
    | some word ↦
        (do
          locked ← try_lock e
          if locked then close_locked word parts b b.socket else return (quiet b))
          w
  ]
