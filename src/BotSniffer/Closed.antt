-- ===== src/BotSniffer/Closed.antt =====
-- A log line is made of entries that are there, and stays in its buffer.
use banjax.Base.{
  ℕ, ◌≡◌, ◌≢◌, ◌⊎◌, inl, inr, refl, sym, ◌∙◌, Bool, true, false, List, [], ◌∷◌, ◌++◌, Option, none,
  some, Bytes, length, All, Bool-cases, Option-cases,
}
use banjax.Muncher.Parts.{
  Part, validity_stat, ip, ua, url_with_host, status, protocol, content_length, word_bytes,
  TransactionParts, Muncher,
}
use banjax.Muncher.Request.Served.{has, is_some}
use banjax.Util.Encrypt.{Cipher, sent}
use banjax.Util.Encrypt.Frames.{IsCipher, IsFrame, send_zmq_encrypted_message-IsFrame}
use banjax.World.{World, Surroundings}
use banjax.BotSniffer.{
  BotSniffer, Closing, Ending, returned, out_of_range, too_long, encryption_failed, overran,
  valid_or_empty, part_valid, joined, log_fields, log_topic, send_line, publish, close_with,
  close_locked, on_http_close,
}
use banjax.BotSniffer.Validity.{logged, part_valid-word_bytes}

-- The parts as `retrieve_parts` leaves them: the word of the valid parts, with an entry for each
-- part of a log line that is valid.
abbrev pub IsStored : Muncher → Type 0
IsStored m =
    (m.cur_trans_parts validity_stat ≡ some (word_bytes m.valid_parts))
    × ((p : Part) → logged p ≡ true → m.valid_parts p ≡ true → has p m ≡ true)

valid_or_empty-found :
    (word : Bytes) (p : Part) (parts : TransactionParts)
    → (part_valid word p ≡ true → is_some (parts p) ≡ true)
    → valid_or_empty word p parts ≢ none
unfolding valid_or_empty
valid_or_empty-found word p parts h e = elim (Bool-cases (part_valid word p)) [
  | inr b ↦ cc (rw b at e)
  | inl b ↦ elim (Option-cases (parts p)) [
    | inl n ↦ cc (rw n at (h b))
    | inr (v, n) ↦ cc (rw (b, n) at e)
  ]
]

-- Without a missing entry the fields are joined, or one is too long.
joined-ending :
    (fs : List (Option (Option Bytes)))
    → All (λ o. o ≢ none) fs
    → ((joined fs).0 ≡ returned) ⊎ ((joined fs).0 ≡ too_long)
unfolding joined
joined-ending [] h = inl refl
joined-ending (none ∷ fs) (h, hs) = absurd (h refl)
joined-ending (some none ∷ fs) h = inr refl
joined-ending (some (some f) ∷ []) h = inl refl
joined-ending (some (some f) ∷ g ∷ fs) (h, hs) = joined-ending (g ∷ fs) hs

module _ (c : Cipher) (uninitialized : ℕ → Bytes) (time_buffer : Bytes) (word : Bytes)
    (parts : TransactionParts) where
  -- Nothing is published, or the topic alone, or the topic and the encrypted line.
  pub IsPublished : Closing → Type 0
  IsPublished r =
      ((r.frames ≡ []) × (r.ending ≡ returned))
      ⊎ (((r.frames ≡ log_topic ∷ []) × ((r.ending ≡ too_long) ⊎ (r.ending ≡ encryption_failed)))
          ⊎ ((text : Bytes) × (frame : Bytes) × ((joined (log_fields time_buffer word parts))
                ≡ (returned, text))
              × IsFrame c text r.sniffer.encryption_key false (sent frame false)
              × (r.frames ≡ log_topic ∷ (frame, false) ∷ [])
              × (r.ending ≡ returned)))

  send_line-IsPublished :
      IsCipher c
      → ((n : ℕ) → length (uninitialized n) ≡ n)
      → (b : BotSniffer) (j : Ending × Bytes) → joined (log_fields time_buffer word parts) ≡ j
      → (j.0 ≡ returned) ⊎ (j.0 ≡ too_long)
      → IsPublished (send_line c uninitialized j b)
  unfolding send_line IsPublished
  send_line-IsPublished p u b (returned, text) e k =
      elim (send_zmq_encrypted_message-IsFrame c uninitialized text b.encryption_key false p u) [
        | inl q ↦ inr (inl (rw q (refl, inr refl)))
        | inr (iv, d, h, g, n, q) ↦ inr (
            inr (
              text,
              iv ++ (d.ciphertext ++ d.gcm_tag),
              e,
              (iv, d, h, g, n, refl),
              rw q refl,
              rw q refl,
            ))
      ]
  send_line-IsPublished p u b (too_long, text) e k = inr (inl (refl, inl refl))
  send_line-IsPublished p u b (out_of_range, text) e (inl q) = absurd (cc q)
  send_line-IsPublished p u b (out_of_range, text) e (inr q) = absurd (cc q)
  send_line-IsPublished p u b (encryption_failed, text) e (inl q) = absurd (cc q)
  send_line-IsPublished p u b (encryption_failed, text) e (inr q) = absurd (cc q)
  send_line-IsPublished p u b (overran, text) e (inl q) = absurd (cc q)
  send_line-IsPublished p u b (overran, text) e (inr q) = absurd (cc q)

  publish-IsPublished :
      IsCipher c
      → ((n : ℕ) → length (uninitialized n) ≡ n)
      → All (λ o. o ≢ none) (log_fields time_buffer word parts)
      → (b : BotSniffer) → IsPublished (publish c uninitialized time_buffer word parts b)
  unfolding publish
  publish-IsPublished p u found b =
      send_line-IsPublished p u b (joined (log_fields time_buffer word parts)) refl
        (joined-ending (log_fields time_buffer word parts) found)

  module _ (p : IsCipher c) (u : (n : ℕ) → length (uninitialized n) ≡ n)
      (found : All (λ o. o ≢ none) (log_fields time_buffer word parts)) (e : Surroundings) where
    close_with-IsPublished :
        (b : BotSniffer) (r : Bytes × Bool)
        → IsPublished (close_with c uninitialized time_buffer e word parts b r)
    unfolding close_with IsPublished
    close_with-IsPublished b (bound, true) =
        publish-IsPublished p u found (record b { socket = some bound })
    close_with-IsPublished b (bound, false) = inl (refl, refl)

    close_locked-IsPublished :
        (b : BotSniffer) (o : Option Bytes) (w : World)
        → IsPublished (close_locked c uninitialized time_buffer e word parts b o w).0
    unfolding close_locked IsPublished
    close_locked-IsPublished b none w = inl (refl, refl)
    close_locked-IsPublished b (some bound) w = close_with-IsPublished b _

    on_http_close-publishes :
        (b : BotSniffer) (w : World)
        → parts validity_stat ≡ some word
        → IsPublished (on_http_close c uninitialized time_buffer e parts b w).0
    unfolding on_http_close IsPublished
    on_http_close-publishes b w q = elim (Bool-cases (e.lock w.calls)) [
      | inl l ↦ rw (q, l, on_http_close) (close_locked-IsPublished b b.socket _)
      | inr l ↦ rw (q, l, on_http_close) (inl (refl, refl))
    ]

part-found :
    (m : Muncher) (p : Part)
    → IsStored m
    → logged p ≡ true
    → valid_or_empty (word_bytes m.valid_parts) p m.cur_trans_parts ≢ none
part-found m p s l =
    valid_or_empty-found (word_bytes m.valid_parts) p m.cur_trans_parts
      (λ e. s.1 p l (sym (part_valid-word_bytes m.valid_parts p l) ∙ e))

some-none : {o : Option Bytes} → some o ≢ none
some-none e = cc e

-- What is stored makes fields.
log_fields-found :
    (m : Muncher) (time_buffer : Bytes)
    → IsStored m
    → All (λ o. o ≢ none) (log_fields time_buffer (word_bytes m.valid_parts) m.cur_trans_parts)
unfolding log_fields
log_fields-found m time_buffer s = (
  part-found m ip s refl,
  (
    some-none,
    (
      part-found m url_with_host s refl,
      (
        part-found m protocol s refl,
        (
          part-found m status s refl,
          (part-found m content_length s refl, (part-found m ua s refl, (some-none, tt))),
        ),
      ),
    ),
  ),
)

-- When the validity word is stored and each valid part of a log line has an entry, `on_http_close`
-- of the bot sniffer finds every entry: it publishes nothing, or the topic and the line of the
-- base64 fields as an encrypted frame; only a text too long for `Encode` or a failed encryption
-- leaves the topic alone.
pub on_http_close-IsPublished :
    (c : Cipher) (uninitialized : ℕ → Bytes) (time_buffer : Bytes) (e : Surroundings) (m : Muncher)
    (b : BotSniffer) (w : World)
    → IsCipher c
    → ((n : ℕ) → length (uninitialized n) ≡ n)
    → IsStored m
    → IsPublished c uninitialized time_buffer
        (word_bytes m.valid_parts)
        m.cur_trans_parts
        (on_http_close c uninitialized time_buffer e m.cur_trans_parts b w).0
on_http_close-IsPublished c uninitialized time_buffer e m b w p u s =
    on_http_close-publishes c uninitialized time_buffer (word_bytes m.valid_parts) m.cur_trans_parts
      p u (log_fields-found m time_buffer s) e b w s.0
