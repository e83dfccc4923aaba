-- ===== src/Muncher/Reply.antt =====
-- `retrieve_response_parts`, `get_response_status`, `set_status` and `append_header`.
use banjax.Base.{
  ℕ, Bool, true, not, ◌||◌, [], ◌∷◌, Option, none, some, Bytes, codes, if◌then◌else◌, ◌>>=◌,
}
use banjax.Muncher.Parts.{
  Part, status, content_length, Flags, flags, or_flags, missing, any_flag, assign, Muncher,
  update_validity_status,
}

-- What Traffic Server answers about the response of a transaction.
pub record Reply : Type 0 where
  pub client_resp_get : Bool
  pub http_status : ℕ
  pub content_length_field : Option Bytes

module _ (to_string : ℕ → Bytes) (r : Reply) where
  -- `none` is the exception.
  abbrev pub retrieve_response_header : Muncher → Option Muncher
  retrieve_response_header m =
      if m.response_header || r.client_resp_get
      then some (record m { response_header = true })
      else none

  abbrev set_valid : Part → Bytes → Muncher → Muncher
  set_valid p v m = record m {
    cur_trans_parts = assign p v m.cur_trans_parts;
    valid_parts = or_flags m.valid_parts (flags (p ∷ []));
  }

  abbrev length_or_zero : Option Bytes → Bytes
  length_or_zero none = codes "0"
  length_or_zero (some s) = s

  unfoldable pub fill : Flags → Muncher → Muncher
  fill todo m =
      let m' = (if todo status then set_valid status (to_string r.http_status) m else m) in
      update_validity_status (
        if todo content_length
        then set_valid content_length (length_or_zero r.content_length_field) m'
        else m')

  unfoldable pub retrieve_response_parts : Flags → Muncher → Option Muncher
  unfolding fill
  retrieve_response_parts requested m =
      if not (any_flag (missing m.valid_parts requested))
      then some m
      else do m' ← retrieve_response_header m; some (fill (missing m.valid_parts requested) m')

  unfoldable pub get_response_status : Muncher → Option (ℕ × Muncher)
  get_response_status m = do m' ← retrieve_response_header m; some (r.http_status, m')
