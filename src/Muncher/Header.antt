-- ===== src/Muncher/Header.antt =====
-- `set_status` and `append_header` of src/transaction_muncher.cpp, on the header of the response.
use banjax.Base.{ℕ, Bool, List, [], ◌∷◌, ◌++◌, Option, Bytes, if◌then◌else◌, some, ◌>>=◌}
use banjax.Muncher.Parts.{Muncher}
use banjax.Muncher.Reply.{Reply, retrieve_response_header}

-- The header that Traffic Server sends.
pub record ResponseHeader : Type 0 where
  pub http_status : ℕ
  pub reason : Bytes
  pub fields : List (Bytes × Bytes)

-- `TSHttpHdrReasonLookup`, and what is answered for the response.
module _ (to_string : ℕ → Bytes) (r : Reply) where
  unfoldable pub set_status :
      (ℕ → Bytes) → ℕ → Muncher → ResponseHeader → Option (Muncher × ResponseHeader)
  set_status reason_lookup s m h = do
    m' ← retrieve_response_header to_string r m
    some (m', record h { http_status = s; reason = reason_lookup s })

  -- `created` is whether `TSMimeHdrFieldCreate` succeeds; a field that fails is reported.
  unfoldable pub append_header :
      Bool → Bytes → Bytes → Muncher → ResponseHeader → Option (Muncher × ResponseHeader)
  append_header created name value m h = do
    m' ← retrieve_response_header to_string r m
    some (m', if created then record h { fields = h.fields ++ (name, value) ∷ [] } else h)
