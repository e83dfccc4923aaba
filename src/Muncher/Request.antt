-- ===== src/Muncher/Request.antt =====
-- `retrieve_parts` and `set_url_host`.
pub mod Levels
pub mod Served
pub mod Valid
pub mod Total
use banjax.Base.{
  ℕ, zero, suc, Bool, true, false, not, ◌&&◌, ◌||◌, List, [], ◌∷◌, Option, none, some, Bytes, codes,
  if◌then◌else◌, ◌>>=◌,
}
use banjax.Muncher.Parts.{
  Part, ip, url, host, ua, cookie, url_with_host, method, protocol, Flags, flags, or_flags, missing,
  any_flag, assign, insert_new, Muncher, update_validity_status, to_lower,
}

-- What Traffic Server answers about the request of a transaction. The answers of one transaction
-- change by `TSUrlHostSet` alone.
pub record Request : Type 0 where
  -- `TSHttpTxnClientReqGet` and `TSHttpHdrUrlGet`.
  pub client_req_get : Bool
  pub url_get : Bool
  -- `TSHttpTxnClientAddrGet`, as `inet_ntoa` writes it.
  pub client_addr : Option Bytes
  -- `TSUrlStringGet`, with the host that has been set, and `TSUrlSchemeGet`.
  pub url_string : Option Bytes → Option Bytes
  pub url_scheme : Bytes
  -- `TSUrlHostSet`, for a host.
  pub url_host_set : Bytes → Bool
  pub method_get : Option Bytes
  -- `TSMimeHdrFieldFind` and `TSMimeHdrFieldValueStringGet`, by the name of the field.
  pub field : Bytes → Option (Option Bytes)

abbrev pub or_empty : Option Bytes → Bytes
or_empty none = []
or_empty (some s) = s

abbrev field_or_empty : Option (Option Bytes) → Bytes
field_or_empty none = []
field_or_empty (some v) = or_empty v

abbrev with_new : Part → Bytes → Muncher → Muncher
with_new p v m = record m { cur_trans_parts = insert_new p v m.cur_trans_parts }

module _ (r : Request) where
  unfoldable pub retrieve_ip : Muncher → Muncher
  retrieve_ip m = record m {
    cur_trans_parts = assign ip (or_empty r.client_addr) m.cur_trans_parts;
  }

  -- The scheme is retrieved at the same time.
  unfoldable pub retrieve_url : Muncher → Muncher
  retrieve_url m =
      if r.url_get
      then elim (r.url_string m.url_host) [
        | none ↦ with_new protocol [] (with_new url [] m)
        | some s ↦ with_new protocol r.url_scheme (with_new url s m)
      ]
      else with_new protocol [] (with_new url [] m)

  abbrev host_of : Muncher → Bytes
  host_of m = or_empty (m.cur_trans_parts host)

  -- With a failure of `TSUrlHostSet` the part gets no entry.
  unfoldable pub retrieve_url_with_host : Muncher → Muncher
  retrieve_url_with_host m =
      if not r.url_get
      then with_new url_with_host [] m
      else if not (r.url_host_set (host_of m))
      then m
      else with_new url_with_host (or_empty (r.url_string (some (host_of m))))
          (record m { url_host = some (host_of m) })

  unfoldable pub retrieve_method : Muncher → Muncher
  retrieve_method m = with_new method (or_empty r.method_get) m

  unfoldable pub retrieve_host : Muncher → Muncher
  retrieve_host m = with_new host (to_lower (field_or_empty (r.field (codes "Host")))) m

  unfoldable pub retrieve_ua : Muncher → Muncher
  retrieve_ua m = with_new ua (field_or_empty (r.field (codes "User-Agent"))) m

  unfoldable pub retrieve_cookie : Muncher → Muncher
  retrieve_cookie m = with_new cookie (field_or_empty (r.field (codes "Cookie"))) m

  abbrev when : Bool → (Muncher → Muncher) → Muncher → Muncher
  when b f m = if b then f m else m

  abbrev first_parts : Flags → Muncher → Muncher
  first_parts todo m =
      when (todo url || todo protocol) retrieve_url
        (when (todo ip) retrieve_ip (record m { request_header = true }))

  abbrev last_parts : Flags → Muncher → Muncher
  last_parts todo m = when (todo cookie) retrieve_cookie (
      when (todo ua) retrieve_ua
        (when (todo host) retrieve_host (when (todo method) retrieve_method m)))

  abbrev mark_valid : Flags → Muncher → Muncher
  mark_valid requested m =
      update_validity_status (record m { valid_parts = or_flags m.valid_parts requested })

  -- `nested` is the call for the host and the URL.
  unfoldable pub retrieve_missing :
      (Muncher → Option Muncher) → Flags → Flags → Muncher → Option Muncher
  retrieve_missing nested todo requested m = do
    m' ←
        (if todo url_with_host
          then (do n ← nested (first_parts todo m); some (retrieve_url_with_host n))
          else some (first_parts todo m))
    some (mark_valid requested (last_parts todo m'))

  -- `none` is the exception HEADER_RETRIEVAL_ERROR, or the end of the fuel. The nested call does not
  -- ask for `url_with_host`, so a fuel of two is enough.
  unfoldable pub retrieve_parts_within : ℕ → Flags → Muncher → Option Muncher
  unfolding retrieve_missing
  retrieve_parts_within zero requested m = none
  retrieve_parts_within (suc fuel) requested m =
      let nested = retrieve_parts_within fuel (flags (host ∷ url ∷ [])) in
      if not (any_flag (missing m.valid_parts requested))
      then some m
      else if m.request_header || r.client_req_get
      then retrieve_missing nested (missing m.valid_parts requested) requested m
      else none

  unfoldable pub retrieve_parts : Flags → Muncher → Option Muncher
  unfolding retrieve_parts_within retrieve_missing
  retrieve_parts = retrieve_parts_within 2

  -- With the host of the header if none is given. `insert` does not change a URL that is there.
  unfoldable pub set_url_host : Option Bytes → Muncher → Option Muncher
  set_url_host hostname m =
      if m.request_header || r.client_req_get
      then (do
        m' ← elim hostname [
          | some h ↦ some (record m { request_header = true })
          | none ↦ retrieve_parts (flags (host ∷ [])) (record m { request_header = true })
        ]
        let name : Bytes = elim hostname [ some h ↦ h | none ↦ host_of m' ]
        if not r.url_get
            then none
            else if not (r.url_host_set name)
            then none
            else elim (r.url_string (some name)) [
              | none ↦ none
              | some s ↦ some (with_new url s (record m' { url_host = some name }))
            ])
      else none
