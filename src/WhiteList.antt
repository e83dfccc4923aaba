-- ===== src/WhiteList.antt =====
-- src/global_white_list.h and src/white_lister.cpp: the ranges that every filter lets pass.
pub mod Laws
use banjax.Base.{
  ℕ, Bool, true, false, ◌&&◌, ◌||◌, List, [], ◌∷◌, ◌++◌, Option, none, some, Bytes, Dict, lookup,
  insert, ltb, ◌==◌, if◌then◌else◌, ◌>>=◌,
}
use banjax.Filter.{Parts, FilterResponse, plain, go_ahead_no_comment, serve_immediately_dont_cache}
use banjax.Util.{
  SubnetRange, RangeResult, range, invalid_conf, not_a_number, undefined_shift, make_mask_for_range,
  is_match,
}

pub record WhiteList : Type 0 where
  pub white_list : List SubnetRange
  pub per_host : Dict (List SubnetRange)

-- `operator<` of pairs, and `std::set::insert`, which keeps the ranges in that order, each once.
abbrev pub range_ltb : SubnetRange → SubnetRange → Bool
range_ltb r s = ltb r.ip s.ip || (r.ip == s.ip && ltb r.mask s.mask)

unfoldable pub set_insert : SubnetRange → List SubnetRange → List SubnetRange
set_insert r [] = r ∷ []
set_insert r (s ∷ l) =
    if range_ltb r s then r ∷ s ∷ l else if range_ltb s r then s ∷ set_insert r l else s ∷ l

unfoldable pub insert_range : SubnetRange → WhiteList → WhiteList
insert_range r w = record w { white_list = w.white_list ++ r ∷ [] }

unfoldable pub insert_for_host : Bytes → SubnetRange → WhiteList → WhiteList
unfolding set_insert
insert_for_host host r w =
    let old : List SubnetRange = elim (lookup host w.per_host) [ none ↦ [] | some l ↦ l ] in
    record w { per_host = insert host (set_insert r old) w.per_host }

module _ (inet : Bytes → ℕ) where
  -- The loops over the ranges: the first that matches.
  unfoldable pub first_match : Bytes → List SubnetRange → Option SubnetRange
  first_match ip [] = none
  first_match ip (r ∷ l) = if is_match inet ip r then some r else first_match ip l

  unfoldable pub is_white_listed : WhiteList → Bytes → Option SubnetRange
  is_white_listed w ip = first_match ip w.white_list

  unfoldable pub is_white_listed_for : WhiteList → Bytes → Bytes → Option SubnetRange
  is_white_listed_for w host ip = elim (is_white_listed w ip) [
    | some r ↦ some r
    | none ↦ elim (lookup host w.per_host) [ none ↦ none | some l ↦ first_match ip l ]
  ]

  -- The filter `WhiteLister`.
  unfoldable pub on_http_request : WhiteList → Parts → FilterResponse
  on_http_request w parts = elim (is_white_listed_for w parts.host parts.ip) [
    | some hit_range ↦ plain serve_immediately_dont_cache
    | none ↦ plain go_ahead_no_comment
  ]

-- An entry of `white_listed_ips`: a map with `host` and `ip_range`, or the text of a range.
pub data Entry : Type 0 where
  for_host : Bytes → Bytes → Entry
  for_all : Bytes → Entry

module _ (inet : Bytes → ℕ) (stoi : Bytes → Option ℕ) where
  -- `none` is an exception, or a mask that C++ does not define.
  abbrev pub range_of : Bytes → Option SubnetRange
  range_of text = elim (make_mask_for_range inet stoi text) [
    | range r ↦ some r
    | invalid_conf ↦ none
    | not_a_number ↦ none
    | undefined_shift ↦ none
  ]

  unfoldable pub load_entry : Entry → WhiteList → Option WhiteList
  unfolding insert_for_host insert_range
  load_entry (for_host host text) w = do r ← range_of text; some (insert_for_host host r w)
  load_entry (for_all text) w = do r ← range_of text; some (insert_range r w)

  unfoldable pub load_config : List Entry → WhiteList → Option WhiteList
  load_config [] w = some w
  load_config (e ∷ es) w = do w' ← load_entry e w; load_config es w'
