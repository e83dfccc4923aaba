-- ===== src/Filter.antt =====
-- src/banjax_filter.h, filter_list.h and challenger.h: what a filter is given and what it answers.
use banjax.Base.{ℕ, Bool, List, Option, none, some, Bytes, codes}
use banjax.Util.{SubnetRange}

-- The entries of `TransactionParts` that the filters ask for by `requested_info()`. The muncher
-- has put them in before it calls a filter, so `at` finds them.
pub record Parts : Type 0 where
  pub ip : Bytes
  pub url : Bytes
  pub host : Bytes
  pub ua : Bytes
  pub cookie : Bytes
  pub url_with_host : Bytes
  pub method : Bytes

pub data ChallengeType : Type 0 where
  sha_inverse captcha auth : ChallengeType

pub data MagicWord : Type 0 where
  substr regexp : Bytes → MagicWord

pub record HostChallengeSpec : Type 0 where
  pub name : Bytes
  pub challenge_type : ChallengeType
  pub challenge_stream : Bytes
  pub fail_tolerance_threshold : ℕ
  pub challenge_validity_period : ℕ
  pub password_hash : Bytes
  pub magic_words : List MagicWord
  pub magic_word_exceptions : List Bytes
  pub white_listed_ips : List SubnetRange
  pub time_added : ℕ

pub data ResponseType : Type 0 where
  go_ahead_no_comment i_respond serve_immediately_dont_cache serve_fresh : ResponseType

-- The `response_generator` that a filter hands over, with what it closes over.
pub data Generator : Type 0 where
  forbidden denied : Generator
  challenge : HostChallengeSpec → Generator

pub record ExtendedResponse : Type 0 where
  pub generator : Generator
  pub content_type : Option Bytes
  pub banned_ip : Bool
  pub set_cookie_header : Bytes
  pub response_code : ℕ

pub record FilterResponse : Type 0 where
  pub response_type : ResponseType
  pub response_data : Option ExtendedResponse

-- The two constructors.
abbrev pub plain : ResponseType → FilterResponse
plain t = record { response_type = t; response_data = none }

abbrev pub extended : Generator → ExtendedResponse
extended g = record {
  generator = g;
  content_type = none;
  banned_ip = Bool.false;
  set_cookie_header = codes "";
  response_code = 403;
}

abbrev pub respond : ExtendedResponse → FilterResponse
respond d = record { response_type = i_respond; response_data = some d }
