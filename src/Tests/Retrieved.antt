-- ===== src/Tests/Retrieved.antt =====
-- The parts of a request.
use banjax.Base.{◌≡◌, refl, ◌==◌, true, false, [], ◌∷◌, none, some, codes}
use banjax.Muncher.Parts.{
  ip, host, url_with_host, Flags, flags, missing, any_flag, fresh_muncher, Muncher, to_lower,
}
use banjax.Muncher.Request.{
  Request, retrieve_parts, retrieve_parts_within, retrieve_missing, retrieve_ip, retrieve_url,
  retrieve_url_with_host, retrieve_method, retrieve_host, retrieve_ua, retrieve_cookie,
}
use banjax.Muncher.Request.Served.{IsCovered, has}
use banjax.Muncher.Request.Levels.{retrieve_parts-has, retrieve_parts-retrieve_parts}

-- A request for a page of `Example.org`, without a cookie.
abbrev pub page_request : Request
page_request = record {
  client_req_get = true;
  url_get = true;
  client_addr = some (codes "10.0.0.1");
  url_string =
      λ h. some (elim h [ none ↦ codes "/page" | some n ↦ codes "http://example.org/page" ]);
  url_scheme = codes "http";
  url_host_set = λ h. true;
  method_get = some (codes "GET");
  field = λ name. elim name [
    | [] ↦ none
    | c ∷ cs ↦ elim (c == 72) [ true ↦ some (some (codes "Example.org")) | false ↦ none ]
  ];
}

abbrev wanted : Flags
wanted = flags (ip ∷ url_with_host ∷ [])

pub fresh_muncher-IsCovered : IsCovered fresh_muncher
unfolding fresh_muncher
fresh_muncher-IsCovered q p v = cc

retrieve_parts-has_example :
    (m' : Muncher) × (retrieve_parts page_request wanted fresh_muncher ≡ some m')
    × IsCovered m'
    × (has url_with_host m' ≡ true)
retrieve_parts-has_example =
    retrieve_parts-has page_request refl (λ h. refl) wanted fresh_muncher fresh_muncher-IsCovered
      url_with_host refl refl

abbrev retrieved : Muncher
retrieved = elim (retrieve_parts page_request wanted fresh_muncher) [
  | none ↦ fresh_muncher
  | some m ↦ m
]

retrieved_host : (retrieved.cur_trans_parts host) ≡ some (codes "example.org")
unfolding retrieve_parts retrieve_parts_within retrieve_missing retrieve_ip retrieve_url
    retrieve_url_with_host retrieve_method retrieve_host retrieve_ua retrieve_cookie fresh_muncher
    to_lower
retrieved_host = refl

retrieve_retrieved : retrieve_parts page_request wanted fresh_muncher ≡ some retrieved
unfolding retrieve_parts retrieve_parts_within retrieve_missing retrieve_ip retrieve_url
    retrieve_url_with_host retrieve_method retrieve_host retrieve_ua retrieve_cookie fresh_muncher
    to_lower
retrieve_retrieved = refl

-- Once the header of the request can no longer be read.
abbrev closed_request : Request
closed_request = record page_request { client_req_get = false; client_addr = none }

retrieve_parts-retrieve_parts_example :
    (any_flag (missing retrieved.valid_parts wanted) ≡ false)
    × (retrieve_parts closed_request wanted retrieved ≡ some retrieved)
retrieve_parts-retrieve_parts_example =
    retrieve_parts-retrieve_parts page_request wanted fresh_muncher retrieved closed_request
      retrieve_retrieved
