-- ===== src/Tests/Filters.antt =====
-- The filters and the pipeline.
use banjax.Base.{
  ℕ, ◌<◌, ◌≡◌, ◌*◌, ◌⊎◌, refl, true, List, [], ◌∷◌, ◌++◌, c_str, some, none, codes, arith, beq,
  lookup, find, starts_with,
}
use banjax.Base.Int.{pos}
use banjax.Challenger.Answers.{check_sha}
use banjax.Challenger.Answers.Digits.{zero_digits, check_sha-zero_digits}
use banjax.Challenger.Failures.{report_failure, report_success}
use banjax.Challenger.Failures.Counting.{
  KeepsSwabber, Bans, Counts, CountsOrBans, failures, report_failure-failures, fail_times,
  report_failure-fail_times, report_failure-report_success,
}
use banjax.Denialator as Denialator
use banjax.Filter.{
  plain, respond, extended, denied, go_ahead_no_comment, serve_immediately_dont_cache,
}
use banjax.Pipeline.{
  Transaction, call, reenable, http_continue, http_error, no_store, handle_request,
}
use banjax.Pipeline.Order.{
  Settles, white_lister, denialator, handle_request-Settles, handle_request-white_lister,
  handle_request-denialator,
}
use banjax.Swabber.{ban}
use banjax.Swabber.Grace.{MayBan, ban-MayBan}
use banjax.Tests.Samples.{
  library, surroundings, world, spec, visitor, sha256-IsByte, address, number,
}
use banjax.Util.{make_mask_for_range, is_match}
use banjax.Util.Quotes.{encapsulate_in_quotes-escaped}
use banjax.Util.{encapsulate_in_quotes}
use banjax.WhiteList.{WhiteList, Entry, for_all, load_config}
use banjax.WhiteList as WhiteLister
use banjax.WhiteList.Laws.{covers, on_http_request-load_config}
use banjax.World.{World, try_lock, time}

ban-MayBan_example :
    ((ban surroundings (codes "1.2.3.4") [] world).1.sent ≡ world.sent)
    ⊎ (((ban surroundings (codes "1.2.3.4") [] world).1.sent ≡ world.sent ++ codes "1.2.3.4" ∷ [])
        × MayBan surroundings (codes "1.2.3.4") [] world)
ban-MayBan_example = ban-MayBan surroundings (codes "1.2.3.4") [] world

report_failure-failures_example :
    CountsOrBans surroundings
      (λ n. refl)
      library
      spec
      visitor
      1
      world
      (report_failure library surroundings spec visitor world)
unfolding lookup
report_failure-failures_example =
    report_failure-failures surroundings (λ n. refl) library spec visitor world (omega arith)

-- The world after so many failures.
abbrev failed : ℕ → World → World
failed k w = fail_times surroundings (λ n. refl) library spec visitor k w

report_failure-fail_times_example :
    (failures visitor.ip (failed 2 world) ≡ 2)
    × KeepsSwabber surroundings (λ n. refl) world (failed 2 world)
    × CountsOrBans surroundings
        (λ n. refl)
        library
        spec
        visitor
        3
        (failed 2 world)
        (report_failure library surroundings spec visitor (failed 2 world))
unfolding lookup
report_failure-fail_times_example =
    report_failure-fail_times surroundings (λ n. refl) library spec visitor 2 0 world (omega arith)
      refl (omega arith)

report_failure-report_success_example :
    let v = failed 1 (report_success surroundings visitor.ip world).1 in
    KeepsSwabber surroundings (λ n. refl) world v
    × (failures visitor.ip v ≡ 2)
    × (((3 < spec.fail_tolerance_threshold)
          × Counts surroundings
              (λ n. refl)
              library
              spec
              visitor
              3
              v
              (report_failure library surroundings spec visitor v))
        ⊎ ((3 ≡ spec.fail_tolerance_threshold)
            × Bans surroundings
                (λ n. refl)
                library
                spec
                visitor
                3
                v
                (report_failure library surroundings spec visitor v)))
report_failure-report_success_example =
    report_failure-report_success surroundings (λ n. refl) library spec visitor 1 world
      (omega arith) (omega arith)

check_sha-zero_digits_example :
    check_sha library (4 * 2) (codes "token")
    ≡ zero_digits 2 (library.sha256 (c_str (codes "token")))
check_sha-zero_digits_example = check_sha-zero_digits library sha256-IsByte 2 (codes "token")

encapsulate_in_quotes-escaped_example :
    encapsulate_in_quotes (97 ∷ 34 ∷ []) ≡ 34 ∷ 97 ∷ 92 ∷ 34 ∷ 34 ∷ []
encapsulate_in_quotes-escaped_example = encapsulate_in_quotes-escaped (97 ∷ 34 ∷ [])

-- A white list with the address of the visitor.
abbrev entries : List Entry
entries = for_all (codes "1.2.3.4") ∷ []

abbrev white_list : WhiteList
white_list = record {
  white_list = record { ip = address (codes "1.2.3.4"); mask = 0xffffffff } ∷ [];
  per_host = [];
}

on_http_request-load_config_example :
    WhiteLister.on_http_request address white_list visitor ≡ plain serve_immediately_dont_cache
unfolding load_config WhiteLister.load_entry make_mask_for_range find starts_with c_str covers
    is_match WhiteLister.insert_range
on_http_request-load_config_example =
    on_http_request-load_config address number entries white_list visitor refl

abbrev transaction : Transaction
transaction = record { calls = []; response_info = plain go_ahead_no_comment }

handle_request-white_lister_example :
    handle_request true (white_lister address white_list ∷ []) visitor transaction world
    ≡ (some (call (reenable http_continue) (call no_store transaction)), world)
unfolding load_config WhiteLister.load_entry make_mask_for_range find starts_with c_str covers
    is_match WhiteLister.insert_range
handle_request-white_lister_example =
    handle_request-white_lister true address number entries white_list [] visitor transaction world
      refl refl

-- The world once the address of the visitor is on record.
abbrev flagged_world : World
flagged_world = record world { swabber_ip_db = (codes "1.2.3.4", 990) ∷ [] }

handle_request-denialator_example :
    handle_request true
      (denialator library surroundings none (pos 100) ∷ [])
      visitor
      transaction
      flagged_world
    ≡ (
      some (
          call
            (reenable http_error)
            (record transaction { response_info = respond (extended denied) })),
      (time surroundings (try_lock surroundings flagged_world).1).1,
    )
unfolding Denialator.is_globally_white_listed lookup beq
handle_request-denialator_example =
    handle_request-denialator true library surroundings none (pos 100) [] visitor transaction
      flagged_world

handle_request-Settles_example :
    Settles
      (white_lister address white_list ∷ [])
      visitor
      world
      transaction
      (call (reenable http_continue) (call no_store transaction))
unfolding handle_request WhiteLister.on_http_request WhiteLister.is_white_listed_for
    WhiteLister.is_white_listed WhiteLister.first_match is_match c_str
handle_request-Settles_example =
    handle_request-Settles true (white_lister address white_list ∷ []) visitor transaction
      (call (reenable http_continue) (call no_store transaction)) world refl
