-- ===== src/Tests/Rules.antt =====
-- Rules of the regex manager.
use banjax.Base.{◌≡◌, ◌+◌, false, List, [], ◌∷◌, Option, some, codes, leb, ◌==◌}
use banjax.RegexManager.{Floats, RatedRegex, RuleNode, load_rules, try_match}
use banjax.RegexManager.Slots.{DbHasSlots, try_match-DbHasSlots}
use banjax.Tests.Samples.{library, surroundings, world}

-- Rates as numbers of hits.
abbrev hits : Floats
hits = record {
  is_zero = λ r. r == 0;
  ratio = λ n i. n;
  slide = λ r m i. 1;
  is_negative = λ r. false;
  one_over = λ i. 1;
  add_one_over = λ r i. r + 1;
  reaches = λ r l. leb l r;
}

abbrev nodes : List RuleNode
nodes =
    record {
      rule = codes "login";
      regex = codes "GET / host ua";
      interval = 10;
      hits_per_interval = 2;
      hosts_to_skip = [];
    }
    ∷ []

abbrev rules : List RatedRegex
rules =
    record {
      id = 0;
      rule_name = codes "login";
      re2_regex = codes "GET / host ua";
      interval = 10000;
      rate = 2;
      hosts_to_skip = [];
    }
    ∷ []

try_match-DbHasSlots_example :
    ((found : Option RatedRegex) × ((try_match hits library surroundings rules
          (codes "1.2.3.4")
          (codes "GET / host ua")
          (codes "host")
          world).0
        ≡ some found))
    × DbHasSlots hits library surroundings 1
        (codes "1.2.3.4")
        (try_match hits library surroundings rules
          (codes "1.2.3.4")
          (codes "GET / host ua")
          (codes "host")
          world).1
unfolding load_rules
try_match-DbHasSlots_example =
    try_match-DbHasSlots hits library surroundings nodes (codes "1.2.3.4") (codes "GET / host ua")
      (codes "host") world tt
