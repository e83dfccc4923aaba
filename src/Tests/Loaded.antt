-- ===== src/Tests/Loaded.antt =====
-- A configuration of the challenger with two challenges.
use banjax.Base.{◌≡◌, ◌++◌, refl, [], ◌∷◌, none, some, Bytes, codes, lookup, insert, beq, bytes_ltb}
use banjax.Challenger.Load.{
  ChallengeNode, ChallengerNode, absent, value, no_magic, magic_sequence, plain_word, typed,
  Loading, loaded, challenges_at, type_of, magic_insert, magic_words_of, ranges_of,
  parse_single_challenge, push_domains, load_challenges, load_static, load_dynamic, load_config,
}
use banjax.Challenger.Load.Domains.{listed, load_config-listed}
use banjax.Challenger.State.{Challenger}
use banjax.Tests.Samples.{library, challenger}

abbrev captcha_node : ChallengeNode
captcha_node = record {
  name = value (codes "letters");
  challenge_type = value (codes "captcha");
  validity_period = value 3600;
  no_of_fails_to_ban = value 5;
  challenge = absent;
  password_hash = absent;
  magic_word = no_magic;
  magic_word_exceptions = absent;
  white_listed_ips = absent;
  domains = some (codes "a.org") ∷ some (codes "b.org") ∷ [];
}

abbrev auth_node : ChallengeNode
auth_node = record {
  name = value (codes "admin");
  challenge_type = value (codes "auth");
  validity_period = value 60;
  no_of_fails_to_ban = absent;
  challenge = value (codes "login.html");
  password_hash = value (codes "hash");
  magic_word =
      magic_sequence (
        plain_word (some (codes "wp")) ∷ typed (some (codes "regexp")) (some (codes "adm.n")) ∷ []);
  magic_word_exceptions = absent;
  white_listed_ips = absent;
  domains = some (codes "b.org") ∷ [];
}

abbrev challenger_node : ChallengerNode
challenger_node = record {
  challenges = captcha_node ∷ auth_node ∷ [];
  key = value (codes "allwelcome");
  difficulty = value 8;
  dynamic_expiry_seconds = absent;
  dynamic_challenger_config = none;
}

abbrev page_file : Bytes → Bytes
page_file path = path

abbrev before : Challenger
before = record challenger { host_challenges_static = [] }

abbrev after : Loading
after = load_config library page_file (codes "d") 0 challenger_node before

abbrev loaded_challenger : Challenger
loaded_challenger = elim after [ loaded c ↦ c | _ ↦ before ]

challenger_node-loaded : after ≡ loaded loaded_challenger
unfolding load_config load_static load_dynamic load_challenges parse_single_challenge push_domains
    type_of magic_words_of magic_insert ranges_of lookup insert beq bytes_ltb
challenger_node-loaded = refl

load_config-listed_example :
    challenges_at (codes "b.org") loaded_challenger.host_challenges_static
    ≡ challenges_at (codes "b.org") before.host_challenges_static
      ++ listed library page_file (codes "d") 0 (codes "b.org") challenger_node.challenges
load_config-listed_example =
    load_config-listed library page_file (codes "d") 0 challenger_node before loaded_challenger
      (codes "b.org") challenger_node-loaded
