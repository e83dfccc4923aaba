-- ===== src/Challenger/Load.antt =====
-- `Challenger::load_config` and `parse_single_challenge`, over the nodes that yaml-cpp has read.
pub mod Domains
pub mod Dynamic
use banjax.Base.{
  ℕ, Bool, true, false, ◌||◌, ◌&&◌, List, [], ◌∷◌, ◌++◌, Option, none, some, Bytes, codes, beq,
  bytes_ltb, Dict, lookup, insert, if◌then◌else◌, ◌>>=◌,
}
use banjax.Challenger.State.{Challenger}
use banjax.Filter.{
  ChallengeType, sha_inverse, captcha, auth, MagicWord, substr, regexp, HostChallengeSpec,
}
use banjax.Library.{Library}
use banjax.Util.{
  SubnetRange, range, invalid_conf, not_a_number, undefined_shift, make_mask_for_range,
}
use banjax.WhiteList.{set_insert}

-- A node by its key: there is none, `as` throws, or its value.
pub data Field {ℓ} (A : Type ℓ) : Type ℓ where
  absent unfit : Field A
  value : A → Field A

-- An entry of the sequence `magic_word`: a sequence, by its first two elements, or another node.
-- `none` is no string.
pub data MagicEntry : Type 0 where
  typed : Option Bytes → Option Bytes → MagicEntry
  plain_word : Option Bytes → MagicEntry

pub data MagicNode : Type 0 where
  no_magic : MagicNode
  magic_sequence : List MagicEntry → MagicNode
  single_magic : Option Bytes → MagicNode

pub record ChallengeNode : Type 0 where
  pub name : Field Bytes
  pub challenge_type : Field Bytes
  pub validity_period : Field ℕ
  pub no_of_fails_to_ban : Field ℕ
  pub challenge : Field Bytes
  pub password_hash : Field Bytes
  pub magic_word : MagicNode
  pub magic_word_exceptions : Field (List Bytes)
  pub white_listed_ips : Field (List Bytes)
  pub domains : List (Option Bytes)

-- A node that has to be there, and one that may be left out.
abbrev required : {A : Type 0} → Field A → Option A
required absent = none
required unfit = none
required (value a) = some a

abbrev optional : {A : Type 0} → A → Field A → Option A
optional default absent = some default
optional default unfit = none
optional default (value a) = some a

-- `challenge_type[name]`: a name that is not there gets the first type.
unfoldable pub type_of : Bytes → ChallengeType
type_of name =
    if beq name (codes "captcha")
    then captcha
    else if beq name (codes "auth")
    then auth
    else sha_inverse

abbrev default_page : ChallengeType → Bytes
default_page sha_inverse = codes "solver.html"
default_page captcha = codes "captcha.html"
default_page auth = codes "auth.html"

abbrev or_default_page : ChallengeType → Bytes → Bytes
or_default_page t [] = default_page t
or_default_page t (c ∷ cs) = c ∷ cs

-- `std::set<MagicWord>`, with the substrings first.
abbrev magic_ltb : MagicWord → MagicWord → Bool
magic_ltb (substr a) (substr b) = bytes_ltb a b
magic_ltb (substr a) (regexp b) = true
magic_ltb (regexp a) (substr b) = false
magic_ltb (regexp a) (regexp b) = bytes_ltb a b

unfoldable pub magic_insert : MagicWord → List MagicWord → List MagicWord
magic_insert w [] = w ∷ []
magic_insert w (v ∷ s) =
    let rest = magic_insert w s in
    if magic_ltb w v then w ∷ v ∷ s else if magic_ltb v w then v ∷ rest else v ∷ s

abbrev magic_of : MagicEntry → Option MagicWord
magic_of (typed none word) = none
magic_of (typed (some type) none) = none
magic_of (typed (some type) (some word)) =
    if beq type (codes "regexp")
    then some (regexp word)
    else if beq type (codes "substr")
    then some (substr word)
    else none
magic_of (plain_word none) = none
magic_of (plain_word (some word)) = some (substr word)

unfoldable pub magic_words_of : List MagicEntry → List MagicWord → Option (List MagicWord)
unfolding magic_insert
magic_words_of [] s = some s
magic_words_of (e ∷ es) s = do w ← magic_of e; magic_words_of es (magic_insert w s)

abbrev magic_node : MagicNode → Option (List MagicWord)
magic_node no_magic = some []
magic_node (magic_sequence es) = magic_words_of es []
magic_node (single_magic none) = none
magic_node (single_magic (some w)) = some (substr w ∷ [])

abbrev pub or_no_challenges : Option (List HostChallengeSpec) → List HostChallengeSpec
or_no_challenges none = []
or_no_challenges (some l) = l

-- `host_challenges_static[domain]`
abbrev pub challenges_at : Bytes → Dict (List HostChallengeSpec) → List HostChallengeSpec
challenges_at domain m = or_no_challenges (lookup domain m)

unfoldable pub push_domains :
    HostChallengeSpec
    → List (Option Bytes)
    → Dict (List HostChallengeSpec)
    → Option (Dict (List HostChallengeSpec))
push_domains spec [] m = some m
push_domains spec (none ∷ ds) m = none
push_domains spec (some d ∷ ds) m =
    push_domains spec ds (insert d (challenges_at d m ++ spec ∷ []) m)

-- The host and the C library; `read_file` is empty for a file that cannot be read.
module _ (x : Library) (read_file : Bytes → Bytes) (banjax_dir : Bytes) (now : ℕ) where
  unfoldable pub ranges_of : List Bytes → List SubnetRange → Option (List SubnetRange)
  ranges_of [] s = some s
  ranges_of (ip ∷ ips) s =
      let rest = ranges_of ips in
      elim (make_mask_for_range x.inet x.stoi ip) [
        | range r ↦ rest (set_insert r s)
        | invalid_conf ↦ none
        | not_a_number ↦ none
        | undefined_shift ↦ none
      ]

  -- `none` is an exception, or the undefined shift of a range.
  unfoldable pub parse_single_challenge : ChallengeNode → Option HostChallengeSpec
  unfolding type_of magic_words_of ranges_of
  parse_single_challenge ch = do
    name ← required ch.name
    type ← required ch.challenge_type
    period ← required ch.validity_period
    threshold ← optional 0 ch.no_of_fails_to_ban
    file ← optional [] ch.challenge
    hash ← optional [] ch.password_hash
    words ← magic_node ch.magic_word
    exceptions ← optional [] ch.magic_word_exceptions
    ips ← optional [] ch.white_listed_ips
    white_list ← ranges_of ips []
    some (record {
      name = name;
      challenge_type = type_of type;
      challenge_stream = read_file (banjax_dir ++ codes "/" ++ or_default_page (type_of type) file);
      fail_tolerance_threshold = threshold;
      challenge_validity_period = period;
      password_hash = hash;
      magic_words = words;
      magic_word_exceptions = exceptions;
      white_listed_ips = white_list;
      time_added = now;
    })

  unfoldable pub load_challenges :
      List ChallengeNode → Dict (List HostChallengeSpec) → Option (Dict (List HostChallengeSpec))
  unfolding parse_single_challenge push_domains
  load_challenges [] m = some m
  load_challenges (ch ∷ chs) m = do
    spec ← parse_single_challenge ch
    m' ← push_domains spec ch.domains m
    load_challenges chs m'

-- The nodes of the filter. `dynamic_challenger_config` is whether it has a `challenge_type`, where
-- it is there.
pub record ChallengerNode : Type 0 where
  pub challenges : List ChallengeNode
  pub key : Field Bytes
  pub difficulty : Field ℕ
  pub dynamic_expiry_seconds : Field ℕ
  pub dynamic_challenger_config : Option Bool

-- `terminated` is the `throw` while no exception is handled.
pub data Loading : Type 0 where
  loaded : Challenger → Loading
  thrown terminated : Loading

-- What is read for Kafka. Without the expiry the rest is not looked at.
unfoldable pub load_dynamic : ChallengerNode → Challenger → Field ℕ → Loading
load_dynamic cfg c absent = loaded c
load_dynamic cfg c unfit = loaded c
load_dynamic cfg c (value seconds) = elim cfg.dynamic_challenger_config [
  | none ↦ terminated
  | some has_type ↦
      if has_type then loaded (record c { dynamic_expiry_seconds = seconds }) else terminated
]

module _ (x : Library) (read_file : Bytes → Bytes) (banjax_dir : Bytes) (now : ℕ) where
  -- What stands before the part for Kafka.
  unfoldable pub load_static : ChallengerNode → Challenger → Option Challenger
  unfolding load_challenges
  load_static cfg c = do
    m ← load_challenges x read_file banjax_dir now cfg.challenges c.host_challenges_static
    key ← required cfg.key
    zeros ← required cfg.difficulty
    some (record c {
      host_challenges_static = m;
      hashed_key = x.sha256 key;
      number_of_trailing_zeros = zeros;
    })

  unfoldable pub load_config : ChallengerNode → Challenger → Loading
  unfolding load_static load_dynamic
  load_config cfg c = elim (load_static cfg c) [
    | none ↦ thrown
    | some c' ↦ load_dynamic cfg c' cfg.dynamic_expiry_seconds
  ]
