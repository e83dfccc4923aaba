-- ===== src/Tests/Samples.antt =====
-- The inputs of the tests.
use banjax.Base.{
  ℕ, zero, suc, ◌+◌, ◌-◌, ◌*◌, ◌%◌, ◌^◌, ◌<◌, ◌≡◌, Bool, true, false, [], ◌∷◌, Option, none, some,
  Bytes, codes, length, replicate, length-replicate, All, beq, arith, ◌&&◌, Bool-cases, inl, inr,
  ltb, ltb→lt,
}
use banjax.Base.Int.{pos}
use banjax.Base64.Groups.{IsByte}
use banjax.Challenger.State.{Challenger}
use banjax.Filter.{Parts, HostChallengeSpec, captcha, substr}
use banjax.Library.{Library}
use banjax.World.{Surroundings, World}

abbrev total : Bytes → ℕ
total [] = 0
total (c ∷ cs) = c + total cs

-- A MAC, an address and a number for the tests.
abbrev pub mac : Bytes → Bytes → Bytes
mac key message = replicate 20 (total message % 256)

abbrev pub address : Bytes → ℕ
address s = total s % 2 ^ 32

abbrev decimal : ℕ → Bytes → ℕ
decimal n [] = n
decimal n (c ∷ cs) = decimal (n * 10 + (c - 48)) cs

abbrev pub number : Bytes → Option ℕ
number [] = none
number (c ∷ cs) = some (decimal 0 (c ∷ cs))

abbrev pub library : Library
library = record {
  inet = address;
  stoi = number;
  to_string = λ n. n ∷ [];
  hmac = mac;
  sha256 = λ message. 0 ∷ 64 ∷ replicate 30 (total message % 256);
  partial_match = beq;
  full_match = beq;
  http_date = λ t. [];
}

pub length-mac : (key message : Bytes) → length (mac key message) ≡ 20
length-mac key message = length-replicate 20 (total message % 256)

replicate-IsByte : (n c : ℕ) → c < 256 → All IsByte (replicate n c)
replicate-IsByte zero c h = tt
replicate-IsByte (suc n) c h = (h, replicate-IsByte n c h)

pub mac-IsByte : (key message : Bytes) → All IsByte (mac key message)
mac-IsByte key message = replicate-IsByte 20 (total message % 256) (omega arith)

pub sha256-IsByte : (message : Bytes) → All IsByte (library.sha256 message)
sha256-IsByte message =
    (omega arith, (omega arith, replicate-IsByte 30 (total message % 256) (omega arith)))

pub address-lt : (s : Bytes) → address s < 2 ^ 32
address-lt s = omega arith

-- Every lock is free, and the clock stands.
abbrev pub surroundings : Surroundings
surroundings = record {
  lock = λ n. true;
  clock = λ n. 1000;
  msec = λ n. 1000000;
  binds = λ n. true;
  draws = λ n. (codes "ABCDE", []);
}

abbrev pub world : World
world = record {
  calls = 0;
  swabber_ip_db = [];
  challenger_ip_db = [];
  regex_manager_ip_db = [];
  socket = some (codes "tcp://*:22620");
  local_endpoint = codes "tcp://*:22620";
  grace_period = pos 0;
  ban_ip_list = [];
  sent = [];
  messages = [];
}

abbrev pub spec : HostChallengeSpec
spec = record {
  name = codes "example.com";
  challenge_type = captcha;
  challenge_stream = [];
  fail_tolerance_threshold = 3;
  challenge_validity_period = 120;
  password_hash = [];
  magic_words = substr (codes "wp-admin") ∷ [];
  magic_word_exceptions = [];
  white_listed_ips = [];
  time_added = 900;
}

abbrev pub challenger : Challenger
challenger = record {
  hashed_key = codes "secret";
  number_of_trailing_zeros = 8;
  dynamic_expiry_seconds = 300;
  host_challenges_static = [];
  host_to_challenge_dynamic = [];
  ip_to_challenge_dynamic = [];
  global_white_list = none;
  kafka_producer = false;
}

abbrev pub visitor : Parts
visitor = record {
  ip = codes "1.2.3.4";
  url = codes "/";
  host = codes "example.com";
  ua = codes "curl";
  cookie = [];
  url_with_host = codes "example.com/";
  method = codes "GET";
}

abbrev pub every : (ℕ → Bool) → Bytes → Bool
every p [] = true
every p (c ∷ cs) = p c && every p cs

-- A property of all bytes of a text, by a test of each.
pub All-every :
    (P : ℕ → Type 0) (p : ℕ → Bool)
    → ((c : ℕ) → p c ≡ true → P c)
    → (s : Bytes) → every p s ≡ true
    → All P s
All-every P p sound [] h = tt
All-every P p sound (c ∷ cs) h = elim (Bool-cases (p c)) [
  | inl b ↦ (sound c b, All-every P p sound cs (ground (arith, b, h)))
  | inr b ↦ absurd (ground (arith, b, h))
]

pub All-IsByte : (s : Bytes) → every (λ c. ltb c 256) s ≡ true → All IsByte s
All-IsByte = All-every IsByte (λ c. ltb c 256) (λ c h. ltb→lt c 256 h)
