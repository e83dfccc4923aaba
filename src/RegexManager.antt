-- ===== src/RegexManager.antt =====
-- src/regex_manager.cpp and regex_manager.h: the filter that bans by the rate of requests that match
-- a rule.
-- The floating point arithmetic of the machine is the parameter `Floats`, on bit patterns.
pub mod Slots
use banjax.Base.{
  ℕ, zero, suc, ◌+◌, ◌-◌, ◌*◌, ◌%◌, ◌^◌, Bool, true, false, ◌&&◌, List, [], ◌∷◌, ◌++◌, Option, none,
  some, Bytes, codes, length, get_elem?, set, replicate, any, beq, ltb, ◌==◌, if◌then◌else◌,
}
use banjax.Filter.{Parts, FilterResponse, plain, extended, respond, forbidden, go_ahead_no_comment}
use banjax.IpDb.{get_ip_state, set_ip_state}
use banjax.Library.{Library}
use banjax.Swabber.{ban}
use banjax.Util.{encapsulate_in_quotes}
use banjax.World.{
  Surroundings, World, RegexState, M, ◌>>=◌, ◌>>◌, return, modify, try_lock, time_msec,
}

-- One operation for each expression on rates in the source.
pub record Floats : Type 0 where
  -- `rate == 0`
  pub is_zero : ℕ → Bool
  -- `threshold / (double)interval`
  pub ratio : ℕ → ℕ → ℕ
  -- `rate - (rate * movement - 1) / (double)interval`
  pub slide : ℕ → ℕ → ℕ → ℕ
  -- `rate < 0`
  pub is_negative : ℕ → Bool
  -- `1 / (double)interval`
  pub one_over : ℕ → ℕ
  -- `rate + 1 / (double)interval`
  pub add_one_over : ℕ → ℕ → ℕ
  -- `rate >= limit`
  pub reaches : ℕ → ℕ → Bool

pub record RatedRegex : Type 0 where
  pub id : ℕ
  pub rule_name : Bytes
  pub re2_regex : Bytes
  pub interval : ℕ
  pub rate : ℕ
  pub hosts_to_skip : List Bytes

-- A node of the configuration.
pub record RuleNode : Type 0 where
  pub rule : Bytes
  pub regex : Bytes
  pub interval : ℕ
  pub hits_per_interval : ℕ
  pub hosts_to_skip : List Bytes

abbrev pub fresh_state : RegexState
fresh_state = record { begin_msec = 0; rate = 0 }

-- `cur_time_msec - begin_msec - interval` on 64 bits; as a `long` it is positive below 2 ^ 63.
abbrev pub movement : ℕ → ℕ → ℕ → ℕ
movement now begin interval = (now + 2 * 2 ^ 64 - begin - interval) % 2 ^ 64

abbrev pub is_empty {ℓ} : {A : Type ℓ} → List A → Bool
is_empty [] = true
is_empty (a ∷ l) = false

module _ (f : Floats) where
  unfoldable pub load_rules : List RuleNode → List RatedRegex → List RatedRegex
  load_rules [] rules = rules
  load_rules (n ∷ nodes) rules = load_rules nodes (
      rules
      ++ record {
        id = length rules;
        rule_name = n.rule;
        re2_regex = n.regex;
        interval = n.interval * 1000 % 2 ^ 32;
        rate = f.ratio n.hits_per_interval (n.interval * 1000 % 2 ^ 32);
        hosts_to_skip = n.hosts_to_skip;
      }
        ∷ [])

  -- The window is moved, or the hit is counted in it.
  unfoldable pub update : ℕ → RatedRegex → RegexState → RegexState
  update now rule s =
      let begin = if s.begin_msec == 0 then now else s.begin_msec in
      let moved = movement now begin rule.interval in
      if ltb 0 moved && ltb moved (2 ^ 63)
      then (let r = f.slide s.rate moved rule.interval in
          record {
            begin_msec = (begin + moved) % 2 ^ 64;
            rate = if f.is_negative r then f.one_over rule.interval else r;
          })
      else record { begin_msec = begin; rate = f.add_one_over s.rate rule.interval }

  module _ (x : Library) (e : Surroundings) (total_no_of_rules : ℕ) (ip : Bytes) where
    unfoldable pub fetch_states : M (Option (List RegexState))
    fetch_states = do locked ← try_lock e; λ w. (get_ip_state [] locked ip w.regex_manager_ip_db, w)

    -- The database is read once states are needed and there are none.
    abbrev pub read_states : Option (List RegexState) → M (Option (List RegexState))
    read_states none = fetch_states
    read_states (some []) = fetch_states
    read_states (some (s ∷ l)) = return (some (s ∷ l))

    unfoldable pub write_states : List RegexState → M (Unit {0})
    write_states states = do
      locked ← try_lock e
      modify (λ w. record w {
        regex_manager_ip_db = (set_ip_state locked ip states w.regex_manager_ip_db).0;
      })

    abbrev pub sized : List RegexState → List RegexState
    sized states = if is_empty states then replicate total_no_of_rules fresh_state else states

    -- What one hit of a rule makes of the states: `none` is an index outside the vector.
    unfoldable pub hit : ℕ → RatedRegex → List RegexState → Option (List RegexState × Bool)
    hit now rule states = elim (get_elem? (sized states) rule.id) [
      | none ↦ none
      | some s ↦
          let s' = update now rule s in
          some (set (sized states) rule.id s', f.reaches s'.rate rule.rate)
    ]

    abbrev pub finish : Option (List RegexState) → M (Option (Option RatedRegex))
    finish none = return (some none)
    finish (some []) = return (some none)
    finish (some (s ∷ l)) = do write_states (s ∷ l); return (some none)

    -- Behind a hit: the rule is found, or the loop goes on with the new states.
    abbrev pub after_hit :
        RatedRegex
        → (Option (List RegexState) → M (Option (Option RatedRegex)))
        → Option (List RegexState × Bool)
        → M (Option (Option RatedRegex))
    after_hit rule go_on none = return none
    after_hit rule go_on (some (states, true)) = do write_states states; return (some (some rule))
    after_hit rule go_on (some (states, false)) = go_on (some states)

    -- Without states, for want of the lock, the loop makes no judgement and goes on.
    abbrev pub with_states :
        RatedRegex
        → (Option (List RegexState) → M (Option (Option RatedRegex)))
        → ℕ
        → Option (List RegexState)
        → M (Option (Option RatedRegex))
    with_states rule go_on now none = go_on none
    with_states rule go_on now (some states) = after_hit rule go_on (hit now rule states)

    abbrev pub rate_rule :
        RatedRegex
        → (Option (List RegexState) → M (Option (Option RatedRegex)))
        → Option (List RegexState)
        → M (Option (Option RatedRegex))
    rate_rule rule go_on ip_state = do
      now ← time_msec e
      read ← read_states ip_state
      with_states rule go_on now read

    unfoldable pub match_rules :
        Bytes → Bytes → List RatedRegex → Option (List RegexState) → M (Option (Option RatedRegex))
    match_rules record_text host [] ip_state = finish ip_state
    match_rules record_text host (rule ∷ rules) ip_state =
        let rest = match_rules record_text host rules in
        if any (λ h. beq h host) rule.hosts_to_skip
        then return (some none)
        else if x.full_match record_text rule.re2_regex
        then (if f.is_zero rule.rate
            then return (some (some rule))
            else rate_rule rule rest ip_state)
        else rest ip_state

  unfoldable pub try_match :
      Library
      → Surroundings
      → List RatedRegex
      → Bytes
      → Bytes
      → Bytes
      → M (Option (Option RatedRegex))
  try_match x e rules ip record_text host =
      match_rules x e (length rules) ip record_text host rules none

  abbrev pub ats_record : Parts → Bytes
  ats_record parts = parts.method ++ (32 ∷ (parts.url ++ (32 ∷ (parts.host ++ (32 ∷ parts.ua)))))

  pub banning_reason : RatedRegex → Parts → Bytes
  banning_reason rule parts =
      codes "matched regex rule "
      ++ (rule.rule_name
          ++ (codes ", "
              ++ (parts.method
                  ++ (codes ", "
                      ++ (encapsulate_in_quotes parts.url
                          ++ (codes ", "
                              ++ (parts.host
                                  ++ (codes ", " ++ encapsulate_in_quotes parts.ua))))))))

  unfoldable pub on_http_request :
      Library → Surroundings → List RatedRegex → Parts → M (Option FilterResponse)
  on_http_request x e rules parts = do
    result ← try_match x e rules parts.ip (ats_record parts) parts.host
    elim result [
      | none ↦ return none
      | some found ↦ elim found [
        | none ↦ return (some (plain go_ahead_no_comment))
        | some rule ↦ do
          ban e parts.ip (banning_reason rule parts)
          return (some (respond (extended forbidden)))
      ]
    ]
