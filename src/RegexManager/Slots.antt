-- ===== src/RegexManager/Slots.antt =====
-- Every address on record has one slot for each rule.
use banjax.Base.{
  ℕ, zero, suc, ◌<◌, ◌≡◌, ◌⊎◌, inl, inr, refl, ap, sym, ◌∙◌, Bool, true, false, List, [], ◌∷◌, ◌++◌,
  Option, none, some, Bytes, Dict, lookup, insert, length, get_elem?, set, any, beq, All,
  length-replicate, length-set, length-append, arith, Bool-cases, Option-cases,
}
use banjax.IpDb.{find_state, get_ip_state, set_ip_state}
use banjax.Library.{Library}
use banjax.RegexManager.{
  Floats, RatedRegex, RuleNode, fresh_state, load_rules, update, fetch_states, write_states, sized,
  hit, finish, after_hit, rate_rule, with_states, match_rules, try_match,
}
use banjax.World.{Surroundings, World, RegexState, M, time_msec}

module _ {V : Type 0} (P : V → Type 0) where
  insert-All :
      (k : Bytes) (v : V) (m : Dict V) → P v → All (λ p. P p.1) m → All (λ p. P p.1) (insert k v m)
  unfolding insert
  insert-All k v [] h a = (h, tt)
  insert-All k v ((j, u) ∷ m) h a = elim (Bool-cases (beq j k)) [
    | inl b ↦ rw b (h, a.1)
    | inr b ↦ rw b (a.0, insert-All k v m h a.1)
  ]

  lookup-All : (k : Bytes) (v : V) (m : Dict V) → All (λ p. P p.1) m → lookup k m ≡ some v → P v
  unfolding lookup
  lookup-All k v [] a e = cc
  lookup-All k v ((j, u) ∷ m) a e = elim (Bool-cases (beq j k)) [
    | inl b ↦ let q : u ≡ v = cc (rw b at e) in rw (sym q) a.0
    | inr b ↦ lookup-All k v m a.1 (rw b at e)
  ]

get_elem?-lt : {A : Type 0} (l : List A) (i : ℕ) → i < length l → (a : A) × (get_elem? l i ≡ some a)
get_elem?-lt [] i h = absurd (omega arith)
get_elem?-lt (a ∷ l) zero h = (a, refl)
get_elem?-lt (a ∷ l) (suc i) h = get_elem?-lt l i (omega arith)

module _ (f : Floats) (x : Library) (e : Surroundings) (total : ℕ) (ip : Bytes) where
  abbrev pub HasSlots : List RegexState → Type 0
  HasSlots states = length states ≡ total

  -- The database holds a slot for each rule at each address.
  abbrev pub DbHasSlots : World → Type 0
  DbHasSlots w = All (λ p. HasSlots p.1) w.regex_manager_ip_db

  abbrev MayHaveSlots : Option (List RegexState) → Type 0
  MayHaveSlots none = Unit
  MayHaveSlots (some states) = (states ≡ []) ⊎ HasSlots states

  length-sized :
      (states : List RegexState)
      → MayHaveSlots (some states)
      → HasSlots (sized f x e total ip states)
  length-sized [] h = length-replicate total fresh_state
  length-sized (s ∷ l) (inl h) = cc
  length-sized (s ∷ l) (inr h) = h

  hit-HasSlots :
      (now : ℕ) (rule : RatedRegex) (states : List RegexState)
      → rule.id < total
      → MayHaveSlots (some states)
      → (v : List RegexState) × (b : Bool) × (hit f x e total ip now rule states ≡ some (v, b))
        × HasSlots v
  unfolding hit
  hit-HasSlots now rule states lt h =
      let size = length-sized states h in
      let (s, q) = get_elem?-lt (sized f x e total ip states) rule.id (omega (arith, lt, size)) in
      let s' = update f now rule s in
      let v = set (sized f x e total ip states) rule.id s' in
      (
        v,
        f.reaches s'.rate rule.rate,
        rw (q, hit) refl,
        length-set (sized f x e total ip states) rule.id s' ∙ size,
      )

  find_state-MayHaveSlots :
      (m : Dict (List RegexState))
      → All (λ p. HasSlots p.1) m
      → MayHaveSlots (some (find_state [] ip m))
  find_state-MayHaveSlots m d = elim (Option-cases (lookup ip m)) [
    | inl n ↦ let q : find_state [] ip m ≡ [] = ground (arith, n) in inl q
    | inr (v, n) ↦
        let q : find_state [] ip m ≡ v = ground (arith, n) in
        inr (ap length q ∙ lookup-All HasSlots ip v m d n)
  ]

  fetch_states-MayHaveSlots :
      (w : World)
      → DbHasSlots w
      → MayHaveSlots (fetch_states f x e total ip w).0
        × ((fetch_states f x e total ip w).1.regex_manager_ip_db ≡ w.regex_manager_ip_db)
  unfolding fetch_states get_ip_state
  fetch_states-MayHaveSlots w d = (
    elim (Bool-cases (e.lock w.calls)) [
      | inl b ↦ rw b (find_state-MayHaveSlots w.regex_manager_ip_db d)
      | inr b ↦ rw b tt
    ],
    refl,
  )

  write_states-DbHasSlots :
      (states : List RegexState) (w : World)
      → HasSlots states
      → DbHasSlots w
      → DbHasSlots (write_states f x e total ip states w).1
  unfolding write_states set_ip_state
  write_states-DbHasSlots states w h d = elim (Bool-cases (e.lock w.calls)) [
    | inl b ↦ rw b (insert-All HasSlots ip states w.regex_manager_ip_db h d)
    | inr b ↦ rw b d
  ]

  -- The loop has a result, and leaves a slot for each rule at each address.
  abbrev pub Fine : Option (Option RatedRegex) × World → Type 0
  Fine r = ((found : Option RatedRegex) × (r.0 ≡ some found)) × DbHasSlots r.1

  finish-Fine :
      (st : Option (List RegexState)) (w : World)
      → MayHaveSlots st
      → DbHasSlots w
      → Fine (finish f x e total ip st w)
  finish-Fine none w h d = ((none, refl), d)
  finish-Fine (some []) w h d = ((none, refl), d)
  finish-Fine (some (s ∷ l)) w (inl h) d = cc
  finish-Fine (some (s ∷ l)) w (inr h) d = ((none, refl), write_states-DbHasSlots (s ∷ l) w h d)

  abbrev GoesOn : (Option (List RegexState) → M (Option (Option RatedRegex))) → Type 0
  GoesOn go_on =
      (st : Option (List RegexState)) (w : World)
      → MayHaveSlots st
      → DbHasSlots w
      → Fine (go_on st w)

  after_hit-Fine :
      (rule : RatedRegex) (go_on : Option (List RegexState) → M (Option (Option RatedRegex)))
      (v : List RegexState) (b : Bool) (w : World)
      → GoesOn go_on
      → HasSlots v
      → DbHasSlots w
      → Fine (after_hit f x e total ip rule go_on (some (v, b)) w)
  after_hit-Fine rule go_on v true w g h d = ((some rule, refl), write_states-DbHasSlots v w h d)
  after_hit-Fine rule go_on v false w g h d = g (some v) w (inr h) d

  -- The states that a rule works on.
  abbrev Read : Option (List RegexState) × World → Type 0
  Read r = MayHaveSlots r.0 × DbHasSlots r.1

  on_states :
      (rule : RatedRegex) (go_on : Option (List RegexState) → M (Option (Option RatedRegex)))
      (now : ℕ) (st : Option (List RegexState)) (w : World)
      → rule.id < total
      → GoesOn go_on
      → MayHaveSlots st
      → DbHasSlots w
      → Fine (with_states f x e total ip rule go_on now st w)
  on_states rule go_on now none w lt g h d = g none w tt d
  on_states rule go_on now (some states) w lt g h d =
      let (v, b, q, k) = hit-HasSlots now rule states lt h in
      rw q (after_hit-Fine rule go_on v b w g k d)

  rate_rule-Fine :
      (rule : RatedRegex) (go_on : Option (List RegexState) → M (Option (Option RatedRegex)))
      (st : Option (List RegexState)) (w : World)
      → rule.id < total
      → GoesOn go_on
      → MayHaveSlots st
      → DbHasSlots w
      → Fine (rate_rule f x e total ip rule go_on st w)
  rate_rule-Fine rule go_on none w lt g h d =
      let v = (time_msec e w).1 in
      let r = fetch_states-MayHaveSlots v d in
      on_states rule go_on (e.msec w.calls) (fetch_states f x e total ip v).0
        (fetch_states f x e total ip v).1 lt g r.0 (rw r.1 d)
  rate_rule-Fine rule go_on (some []) w lt g h d =
      let v = (time_msec e w).1 in
      let r = fetch_states-MayHaveSlots v d in
      on_states rule go_on (e.msec w.calls) (fetch_states f x e total ip v).0
        (fetch_states f x e total ip v).1 lt g r.0 (rw r.1 d)
  rate_rule-Fine rule go_on (some (s ∷ l)) w lt g h d =
      on_states rule go_on (e.msec w.calls) (some (s ∷ l)) (time_msec e w).1 lt g h d

  match_rules-Fine :
      (text host : Bytes) (rules : List RatedRegex)
      → All (λ r. r.id < total) rules
      → GoesOn (match_rules f x e total ip text host rules)
  unfolding match_rules
  match_rules-Fine text host [] a st w h d = finish-Fine st w h d
  match_rules-Fine text host (rule ∷ rules) a st w h d =
      elim (Bool-cases (any (λ k. beq k host) rule.hosts_to_skip)) [
        | inl b ↦ rw b ((none, refl), d)
        | inr b ↦ elim (Bool-cases (x.full_match text rule.re2_regex)) [
          | inr c ↦ rw (b, c) (match_rules-Fine text host rules a.1 st w h d)
          | inl c ↦ elim (Bool-cases (f.is_zero rule.rate)) [
            | inl z ↦ rw (b, c, z) ((some rule, refl), d)
            | inr z ↦
                rw (b, c, z)
                  (rate_rule-Fine rule (match_rules f x e total ip text host rules) st w a.0
                    (match_rules-Fine text host rules a.1) h d)
          ]
        ]
      ]

All-append : (P : RatedRegex → Type 0) (l m : List RatedRegex) → All P l → All P m → All P (l ++ m)
All-append P [] m a b = b
All-append P (r ∷ l) m a b = (a.0, All-append P l m a.1 b)

All-map :
    (P Q : RatedRegex → Type 0) (l : List RatedRegex)
    → ((r : RatedRegex) → P r → Q r)
    → All P l
    → All Q l
All-map P Q [] g a = tt
All-map P Q (r ∷ l) g a = (g r a.0, All-map P Q l g a.1)

-- `load_config` numbers the rules by their places.
load_rules-ids :
    (f : Floats) (nodes : List RuleNode) (rules : List RatedRegex)
    → All (λ r. r.id < length rules) rules
    → All (λ r. r.id < length (load_rules f nodes rules)) (load_rules f nodes rules)
unfolding load_rules
load_rules-ids f [] rules a = a
load_rules-ids f (n ∷ nodes) rules a = load_rules-ids f nodes _ (
    rw (length-append rules _)
      (All-append _ rules _ (All-map _ _ rules (λ r h. omega (arith, h)) a) (omega arith, tt)))

-- With the rules of a configuration and a database whose vectors have one slot for each rule,
-- `try_match` has a result: it never reads or writes outside the vector of an address; and the
-- vectors that it leaves on record have one slot for each rule again.
pub try_match-DbHasSlots :
    (f : Floats) (x : Library) (e : Surroundings) (nodes : List RuleNode) (ip text host : Bytes)
    (w : World)
    → DbHasSlots f x e (length (load_rules f nodes [])) ip w
    → ((found : Option RatedRegex) × ((try_match f x e (load_rules f nodes []) ip text host w).0
          ≡ some found))
      × DbHasSlots f x e
          (length (load_rules f nodes []))
          ip
          (try_match f x e (load_rules f nodes []) ip text host w).1
unfolding try_match
try_match-DbHasSlots f x e nodes ip text host w d =
    let rules = load_rules f nodes [] in
    match_rules-Fine f x e (length rules) ip text host rules (load_rules-ids f nodes [] tt) none w
      tt d
