-- ===== src/Config/Build/Queues.antt =====
-- The queues that the filters are called from, and the parts that the filters of a queue find.
use mathlib.Core.List.{append_assoc}
use mathlib.Core.Option.{some-injective}
use banjax.Base.{
  ℕ, zero, suc, ◌≡◌, inl, inr, refl, ap, sym, subst, ◌∙◌, Bool, true, false, ◌||◌, List, [], ◌∷◌,
  ◌++◌, none, some, Bytes, codes, beq, Dict, any, All, get_elem?, if◌then◌else◌, arith, Bool-cases,
  append-nil,
}
use banjax.Muncher.Parts.{Part, Muncher}
use banjax.Muncher.Request.{Request, retrieve_parts}
use banjax.Muncher.Request.Served.{IsCovered, has, request_parts}
use banjax.Muncher.Request.Levels.{retrieve_parts-has}
use banjax.Config.Read.{done, done_inj, FilterConfig, is_filter}
use banjax.Config.Priorities.{PriorityMap}
use banjax.Config.Build.{
  ExecutionQueue, Filter, regex_manager, challenger, white_lister, bot_sniffer, denialator,
  filter_of, queued_tasks, requested_info, response_info, Built, nothing_built, add_filter,
  build_filters, config_of,
}

-- The filters that a map of priorities names, in its order.
unfoldable pub filters_of : PriorityMap → List Filter
filters_of [] = []
filters_of ((p, name) ∷ m) = elim (filter_of name) [
  | none ↦ filters_of m
  | some f ↦ f ∷ filters_of m
]

unfoldable pub queue_of : ExecutionQueue → List Filter → List Filter
queue_of q [] = []
queue_of q (f ∷ fs) = if queued_tasks f q then f ∷ queue_of q fs else queue_of q fs

-- The filters that a loop has made, after those that were there.
Made : {N : Type 0} → Built N → List Filter → Built N → Type 0
Made b fs b' =
    ((q : ExecutionQueue) → b'.task_queues q ≡ b.task_queues q ++ queue_of q fs)
    × ((p : Part)
        → b'.all_filters_requested_part p
          ≡ b.all_filters_requested_part p || any (λ f. requested_info f p) fs)
    × ((p : Part)
        → b'.all_filters_response_part p
          ≡ b.all_filters_response_part p || any (λ f. response_info f p) fs)

-- One of the tests of the chain holds.
chosen :
    (a b w s d : Bool)
    → a || (b || (s || (w || (d || false)))) ≡ true
    → (f : Filter) × ((if a
          then some regex_manager
          else if b
          then some challenger
          else if w
          then some white_lister
          else if s
          then some bot_sniffer
          else if d
          then some denialator
          else none)
        ≡ some f)
chosen true b w s d e = (regex_manager, refl)
chosen false true w s d e = (challenger, refl)
chosen false false true s d e = (white_lister, refl)
chosen false false false true d e = (bot_sniffer, refl)
chosen false false false false true e = (denialator, refl)
chosen false false false false false e = absurd (cc e)

is_filter-filter_of :
    (name : Bytes) → is_filter name ≡ true → (f : Filter) × (filter_of name ≡ some f)
unfolding is_filter filter_of
is_filter-filter_of name e =
    chosen (beq name (codes "regex_banner")) (beq name (codes "challenger"))
      (beq name (codes "white_lister")) (beq name (codes "bot_sniffer"))
      (beq name (codes "denialator")) e

module _ {N : Type 0} where
  Made-refl : (b : Built N) → Made b [] b
  unfolding Made queue_of
  Made-refl b = ((λ q. sym (append-nil (b.task_queues q))), (λ p. ground arith), λ p. ground arith)

  Made-add_filter :
      (f : Filter) (k : FilterConfig N) (fs : List Filter) (b b' : Built N)
      → Made (add_filter f k b) fs b'
      → Made b (f ∷ fs) b'
  unfolding Made add_filter queue_of
  Made-add_filter f k fs b b' (h, i, j) = (
    (λ q. elim (Bool-cases (queued_tasks f q)) [
      | inl e ↦ h q ∙ rw e (append_assoc (b.task_queues q) (f ∷ []) (queue_of q fs))
      | inr e ↦ h q ∙ rw e refl
    ]),
    (λ p. ground (arith, i p)),
    (λ p. ground (arith, j p)),
  )

  module _ (throws : Filter → FilterConfig N → Bool) (m0 : Dict (FilterConfig N)) where
    build_filters-Made :
        ((f : Filter) (k : FilterConfig N) → throws f k ≡ false)
        → (m : PriorityMap) → All (λ e. is_filter e.1 ≡ true) m
        → (b : Built N)
        → (b' : Built N) × (build_filters throws m0 m b ≡ done b') × Made b (filters_of m) b'
    unfolding build_filters filters_of
    build_filters-Made quiet [] known b = (b, refl, Made-refl b)
    build_filters-Made quiet ((p, name) ∷ m) (k, known) b =
        let (f, e) = is_filter-filter_of name k in
        let (b', e', made) =
          build_filters-Made quiet m known (add_filter f (config_of name m0) b) in
        (
          b',
          rw (e, build_filters, quiet f (config_of name m0)) e',
          rw (e, filters_of) (Made-add_filter f (config_of name m0) (filters_of m) b b' made),
        )

-- The parts that a filter asks for are parts of the request.
requested_info-request_parts :
    (f : Filter) (p : Part) → requested_info f p ≡ true → request_parts p ≡ true
unfolding requested_info
requested_info-request_parts regex_manager p e = ground (arith, e)
requested_info-request_parts challenger p e = ground (arith, e)
requested_info-request_parts white_lister p e = ground (arith, e)
requested_info-request_parts bot_sniffer p e = ground (arith, e)
requested_info-request_parts denialator p e = ground (arith, e)

any_first :
    (g : Filter → Bool) (k : Filter) (ks : List Filter) (fs : List Filter) (i : ℕ) (f : Filter)
    → ((j : ℕ) → get_elem? ks j ≡ some f → any g fs ≡ true)
    → get_elem? (k ∷ ks) i ≡ some f
    → g f ≡ true
    → g k || any g fs ≡ true
any_first g k ks fs zero f r e h = ground (arith, ap g (some-injective k f e), h)
any_first g k ks fs (suc i) f r e h = ground (arith, r i e)

-- What holds of a filter of a queue holds of some filter that was made.
any-queue :
    (g : Filter → Bool) (q : ExecutionQueue) (fs : List Filter) (i : ℕ) (f : Filter)
    → get_elem? (queue_of q fs) i ≡ some f
    → g f ≡ true
    → any g fs ≡ true
unfolding queue_of
any-queue g q [] i f e h = absurd (cc e)
any-queue g q (k ∷ fs) i f e h = elim (Bool-cases (queued_tasks k q)) [
  | inr n ↦ ground (arith, any-queue g q fs i f (rw n at e) h)
  | inl t ↦ any_first g k (queue_of q fs) fs i f (λ j e'. any-queue g q fs j f e' h) (rw t at e) h
]

module _ {N : Type 0} (throws : Filter → FilterConfig N → Bool) (m0 : Dict (FilterConfig N)) where
  -- Without an exception every filter is made, and each queue has the filters that register for it.
  pub build_filters-queues :
      ((f : Filter) (k : FilterConfig N) → throws f k ≡ false)
      → (m : PriorityMap) → All (λ e. is_filter e.1 ≡ true) m
      → (b : Built N) × (build_filters throws m0 m nothing_built ≡ done b)
        × ((q : ExecutionQueue) → b.task_queues q ≡ queue_of q (filters_of m))
  unfolding Made
  build_filters-queues quiet m known =
      let (b, e, made) = build_filters-Made throws m0 quiet m known nothing_built in (b, e, made.0)

  -- When all filters were built without an exception, then for a filter in any queue and a part
  -- that it asks for, `retrieve_parts` with the parts that all filters ask for returns with an
  -- entry for that part. The header of the transaction can be read and its URL takes any host.
  pub build_filters-retrieve_parts :
      ((f : Filter) (k : FilterConfig N) → throws f k ≡ false)
      → (m : PriorityMap) → All (λ e. is_filter e.1 ≡ true) m
      → (b : Built N) → build_filters throws m0 m nothing_built ≡ done b
      → (r : Request) → r.client_req_get ≡ true
      → ((h : Bytes) → r.url_host_set h ≡ true)
      → (t : Muncher) → IsCovered t
      → (q : ExecutionQueue) (i : ℕ) (f : Filter) (p : Part)
      → get_elem? (b.task_queues q) i ≡ some f
      → requested_info f p ≡ true
      → (t' : Muncher) × (retrieve_parts r b.all_filters_requested_part t ≡ some t')
        × (has p t' ≡ true)
  unfolding Made
  build_filters-retrieve_parts quiet m known b e r get sets t c q i f p at_i h =
      let (b', e', made') = build_filters-Made throws m0 quiet m known nothing_built in
      let made : Made nothing_built (filters_of m) b =
        subst (λ k. Made nothing_built (filters_of m) k) (done_inj b' b (sym e' ∙ e)) made' in
      let (t', g, _, v) =
        retrieve_parts-has r get sets b.all_filters_requested_part t c p
          (requested_info-request_parts f p h)
          (made.1 p
            ∙ any-queue (λ k. requested_info k p) q (filters_of m) i f
                (ap (λ l. get_elem? l i) (sym (made.0 q)) ∙ at_i) h) in
      (t', g, v)
