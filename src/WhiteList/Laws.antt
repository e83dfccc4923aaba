-- ===== src/WhiteList/Laws.antt =====
-- A configuration of the white lister serves the addresses that its entries name.
use banjax.Base.{
  ℕ, ◌≡◌, refl, ap, sym, ◌∙◌, Bool, true, false, ◌&&◌, ◌||◌, List, [], ◌∷◌, ◌++◌, Option, none,
  some, Bytes, lookup, lookup-insert, beq, beq_iff, if◌then◌else◌, any, arith, Option-cases,
  Bool-cases, inl, inr,
}
use banjax.Filter.{Parts, plain, go_ahead_no_comment, serve_immediately_dont_cache}
use banjax.Util.{SubnetRange, is_match}
use banjax.WhiteList.{
  WhiteList, Entry, for_host, for_all, range_ltb, set_insert, insert_range, insert_for_host,
  first_match, is_white_listed, is_white_listed_for, on_http_request, range_of, load_entry,
  load_config,
}

abbrev is_some {ℓ} : {A : Type ℓ} → Option A → Bool
is_some none = false
is_some (some a) = true

is_some-or {ℓ} :
    {A : Type ℓ} (o p : Option A)
    → is_some (elim o [ some r ↦ some r | none ↦ p ]) ≡ is_some o || is_some p
is_some-or none p = refl
is_some-or (some a) p = refl

or_swap : (a m b c : Bool) → b ≡ c → a || (m || b) ≡ m || (a || c)
or_swap a m b c e = ground (arith, e)

module _ (inet : Bytes → ℕ) (ip : Bytes) where
  first_match-any :
      (l : List SubnetRange) → is_some (first_match inet ip l) ≡ any (is_match inet ip) l
  unfolding first_match
  first_match-any [] = refl
  first_match-any (r ∷ l) = ground (arith, first_match-any l)

  any-append :
      (p : SubnetRange → Bool) (l m : List SubnetRange) → any p (l ++ m) ≡ any p l || any p m
  any-append p [] m = refl
  any-append p (r ∷ l) m = ground (arith, any-append p l m)

  any-set_insert :
      (p : SubnetRange → Bool) (r : SubnetRange) (l : List SubnetRange)
      → any p (set_insert r l) ≡ p r || any p l
  unfolding set_insert
  any-set_insert p r [] = refl
  any-set_insert p r (s ∷ l) = elim (Bool-cases (range_ltb r s)) [
    | inl b ↦ rw b refl
    | inr b ↦ elim (Bool-cases (range_ltb s r)) [
      | inl d ↦ rw (b, d) (ground (arith, any-set_insert p r l))
      | inr d ↦ let same : r ≡ s = ground (arith, b, d) in rw (b, d) (ground (arith, same))
    ]
  ]

  -- The ranges of one host.
  abbrev host_ranges : WhiteList → Bytes → List SubnetRange
  host_ranges w host = elim (lookup host w.per_host) [ none ↦ [] | some l ↦ l ]

  abbrev serves : WhiteList → Bytes → Bool
  serves w host = any (is_match inet ip) w.white_list || any (is_match inet ip) (host_ranges w host)

  is_white_listed_for-serves :
      (w : WhiteList) (host : Bytes) → is_some (is_white_listed_for inet w host ip) ≡ serves w host
  unfolding is_white_listed_for is_white_listed
  is_white_listed_for-serves w host = elim (Option-cases (lookup host w.per_host)) [
    | inl e ↦ ground (arith, e, first_match-any w.white_list)
    | inr (l, e) ↦ ground (arith, e, first_match-any w.white_list, first_match-any l)
  ]

  serves-insert_range :
      (r : SubnetRange) (w : WhiteList) (host : Bytes)
      → serves (insert_range r w) host ≡ is_match inet ip r || serves w host
  unfolding insert_range
  serves-insert_range r w host =
      let joined = any-append (is_match inet ip) w.white_list (r ∷ []) in ground (arith, joined)

  host_ranges-insert_for_host :
      (h : Bytes) (r : SubnetRange) (w : WhiteList) (host : Bytes)
      → host_ranges (insert_for_host h r w) host
        ≡ (if beq h host then set_insert r (host_ranges w h) else host_ranges w host)
  unfolding insert_for_host
  host_ranges-insert_for_host h r w host =
      let found = lookup-insert h host (set_insert r (host_ranges w h)) w.per_host in
      ground (arith, found)

  serves-insert_for_host :
      (h : Bytes) (r : SubnetRange) (w : WhiteList) (host : Bytes)
      → serves (insert_for_host h r w) host ≡ (beq h host && is_match inet ip r) || serves w host
  unfolding insert_for_host
  serves-insert_for_host h r w host =
      let ranges = host_ranges-insert_for_host h r w host in
      let joined = any-set_insert (is_match inet ip) r (host_ranges w h) in
      elim (Bool-cases (beq h host)) [
        | inl b ↦
            let same = ap (λ k. any (is_match inet ip) (host_ranges w k)) ((beq_iff h host).0 b) in
            let opened : any (is_match inet ip) (host_ranges (insert_for_host h r w) host)
                ≡ is_match inet ip r || any (is_match inet ip) (host_ranges w h) =
              ap (any (is_match inet ip)) (
                ranges
                ∙ ap (λ d. if d then set_insert r (host_ranges w h) else host_ranges w host) b)
              ∙ joined in
            ap (λ d. any (is_match inet ip) w.white_list || d) opened
            ∙ or_swap (any (is_match inet ip) w.white_list) (is_match inet ip r) _ _ same
            ∙ ap (λ d. (d && is_match inet ip r) || serves w host) (sym b)
        | inr b ↦
            ap (λ d. any (is_match inet ip) w.white_list || any (is_match inet ip) d)
              (ranges
                ∙ ap (λ d. if d then set_insert r (host_ranges w h) else host_ranges w host) b)
            ∙ ap (λ d. (d && is_match inet ip r) || serves w host) (sym b)
      ]

module _ (inet : Bytes → ℕ) (stoi : Bytes → Option ℕ) where
  abbrev pub matches : Bytes → Option SubnetRange → Bool
  matches ip none = false
  matches ip (some r) = is_match inet ip r

  -- The text of an entry names a range with the address in it, for this host.
  unfoldable pub covers : Bytes → Bytes → Entry → Bool
  covers host ip (for_host h text) = beq h host && matches ip (range_of inet stoi text)
  covers host ip (for_all text) = matches ip (range_of inet stoi text)

  serves-load_entry :
      (entry : Entry) (w w' : WhiteList) (host ip : Bytes)
      → load_entry inet stoi entry w ≡ some w'
      → serves inet ip w' host ≡ covers host ip entry || serves inet ip w host
  unfolding load_entry covers
  serves-load_entry (for_host h text) w w' host ip e =
      elim (Option-cases (range_of inet stoi text)) [
        | inl n ↦ cc (rw n at e)
        | inr (r, n) ↦
            let made : w' ≡ insert_for_host h r w = cc (rw n at e) in
            rw (made, n) (serves-insert_for_host inet ip h r w host)
      ]
  serves-load_entry (for_all text) w w' host ip e = elim (Option-cases (range_of inet stoi text)) [
    | inl n ↦ cc (rw n at e)
    | inr (r, n) ↦
        let made : w' ≡ insert_range r w = cc (rw n at e) in
        rw (made, n) (serves-insert_range inet ip r w host)
  ]

  serves-load_config :
      (entries : List Entry) (w w' : WhiteList) (host ip : Bytes)
      → load_config inet stoi entries w ≡ some w'
      → serves inet ip w' host ≡ any (covers host ip) entries || serves inet ip w host
  unfolding load_config
  serves-load_config [] w w' host ip e = ground (arith, e)
  serves-load_config (entry ∷ entries) w w' host ip e =
      elim (Option-cases (load_entry inet stoi entry w)) [
        | inl n ↦ cc (rw n at e)
        | inr (v, n) ↦
            let rest = serves-load_config entries v w' host ip (rw n at e) in
            let first = serves-load_entry entry w v host ip n in ground (arith, rest, first)
      ]

  -- Once a configuration is loaded, the white lister serves a request at once exactly if an entry
  -- covers its address, by a range for all hosts or by one for its host.
  pub on_http_request-load_config :
      (entries : List Entry) (w : WhiteList) (parts : Parts)
      → load_config inet stoi entries (record { white_list = []; per_host = [] }) ≡ some w
      → on_http_request inet w parts ≡ (
          if any (covers parts.host parts.ip) entries
          then plain serve_immediately_dont_cache
          else plain go_ahead_no_comment)
  unfolding on_http_request lookup
  on_http_request-load_config entries w parts e =
      let loaded =
        serves-load_config entries (record { white_list = []; per_host = [] }) w parts.host parts.ip
          e in
      let served = is_white_listed_for-serves inet parts.ip w parts.host in
      ground (arith, loaded, served)
