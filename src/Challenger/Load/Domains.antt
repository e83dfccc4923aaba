-- ===== src/Challenger/Load/Domains.antt =====
-- Every domain gets the challenges that list it.
use mathlib.Core.Option.{some-injective}
use mathlib.Core.List.{append-nil, append_assoc}
use banjax.Base.{
  ℕ, ◌≡◌, refl, ap, sym, ◌∙◌, inl, inr, true, false, List, [], ◌∷◌, ◌++◌, Option, none, some, Bytes,
  beq, beq_iff, Dict, insert, lookup-insert, if◌then◌else◌, Bool-cases, Option-cases, some-bind,
}
use banjax.Challenger.State.{Challenger}
use banjax.Filter.{HostChallengeSpec}
use banjax.Library.{Library}
use banjax.Challenger.Load.{
  ChallengeNode, ChallengerNode, Field, value, absent, unfit, loaded, required, or_no_challenges,
  challenges_at, push_domains, parse_single_challenge, load_challenges, load_static, load_dynamic,
  load_config,
}

-- A challenge once for each time that its list has the domain.
unfoldable pub once_per : HostChallengeSpec → Bytes → List (Option Bytes) → List HostChallengeSpec
once_per spec d [] = []
once_per spec d (none ∷ ds) = once_per spec d ds
once_per spec d (some k ∷ ds) = if beq k d then spec ∷ once_per spec d ds else once_per spec d ds

challenges_at-insert :
    (k d : Bytes) (v : List HostChallengeSpec) (m : Dict (List HostChallengeSpec))
    → challenges_at d (insert k v m) ≡ (if beq k d then v else challenges_at d m)
challenges_at-insert k d v m = elim (Bool-cases (beq k d)) [
  | inl b ↦ ap or_no_challenges (lookup-insert k d v m) ∙ rw b refl
  | inr b ↦ ap or_no_challenges (lookup-insert k d v m) ∙ rw b refl
]

push_domains-at :
    (spec : HostChallengeSpec) (d : Bytes) (ds : List (Option Bytes))
    (m m' : Dict (List HostChallengeSpec))
    → push_domains spec ds m ≡ some m'
    → challenges_at d m' ≡ challenges_at d m ++ once_per spec d ds
unfolding push_domains once_per
push_domains-at spec d [] m m' e =
    ap (challenges_at d) (sym (some-injective m m' e)) ∙ sym (append-nil (challenges_at d m))
push_domains-at spec d (none ∷ ds) m m' e = absurd (cc e)
push_domains-at spec d (some k ∷ ds) m m' e =
    let l = challenges_at k m ++ spec ∷ [] in
    let rest = push_domains-at spec d ds (insert k l m) m' e in
    elim (Bool-cases (beq k d)) [
      | inl b ↦
          let same : challenges_at k m ≡ challenges_at d m =
            ap (λ j. challenges_at j m) ((beq_iff k d).0 b) in
          rest
          ∙ ap (λ y. y ++ once_per spec d ds) (challenges_at-insert k d l m)
          ∙ rw b (
              ap (λ y. (y ++ spec ∷ []) ++ once_per spec d ds) same
              ∙ append_assoc (challenges_at d m) (spec ∷ []) (once_per spec d ds))
      | inr b ↦ rest ∙ ap (λ y. y ++ once_per spec d ds) (challenges_at-insert k d l m) ∙ rw b refl
    ]

loaded_inj : (c c' : Challenger) → loaded c ≡ loaded c' → c ≡ c'
loaded_inj c c' e = cc e

module _ (x : Library) (read_file : Bytes → Bytes) (banjax_dir : Bytes) (now : ℕ) where
  -- The challenges that list a domain, in the order of the configuration.
  unfoldable pub listed : Bytes → List ChallengeNode → List HostChallengeSpec
  unfolding once_per
  listed d [] = []
  listed d (ch ∷ chs) = elim (parse_single_challenge x read_file banjax_dir now ch) [
    | none ↦ listed d chs
    | some spec ↦ once_per spec d ch.domains ++ listed d chs
  ]

  load_challenges-at :
      (d : Bytes) (chs : List ChallengeNode) (m m' : Dict (List HostChallengeSpec))
      → load_challenges x read_file banjax_dir now chs m ≡ some m'
      → challenges_at d m' ≡ challenges_at d m ++ listed d chs
  unfolding load_challenges listed
  load_challenges-at d [] m m' e =
      ap (challenges_at d) (sym (some-injective m m' e)) ∙ sym (append-nil (challenges_at d m))
  load_challenges-at d (ch ∷ chs) m m' e =
      elim (Option-cases (parse_single_challenge x read_file banjax_dir now ch)) [
        | inl n ↦ absurd (cc (rw (n, load_challenges) at e))
        | inr (spec, n) ↦ elim (Option-cases (push_domains spec ch.domains m)) [
          | inl k ↦ absurd (cc (rw (n, k, load_challenges) at e))
          | inr (t, k) ↦
              load_challenges-at d chs t m' (rw (n, k, load_challenges) at e)
              ∙ ap (λ y. y ++ listed d chs) (push_domains-at spec d ch.domains m t k)
              ∙ rw (n, listed)
                  (append_assoc (challenges_at d m) (once_per spec d ch.domains) (listed d chs))
        ]
      ]

  load_static-challenges :
      (cfg : ChallengerNode) (c c' : Challenger)
      → load_static x read_file banjax_dir now cfg c ≡ some c'
      → load_challenges x read_file banjax_dir now cfg.challenges c.host_challenges_static
        ≡ some c'.host_challenges_static
  unfolding load_static
  load_static-challenges cfg c c' e =
      let (m, e1, e2) =
        some-bind
          (load_challenges x read_file banjax_dir now cfg.challenges c.host_challenges_static) _ c'
          e in
      let (key, _, e3) = some-bind (required cfg.key) _ c' e2 in
      let (zeros, _, e4) = some-bind (required cfg.difficulty) _ c' e3 in
      e1 ∙ ap (λ y. some y.host_challenges_static) (some-injective _ c' e4)

  load_dynamic-static :
      (cfg : ChallengerNode) (c c' : Challenger) (f : Field ℕ)
      → load_dynamic cfg c f ≡ loaded c'
      → c'.host_challenges_static ≡ c.host_challenges_static
  unfolding load_dynamic
  load_dynamic-static cfg c c' absent e =
      ap (λ y. y.host_challenges_static) (sym (loaded_inj c c' e))
  load_dynamic-static cfg c c' unfit e =
      ap (λ y. y.host_challenges_static) (sym (loaded_inj c c' e))
  load_dynamic-static cfg c c' (value v) e = elim (Option-cases cfg.dynamic_challenger_config) [
    | inl n ↦ absurd (cc (rw (n, load_dynamic) at e))
    | inr (true, n) ↦
        ap (λ y. y.host_challenges_static)
          (sym
            (loaded_inj (record c { dynamic_expiry_seconds = v }) c' (rw (n, load_dynamic) at e)))
    | inr (false, n) ↦ absurd (cc (rw (n, load_dynamic) at e))
  ]

  -- When the configuration of the challenger loads, a host has the challenges that it had, and
  -- after them those whose list of domains has the host, in the order of the configuration, once
  -- for each time that a list has it.
  pub load_config-listed :
      (cfg : ChallengerNode) (c c' : Challenger) (d : Bytes)
      → load_config x read_file banjax_dir now cfg c ≡ loaded c'
      → challenges_at d c'.host_challenges_static
        ≡ challenges_at d c.host_challenges_static ++ listed d cfg.challenges
  unfolding load_config
  load_config-listed cfg c c' d e =
      elim (Option-cases (load_static x read_file banjax_dir now cfg c)) [
        | inl n ↦ absurd (cc (rw (n, load_config) at e))
        | inr (t, n) ↦
            ap (challenges_at d)
              (load_dynamic-static cfg t c' cfg.dynamic_expiry_seconds (rw (n, load_config) at e))
            ∙ load_challenges-at d cfg.challenges c.host_challenges_static t.host_challenges_static
                (load_static-challenges cfg c t n)
      ]
