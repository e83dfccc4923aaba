-- ===== src/Challenger/Load/Dynamic.antt =====
-- The configuration leaves the challenges from Kafka as they are.
use mathlib.Core.Option.{some-injective}
use banjax.Base.{
  ℕ, ◌≡◌, inl, inr, refl, ◌∙◌, subst, some, Bytes, some-bind, Bool-cases, Option-cases,
}
use banjax.Challenger.State.{Challenger}
use banjax.Challenger.Load.{
  ChallengerNode, Field, absent, unfit, value, loaded, required, load_challenges, load_static,
  load_dynamic, load_config,
}
use banjax.Library.{Library}

-- Both maps are the same.
abbrev pub KeepsDynamic : Challenger → Challenger → Type 0
KeepsDynamic c c' =
    (c'.host_to_challenge_dynamic ≡ c.host_to_challenge_dynamic)
    × (c'.ip_to_challenge_dynamic ≡ c.ip_to_challenge_dynamic)

kept_by : (c d c' : Challenger) → KeepsDynamic c d → loaded d ≡ loaded c' → KeepsDynamic c c'
kept_by c d c' k e = let q : d ≡ c' = cc e in subst (KeepsDynamic c) q k

load_dynamic-KeepsDynamic :
    (cfg : ChallengerNode) (c c' : Challenger) (f : Field ℕ)
    → load_dynamic cfg c f ≡ loaded c'
    → KeepsDynamic c c'
unfolding load_dynamic
load_dynamic-KeepsDynamic cfg c c' absent e = kept_by c c c' (refl, refl) e
load_dynamic-KeepsDynamic cfg c c' unfit e = kept_by c c c' (refl, refl) e
load_dynamic-KeepsDynamic cfg c c' (value seconds) e =
    elim (Option-cases cfg.dynamic_challenger_config) [
      | inl n ↦ absurd (cc (rw n at e))
      | inr (b, n) ↦ elim (Bool-cases b) [
        | inl t ↦
            kept_by c (record c { dynamic_expiry_seconds = seconds }) c' (refl, refl)
              (rw (n, t) at e)
        | inr t ↦ absurd (cc (rw (n, t) at e))
      ]
    ]

module _ (x : Library) (read_file : Bytes → Bytes) (dir : Bytes) (now : ℕ) where
  load_static-KeepsDynamic :
      (cfg : ChallengerNode) (c d : Challenger)
      → load_static x read_file dir now cfg c ≡ some d
      → KeepsDynamic c d
  unfolding load_static
  load_static-KeepsDynamic cfg c d e =
      let (m, e0, e1) =
        some-bind (load_challenges x read_file dir now cfg.challenges c.host_challenges_static) _ d
          e in
      let (key, e2, e3) = some-bind (required cfg.key) _ d e1 in
      let (zeros, e4, e5) = some-bind (required cfg.difficulty) _ d e3 in
      subst (KeepsDynamic c) (some-injective _ d e5) (refl, refl)

  pub load_config-KeepsDynamic :
      (cfg : ChallengerNode) (c c' : Challenger)
      → load_config x read_file dir now cfg c ≡ loaded c'
      → KeepsDynamic c c'
  unfolding load_config
  load_config-KeepsDynamic cfg c c' e =
      elim (Option-cases (load_static x read_file dir now cfg c)) [
        | inl n ↦ absurd (cc (rw (n, load_config) at e))
        | inr (d, n) ↦
            let (h, i) = load_static-KeepsDynamic cfg c d n in
            let (h', i') =
              load_dynamic-KeepsDynamic cfg d c' cfg.dynamic_expiry_seconds
                (rw (n, load_config) at e) in
            (h' ∙ h, i' ∙ i)
      ]
