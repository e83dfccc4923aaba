-- ===== src/Commands/Served.antt =====
-- What a command from Kafka does to the requests that follow.
use banjax.Base.{
  ℕ, suc, ◌≡◌, refl, ap, ◌∙◌, Bool, true, [], ◌∷◌, none, some, Bytes, codes, beq, beq_refl, lookup,
  insert, lookup-insert, if◌then◌else◌, arith,
}
use banjax.Challenger.State.{
  Challenger, load_single_host_challenge, load_single_ip_challenge, challenges_to_run,
}
use banjax.Commands.{kafka_message_consume}
use banjax.Filter.{HostChallengeSpec}
use banjax.World.{Surroundings, World}

module _ (e : Surroundings) (locks : (n : ℕ) → e.lock n ≡ true) (spec : HostChallengeSpec) where
  challenges_to_run-load_single_host_challenge :
      (c : Challenger) (host ip : Bytes) (w : World)
      → lookup host c.host_challenges_static ≡ none
      → (challenges_to_run e (load_single_host_challenge host spec c) host ip w).0
        ≡ some (spec ∷ [])
  unfolding challenges_to_run load_single_host_challenge
  challenges_to_run-load_single_host_challenge c host ip w s =
      let found : lookup host (insert host spec c.host_to_challenge_dynamic) ≡ some spec =
        lookup-insert host host spec c.host_to_challenge_dynamic
        ∙ ap (λ b. if b then some spec else lookup host c.host_to_challenge_dynamic)
            (beq_refl host) in
      ground (arith, s, locks w.calls, found)

  challenges_to_run-load_single_ip_challenge :
      (c : Challenger) (host ip : Bytes) (w : World)
      → lookup host c.host_challenges_static ≡ none
      → lookup host c.host_to_challenge_dynamic ≡ none
      → (challenges_to_run e (load_single_ip_challenge ip spec c) host ip w).0
        ≡ some (spec ∷ spec ∷ [])
  unfolding challenges_to_run load_single_ip_challenge
  challenges_to_run-load_single_ip_challenge c host ip w s d =
      let found : lookup ip (insert ip spec c.ip_to_challenge_dynamic) ≡ some spec =
        lookup-insert ip ip spec c.ip_to_challenge_dynamic
        ∙ ap (λ b. if b then some spec else lookup ip c.ip_to_challenge_dynamic) (beq_refl ip) in
      ground (arith, s, d, locks w.calls, locks (suc w.calls), found)

  -- When the locks are free and a host has no challenge yet, neither from the disk nor from Kafka,
  -- the command `challenge_host` makes the next requests to the host run its challenge once, and
  -- the command `challenge_ip` makes the next requests from the address run its challenge twice.
  pub kafka_message_consume-challenges_to_run :
      (producer : Bool) (c : Challenger) (host ip : Bytes) (v w : World)
      → lookup host c.host_challenges_static ≡ none
      → lookup host c.host_to_challenge_dynamic ≡ none
      → ((by_host : Challenger) × ((kafka_message_consume e producer spec
              (some (record { name = codes "challenge_host"; value = host }))
              (some c)
              v).0
            ≡ some by_host)
          × ((challenges_to_run e by_host host ip w).0 ≡ some (spec ∷ [])))
        × ((by_ip : Challenger) × ((kafka_message_consume e producer spec
                (some (record { name = codes "challenge_ip"; value = ip }))
                (some c)
                v).0
              ≡ some by_ip)
            × ((challenges_to_run e by_ip host ip w).0 ≡ some (spec ∷ spec ∷ [])))
  unfolding kafka_message_consume beq
  kafka_message_consume-challenges_to_run producer c host ip v w s d = (
    (
      load_single_host_challenge host spec c,
      refl,
      challenges_to_run-load_single_host_challenge c host ip w s,
    ),
    (
      load_single_ip_challenge ip spec c,
      refl,
      challenges_to_run-load_single_ip_challenge c host ip w s d,
    ),
  )
