-- ===== src/Tests/Commanded.antt =====
-- Commands from Kafka.
use banjax.Base.{◌≡◌, refl, [], ◌∷◌, some, codes, lookup, false}
use banjax.Challenger.State.{Challenger, challenges_to_run}
use banjax.Commands.{kafka_message_consume}
use banjax.Commands.Served.{kafka_message_consume-challenges_to_run}
use banjax.Tests.Samples.{surroundings, world, spec, challenger}

kafka_message_consume-challenges_to_run_example :
    ((by_host : Challenger) × ((kafka_message_consume surroundings false spec
          (some (record { name = codes "challenge_host"; value = codes "example.com" }))
          (some challenger)
          world).0
        ≡ some by_host)
      × ((challenges_to_run surroundings by_host (codes "example.com") (codes "1.2.3.4") world).0
          ≡ some (spec ∷ [])))
    × ((by_ip : Challenger) × ((kafka_message_consume surroundings false spec
            (some (record { name = codes "challenge_ip"; value = codes "1.2.3.4" }))
            (some challenger)
            world).0
          ≡ some by_ip)
        × ((challenges_to_run surroundings by_ip (codes "example.com") (codes "1.2.3.4") world).0
            ≡ some (spec ∷ spec ∷ [])))
unfolding lookup
kafka_message_consume-challenges_to_run_example =
    kafka_message_consume-challenges_to_run surroundings (λ n. refl) spec false challenger
      (codes "example.com") (codes "1.2.3.4") world world refl refl
