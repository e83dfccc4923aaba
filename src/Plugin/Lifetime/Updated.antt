-- ===== src/Plugin/Lifetime/Updated.antt =====
-- Bans, messages from Kafka and the removal of expired challenges: work on one `Banjax`.
use banjax.Base.{
  ℕ, ◌≡◌, inl, inr, refl, sym, ap, ◌∙◌, true, List, [], ◌∷◌, Option, none, some, Bytes, All, ◌==◌,
  Bool-cases,
}
use banjax.World.{World}
use banjax.Swabber.Released.{ban-IsSilent}
use banjax.Plugin.State.{Banjax, Outside}
use banjax.Plugin.Lifetime.{
  Started, Process, held, is_there, with_actions, update_all, update_banjax, ban_in, ban_by,
  consume_in, deliver_to, deliver, expire_in, expire,
}
use banjax.Plugin.Lifetime.Actions.{OwnsActions, IsBelow, all_actions}
use banjax.Commands.{NameValue}
use banjax.Commands.Kept.{kafka_message_consume-socket}
use banjax.KafkaConsumer.{KafkaConsumer}
use banjax.Filter.{HostChallengeSpec}
use banjax.Challenger.State.{Challenger}
use banjax.Plugin.Lifetime.Living.{All-imp, IsRetired, is_among, living, IsSound}

module _ {N : Type 0} where
  module _ (n : ℕ) (f : Banjax N → Option Challenger × World) where
    update_all-IsBelow :
        (k : ℕ) (bs : List (Banjax N)) → IsBelow k bs → IsBelow k (update_all n f bs)
    update_all-IsBelow k [] i = tt
    update_all-IsBelow k (b ∷ bs) i = (i.0, update_all-IsBelow b.number bs i.1)

    update_all-OwnsActions :
        (bs : List (Banjax N)) → All OwnsActions bs → All OwnsActions (update_all n f bs)
    update_all-OwnsActions [] i = tt
    update_all-OwnsActions (b ∷ bs) i = (i.0, update_all-OwnsActions bs i.1)

    all_actions-update_all :
        (bs : List (Banjax N)) → all_actions (update_all n f bs) ≡ all_actions bs
    all_actions-update_all [] = refl
    all_actions-update_all (b ∷ bs) = ap (with_actions b) (all_actions-update_all bs)

    is_among-update_all :
        (bs : List (Banjax N)) (k : ℕ) → is_among (update_all n f bs) k ≡ is_among bs k
    is_among-update_all [] k = refl
    is_among-update_all (b ∷ bs) k = rw (is_among-update_all bs k) refl

    update_all-IsRetired :
        ((b : Banjax N) → b.shared.socket ≡ none → (f b).1.socket ≡ none)
        → (bs : List (Banjax N)) → All IsRetired bs
        → All IsRetired (update_all n f bs)
    update_all-IsRetired h [] i = tt
    update_all-IsRetired h (b ∷ bs) i = (
      (
        elim (Bool-cases (b.number == n)) [ inl e ↦ rw e (h b i.0.0) | inr e ↦ rw e (i.0.0) ],
        i.0.1,
        i.0.2,
      ),
      update_all-IsRetired h bs i.1,
    )

    update_all-held :
        (ts : List Started) (bs : List (Banjax N))
        → All (λ b. held ts b.number ≡ true) bs
        → All (λ b. held ts b.number ≡ true) (update_all n f bs)
    update_all-held ts [] i = tt
    update_all-held ts (b ∷ bs) i = (i.0, update_all-held ts bs i.1)

    update_banjax-IsSound :
        ((b : Banjax N) → b.shared.socket ≡ none → (f b).1.socket ≡ none)
        → (p : Process N) → IsSound p
        → IsSound (update_banjax n f p)
    update_banjax-IsSound h p s =
        let c = p.plugin.current_state in
        record {
          numbers_fall = (s.numbers_fall.0, update_all-IsBelow c.number p.older s.numbers_fall.1);
          actions_own = (s.actions_own.0, update_all-OwnsActions p.older s.actions_own.1);
          actions_live =
              s.actions_live ∙ ap (with_actions c) (sym (all_actions-update_all p.older));
          consumer_current = s.consumer_current;
          older_retired = update_all-IsRetired h p.older s.older_retired;
          transactions_safe =
              All-imp (λ t. is_among (living p) t.banjax ≡ true)
                (λ t. is_among (living p) t.banjax ≡ true) _ p.transactions
                (λ t h i. rw (is_among-update_all p.older t.banjax) h) s.transactions_safe
                s.transactions_safe;
          older_held = update_all-held p.transactions p.older s.older_held;
        }

  module _ (o : Outside N) where
    pub ban_by-IsSound :
        (n : ℕ) (ip reason : Bytes) (p : Process N) → IsSound p → IsSound (ban_by o n ip reason p)
    unfolding ban_by
    ban_by-IsSound n ip reason p s =
        update_banjax-IsSound n (ban_in o ip reason)
          (λ b h. (ban-IsSilent o.surroundings ip reason b.shared h).0) p s

    deliver_to-IsSound :
        (spec : HostChallengeSpec) (m : Option NameValue) (p : Process N) (k : Option KafkaConsumer)
        → IsSound p
        → IsSound (deliver_to o spec m p k)
    deliver_to-IsSound spec m p none s = s
    deliver_to-IsSound spec m p (some k) s =
        update_banjax-IsSound k.banjax (consume_in o spec m)
          (λ b h.
            kafka_message_consume-socket o.surroundings (is_there b.kafka_producer) spec m
              b.own_challenger b.shared
            ∙ h)
          p s

    pub deliver-IsSound :
        (spec : HostChallengeSpec) (m : Option NameValue) (p : Process N)
        → IsSound p
        → IsSound (deliver o spec m p)
    unfolding deliver
    deliver-IsSound spec m p s = deliver_to-IsSound spec m p p.plugin.current_state.kafka_consumer s

  pub expire-IsSound : (now : ℕ) (p : Process N) → IsSound p → IsSound (expire now p)
  unfolding expire
  expire-IsSound now p s =
      update_banjax-IsSound p.plugin.current_state.number (expire_in now) (λ b h. h) p s
