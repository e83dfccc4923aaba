-- ===== src/Plugin/Lifetime/Living.antt =====
-- What is kept of the plugin: who owns what, who is alive, and what is scheduled.
use banjax.Base.{ℕ, ◌≡◌, Bool, true, List, [], ◌∷◌, Option, none, some, Bytes, All, any, ◌==◌}
use banjax.BotSniffer.{BotSniffer}
use banjax.KafkaConsumer.{KafkaConsumer}
use banjax.Plugin.State.{Banjax}
use banjax.Plugin.Lifetime.{Process, held}
use banjax.Plugin.Lifetime.Actions.{OwnsActions, IsBelow, all_actions}

abbrev pub TalksTo : ℕ → Option KafkaConsumer → Type 0
TalksTo n none = Unit
TalksTo n (some k) = k.banjax ≡ n

abbrev pub sniffer_socket : Option BotSniffer → Option Bytes
sniffer_socket none = none
sniffer_socket (some k) = k.socket

pub All-imp {ℓ} :
    {A : Type ℓ} (P Q R : A → Type 0) (l : List A)
    → ((a : A) → P a → Q a → R a)
    → All P l
    → All Q l
    → All R l
All-imp P Q R [] f i j = tt
All-imp P Q R (a ∷ l) f i j = (f a i.0 j.0, All-imp P Q R l f i.1 j.1)

module _ {N : Type 0} where
  -- It has no socket of the swabber or the bot sniffer, and no consumer.
  abbrev pub IsRetired : Banjax N → Type 0
  IsRetired b =
      (b.shared.socket ≡ none) × (sniffer_socket b.sniffer ≡ none) × (b.kafka_consumer ≡ none)

  abbrev pub is_among : List (Banjax N) → ℕ → Bool
  is_among bs n = any (λ b. b.number == n) bs

  abbrev pub living : Process N → List (Banjax N)
  living p = p.plugin.current_state ∷ p.older

  pub record IsSound (p : Process N) : Type 0 where
    pub numbers_fall : IsBelow p.created (living p)
    pub actions_own : All OwnsActions (living p)
    -- Traffic Server has the actions of the living, and no others.
    pub actions_live : p.actions ≡ all_actions (living p)
    -- Only the current one sends to the swabber, publishes and consumes.
    pub older_retired : All IsRetired p.older
    pub consumer_current :
        TalksTo p.plugin.current_state.number p.plugin.current_state.kafka_consumer
    -- A transaction keeps its `Banjax` alive, and an older one is alive by a transaction.
    pub transactions_safe : All (λ t. is_among (living p) t.banjax ≡ true) p.transactions
    pub older_held : All (λ b. held p.transactions b.number ≡ true) p.older

  -- The same, before the last `shared_ptr` are looked at.
  pub record IsUnsettled (p : Process N) : Type 0 where
    pub numbers_fall : IsBelow p.created (living p)
    pub actions_own : All OwnsActions (living p)
    pub actions_live : p.actions ≡ all_actions (living p)
    pub older_retired : All IsRetired p.older
    pub transactions_safe : All (λ t. is_among (living p) t.banjax ≡ true) p.transactions
    pub consumer_current :
        TalksTo p.plugin.current_state.number p.plugin.current_state.kafka_consumer
