-- ===== src/KafkaConsumer/Current.antt =====
-- The configuration in use is the one that is stored, while it is valid.
use mathlib.Core.Option.{some-injective}
use banjax.Base.{
  ℕ, ◌≡◌, inl, inr, refl, sym, ◌∙◌, subst, Bool, true, false, not, ◌&&◌, none, some, Bytes,
  Bool-cases, Option-cases,
}
use banjax.KafkaConsumer.{
  KafkaSettings, KafkaConsumer, Phase, loading, ended, loaded, consuming, received, Received,
  timed_out, other_error, payload, Answers, consumer_config, msg_consume, reload_config, shutdown,
  thread_step, Step, by_thread, by_reload, by_shutdown, Reachable, here, next, new_consumer,
}

module _ (conf_set : Bytes → Bytes → Bool) (host_name : Bytes) where
  -- The configuration in use is the stored one.
  abbrev pub UsesStored : Phase → KafkaSettings → Type 0
  UsesStored loading stored = Unit
  UsesStored ended stored = Unit
  UsesStored (loaded conf) stored = consumer_config conf_set host_name stored ≡ some conf
  UsesStored (consuming conf) stored = consumer_config conf_set host_name stored ≡ some conf
  UsesStored (received conf message) stored = consumer_config conf_set host_name stored ≡ some conf

  -- While the configuration is valid, the thread uses the one that is stored.
  abbrev pub IsCurrent : KafkaConsumer → Type 0
  IsCurrent s = s.config_valid ≡ true → UsesStored s.phase s.stored_config

  msg_consume-IsCurrent :
      (locked : Bool) (m : Received) (s : KafkaConsumer)
      → IsCurrent s
      → IsCurrent (msg_consume locked m s)
  unfolding msg_consume
  msg_consume-IsCurrent false m s i = i
  msg_consume-IsCurrent true timed_out s i = i
  msg_consume-IsCurrent true other_error s i = i
  msg_consume-IsCurrent true (payload none) s i = i
  msg_consume-IsCurrent true (payload (some m)) s i = i

  given : (s s' : KafkaConsumer) → some s ≡ some s' → IsCurrent s → IsCurrent s'
  given s s' e i = subst IsCurrent (some-injective s s' e) i

  thread_step-IsCurrent :
      (a : Answers) (s s' : KafkaConsumer) (p : Phase)
      → (s.config_valid ≡ true → UsesStored p s.stored_config)
      → thread_step conf_set host_name a s p ≡ some s'
      → IsCurrent s'
  unfolding thread_step
  thread_step-IsCurrent a s s' loading i e = elim (Bool-cases s.shutting_down) [
    | inl b ↦ given (record s { phase = ended }) s' (sym (rw b refl) ∙ e) (λ v. tt)
    | inr b ↦ elim (Option-cases (consumer_config conf_set host_name s.stored_config)) [
      | inl n ↦ absurd (cc (rw (b, n) at e))
      | inr (k, n) ↦
          given (record s { shutting_down = false; phase = loaded k; config_valid = true }) s'
            (rw (b, n) at e) (λ v. n)
    ]
  ]
  thread_step-IsCurrent a s s' (loaded conf) i e = elim (Bool-cases a.subscribed) [
    | inl b ↦ given (record s { phase = consuming conf }) s' (rw b at e) i
    | inr b ↦ absurd (cc (rw b at e))
  ]
  thread_step-IsCurrent a s s' (consuming conf) i e =
      elim (Bool-cases (s.config_valid && not s.shutting_down)) [
        | inl b ↦ given (record s { phase = received conf a.consumed }) s' (rw b at e) i
        | inr b ↦ given (record s { phase = loading }) s' (rw b at e) (λ v. tt)
      ]
  thread_step-IsCurrent a s s' (received conf m) i e =
      given (msg_consume a.locked m (record s { phase = consuming conf })) s' e
        (msg_consume-IsCurrent a.locked m (record s { phase = consuming conf }) i)
  thread_step-IsCurrent a s s' ended i e = absurd (cc e)

  Step-IsCurrent :
      {s s' : KafkaConsumer} → Step conf_set host_name s s' → IsCurrent s → IsCurrent s'
  unfolding reload_config shutdown
  Step-IsCurrent {s = s} {s' = s'} (by_thread a e) i = thread_step-IsCurrent a s s' s.phase i e
  Step-IsCurrent (by_reload config b) i = λ v. absurd (cc v)
  Step-IsCurrent (by_shutdown) i = i

  -- However the consumer thread, reloads and a shutdown interleave, while the configuration is
  -- valid the thread uses what it has made of the stored configuration.
  pub Reachable-IsCurrent :
      (garbage : Bool) (config : KafkaSettings) (b : ℕ) (s : KafkaConsumer)
      → Reachable conf_set host_name (new_consumer garbage config b) s
      → IsCurrent s
  unfolding new_consumer
  Reachable-IsCurrent garbage config b s here = λ v. tt
  Reachable-IsCurrent garbage config b s (next {t = t} r k) =
      Step-IsCurrent k (Reachable-IsCurrent garbage config b t r)
