-- ===== src/KafkaConsumer/Reloaded.antt =====
-- A reload reaches the thread.
use banjax.Base.{
  ℕ, suc, zero, ◌≤◌, ◌≡◌, ◌≢◌, [], ◌∷◌, ◌++◌, refl, ap, ◌∙◌, Bool, true, false, not, ◌&&◌, Option,
  none, some, Bytes, Dict, if◌then◌else◌, ◌>>=◌, arith,
}
use banjax.KafkaConsumer.{
  KafkaSettings, KafkaConsumer, Phase, loading, ended, loaded, consuming, received, Received,
  timed_out, other_error, payload, Answers, consumer_config, msg_consume, reload_config,
  thread_step,
}

module _ (conf_set : Bytes → Bytes → Bool) (host_name : Bytes) where
  -- Steps of the thread alone, with the same answers.
  unfoldable pub thread_steps : Answers → ℕ → KafkaConsumer → Option KafkaConsumer
  thread_steps a zero s = some s
  thread_steps a (suc n) s = thread_step conf_set host_name a s s.phase >>= thread_steps a n

  abbrev at : Phase → KafkaConsumer → KafkaConsumer
  at p s = record s { phase = p }

  abbrev pub IsLoaded : Dict Bytes × Bytes → KafkaConsumer → Type 0
  IsLoaded k s = (s.phase ≡ consuming k) × (s.config_valid ≡ true)

  module _ (a : Answers) (k : Dict Bytes × Bytes) (subscribes : a.subscribed ≡ true) where
    -- The state has what the thread needs to load its configuration.
    IsReady : KafkaConsumer → Type 0
    IsReady s =
        (s.shutting_down ≡ false) × (consumer_config conf_set host_name s.stored_config ≡ some k)

    more :
        (n : ℕ) (s t : KafkaConsumer)
        → thread_step conf_set host_name a s s.phase ≡ some t
        → thread_steps a (suc n) s ≡ thread_steps a n t
    unfolding thread_steps
    more n s t e = ap (λ o. o >>= thread_steps a n) e

    loads :
        (s : KafkaConsumer)
        → IsReady s
        → thread_step conf_set host_name a (at loading s) loading
          ≡ some (record s { phase = loaded k; config_valid = true })
    unfolding thread_step IsReady
    loads s (h, c) =
        ap
          (λ b.
            if b
            then some (at ended s)
            else (consumer_config conf_set host_name s.stored_config >>= λ conf.
                some (record s { phase = loaded conf; config_valid = true })))
          h
        ∙ ap (λ o. o >>= λ conf. some (record s { phase = loaded conf; config_valid = true })) c

    subscribed_step :
        (s : KafkaConsumer) (conf : Dict Bytes × Bytes)
        → thread_step conf_set host_name a s (loaded conf) ≡ some (at (consuming conf) s)
    unfolding thread_step
    subscribed_step s conf = ap (λ b. if b then some (at (consuming conf) s) else none) subscribes

    from_loading :
        (s : KafkaConsumer)
        → IsReady s
        → thread_steps a 2 (at loading s)
          ≡ some (record s { phase = consuming k; config_valid = true })
    unfolding thread_steps
    from_loading s r =
        more 1 (at loading s) (record s { phase = loaded k; config_valid = true }) (loads s r)
        ∙ more 0 (record s { phase = loaded k; config_valid = true })
            (record s { phase = consuming k; config_valid = true })
            (subscribed_step (record s { phase = loaded k; config_valid = true }) k)

    from_consuming :
        (s : KafkaConsumer) (conf : Dict Bytes × Bytes)
        → IsReady s
        → s.config_valid ≡ false
        → thread_steps a 3 (at (consuming conf) s)
          ≡ some (record s { phase = consuming k; config_valid = true })
    unfolding thread_step
    from_consuming s conf r v =
        more 2 (at (consuming conf) s) (at loading s) (
          ap
            (λ b.
              if b && not s.shutting_down
              then some (at (received conf a.consumed) s)
              else some (at loading s))
            v)
        ∙ from_loading s r

    -- Within four steps the thread consumes with the configuration.
    CatchesUp : KafkaConsumer → Type 0
    CatchesUp s =
        (n : ℕ) × (s' : KafkaConsumer) × (n ≤ 4)
        × (thread_steps a n s ≡ some s')
        × IsLoaded k s'
        × (s'.banjax ≡ s.banjax)

    -- A message changes nothing but what is delivered.
    after_message :
        (locked : Bool) (m : Received) (conf : Dict Bytes × Bytes) (s : KafkaConsumer)
        → IsReady s
        → s.config_valid ≡ false
        → (t : KafkaConsumer) × (msg_consume locked m (at (consuming conf) s)
            ≡ at (consuming conf) t)
          × IsReady t
          × (t.config_valid ≡ false)
          × (t.banjax ≡ s.banjax)
    unfolding msg_consume IsReady
    after_message false m conf s r v = (s, refl, r, v, refl)
    after_message true timed_out conf s r v = (s, refl, r, v, refl)
    after_message true other_error conf s r v = (s, refl, r, v, refl)
    after_message true (payload none) conf s r v = (s, refl, r, v, refl)
    after_message true (payload (some m)) conf s r v =
        (record s { delivered = s.delivered ++ (s.banjax, m) ∷ [] }, refl, r, v, refl)

    catch_up :
        (p : Phase) (s : KafkaConsumer)
        → p ≢ ended
        → IsReady s
        → s.config_valid ≡ false
        → CatchesUp (at p s)
    unfolding CatchesUp thread_step
    catch_up ended s n r v = absurd (n refl)
    catch_up loading s n r v = (
      2,
      record s { phase = consuming k; config_valid = true },
      omega arith,
      from_loading s r,
      (refl, refl),
      refl,
    )
    catch_up (consuming conf) s n r v = (
      3,
      record s { phase = consuming k; config_valid = true },
      omega arith,
      from_consuming s conf r v,
      (refl, refl),
      refl,
    )
    catch_up (loaded conf) s n r v = (
      4,
      record s { phase = consuming k; config_valid = true },
      omega arith,
      more 3 (at (loaded conf) s) (at (consuming conf) s) (subscribed_step s conf)
          ∙ from_consuming s conf r v,
      (refl, refl),
      refl,
    )
    catch_up (received conf m) s n r v =
        let (t, e, r', v', q) = after_message a.locked m conf s r v in
        (
          4,
          record t { phase = consuming k; config_valid = true },
          omega arith,
          more 3 (at (received conf m) s) (at (consuming conf) t) (ap some e)
              ∙ from_consuming t conf r' v',
          (refl, refl),
          q,
        )

    -- After a reload with a configuration that librdkafka takes, at most four steps of a running
    -- thread, whose subscription succeeds, lead to consuming with that configuration, for the new
    -- Banjax. No shutdown has been asked for.
    pub reload_config-thread_steps :
        (s : KafkaConsumer) (config : KafkaSettings) (b : ℕ)
        → s.shutting_down ≡ false
        → s.phase ≢ ended
        → consumer_config conf_set host_name config ≡ some k
        → (n : ℕ) × (s' : KafkaConsumer) × (n ≤ 4)
          × (thread_steps a n (reload_config config b s) ≡ some s')
          × IsLoaded k s'
          × (s'.banjax ≡ b)
    unfolding reload_config CatchesUp IsReady
    reload_config-thread_steps s config b h n c =
        catch_up s.phase (reload_config config b s) n (h, c) refl
