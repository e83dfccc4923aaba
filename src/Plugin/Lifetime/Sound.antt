-- ===== src/Plugin/Lifetime/Sound.antt =====
-- What holds of the plugin however transactions, bans and reloads follow one another.
use banjax.Base.{ℕ, ◌≡◌, inl, inr, refl, subst, arith, List, Bytes, Bool-cases, Option-cases}
use banjax.Config.Read.{done, done-bind, done_inj}
use banjax.Plugin.State.{nothing_handed, Outside}
use banjax.Plugin.Construct.{new_banjax}
use banjax.Plugin.Lifetime.{
  Process, Step, mgmt_update, other_event, handle_management, starts, closes, reloads, bans,
  delivers, expires, Reachable, here, next,
}
use banjax.Plugin.Start.{PluginLoad, check_ts_version, config_folder, ts_plugin_init, new_plugin}
use banjax.Plugin.Lifetime.Living.{IsSound}
use banjax.Plugin.Lifetime.Settled.{handle_transaction_start-IsSound, end_transaction-IsSound}
use banjax.Plugin.Lifetime.Updated.{ban_by-IsSound, deliver-IsSound, expire-IsSound}
use banjax.Plugin.Lifetime.New.{new_banjax-IsNew}
use banjax.Plugin.Lifetime.Renewed.{reload_config-IsSound}

module _ {N : Type 0} where
  Step-IsSound : {p q : Process N} → Step p q → IsSound p → IsSound q
  unfolding handle_management
  Step-IsSound {p = p} (starts event txnp) s = handle_transaction_start-IsSound event txnp p s
  Step-IsSound {p = p} (closes txnp) s = end_transaction-IsSound txnp p s
  Step-IsSound {p = p} {q = q} (reloads o mgmt_update now e) s = reload_config-IsSound o now p q s e
  Step-IsSound (reloads o other_event now e) s = absurd (cc e)
  Step-IsSound {p = p} (bans o n ip reason) s = ban_by-IsSound o n ip reason p s
  Step-IsSound {p = p} (delivers o spec m) s = deliver-IsSound o spec m p s
  Step-IsSound {p = p} (expires now) s = expire-IsSound now p s

  Reachable-IsSound_from : {p q : Process N} → Reachable p q → IsSound p → IsSound q
  Reachable-IsSound_from here s = s
  Reachable-IsSound_from (next r k) s = Step-IsSound k (Reachable-IsSound_from r s)

  module _ (o : Outside N) where
    new_plugin-IsSound :
        (dir : Bytes) (now : ℕ) (p : Process N) → new_plugin o dir now ≡ done p → IsSound p
    unfolding new_plugin
    new_plugin-IsSound dir now p e =
        let (b, made, rest) = done-bind (new_banjax o dir nothing_handed 0 0) _ p e in
        let new = new_banjax-IsNew o _ _ _ _ b made in
        subst IsSound (done_inj _ p rest) (record {
          numbers_fall = (omega (arith, new.number_given), tt);
          actions_own = (new.actions_own, tt);
          actions_live = refl;
          consumer_current = new.consumer_current;
          older_retired = tt;
          transactions_safe = tt;
          older_held = tt;
        })

    -- From the plugin that `TSPluginInit` has made, however transactions, bans, messages from
    -- Kafka, removals of expired challenges and reloads follow one another: the `Banjax` of each
    -- transaction is alive; an older one is alive only while a transaction holds it, its swabber
    -- and its bot sniffer have no socket, and it has no Kafka consumer; the consumer delivers to
    -- the current one; and Traffic Server has exactly the scheduled actions of those alive.
    pub Reachable-IsSound :
        (l : PluginLoad) (argv : List Bytes) (p q : Process N)
        → ts_plugin_init o l argv ≡ done p
        → Reachable p q
        → IsSound q
    unfolding ts_plugin_init
    Reachable-IsSound l argv p q e r =
        let started : IsSound p =
          elim (Bool-cases (check_ts_version l.scan l.traffic_server_version)) [
            | inr v ↦ absurd (cc (rw v at e))
            | inl v ↦ elim (Option-cases (config_folder l argv)) [
              | inl f ↦ absurd (cc (rw (v, f) at e))
              | inr (dir, f) ↦ elim (Bool-cases l.registers) [
                | inl g ↦ new_plugin-IsSound dir l.now p (rw (v, f, g) at e)
                | inr g ↦ absurd (cc (rw (v, f, g) at e))
              ]
            ]
          ] in
        Reachable-IsSound_from r started
