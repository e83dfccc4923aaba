-- ===== src/Plugin/Lifetime/Rebound.antt =====
-- What a reload takes over: the bound sockets; and what it does not: the ip databases.
use banjax.Base.{
  ℕ, ◌≡◌, inl, inr, refl, sym, ap, ◌∙◌, subst, [], Option, none, some, Bytes, Option-cases,
}
use banjax.World.{World}
use banjax.BotSniffer
use banjax.BotSniffer.{BotSniffer}
use banjax.Swabber
use banjax.BotSniffer.Taken
use banjax.BotSniffer.Taken.{IsAside, load_config-IsAside}
use banjax.Swabber.{Node}
use banjax.Swabber.Taken.{load_config-KeepsDatabases, load_config_same}
use banjax.Config.Read.{done, done-bind, done_inj, FilterConfig}
use banjax.Plugin.State.{Banjax, Handed, Outside, release, new_shared}
use banjax.Plugin.Construct.{new_banjax, make_sniffer}
use banjax.Plugin.Lifetime.New.{HasNoDynamic, IsNew, new_banjax-IsNew}
use banjax.Plugin.Lifetime.{Process, settle, reload_config}

module _ {N : Type 0} (o : Outside N) where
  make_sniffer-IsAside :
      (k : Option (FilterConfig N)) (reuse : Option Bytes) (w : World)
      → IsAside o.library o.surroundings w (make_sniffer o k reuse w).1
  unfolding make_sniffer
  make_sniffer-IsAside none reuse w = ((refl, refl, refl), refl, refl)
  make_sniffer-IsAside (some k) reuse w =
      load_config-IsAside o.library o.surroundings (o.sniffer_port k) (o.sniffer_key k) reuse w

  make_sniffer_same :
      (c : Option (FilterConfig N)) (bound : Bytes) (w : World) (k : BotSniffer)
      (reuse : Option Bytes)
      → (make_sniffer o c (some bound) w).0 ≡ done (some k, reuse)
      → k.local_endpoint ≡ bound
      → (k.socket ≡ some bound) × ((make_sniffer o c (some bound) w).1.calls ≡ w.calls)
  unfolding make_sniffer
  make_sniffer_same none bound w k reuse e p = absurd (cc e)
  make_sniffer_same (some c) bound w k reuse e p =
      let x = o.library in
      let port = o.sniffer_port c in
      let key = o.sniffer_key c in
      elim (Option-cases (BotSniffer.load_config x o.surroundings port key (some bound) w).0) [
        | inl n ↦ absurd (cc (rw (n, make_sniffer) at e))
        | inr (k', n) ↦
            BotSniffer.Taken.load_config_same x o.surroundings port key bound k w
              (n
                ∙ ap (λ (r : Option BotSniffer × Option Bytes). r.0)
                    (done_inj (some k', none) (some k, reuse) (rw (n, make_sniffer) at e)))
              p
      ]

  -- With the sockets that are handed over bound to the endpoints of the configuration.
  IsNew-socket :
      (h : Handed) (n calls : ℕ) (b : Banjax N) (bound bound' : Bytes) (k : BotSniffer)
      → IsNew o h n calls b
      → h.swabber_socket ≡ some bound
      → h.bot_sniffer_socket ≡ some bound'
      → b.shared.local_endpoint ≡ bound
      → b.sniffer ≡ some k
      → k.local_endpoint ≡ bound'
      → (b.shared.socket ≡ some bound) × (k.socket ≡ some bound') × (b.shared.calls ≡ calls)
  unfolding new_shared
  IsNew-socket h n calls b bound bound' k m s s' p t p' =
      let w0 = new_shared calls h.swabber_socket in
      let w = (Swabber.load_config o.surroundings m.nodes w0).1 in
      let r = make_sniffer o m.config h.bot_sniffer_socket w in
      let aside = make_sniffer-IsAside m.config h.bot_sniffer_socket w in
      let (socket, calls_same) =
        load_config_same o.surroundings m.nodes w0 bound (rw s refl)
          (sym aside.2 ∙ ap (λ (v : World). v.local_endpoint) (sym m.left) ∙ p) in
      let made : (make_sniffer o m.config (some bound') w).0
          ≡ done (some k, b.botsniffer_socket_reuse) =
        rw (sym s', sym t) m.made in
      let (bound_still, no_calls) =
        make_sniffer_same m.config bound' w k b.botsniffer_socket_reuse made p' in
      let left : b.shared ≡ (make_sniffer o m.config (some bound') w).1 = rw (sym s') m.left in
      (
        ap (λ (v : World). v.socket) m.left ∙ aside.1 ∙ socket,
        bound_still,
        ap (λ (v : World). v.calls) left ∙ no_calls ∙ calls_same,
      )

  IsNew-databases :
      (h : Handed) (n calls : ℕ) (b : Banjax N)
      → IsNew o h n calls b
      → (b.shared.swabber_ip_db ≡ [])
        × (b.shared.challenger_ip_db ≡ [])
        × (b.shared.regex_manager_ip_db ≡ [])
  unfolding new_shared
  IsNew-databases h n calls b m =
      let w0 = new_shared calls h.swabber_socket in
      let w = (Swabber.load_config o.surroundings m.nodes w0).1 in
      let (s, c, r) = load_config-KeepsDatabases o.surroundings m.nodes w0 in
      let (s', c', r') = (make_sniffer-IsAside m.config h.bot_sniffer_socket w).0 in
      (
        ap (λ (v : World). v.swabber_ip_db) m.left ∙ s' ∙ s,
        ap (λ (v : World). v.challenger_ip_db) m.left ∙ c' ∙ c,
        ap (λ (v : World). v.regex_manager_ip_db) m.left ∙ r' ∙ r,
      )

  released_socket :
      (c : Banjax N) (k : BotSniffer) (bound : Bytes)
      → c.sniffer ≡ some k
      → k.socket ≡ some bound
      → (release c).0.bot_sniffer_socket ≡ some bound
  unfolding release BotSniffer.release_socket
  released_socket c k bound t s = rw t s

  -- If the swabber and the bot sniffer are bound to the endpoints that the new configuration
  -- names, a reload that succeeds makes no bind: the new `Banjax` has both sockets as they were,
  -- empty ip databases, and a challenger with none of the challenges from Kafka, if any; and the
  -- transactions go on.
  pub reload_config-takes_over :
      (now : ℕ) (p q : Process N) (bound bound' : Bytes) (k k' : BotSniffer)
      → reload_config o now p ≡ done q
      → let c = p.plugin.current_state in
        let d = q.plugin.current_state in
        c.shared.socket ≡ some bound
        → c.sniffer ≡ some k
        → k.socket ≡ some bound'
        → d.shared.local_endpoint ≡ bound
        → d.sniffer ≡ some k'
        → k'.local_endpoint ≡ bound'
        → (d.shared.socket ≡ some bound)
          × (k'.socket ≡ some bound')
          × (d.shared.calls ≡ c.shared.calls)
          × (d.shared.swabber_ip_db ≡ [])
          × (d.shared.challenger_ip_db ≡ [])
          × (d.shared.regex_manager_ip_db ≡ [])
          × HasNoDynamic d.own_challenger
          × (q.transactions ≡ p.transactions)
  unfolding reload_config release settle Swabber.release_socket BotSniffer.release_socket
  reload_config-takes_over now p q bound bound' k k' e s t s' u v u' =
      let c = p.plugin.current_state in
      let d = q.plugin.current_state in
      let h = (release c).0 in
      let calls = (release c).1.shared.calls in
      let (b, made, rest) = done-bind (new_banjax o p.plugin.config_dir h p.created calls) _ q e in
      let same = done_inj _ q rest in
      let m : IsNew o h p.created calls d =
        subst (IsNew o h p.created calls) (ap (λ (r : Process N). r.plugin.current_state) same)
          (new_banjax-IsNew o p.plugin.config_dir h p.created calls b made) in
      let (s1, s2, s3) =
        IsNew-socket h p.created calls d bound bound' k' m s (released_socket c k bound' t s') u v
          u' in
      let (d1, d2, d3) = IsNew-databases h p.created calls d m in
      (s1, s2, s3, d1, d2, d3, m.nothing_dynamic, ap (λ (r : Process N). r.transactions) (sym same))
