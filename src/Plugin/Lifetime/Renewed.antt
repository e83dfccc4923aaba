-- ===== src/Plugin/Lifetime/Renewed.antt =====
-- A new `Banjax`, and the reload that puts it in the place of the current one.
use banjax.Base.{ℕ, suc, ◌≡◌, inl, inr, refl, ap, subst, arith, true, List, ◌∷◌, Option-cases}
use banjax.BotSniffer
use banjax.BotSniffer.{BotSniffer}
use banjax.Swabber
use banjax.Swabber.{ban}
use banjax.Config.Read.{done, done-bind, done_inj}
use banjax.Swabber.{Node}
use banjax.Plugin.State.{Banjax, Outside, release}
use banjax.Plugin.Construct.{new_banjax}
use banjax.Plugin.Lifetime.{Process, with_actions, settle, reload_config}
use banjax.Plugin.Lifetime.Living.{All-imp, IsRetired, is_among, living, IsSound, IsUnsettled}
use banjax.Plugin.Lifetime.Settled.{settle-IsSound}
use banjax.Plugin.Lifetime.New.{IsNew, new_banjax-IsNew}

module _ {N : Type 0} where
  module _ (o : Outside N) where
    release-IsRetired : (b : Banjax N) → IsRetired (release b).1
    unfolding release Swabber.release_socket BotSniffer.release_socket
    release-IsRetired b = elim (Option-cases b.sniffer) [
      | inl e ↦ rw e (refl, refl, refl)
      | inr (k, e) ↦ rw e (refl, refl, refl)
    ]

    -- Before the `Banjax` that nobody holds are destroyed.
    abbrev replaced : ℕ → Banjax N → Process N → Process N
    replaced now b p = record p {
      plugin = record p.plugin { current_state = b; reload_time = now };
      older = (release p.plugin.current_state).1 ∷ p.older;
      actions = with_actions b p.actions;
      created = suc p.created;
    }

    is_among-wider :
        (b c : Banjax N) (bs : List (Banjax N)) (n : ℕ)
        → is_among (c ∷ bs) n ≡ true
        → is_among (b ∷ (release c).1 ∷ bs) n ≡ true
    unfolding release
    is_among-wider b c bs n h = rw h (ground arith)

    replaced-IsUnsettled :
        (now : ℕ) (b : Banjax N) (p : Process N)
        → IsNew o
            (release p.plugin.current_state).0
            p.created
            (release p.plugin.current_state).1.shared.calls
            b
        → IsSound p
        → IsUnsettled (replaced now b p)
    unfolding release
    replaced-IsUnsettled now b p new s =
        let e = new.number_given in
        let own = new.actions_own in
        let talks = new.consumer_current in
        let c = p.plugin.current_state in
        record {
          numbers_fall = (omega (arith, e), (rw e s.numbers_fall.0, s.numbers_fall.1));
          actions_own = (own, (s.actions_own.0, s.actions_own.1));
          consumer_current = talks;
          actions_live = ap (with_actions b) s.actions_live;
          older_retired = (release-IsRetired c, s.older_retired);
          transactions_safe =
              All-imp (λ t. is_among (living p) t.banjax ≡ true)
                (λ t. is_among (living p) t.banjax ≡ true) _ p.transactions
                (λ t h i. is_among-wider b c p.older t.banjax h) s.transactions_safe
                s.transactions_safe;
        }

    pub reload_config-IsSound :
        (now : ℕ) (p q : Process N) → IsSound p → reload_config o now p ≡ done q → IsSound q
    unfolding reload_config
    reload_config-IsSound now p q s e =
        let c = p.plugin.current_state in
        let (b, made, rest) =
          done-bind
            (new_banjax o p.plugin.config_dir (release c).0 p.created (release c).1.shared.calls) _
            q e in
        subst IsSound (done_inj (settle (replaced now b p)) q rest) (
          settle-IsSound (replaced now b p)
            (replaced-IsUnsettled now b p (new_banjax-IsNew o _ _ _ _ b made) s))
