-- ===== src/Plugin/Lifetime/New.antt =====
-- What the constructor of `Banjax` makes.
use banjax.Base.{
  [], ℕ, ◌≡◌, inl, inr, refl, ap, subst, Bool, true, false, List, Option, none, some, Bytes, codes,
  lookup, Bool-cases, Option-cases,
}
use banjax.Base.Int.{ℤ}
use banjax.KafkaConsumer
use banjax.KafkaConsumer.{KafkaSettings, producer_config, KafkaConsumer, new_consumer}
use banjax.Swabber
use banjax.Swabber.{ban}
use banjax.Config.Read.{FilterConfig, Reading, done, done-bind, done_inj}
use banjax.Config.Build.{nothing_built, build_filters}
use banjax.Swabber.{Node}
use banjax.WhiteList.{WhiteList}
use banjax.Challenger.State.{Challenger}
use banjax.Challenger.Load
use banjax.Challenger.Load.{
  ChallengerNode, Loading, loaded, thrown, terminated, load_static, load_dynamic,
}
use banjax.Challenger.Load.Dynamic.{load_config-KeepsDynamic}
use banjax.Config.Start.{read_files}
use banjax.Plugin.State.{
  ActionKind, KafkaProducer, Banjax, Handed, Outside, schedule_every, new_shared,
}
use banjax.Plugin.Construct.{
  new_banjax, assemble, swabber_nodes, make_sniffer, find_config, is_bot_sniffer, is_challenger,
  is_white_lister, make_white_list, make_challenger, fresh_challenger, of_loading,
  with_producer_view, set_up_kafka, consumer_for, with_producer,
}
use banjax.Plugin.Lifetime.Cancelled.{OwnsAction}
use banjax.Plugin.Lifetime.Actions.{OwnsActions}
use banjax.Plugin.Lifetime.Living.{TalksTo}

-- The challenger has none of the challenges that come from Kafka.
abbrev pub HasNoDynamic : Option Challenger → Type 0
HasNoDynamic none = Unit
HasNoDynamic (some c) = (c.host_to_challenge_dynamic ≡ []) × (c.ip_to_challenge_dynamic ≡ [])

module _ {N : Type 0} where
  module _ (o : Outside N) where
    schedule_every-OwnsAction :
        (b : Bool) (k : ActionKind) (n : ℕ) (t : ℤ) → OwnsAction n (schedule_every b k n t)
    unfolding schedule_every
    schedule_every-OwnsAction false k n t = tt
    schedule_every-OwnsAction true k n t = refl

    none_of :
        (k : Option KafkaConsumer) (p : Option KafkaProducer)
        → ◌≡◌ {A = Reading (Option KafkaConsumer × Option KafkaProducer)}
            (done (none, none))
            (done (k, p))
        → none ≡ k
    none_of k p e =
        ap (λ (r : Option KafkaConsumer × Option KafkaProducer). r.0)
          (done_inj (none, none) (k, p) e)

    consumer_for-banjax :
        (config : KafkaSettings) (n : ℕ) (handed : Option KafkaConsumer)
        → (consumer_for o config n handed).banjax ≡ n
    unfolding KafkaConsumer.reload_config new_consumer
    consumer_for-banjax config n none = refl
    consumer_for-banjax config n (some k) = refl

    with_producer-TalksTo :
        (n : ℕ) (c : KafkaConsumer)
        → c.banjax ≡ n
        → (made : Option KafkaProducer) (k : Option KafkaConsumer) (p : Option KafkaProducer)
        → with_producer o c made ≡ done (k, p)
        → TalksTo n k
    with_producer-TalksTo n c t none k p e = absurd (cc e)
    with_producer-TalksTo n c t (some q) k p e = elim (Bool-cases o.producer_created) [
      | inl b ↦
          subst (TalksTo n)
            (ap (λ (r : Option KafkaConsumer × Option KafkaProducer). r.0)
              (done_inj (some c, some q) (k, p) (rw b at e)))
            t
      | inr b ↦ absurd (cc (rw b at e))
    ]

    set_up_kafka-TalksTo :
        (n : ℕ) (conf : Option N) (handed k : Option KafkaConsumer) (p : Option KafkaProducer)
        → set_up_kafka o n conf handed ≡ done (k, p)
        → TalksTo n k
    unfolding set_up_kafka
    set_up_kafka-TalksTo n none handed k p e = subst (TalksTo n) (none_of k p e) tt
    set_up_kafka-TalksTo n (some node) handed k p e =
        let config = o.kafka_settings node in
        elim (Option-cases (lookup (codes "metadata.broker.list") config)) [
          | inl l ↦ subst (TalksTo n) (none_of k p (rw (l, set_up_kafka) at e)) tt
          | inr (v, l) ↦
              with_producer-TalksTo n (consumer_for o config n handed)
                (consumer_for-banjax config n handed) (producer_config o.conf_set config) k p
                (rw (l, set_up_kafka) at e)
        ]

    load_config-HasNoDynamic :
        (dir : Bytes) (node : ChallengerNode) (l : WhiteList) (c : Challenger)
        → Load.load_config o.library o.read_file dir o.load_time node (fresh_challenger o l)
          ≡ loaded c
        → HasNoDynamic (some c)
    load_config-HasNoDynamic dir node l c e =
        load_config-KeepsDynamic o.library o.read_file dir o.load_time node (fresh_challenger o l) c
          e

    of_loading-HasNoDynamic :
        (r : Loading) (c : Option Challenger)
        → ((d : Challenger) → r ≡ loaded d → HasNoDynamic (some d))
        → of_loading o r ≡ done c
        → HasNoDynamic c
    of_loading-HasNoDynamic (loaded d) c h e = subst HasNoDynamic (done_inj (some d) c e) (h d refl)
    of_loading-HasNoDynamic thrown c h e = absurd (cc e)
    of_loading-HasNoDynamic terminated c h e = absurd (cc e)

    make_challenger-HasNoDynamic :
        (dir : Bytes) (k : Option (FilterConfig N)) (l : WhiteList) (c : Option Challenger)
        → make_challenger o dir k l ≡ done c
        → HasNoDynamic c
    unfolding make_challenger
    make_challenger-HasNoDynamic dir none l c e = subst HasNoDynamic (done_inj none c e) tt
    make_challenger-HasNoDynamic dir (some k) l c e =
        let r =
          Load.load_config o.library o.read_file dir o.load_time (o.challenger_node k)
            (fresh_challenger o l) in
        of_loading-HasNoDynamic r c
          (λ d h. load_config-HasNoDynamic dir (o.challenger_node k) l d h) e

    with_producer_view-HasNoDynamic :
        (p : Option KafkaProducer) (c : Option Challenger)
        → HasNoDynamic c
        → HasNoDynamic (with_producer_view o p c)
    with_producer_view-HasNoDynamic p none h = tt
    with_producer_view-HasNoDynamic none (some c) h = h
    with_producer_view-HasNoDynamic (some p) (some c) h = h

    -- What is known of a new `Banjax`, and the steps that made its swabber and its bot sniffer.
    pub record IsNew (h : Handed) (n calls : ℕ) (b : Banjax N) : Type 0 where
      pub number_given : b.number ≡ n
      pub actions_own : OwnsActions b
      pub consumer_current : TalksTo b.number b.kafka_consumer
      pub nothing_dynamic : HasNoDynamic b.own_challenger
      pub nodes : List Node
      pub config : Option (FilterConfig N)
      pub made :
          (make_sniffer o config h.bot_sniffer_socket
            (Swabber.load_config o.surroundings nodes (new_shared calls h.swabber_socket)).1).0
          ≡ done (b.sniffer, b.botsniffer_socket_reuse)
      pub left :
          b.shared
          ≡ (make_sniffer o config h.bot_sniffer_socket
              (Swabber.load_config o.surroundings nodes (new_shared calls h.swabber_socket)).1).1

    pub new_banjax-IsNew :
        (dir : Bytes) (h : Handed) (n calls : ℕ) (b : Banjax N)
        → new_banjax o dir h n calls ≡ done b
        → IsNew h n calls b
    unfolding new_banjax assemble
    new_banjax-IsNew dir h n calls b e =
        let (r, e0, e1) = done-bind (read_files o.yaml dir o.fuel) (assemble o dir h n calls) b e in
        let (nodes, e2, e3) = done-bind (swabber_nodes o r.0.swabber_conf) _ b e1 in
        let (built, e4, e5) =
          done-bind (build_filters o.throws r.0.filter_config_map r.1 nothing_built) _ b e3 in
        let (l, f0, f1) =
          done-bind (make_white_list o (find_config is_white_lister built.filters)) _ b e5 in
        let (ch, f2, f3) =
          done-bind (make_challenger o dir (find_config is_challenger built.filters) l) _ b f1 in
        let config = find_config is_bot_sniffer built.filters in
        let w = (Swabber.load_config o.surroundings nodes (new_shared calls h.swabber_socket)).1 in
        let (s, e6, e7) = done-bind (make_sniffer o config h.bot_sniffer_socket w).0 _ b f3 in
        let (k, e8, e9) = done-bind (set_up_kafka o n r.0.kafka_conf h.kafka_consumer) _ b e7 in
        subst (IsNew h n calls) (done_inj _ b e9) (record {
          number_given = refl;
          actions_own = (schedule_every-OwnsAction _ _ n _, schedule_every-OwnsAction _ _ n _);
          consumer_current = set_up_kafka-TalksTo n r.0.kafka_conf h.kafka_consumer k.0 k.1 e8;
          nothing_dynamic =
              with_producer_view-HasNoDynamic k.1 ch (make_challenger-HasNoDynamic dir _ l ch f2);
          nodes = nodes;
          config = config;
          made = e6;
          left = refl;
        })
