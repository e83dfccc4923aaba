-- ===== src/Config/Start.antt =====
-- `Banjax::read_configuration`: from the file to the queues of the filters.
use mathlib.Core.List.{Perm}
use banjax.Base.{
  ℕ, ◌≡◌, ap, sym, ◌∙◌, subst, Bool, true, false, [], ◌++◌, none, some, Bytes, codes, All, map,
}
use banjax.Base.Int.{pos}
use banjax.Config.Read.{
  Reading, done, aborted, ◌>>=◌, done-bind, done_inj, Document, Yaml, FilterConfig, Configuration,
  is_filter, process_config,
}
use banjax.Config.Read.Collected.{process_config-IsEntry}
use banjax.Config.Priorities.{PriorityMap, read_priorities}
use banjax.Config.Priorities.Assigned.{IsPlaced, read_priorities-All, read_priorities-IsAscending}
use banjax.Config.Priorities.Ordered.{IsAscending, names, All-map}
use banjax.Config.Build.{ExecutionQueue, Filter, Built, nothing_built, build_filters}
use banjax.Config.Build.Queues.{queue_of, filters_of, build_filters-queues}

-- A new `Banjax` before its configuration is read.
abbrev pub fresh_configuration : {N : Type 0} → Configuration N
fresh_configuration = record {
  filter_config_map = [];
  swabber_conf = [];
  priorities = [];
  kafka_conf = none;
  report_status_interval_seconds = pos 0;
  remove_expired_challenges_interval_seconds = pos 0;
}

module _ {N : Type 0} (yaml : Yaml N) (dir : Bytes) where
  -- The file and those that it includes, with the priorities of the filters.
  unfoldable pub read_files : ℕ → Reading (Configuration N × PriorityMap)
  read_files fuel = elim (yaml.load_file (dir ++ codes "/" ++ codes "banjax.conf")) [
    | none ↦ aborted
    | some cfg ↦ process_config yaml dir fuel cfg fresh_configuration >>= read_priorities
  ]

module _ {N : Type 0} (yaml : Yaml N) (dir : Bytes) (throws : Filter → FilterConfig N → Bool) where
  -- The part of it that puts the filters in order; Plugin.Construct has the swabber and Kafka.
  unfoldable pub read_configuration : ℕ → Reading (Configuration N × PriorityMap × Built N)
  unfolding read_files
  read_configuration fuel = read_files yaml dir fuel >>= λ (c', m).
      build_filters throws c'.filter_config_map m nothing_built >>= λ b. done (c', m, b)

  -- If the configuration can be read and no constructor of a filter throws, each filter of the
  -- configuration has one place in the order of strictly growing priorities, where a filter of the
  -- priority list has its number there and any other comes after the whole list; and each queue
  -- has the filters that register for it, in that order.
  pub read_configuration-queues :
      ((f : Filter) (k : FilterConfig N) → throws f k ≡ false)
      → (fuel : ℕ) (cfg : Document N) (c c' : Configuration N) (m : PriorityMap) (b : Built N)
      → yaml.load_file (dir ++ codes "/" ++ codes "banjax.conf") ≡ some cfg
      → process_config yaml dir fuel cfg fresh_configuration ≡ done c
      → read_configuration fuel ≡ done (c', m, b)
      → IsAscending m
        × Perm (names m) (map (λ e. e.0) c.filter_config_map)
        × All (IsPlaced c.priorities) m
        × ((q : ExecutionQueue) → b.task_queues q ≡ queue_of q (filters_of m))
  unfolding read_configuration read_files
  read_configuration-queues quiet fuel cfg c c' m b l p e =
      let (r, e1, e2) =
        done-bind (read_priorities c) _ (c', m, b)
          (rw (l, p, read_configuration, read_files) at e) in
      let (b', e3, e4) =
        done-bind (build_filters throws r.0.filter_config_map r.1 nothing_built) _ (c', m, b) e2 in
      let entries = process_config-IsEntry yaml dir fuel cfg fresh_configuration c tt p in
      let q1 : r.1 ≡ m = ap (λ x. x.1) (done_inj _ (c', m, b) e4) in
      let q2 : b' ≡ b = ap (λ x. x.2) (done_inj _ (c', m, b) e4) in
      let (s, perm, placed) =
        read_priorities-IsAscending c r.0 r.1 (All-map c.filter_config_map (λ x k. k.1) entries)
          e1 in
      let (b'', f, qs) = build_filters-queues throws r.0.filter_config_map quiet r.1 (
        read_priorities-All (λ n. is_filter n ≡ true) c r.0 r.1
          (All-map c.filter_config_map (λ x k. k.0) entries) e1) in
      let q3 : b'' ≡ b = done_inj b'' b' (sym f ∙ e3) ∙ q2 in
      subst
        (λ k.
          IsAscending k
          × Perm (names k) (map (λ e. e.0) c.filter_config_map)
          × All (IsPlaced c.priorities) k
          × ((q : ExecutionQueue) → b.task_queues q ≡ queue_of q (filters_of k)))
        q1
        (s, perm, placed, λ q. subst (λ k. k.task_queues q ≡ queue_of q (filters_of r.1)) q3 (qs q))
