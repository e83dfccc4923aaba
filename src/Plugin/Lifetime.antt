-- ===== src/Plugin/Lifetime.antt =====
-- src/banjax.cpp: the reloads of `BanjaxPlugin`, and the transactions that are started, each with
-- the `Banjax` of the moment.
pub mod Cancelled
pub mod Actions
pub mod Living
pub mod Settled
pub mod Updated
pub mod New
pub mod Renewed
pub mod Sound
pub mod Rebound
use banjax.Base.{
  ℕ, suc, ◌≡◌, Bool, true, false, not, List, [], ◌∷◌, ◌++◌, Option, none, some, Bytes, any, ◌==◌,
  if◌then◌else◌,
}
use banjax.Base.Int.{ℤ, pos, leb_ℤ}
use banjax.World.{World}
use banjax.Swabber.{ban}
use banjax.Config.Read.{Reading, done, aborted, ◌>>=◌}
use banjax.Pipeline.{Call, reenable, http_continue}
use banjax.Pipeline.Dispatch.{
  HookEvent, read_request_hdr, send_request_hdr, send_response_hdr, txn_close, TransactionData,
  new_transaction_data,
}
use banjax.Challenger.State.{Challenger}
use banjax.Commands.{NameValue, kafka_message_consume}
use banjax.Filter.{HostChallengeSpec}
use banjax.KafkaConsumer.{KafkaConsumer}
use banjax.Plugin.State.{
  Action, Banjax, Handed, nothing_handed, Outside, destroy, release, remove_expired_challenges,
}
use banjax.Plugin.Construct.{new_banjax}

-- `TransactionData` with the number of its `Banjax`, the hooks, and the calls at the start.
pub record Started : Type 0 where
  pub txnp : ℕ
  pub banjax : ℕ
  pub hooks : List HookEvent
  pub calls : List Call
  pub transaction_data : TransactionData

pub record BanjaxPlugin (N : Type 0) : Type 0 where
  pub config_dir : Bytes
  pub current_state : Banjax N
  pub restart_time : ℕ
  pub reload_time : ℕ

-- The plugin, the `Banjax` that only transactions keep, the transactions, the continuations that
-- Traffic Server has scheduled, and how many `Banjax` there have been.
pub record Process (N : Type 0) : Type 0 where
  pub plugin : BanjaxPlugin N
  pub older : List (Banjax N)
  pub transactions : List Started
  pub actions : List Action
  pub created : ℕ

-- The event at the hook of the plugin.
pub data StartEvent : Type 0 where
  txn_start unexpected : StartEvent

pub data ManagementEvent : Type 0 where
  mgmt_update other_event : ManagementEvent

abbrev pub held : List Started → ℕ → Bool
held ts n = any (λ t. t.banjax == n) ts

unfoldable pub without : ℕ → List Started → List Started
without txnp [] = []
without txnp (t ∷ ts) = let rest = without txnp ts in if t.txnp == txnp then rest else t ∷ rest

abbrev pub is_there : {A : Type 0} → Option A → Bool
is_there none = false
is_there (some a) = true

abbrev pub prepend : Option Action → List Action → List Action
prepend none actions = actions
prepend (some a) actions = a ∷ actions

module _ {N : Type 0} where
  abbrev pub with_actions : Banjax N → List Action → List Action
  with_actions b actions =
      prepend b.report_status_action (prepend b.remove_expired_challenges_action actions)

  -- The last `shared_ptr` to a `Banjax` destroys it.
  unfoldable pub drop_unheld :
      List Started → List (Banjax N) → List Action → List (Banjax N) × List Action
  drop_unheld ts [] actions = ([], actions)
  drop_unheld ts (b ∷ bs) actions =
      let r = drop_unheld ts bs actions in
      if held ts b.number then (b ∷ r.0, r.1) else (r.0, destroy b r.1)

  unfoldable pub settle : Process N → Process N
  unfolding drop_unheld
  settle p =
      let r = drop_unheld p.transactions p.older p.actions in
      record p { older = r.0; actions = r.1 }

  unfoldable pub handle_transaction_start : StartEvent → ℕ → Process N → Process N
  handle_transaction_start unexpected txnp p = p
  handle_transaction_start txn_start txnp p = record p {
    transactions =
        record {
          txnp = txnp;
          banjax = p.plugin.current_state.number;
          hooks = read_request_hdr ∷ send_request_hdr ∷ send_response_hdr ∷ txn_close ∷ [];
          calls = reenable http_continue ∷ [];
          transaction_data = new_transaction_data;
        }
        ∷ p.transactions;
  }

  -- The destructor of the data of a transaction, at its close.
  unfoldable pub end_transaction : ℕ → Process N → Process N
  unfolding settle
  end_transaction txnp p = settle (record p { transactions = without txnp p.transactions })

  -- The challenger of the `Banjax` with a number, and what it shares among its filters, after some
  -- work of its filters.
  abbrev pub update_shared : ℕ → (Banjax N → Option Challenger × World) → Banjax N → Banjax N
  update_shared n f b = record b {
    own_challenger = if b.number == n then (f b).0 else b.own_challenger;
    shared = if b.number == n then (f b).1 else b.shared;
  }

  abbrev pub update_all :
      ℕ → (Banjax N → Option Challenger × World) → List (Banjax N) → List (Banjax N)
  update_all n f [] = []
  update_all n f (b ∷ bs) = update_shared n f b ∷ update_all n f bs

  abbrev pub update_banjax : ℕ → (Banjax N → Option Challenger × World) → Process N → Process N
  update_banjax n f p = record p {
    plugin = record p.plugin { current_state = update_shared n f p.plugin.current_state };
    older = update_all n f p.older;
  }

  -- The scheduled continuation that removes expired challenges, on the current `Banjax`.
  abbrev pub expire_in : ℕ → Banjax N → Option Challenger × World
  expire_in now b = ((remove_expired_challenges now b).1.own_challenger, b.shared)

  unfoldable pub expire : ℕ → Process N → Process N
  expire now p = update_banjax p.plugin.current_state.number (expire_in now) p

  module _ (o : Outside N) where
    -- `restart_time` stays. The `Banjax` before is gone unless a transaction keeps it.
    unfoldable pub reload_config : ℕ → Process N → Reading (Process N)
    reload_config now p =
        let (h, old) = release p.plugin.current_state in
        new_banjax o p.plugin.config_dir h p.created old.shared.calls >>= λ b. done (
          settle (record p {
            plugin = record p.plugin { current_state = b; reload_time = now };
            older = old ∷ p.older;
            actions = with_actions b p.actions;
            created = suc p.created;
          }))

    -- Another event fails the assertion.
    unfoldable pub handle_management : ManagementEvent → ℕ → Process N → Reading (Process N)
    handle_management mgmt_update now p = reload_config now p
    handle_management other_event now p = aborted

    -- A filter asks the swabber of its `Banjax` for a ban.
    abbrev pub ban_in : Bytes → Bytes → Banjax N → Option Challenger × World
    ban_in ip reason b = (b.own_challenger, (ban o.surroundings ip reason b.shared).1)

    unfoldable pub ban_by : ℕ → Bytes → Bytes → Process N → Process N
    ban_by n ip reason p = update_banjax n (ban_in ip reason) p

    -- The consumer hands a message to the `Banjax` that it has the pointer of. `spec` is what
    -- `parse_single_challenge` makes of `dynamic_challenger_config` at the time.
    abbrev pub consume_in :
        HostChallengeSpec → Option NameValue → Banjax N → Option Challenger × World
    consume_in spec m b =
        kafka_message_consume o.surroundings (is_there b.kafka_producer) spec m b.own_challenger
          b.shared

    abbrev pub deliver_to :
        HostChallengeSpec → Option NameValue → Process N → Option KafkaConsumer → Process N
    deliver_to spec m p none = p
    deliver_to spec m p (some k) = update_banjax k.banjax (consume_in spec m) p

    unfoldable pub deliver : HostChallengeSpec → Option NameValue → Process N → Process N
    deliver spec m p = deliver_to spec m p p.plugin.current_state.kafka_consumer

module _ {N : Type 0} where
  -- Each step has its own answers from outside: the files may change between two reloads.
  pub data Step : Process N → Process N → Type 0 where
    starts :
        {p : Process N} (event : StartEvent) (txnp : ℕ)
        → Step p (handle_transaction_start event txnp p)
    closes : {p : Process N} (txnp : ℕ) → Step p (end_transaction txnp p)
    reloads :
        {p q : Process N} (o : Outside N) (event : ManagementEvent) (now : ℕ)
        → handle_management o event now p ≡ done q
        → Step p q
    bans :
        {p : Process N} (o : Outside N) (n : ℕ) (ip reason : Bytes)
        → Step p (ban_by o n ip reason p)
    delivers :
        {p : Process N} (o : Outside N) (spec : HostChallengeSpec) (m : Option NameValue)
        → Step p (deliver o spec m p)
    expires : {p : Process N} (now : ℕ) → Step p (expire now p)

  pub data Reachable : Process N → Process N → Type 0 where
    here : {p : Process N} → Reachable p p
    next : {p q r : Process N} → Reachable p q → Step q r → Reachable p r
