-- ===== src/Swabber.antt =====
-- src/swabber.cpp: `Swabber::ban`, `load_config` and `release_socket`, and `Socket` of src/socket.h.
pub mod Grace
pub mod Ready
pub mod Released
pub mod Taken
use banjax.Base.{
  ℕ, zero, suc, ◌+◌, Bool, true, false, not, List, [], ◌∷◌, ◌++◌, Option, none, some, Bytes, codes,
  beq, Dict, ◌==◌, if◌then◌else◌,
}
use banjax.Base.Int.{ℤ, pos, sub_ℕ, ltb_ℤ}
use banjax.IpDb.{get_ip_state, set_ip_state, drop_ip}
use banjax.World.{
  Surroundings, World, LogLine, Report, flagged, banned, M, ◌>>=◌, ◌>>◌, return, modify, try_lock,
  time, try_bind,
}

abbrev pub is_empty : Bytes → Bool
is_empty [] = true
is_empty (c ∷ cs) = false

module _ (e : Surroundings) where
  -- The calls of `swabber_ip_db`, each with its own try of the lock.
  unfoldable pub get_state : Bytes → M (Option ℕ)
  get_state ip = do locked ← try_lock e; λ w. (get_ip_state 0 locked ip w.swabber_ip_db, w)

  unfoldable pub set_state : Bytes → ℕ → M (Unit {0})
  set_state ip s = do
    locked ← try_lock e
    modify (λ w. record w { swabber_ip_db = (set_ip_state locked ip s w.swabber_ip_db).0 })

  unfoldable pub drop_state : Bytes → M (Unit {0})
  drop_state ip = do
    locked ← try_lock e
    modify (λ w. record w { swabber_ip_db = (drop_ip locked ip w.swabber_ip_db).0 })

  abbrev write_log : Bytes → Bytes → Report → M (Unit {0})
  write_log ip reason r = modify (λ w. record w {
    ban_ip_list = w.ban_ip_list ++ record { ip = ip; reason = reason; report = r } ∷ [];
  })

  -- `Socket::bind`: the same endpoint again, and the empty one, are successes with no call of zmq.
  unfoldable pub bind : Bytes → Bytes → M (Bytes × Bool)
  bind bound endpoint =
      if beq endpoint bound
      then return (bound, true)
      else if is_empty endpoint
      then return (bound, true)
      else do done ← try_bind e; if done then return (endpoint, true) else return ([], false)

  -- The socket under the lock: whether the request went out.
  pub send_request : Bytes → Bytes → M Bool
  unfolding bind
  send_request ip reason w = elim w.socket [
    | none ↦ (false, w)
    | some bound ↦
        (do
          result ← (if is_empty bound then bind bound w.local_endpoint else return (bound, true))
          modify (λ v. record v { socket = some result.0 })
          if result.1
              then (do
                modify (λ v. record v { sent = v.sent ++ ip ∷ [] })
                write_log ip reason banned
                return true)
              else return false)
          w
  ]

  -- From the lock of the socket on.
  pub send_ban : Bytes → Bytes → M (Unit {0})
  unfolding drop_state
  send_ban ip reason = do
    locked ← try_lock e
    if locked
        then (do done ← send_request ip reason; if done then drop_state ip else return tt)
        else return tt

  -- The record of the first request for banning, and the state that the grace period counts from.
  pub flag : Bytes → Bytes → ℕ → ℕ → M ℕ
  unfolding set_state
  flag ip reason now state =
      if state == 0
      then (do set_state ip now; write_log ip reason flagged; return now)
      else return state

  -- With a grace period, an address is banned once its first report is at least so old.
  pub wait_out : Bytes → Bytes → ℕ → ℕ → M (Unit {0})
  wait_out ip reason now state = do
    since ← flag ip reason now state
    λ w. (if ltb_ℤ (sub_ℕ now since) w.grace_period then return tt else send_ban ip reason) w

  -- Without the lock of the database nothing is reported.
  pub ban_with_grace : Bytes → Bytes → ℕ → M (Unit {0})
  ban_with_grace ip reason now = do
    found ← get_state ip
    elim found [ none ↦ return tt | some state ↦ wait_out ip reason now state ]

  unfoldable pub ban : Bytes → Bytes → M (Unit {0})
  ban ip reason = do
    now ← time e
    λ w.
        (if ltb_ℤ (pos 0) w.grace_period then ban_with_grace ip reason now else send_ban ip reason)
          w

unfoldable pub release_socket : M (Option Bytes)
release_socket w = (w.socket, record w { socket = none })

-- A `swabber` node of the configuration: the keys that it has.
pub record Node : Type 0 where
  pub grace_period : Option ℤ
  pub port : Option Bytes
  pub server : Option Bytes

pub record Settings : Type 0 where
  pub grace_period : ℤ
  pub port : Bytes
  pub server : Bytes

abbrev pub defaults : Settings
defaults = record { grace_period = pos 0; port = codes "22620"; server = codes "*" }

abbrev or_else {ℓ} : {A : Type ℓ} → Option A → A → A
or_else none d = d
or_else (some a) d = a

-- Later nodes win, key by key.
unfoldable pub read_nodes : Settings → List Node → Settings
read_nodes s [] = s
read_nodes s (n ∷ ns) =
    read_nodes
      (record {
        grace_period = or_else n.grace_period s.grace_period;
        port = or_else n.port s.port;
        server = or_else n.server s.server;
      })
      ns

module _ (e : Surroundings) where
  -- A socket that is bound elsewhere, or that failed to bind, is replaced by a fresh one.
  unfoldable pub rebind : Bytes → M (Unit {0})
  rebind endpoint w = elim w.socket [
    | none ↦ (tt, w)
    | some bound ↦
        (do
          result ← bind e (if beq bound endpoint then bound else []) endpoint
          modify (λ v. record v { socket = some result.0 }))
          w
  ]

  unfoldable pub load_config : List Node → M (Unit {0})
  unfolding read_nodes
  load_config nodes = do
    let s = read_nodes defaults nodes
    let endpoint = codes "tcp://" ++ (s.server ++ (codes ":" ++ s.port))
    modify (λ w. record w { grace_period = s.grace_period; local_endpoint = endpoint })
    rebind endpoint
