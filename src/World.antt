-- ===== src/World.antt =====
-- The state that the filters share through `Banjax` (src/banjax.h): the ip databases, the swabber
-- interface (src/swabber.h) and what has been sent; and the surroundings that answer its calls.
use banjax.Base.{ℕ, suc, Bool, List, Option, Bytes, Dict}
use banjax.Base.Int.{ℤ}

-- The outcome of the n-th call: of `TSMutexLockTry`, of a read of the clock in seconds, of a
-- `zmq` bind, and of a drawing of a captcha. Other threads are seen through these answers alone.
pub record Surroundings : Type 0 where
  pub lock : ℕ → Bool
  pub clock : ℕ → ℕ
  pub binds : ℕ → Bool
  -- The clock in milliseconds.
  pub msec : ℕ → ℕ
  -- The five letters and the picture of a captcha, drawn by libcaptcha.
  pub draws : ℕ → Bytes × Bytes

pub data Report : Type 0 where
  flagged banned : Report

-- A line of `ban_ip_list`, less its time stamp.
pub record LogLine : Type 0 where
  pub ip : Bytes
  pub reason : Bytes
  pub report : Report

-- A message to Kafka: name, address, site and the number of failures, if the database could be read.
pub record Message : Type 0 where
  pub name : Bytes
  pub value_ip : Bytes
  pub value_site : Bytes
  pub value_challenger_db : Option ℕ

-- src/regex_manager.h: what the regex manager keeps of an address for one rule. A rate is the bit
-- pattern of its `float`.
pub record RegexState : Type 0 where
  pub begin_msec : ℕ
  pub rate : ℕ

pub record World : Type 0 where
  pub calls : ℕ
  pub swabber_ip_db : Dict ℕ
  pub challenger_ip_db : Dict ℕ
  pub regex_manager_ip_db : Dict (List RegexState)
  -- `none` once the socket is released; the endpoint is empty while it is not bound.
  pub socket : Option Bytes
  pub local_endpoint : Bytes
  pub grace_period : ℤ
  pub ban_ip_list : List LogLine
  -- The addresses sent to swabber, each behind the topic `swabber_bans`.
  pub sent : List Bytes
  pub messages : List Message

abbrev pub M : Type 0 → Type 0
M A = World → A × World

infixl 5 ◌>>=◌ ◌>>◌
abbrev pub ◌>>=◌ : {A B : Type 0} → M A → (A → M B) → M B
◌>>=◌ m f w = f (m w).0 (m w).1

abbrev pub ◌>>◌ : {A B : Type 0} → M A → M B → M B
◌>>◌ m k w = k (m w).1

abbrev pub return : {A : Type 0} → A → M A
return a w = (a, w)

abbrev pub modify : (World → World) → M (Unit {0})
modify f w = (tt, f w)

abbrev called : World → World
called w = record w { calls = suc w.calls }

module _ (e : Surroundings) where
  abbrev pub try_lock : M Bool
  try_lock w = (e.lock w.calls, called w)

  abbrev pub time : M ℕ
  time w = (e.clock w.calls, called w)

  abbrev pub try_bind : M Bool
  try_bind w = (e.binds w.calls, called w)

  abbrev pub draw_captcha : M (Bytes × Bytes)
  draw_captcha w = (e.draws w.calls, called w)

  abbrev pub time_msec : M ℕ
  time_msec w = (e.msec w.calls, called w)
