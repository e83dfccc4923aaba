-- ===== src/IpDb.antt =====
-- src/ip_db.h: the table of states by address, behind a mutex that is only ever tried.
-- The first argument of an operation is the outcome of `TSMutexLockTry`; a lock that is taken is
-- given back at the end of the scope.
use banjax.Base.{
  ℕ, Bool, true, false, Option, none, some, Bytes, Dict, lookup, insert, erase, length,
  if◌then◌else◌,
}

module _ {ℓ} {S : Type ℓ} where
  -- An address with no record has the default state.
  abbrev pub find_state : S → Bytes → Dict S → S
  find_state default ip db = elim (lookup ip db) [ none ↦ default | some s ↦ s ]

  unfoldable pub get_ip_state : S → Bool → Bytes → Dict S → Option S
  get_ip_state default locked ip db = if locked then some (find_state default ip db) else none

  unfoldable pub set_ip_state : Bool → Bytes → S → Dict S → Dict S × Bool
  set_ip_state locked ip state db = if locked then (insert ip state db, true) else (db, false)

  unfoldable pub drop_ip : Bool → Bytes → Dict S → Dict S × Bool
  drop_ip locked ip db =
      if locked
      then (erase ip db, elim (lookup ip db) [ none ↦ false | some _ ↦ true ])
      else (db, false)

  pub size : Dict S → ℕ
  size db = length db
