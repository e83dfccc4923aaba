-- ===== src/Swabber/Taken.antt =====
-- `load_config` with a socket that is taken over.
use banjax.Base.{◌≡◌, sym, ◌∙◌, arith, List, some, Bytes, beq_refl}
use banjax.World.{Surroundings, World}
use banjax.Swabber.{Node, bind, rebind, load_config}

-- The databases are the same.
abbrev pub KeepsDatabases : World → World → Type 0
KeepsDatabases w w' =
    (w'.swabber_ip_db ≡ w.swabber_ip_db)
    × (w'.challenger_ip_db ≡ w.challenger_ip_db)
    × (w'.regex_manager_ip_db ≡ w.regex_manager_ip_db)

module _ (e : Surroundings) where
  -- `bind` itself changes no more than the number of the calls.
  pub bind-KeepsDatabases :
      (bound endpoint : Bytes) (w : World) → KeepsDatabases w (bind e bound endpoint w).1
  unfolding bind
  bind-KeepsDatabases bound endpoint w = ground arith

  pub bind-socket :
      (bound endpoint : Bytes) (w : World)
      → let v = (bind e bound endpoint w).1 in
        (v.socket ≡ w.socket) × (v.local_endpoint ≡ w.local_endpoint)
  unfolding bind
  bind-socket bound endpoint w = ground arith

  rebind-KeepsDatabases : (endpoint : Bytes) (w : World) → KeepsDatabases w (rebind e endpoint w).1
  unfolding rebind bind
  rebind-KeepsDatabases endpoint w = ground arith

  pub load_config-KeepsDatabases :
      (nodes : List Node) (w : World) → KeepsDatabases w (load_config e nodes w).1
  unfolding load_config
  load_config-KeepsDatabases nodes w = rebind-KeepsDatabases _ _

  rebind-local_endpoint :
      (endpoint : Bytes) (w : World) → (rebind e endpoint w).1.local_endpoint ≡ w.local_endpoint
  unfolding rebind bind
  rebind-local_endpoint endpoint w = ground arith

  rebind_same :
      (endpoint bound : Bytes) (w : World)
      → w.socket ≡ some bound
      → endpoint ≡ bound
      → ((rebind e endpoint w).1.socket ≡ some bound) × ((rebind e endpoint w).1.calls ≡ w.calls)
  unfolding rebind bind
  rebind_same endpoint bound w s p = ground (arith, s, p, beq_refl endpoint)

  -- No bind is tried for a socket that is bound to the endpoint of the configuration.
  pub load_config_same :
      (nodes : List Node) (w : World) (bound : Bytes)
      → w.socket ≡ some bound
      → (load_config e nodes w).1.local_endpoint ≡ bound
      → ((load_config e nodes w).1.socket ≡ some bound)
        × ((load_config e nodes w).1.calls ≡ w.calls)
  unfolding load_config
  load_config_same nodes w bound s p = rebind_same _ bound _ s (sym (rebind-local_endpoint _ _) ∙ p)
