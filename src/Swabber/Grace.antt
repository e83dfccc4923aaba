-- ===== src/Swabber/Grace.antt =====
-- When `ban` reports an address to swabber, and what it remembers of it.
use banjax.Base.{
  ℕ, ◌≡◌, ◌≢◌, ◌⊎◌, inl, inr, true, false, [], ◌∷◌, ◌++◌, some, Bytes, lookup, arith, Bool-cases,
  Option-cases,
}
use banjax.Base.Int.{pos, sub_ℕ, ltb_ℤ}
use banjax.IpDb.{find_state, get_ip_state}
use banjax.World.{Surroundings, World, banned, try_lock, time}
use banjax.Swabber.{
  get_state, set_state, send_request, send_ban, flag, wait_out, ban_with_grace, ban,
}

module _ (e : Surroundings) (ip reason : Bytes) where
  -- `w'` differs from `w` by at most one more address sent, `ip`, and one more line of the log.
  abbrev pub Sends : World → World → Type 0
  Sends w w' =
      ((w'.sent ≡ w.sent) × (w'.ban_ip_list ≡ w.ban_ip_list) × (w'.swabber_ip_db ≡ w.swabber_ip_db))
      ⊎ ((w'.sent ≡ w.sent ++ ip ∷ [])
          × (w'.ban_ip_list
              ≡ w.ban_ip_list ++ record { ip = ip; reason = reason; report = banned } ∷ []))

  send_request-Sends :
      (w : World)
      → let r = send_request e ip reason w in
        ((r.0 ≡ false)
          × (r.1.sent ≡ w.sent)
          × (r.1.ban_ip_list ≡ w.ban_ip_list)
          × (r.1.swabber_ip_db ≡ w.swabber_ip_db))
        ⊎ ((r.0 ≡ true)
            × (r.1.sent ≡ w.sent ++ ip ∷ [])
            × (r.1.ban_ip_list
                ≡ w.ban_ip_list ++ record { ip = ip; reason = reason; report = banned } ∷ [])
            × (r.1.swabber_ip_db ≡ w.swabber_ip_db))
  unfolding send_request
  send_request-Sends w = ground arith

  send_ban-Sends : (w : World) → Sends w (send_ban e ip reason w).1
  unfolding send_ban
  send_ban-Sends w = ground (arith, send_request-Sends (try_lock e w).1)

  flag_cases :
      (now state : ℕ) (w : World)
      → ((state ≡ 0)
          × ((flag e ip reason now state w).0 ≡ now)
          × ((flag e ip reason now state w).1.sent ≡ w.sent)
          × ((flag e ip reason now state w).1.grace_period ≡ w.grace_period))
        ⊎ ((state ≢ 0) × (flag e ip reason now state w ≡ (state, w)))
  unfolding flag set_state
  flag_cases now state w = ground arith

  wait_out-Sends :
      (now state : ℕ) (w : World)
      → ltb_ℤ (pos 0) w.grace_period ≡ true
      → ((wait_out e ip reason now state w).1.sent ≡ w.sent)
        ⊎ (((wait_out e ip reason now state w).1.sent ≡ w.sent ++ ip ∷ [])
            × (state ≢ 0)
            × (ltb_ℤ (sub_ℕ now state) w.grace_period ≡ false))
  unfolding wait_out
  wait_out-Sends now state w g = elim (flag_cases now state w) [
    | inl (z, s, k, p) ↦ inl (ground (arith, s, k, p))
    | inr (n, s) ↦ ground (arith, n, s, send_ban-Sends w)
  ]

  -- The grace period allows a ban: there is none, or the address has stood in the database since
  -- at least so long.
  pub MayBan : World → Type 0
  MayBan w =
      (ltb_ℤ (pos 0) w.grace_period ≡ false)
      ⊎ ((state : ℕ) × (lookup ip w.swabber_ip_db ≡ some state)
          × (state ≢ 0)
          × (ltb_ℤ (sub_ℕ (e.clock w.calls) state) w.grace_period ≡ false))

  -- A call of `ban` sends nothing to swabber, or sends the one address it was given; then there is
  -- no grace period, or the address has been on record for at least the grace period.
  pub ban-MayBan :
      (w : World)
      → ((ban e ip reason w).1.sent ≡ w.sent)
        ⊎ (((ban e ip reason w).1.sent ≡ w.sent ++ ip ∷ []) × MayBan w)
  unfolding ban ban_with_grace get_state get_ip_state MayBan
  ban-MayBan w = elim (Bool-cases (ltb_ℤ (pos 0) w.grace_period)) [
    | inl g ↦ elim (Option-cases (lookup ip w.swabber_ip_db)) [
      | inl absent ↦
          ground
            (arith, g, absent, wait_out-Sends (e.clock w.calls) 0 (try_lock e (time e w).1).1 g)
      | inr (state, found) ↦
          ground
            (arith, g, found, wait_out-Sends (e.clock w.calls) state (try_lock e (time e w).1).1 g)
    ]
    | inr g ↦ ground (arith, g, send_ban-Sends (time e w).1)
  ]

  send_request-challenger_ip_db :
      (w : World) → (send_request e ip reason w).1.challenger_ip_db ≡ w.challenger_ip_db
  unfolding send_request
  send_request-challenger_ip_db w = ground arith

  send_ban-challenger_ip_db :
      (w : World) → (send_ban e ip reason w).1.challenger_ip_db ≡ w.challenger_ip_db
  unfolding send_ban
  send_ban-challenger_ip_db w = ground (arith, send_request-challenger_ip_db (try_lock e w).1)

  flag-challenger_ip_db :
      (now state : ℕ) (w : World)
      → (flag e ip reason now state w).1.challenger_ip_db ≡ w.challenger_ip_db
  unfolding flag set_state
  flag-challenger_ip_db now state w = ground arith

  wait_out-challenger_ip_db :
      (now state : ℕ) (w : World)
      → (wait_out e ip reason now state w).1.challenger_ip_db ≡ w.challenger_ip_db
  unfolding wait_out
  wait_out-challenger_ip_db now state w =
      let v = (flag e ip reason now state w).1 in
      ground (arith, flag-challenger_ip_db now state w, send_ban-challenger_ip_db v)

  -- The records of failed challenges are not `ban`'s.
  pub ban-challenger_ip_db :
      (w : World) → (ban e ip reason w).1.challenger_ip_db ≡ w.challenger_ip_db
  unfolding ban ban_with_grace get_state get_ip_state
  ban-challenger_ip_db w =
      let v = (try_lock e (time e w).1).1 in
      ground (
        arith,
        send_ban-challenger_ip_db (time e w).1,
        wait_out-challenger_ip_db (e.clock w.calls) (find_state 0 ip w.swabber_ip_db) v,
      )
