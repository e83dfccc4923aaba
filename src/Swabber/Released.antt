-- ===== src/Swabber/Released.antt =====
-- `ban` after the socket is released.
use banjax.Base.{ℕ, ◌≡◌, none, Bytes, arith}
use banjax.IpDb.{find_state, get_ip_state}
use banjax.World.{Surroundings, World, try_lock, time}
use banjax.Swabber.{
  send_request, send_ban, flag, set_state, wait_out, ban_with_grace, get_state, ban,
}

-- `w'` has no socket and has sent what `w` has.
abbrev pub IsSilent : World → World → Type 0
IsSilent w w' = (w'.socket ≡ none) × (w'.sent ≡ w.sent)

module _ (e : Surroundings) (ip reason : Bytes) where
  send_ban-IsSilent : (w : World) → w.socket ≡ none → IsSilent w (send_ban e ip reason w).1
  unfolding send_ban send_request
  send_ban-IsSilent w s = ground (arith, s)

  flag-IsSilent :
      (now state : ℕ) (w : World) → w.socket ≡ none → IsSilent w (flag e ip reason now state w).1
  unfolding flag set_state
  flag-IsSilent now state w s = ground (arith, s)

  wait_out-IsSilent :
      (now state : ℕ) (w : World)
      → w.socket ≡ none
      → IsSilent w (wait_out e ip reason now state w).1
  unfolding wait_out
  wait_out-IsSilent now state w s =
      let v = (flag e ip reason now state w).1 in
      let k = flag-IsSilent now state w s in ground (arith, k, send_ban-IsSilent v k.0)

  -- Nothing is sent any more.
  pub ban-IsSilent : (w : World) → w.socket ≡ none → IsSilent w (ban e ip reason w).1
  unfolding ban ban_with_grace get_state get_ip_state
  ban-IsSilent w s =
      let v = (try_lock e (time e w).1).1 in
      ground (
        arith,
        s,
        send_ban-IsSilent (time e w).1 s,
        wait_out-IsSilent (e.clock w.calls) (find_state 0 ip w.swabber_ip_db) v s,
      )
