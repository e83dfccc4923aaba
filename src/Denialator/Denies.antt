-- ===== src/Denialator/Denies.antt =====
-- src/denialator.cpp: which requests the denialator answers itself, and the bans that it reports.
use banjax.Base.{ℕ, ◌≡◌, ◌||◌, not, Option, Bytes, ◌==◌, if◌then◌else◌, arith}
use banjax.Base.Int.{ℤ, sub_ℕ, leb_ℤ}
use banjax.Denialator.{is_globally_white_listed, reason, deny, on_http_request}
use banjax.Filter.{Parts, plain, extended, respond, denied, go_ahead_no_comment}
use banjax.IpDb.{find_state, get_ip_state}
use banjax.Library.{Library}
use banjax.Swabber.{get_state, ban}
use banjax.WhiteList.{WhiteList}
use banjax.World.{Surroundings, World, try_lock, time}

module _ (x : Library) (e : Surroundings) where
  -- The world that a denied address leaves: it is reported again once the grace period has passed.
  abbrev pub after_denial : ℤ → Bytes → ℕ → World → World
  after_denial g ip state w =
      if leb_ℤ g (sub_ℕ (e.clock w.calls) state)
      then (ban e ip (reason x e state) (time e w).1).1
      else (time e w).1

  deny-after_denial :
      (g : ℤ) (ip : Bytes) (state : ℕ) (w : World)
      → deny x e g ip state w ≡ (respond (extended denied), after_denial g ip state w)
  unfolding deny
  deny-after_denial g ip state w = ground arith

  pub on_http_request_lem :
      (l : Option WhiteList) (g : ℤ) (p : Parts) (w : World)
      → on_http_request x e l g p w ≡ (
          if is_globally_white_listed x l p.ip
          then (plain go_ahead_no_comment, w)
          else if not (e.lock w.calls) || find_state 0 p.ip w.swabber_ip_db == 0
          then (plain go_ahead_no_comment, (try_lock e w).1)
          else (
            respond (extended denied),
            after_denial g p.ip (find_state 0 p.ip w.swabber_ip_db) (try_lock e w).1,
          ))
  unfolding on_http_request get_state get_ip_state
  on_http_request_lem l g p w =
      ground (arith, deny-after_denial g p.ip (find_state 0 p.ip w.swabber_ip_db) (try_lock e w).1)
