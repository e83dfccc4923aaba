-- ===== src/Swabber/Ready.antt =====
-- When a call of `ban` of src/swabber.cpp is sure to reach swabber.
use banjax.Base.{
  ℕ, suc, ◌≡◌, Bool, true, false, not, ◌&&◌, [], ◌∷◌, ◌++◌, none, some, Bytes, arith, Option-cases,
  inl, inr,
}
use banjax.Base.Int.{pos, ltb_ℤ}
use banjax.World.{Surroundings, World, banned}
use banjax.Swabber.{is_empty, drop_state, send_request, send_ban, ban}

-- There is no grace period to wait for, and the socket is bound.
abbrev pub is_ready : World → Bool
is_ready w =
    not (ltb_ℤ (pos 0) w.grace_period)
    && elim w.socket [ none ↦ false | some bound ↦ not (is_empty bound) ]

module _ (e : Surroundings) (locks : (n : ℕ) → e.lock n ≡ true) (ip reason : Bytes) where
  -- The address has been sent, and the line with the reason written.
  abbrev pub Sent : World → World → Type 0
  Sent w w' =
      (w'.sent ≡ w.sent ++ ip ∷ [])
      × (w'.ban_ip_list
          ≡ w.ban_ip_list ++ record { ip = ip; reason = reason; report = banned } ∷ [])

  pub ban-Sent : (w : World) → is_ready w ≡ true → Sent w (ban e ip reason w).1
  unfolding ban send_ban send_request drop_state
  ban-Sent w h = elim (Option-cases w.socket) [
    | inl n ↦ ground (arith, h, n)
    | inr (b, n) ↦ ground (arith, h, n, locks (suc w.calls))
  ]
