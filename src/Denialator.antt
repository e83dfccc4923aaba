-- ===== src/Denialator.antt =====
-- src/denialator.cpp: the filter that turns away the addresses flagged for swabber.
pub mod Denies
use banjax.Base.{
  ℕ, Bool, true, false, not, ◌&&◌, ◌++◌, Option, none, some, Bytes, codes, ◌==◌, if◌then◌else◌,
}
use banjax.Base.Int.{ℤ, sub_ℕ, leb_ℤ}
use banjax.Filter.{Parts, FilterResponse, plain, extended, respond, denied, go_ahead_no_comment}
use banjax.Library.{Library}
use banjax.Swabber.{get_state, ban}
use banjax.WhiteList.{WhiteList, is_white_listed}
use banjax.World.{Surroundings, World, M, ◌>>=◌, ◌>>◌, return, time}

module _ (x : Library) where
  -- `global_white_list && global_white_list->is_white_listed(ip)`.
  unfoldable pub is_globally_white_listed : Option WhiteList → Bytes → Bool
  is_globally_white_listed none ip = false
  is_globally_white_listed (some l) ip = elim (is_white_listed x.inet l ip) [
    | none ↦ false
    | some _ ↦ true
  ]

module _ (x : Library) (e : Surroundings) where
  pub reason : ℕ → Bytes
  reason state =
      codes "flagged on "
      ++ (x.to_string state ++ codes ", grace period passed. reported by denialator")

  -- A flagged address is denied, and reported again once the grace period has passed.
  pub deny : ℤ → Bytes → ℕ → M FilterResponse
  deny banning_grace_period ip state = do
    now ← time e
    (if leb_ℤ banning_grace_period (sub_ℕ now state) then ban e ip (reason state) else return tt)
    return (respond (extended denied))

  unfoldable pub on_http_request : Option WhiteList → ℤ → Parts → M FilterResponse
  on_http_request global_white_list banning_grace_period parts =
      if is_globally_white_listed x global_white_list parts.ip
      then return (plain go_ahead_no_comment)
      else do
        found ← get_state e parts.ip
        elim found [
          | none ↦ return (plain go_ahead_no_comment)
          | some state ↦
              if not (state == 0)
              then deny banning_grace_period parts.ip state
              else return (plain go_ahead_no_comment)
        ]
