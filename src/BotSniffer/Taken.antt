-- ===== src/BotSniffer/Taken.antt =====
-- `BotSniffer::load_config` with a socket that is taken over.
use mathlib.Core.Option.{some-injective}
use banjax.Base.{
  ℕ, ◌≡◌, inl, inr, refl, sym, ap, ◌∙◌, Option, none, some, [], Bytes, beq_refl, Bool-cases,
}
use banjax.Library.{Library}
use banjax.World.{Surroundings, World}
use banjax.Swabber.Taken.{KeepsDatabases, bind-KeepsDatabases, bind-socket}
use banjax.BotSniffer.{BotSniffer, is_at, take_socket, load_config}

module _ (x : Library) (e : Surroundings) where
  -- The databases and the socket of the swabber are not touched.
  abbrev pub IsAside : World → World → Type 0
  IsAside w w' =
      KeepsDatabases w w' × (w'.socket ≡ w.socket) × (w'.local_endpoint ≡ w.local_endpoint)

  take_socket-IsAside :
      (socket : Option Bytes) (endpoint : Bytes) (w : World)
      → IsAside w (take_socket x e socket endpoint w).1
  unfolding take_socket
  take_socket-IsAside socket endpoint w = elim (Bool-cases (is_at x e socket endpoint)) [
    | inl b ↦ rw b ((refl, refl, refl), refl, refl)
    | inr b ↦ rw b (
      bind-KeepsDatabases e [] endpoint w,
      (bind-socket e [] endpoint w).0,
      (bind-socket e [] endpoint w).1,
    )
  ]

  pub load_config-IsAside :
      (port : Option ℕ) (key socket : Option Bytes) (w : World)
      → IsAside w (load_config x e port key socket w).1
  unfolding load_config
  load_config-IsAside none key socket w = ((refl, refl, refl), refl, refl)
  load_config-IsAside (some p) none socket w = ((refl, refl, refl), refl, refl)
  load_config-IsAside (some p) (some k) socket w = take_socket-IsAside socket _ w

  take_socket_same :
      (bound endpoint : Bytes) (w : World)
      → endpoint ≡ bound
      → take_socket x e (some bound) endpoint w ≡ (some bound, w)
  unfolding take_socket
  take_socket_same bound endpoint w p = rw (p, beq_refl bound) refl

  -- No bind is tried for a socket that is bound to the endpoint of the configuration.
  pub load_config_same :
      (port : Option ℕ) (key : Option Bytes) (bound : Bytes) (k : BotSniffer) (w : World)
      → (load_config x e port key (some bound) w).0 ≡ some k
      → k.local_endpoint ≡ bound
      → (k.socket ≡ some bound) × ((load_config x e port key (some bound) w).1.calls ≡ w.calls)
  unfolding load_config
  load_config_same none key bound k w r p = absurd (cc r)
  load_config_same (some n) none bound k w r p = absurd (cc r)
  load_config_same (some n) (some key) bound k w r p =
      let e1 = some-injective _ k r in
      let t = take_socket_same bound _ w (ap (λ (b : BotSniffer). b.local_endpoint) e1 ∙ p) in
      (sym (ap (λ (b : BotSniffer). b.socket) e1) ∙ ap (λ v. v.0) t, ap (λ v. v.1.calls) t)
