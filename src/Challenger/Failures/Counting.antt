-- ===== src/Challenger/Failures/Counting.antt =====
-- `report_failure` and `report_success` of src/challenger.cpp: how many failures in a row it takes to
-- be banned, and what the ban does.
use banjax.Base.{
  ℕ, zero, suc, ◌+◌, ◌%◌, ◌^◌, ◌≤◌, ◌<◌, ◌≡◌, refl, ap, ◌∙◌, Bool, true, false, Bytes, lookup,
  lookup-insert, lookup-erase, beq_refl, leb, arith, ◌⊎◌, inl, inr, Bool-cases, subst,
}
use banjax.Challenger.Failures.{
  set_failures, drop_failures, report_success, banning_reason, count_failure, report_failure,
}
use banjax.Filter.{Parts, HostChallengeSpec}
use banjax.IpDb.{find_state, get_ip_state, set_ip_state, drop_ip}
use banjax.Kafka.{challenger_state}
use banjax.Library.{Library}
use banjax.Swabber.{ban}
use banjax.Swabber.Ready.{is_ready, Sent, ban-Sent}
use banjax.World.{Surroundings, World, try_lock}

-- The failures on record for an address.
abbrev pub failures : Bytes → World → ℕ
failures ip w = find_state 0 ip w.challenger_ip_db

module _ (e : Surroundings) (locks : (n : ℕ) → e.lock n ≡ true) where
  failures-set_failures :
      (ip : Bytes) (n : ℕ) (w : World) → failures ip (set_failures e ip n w).1 ≡ n
  unfolding set_failures set_ip_state lookup
  failures-set_failures ip n w =
      rw (locks w.calls) (rw (lookup-insert ip ip n w.challenger_ip_db) (rw (beq_refl ip)))

  failures-drop_failures : (ip : Bytes) (w : World) → failures ip (drop_failures e ip w).1 ≡ 0
  unfolding drop_failures drop_ip lookup
  failures-drop_failures ip w =
      rw (locks w.calls) (rw (lookup-erase ip ip w.challenger_ip_db) (rw (beq_refl ip)))

  -- What swabber has been sent, the log of the bans and the database of the addresses to ban.
  abbrev pub KeepsSwabber : World → World → Type 0
  KeepsSwabber w w' =
      (w'.sent ≡ w.sent) × (w'.ban_ip_list ≡ w.ban_ip_list) × (w'.swabber_ip_db ≡ w.swabber_ip_db)

  module _ (x : Library) (spec : HostChallengeSpec) (parts : Parts) where
    -- `swabber->ban` for the address, with the number of failures in the reason.
    abbrev pub banned_world : ℕ → World → World
    banned_world n w = (ban e parts.ip (banning_reason x e spec parts n) (try_lock e w).1).1

    -- `true` after the call of `ban`, whose effect on swabber stands; the address is sent if
    -- swabber is ready, and the failures are no longer on record.
    abbrev pub Bans : ℕ → World → Bool × World → Type 0
    Bans n w r =
        (r.0 ≡ true)
        × (failures parts.ip r.1 ≡ 0)
        × (r.1.sent ≡ (banned_world n w).sent)
        × (r.1.ban_ip_list ≡ (banned_world n w).ban_ip_list)
        × (r.1.swabber_ip_db ≡ (banned_world n w).swabber_ip_db)
        × ((is_ready w ≡ false) ⊎ Sent e locks parts.ip (banning_reason x e spec parts n) w r.1)

    -- `false` with n failures on record and nothing done for swabber.
    abbrev pub Counts : ℕ → World → Bool × World → Type 0
    Counts n w r = (r.0 ≡ false) × (failures parts.ip r.1 ≡ n) × KeepsSwabber w r.1

    abbrev pub CountsOrBans : ℕ → World → Bool × World → Type 0
    CountsOrBans n w r =
        ((n < spec.fail_tolerance_threshold) × Counts n w r)
        ⊎ ((spec.fail_tolerance_threshold ≤ n) × Bans n w r)

    drop_failures-Bans :
        (n : ℕ) (w : World) → Bans n w (true, (drop_failures e parts.ip (banned_world n w)).1)
    unfolding drop_failures
    drop_failures-Bans n w = (
      refl,
      failures-drop_failures parts.ip (banned_world n w),
      refl,
      refl,
      refl,
      elim (Bool-cases (is_ready w)) [
        | inl y ↦
            inr (ban-Sent e locks parts.ip (banning_reason x e spec parts n) (try_lock e w).1 y)
        | inr y ↦ inl y
      ],
    )

    set_failures-Counts :
        (n : ℕ) (w : World) → Counts n w (false, (set_failures e parts.ip n (try_lock e w).1).1)
    unfolding set_failures
    set_failures-Counts n w =
        (refl, failures-set_failures parts.ip n (try_lock e w).1, (refl, refl, refl))

    count_failure_lem :
        (n : ℕ) (w : World) → CountsOrBans n w (count_failure x e spec parts n (try_lock e w).1)
    unfolding count_failure
    count_failure_lem n w = elim (Bool-cases (leb spec.fail_tolerance_threshold n)) [
      | inl b ↦ rw b (inr (ground arith, drop_failures-Bans n w))
      | inr b ↦ rw b (inl (ground arith, set_failures-Counts n w))
    ]

    report_failure-count_failure :
        (w : World)
        → report_failure x e spec parts w
          ≡ count_failure x e spec parts ((failures parts.ip w + 1) % 2 ^ 64) (try_lock e w).1
    unfolding report_failure challenger_state get_ip_state
    report_failure-count_failure w = rw (locks w.calls) refl

    -- When the locks are free, a failed challenge adds one to the record of the address. If that
    -- stays below the threshold, it is stored, `report_failure` returns false and nothing is sent,
    -- logged or flagged for swabber. If it is at least the threshold, what swabber has sent,
    -- logged and flagged is what the call of `ban` with that number of failures leaves, which
    -- sends the address and logs the reason if there is no grace period and the socket is bound,
    -- `report_failure` returns true and the record of the address is dropped. The number is below
    -- 2 ^ 64.
    pub report_failure-failures :
        (w : World)
        → failures parts.ip w + 1 < 2 ^ 64
        → CountsOrBans (failures parts.ip w + 1) w (report_failure x e spec parts w)
    report_failure-failures w h =
        let n = failures parts.ip w + 1 in
        let whole : n % 2 ^ 64 ≡ n = omega (arith, h) in
        let step : report_failure x e spec parts w
            ≡ count_failure x e spec parts n (try_lock e w).1 =
          report_failure-count_failure w
          ∙ ap (λ m. count_failure x e spec parts m (try_lock e w).1) whole in
        rw step (count_failure_lem n w)

    -- k failed challenges in a row.
    abbrev pub fail_times : ℕ → World → World
    fail_times zero w = w
    fail_times (suc k) w = (report_failure x e spec parts (fail_times k w)).1

    -- A failure that is counted, from the number on record.
    report_failure-CountsOrBans :
        (n : ℕ) (w : World)
        → failures parts.ip w ≡ n
        → n + 1 < 2 ^ 64
        → CountsOrBans (n + 1) w (report_failure x e spec parts w)
    report_failure-CountsOrBans n w start h =
        subst (λ m. CountsOrBans (m + 1) w (report_failure x e spec parts w)) start
          (report_failure-failures w (omega (arith, start)))

    -- When the locks are free and n failures are on record, k more failures in a row that stay
    -- below the threshold leave n + k on record and nothing sent, logged or flagged for swabber.
    -- The failure after them is counted in the same way if it stays below the threshold; if it
    -- reaches it, what swabber has sent, logged and flagged is what the call of `ban` with that
    -- number of failures leaves, which sends the address and logs the reason if there is no grace
    -- period and the socket is bound, `report_failure` returns true and the record of the address
    -- is dropped. The threshold is below 2 ^ 64.
    pub report_failure-fail_times :
        (k n : ℕ) (w : World)
        → spec.fail_tolerance_threshold < 2 ^ 64
        → failures parts.ip w ≡ n
        → n + k < spec.fail_tolerance_threshold
        → (failures parts.ip (fail_times k w) ≡ n + k)
          × KeepsSwabber w (fail_times k w)
          × CountsOrBans
              (n + k + 1)
              (fail_times k w)
              (report_failure x e spec parts (fail_times k w))
    report_failure-fail_times k n w fits start below =
        let (on_record, kept) = counted k below in
        (
          on_record,
          kept,
          report_failure-CountsOrBans (n + k) (fail_times k w) on_record (omega arith),
        )
      where
        counted :
            (j : ℕ)
            → n + j < spec.fail_tolerance_threshold
            → (failures parts.ip (fail_times j w) ≡ n + j) × KeepsSwabber w (fail_times j w)
        counted zero h = (omega (arith, start), (refl, refl, refl))
        counted (suc j) h =
            let (before, (s, l, d)) = counted j (omega arith) in
            elim (report_failure-CountsOrBans (n + j) (fail_times j w) before (omega arith)) [
              | inl (small, (r, f, (s', l', d'))) ↦ (f ∙ omega arith, (s' ∙ s, l' ∙ l, d' ∙ d))
              | inr (large, bans) ↦ absurd (omega (arith, h, large))
            ]

    -- When the locks are free, after a passed challenge the record starts from one failure: after
    -- j more failures, for any j up to t - 2 with the threshold t, the record is 1 + j and nothing
    -- is sent, logged or flagged for swabber; the next failure is only counted if j is less than t
    -- - 2, and for j = t - 2 swabber is left as the call of `ban` with the number t leaves it,
    -- `report_failure` returns true and the record is dropped. The threshold is below 2 ^ 64.
    pub report_failure-report_success :
        (j : ℕ) (w : World)
        → spec.fail_tolerance_threshold < 2 ^ 64
        → j + 2 ≤ spec.fail_tolerance_threshold
        → let v = fail_times j (report_success e parts.ip w).1 in
          KeepsSwabber w v
          × (failures parts.ip v ≡ 1 + j)
          × (((j + 2 < spec.fail_tolerance_threshold)
                × Counts (j + 2) v (report_failure x e spec parts v))
              ⊎ ((j + 2 ≡ spec.fail_tolerance_threshold)
                  × Bans (j + 2) v (report_failure x e spec parts v)))
    unfolding report_success set_failures
    report_failure-report_success j w fits most =
        let start = (report_success e parts.ip w).1 in
        let v = fail_times j start in
        let next : 1 + j + 1 ≡ j + 2 = omega arith in
        let (on_record, kept, after) =
          report_failure-fail_times j 1 start fits (failures-set_failures parts.ip 1 w)
            (omega arith) in
        (
          kept,
          on_record,
          elim (subst (λ m. CountsOrBans m v (report_failure x e spec parts v)) next after) [
            | inl (small, counts) ↦ inl (small, counts)
            | inr (large, bans) ↦ inr (omega (arith, most, large), bans)
          ],
        )
