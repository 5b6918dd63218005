-- ===== src/Election/Progress.antt =====
-- utils/kubernetes/leader_elector.py: when a round makes its elector the leader, and when none does.
use sts_agent.Prelude.{
  ℕ, ◌+◌, ◌≤◌, Bool, true, false, Option, none, some, List, [], ◌∷◌, if◌then◌else◌, ◌≡◌, refl, sym,
  arith, subst, if_holds, if_fails, le→leb, if_cases,
}
use sts_agent.Election.{
  ConfigMap, World, Fault, Outside, Fetched, get_cm, expired_at, is_lock_expired, may_acquire,
  needs_refresh, is_cm_mine, try_lock_cm, acquire_fetched, try_acquire, try_refresh,
  try_acquire_or_refresh, fetched, answered, posted, set_acquired, set_leader, create_payload,
}

-- No request of the round fails.
abbrev pub IsHealthy : Outside → Type 0
IsHealthy o = (o.get ≡ Fault.passes) × (o.delete ≡ Fault.passes) × (o.post ≡ Fault.passes)

-- The time, if there is one, is a lease before `now`.
abbrev pub IsOver : ℕ → ℕ → Option ℕ → Type 0
IsOver lease now none = Unit
IsOver lease now (some t) = t + lease ≤ now

-- There is no map, or one that is annotated and whose lease has ended.
abbrev pub IsFree : ℕ → ℕ → Option ConfigMap → Type 0
IsFree lease now none = Unit
IsFree lease now (some c) = (t : ℕ) × (c.acquired_time ≡ some t) × (t + lease ≤ now)

-- The result of an attempt that locked the map for the elector of `w`.
abbrev pub IsTaken : Outside → World → World × Bool → Type 0
IsTaken o w (w', won) =
    (won ≡ true)
    × (w'.cm ≡ some (o.stored (create_payload o.stamped w.elector)))
    × (w'.elector.last_acquire_time ≡ some o.stamped)

-- The elector of `w` has become leader, and the map and the elector have the time of the round.
abbrev pub IsLed : Outside → World → World → Type 0
IsLed o w w' =
    (w'.elector.is_leader ≡ true)
    × (w'.cm ≡ some (o.stored (create_payload o.stamped w.elector)))
    × (w'.elector.last_acquire_time ≡ some o.stamped)

may_acquire_over :
    (lease now : ℕ) (last : Option ℕ) → IsOver lease now last → may_acquire lease now last ≡ true
may_acquire_over lease now none h = refl
may_acquire_over lease now (some t) h = le→leb (t + lease) now h

module _ (o : Outside) where
  lock_nothing-IsTaken :
      (w : World)
      → w.cm ≡ none
      → o.post ≡ Fault.passes
      → IsTaken o w (try_lock_cm o w Fetched.nothing)
  unfolding try_lock_cm
  lock_nothing-IsTaken w e f = rw (e, f) (refl, refl, refl)

  pub lock_found-IsTaken :
      (w : World) (c : ConfigMap) → IsHealthy o → IsTaken o w (try_lock_cm o w (Fetched.found c))
  unfolding try_lock_cm
  lock_found-IsTaken w c (_, e, f) = rw (e, f) (refl, refl, refl)

  fetched-IsTaken :
      (w : World) (c : ConfigMap) (acquired : Option ℕ) (t : ℕ)
      → IsHealthy o
      → c.acquired_time ≡ some t
      → acquired ≡ some t
      → t + w.elector.lease_duration ≤ o.compared
      → IsTaken o w (acquire_fetched o (fetched w c acquired))
  unfolding acquire_fetched is_lock_expired
  fetched-IsTaken w c none t healthy at e le = absurd (ground arith)
  fetched-IsTaken w c (some s) t healthy at e le =
      let over : expired_at w.elector.lease_duration o.compared c.acquired_time ≡ true =
        subst (λ x. expired_at w.elector.lease_duration o.compared x ≡ true) (sym at)
          (le→leb (t + w.elector.lease_duration) o.compared le) in
      let w' = set_acquired w s in
      if_holds (IsTaken o w) (is_lock_expired o.compared w'.elector c)
        (try_lock_cm o w' (Fetched.found c)) (w', is_cm_mine w'.elector c) over
        (lock_found-IsTaken w' c healthy)

  answered-IsTaken :
      (w : World) (cm : Option ConfigMap)
      → w.cm ≡ cm
      → IsHealthy o
      → IsFree w.elector.lease_duration o.compared cm
      → IsTaken o w (acquire_fetched o (answered w cm))
  unfolding acquire_fetched
  answered-IsTaken w none same healthy h = lock_nothing-IsTaken w same healthy.2
  answered-IsTaken w (some c) same healthy (t, at, le) =
      fetched-IsTaken w c c.acquired_time t healthy at at le

  -- If no request fails, and the lease that the elector last saw and the one in the ConfigMap, if
  -- they are there, have ended, then an elector that is not leader becomes it in one round, whatever
  -- the map held, and the map and the elector have the time of the round.
  pub takes_over :
      (w : World)
      → IsHealthy o
      → w.elector.is_leader ≡ false
      → IsOver w.elector.lease_duration o.checked w.elector.last_acquire_time
      → IsFree w.elector.lease_duration o.compared w.cm
      → IsLed o w (try_acquire_or_refresh o w)
  unfolding try_acquire_or_refresh try_acquire get_cm
  takes_over w healthy idle over free =
      let lease = w.elector.lease_duration in
      let last = w.elector.last_acquire_time in
      if_fails (IsLed o w) w.elector.is_leader
        (if needs_refresh lease o.checked last then set_leader (try_refresh o w) else w)
        (if may_acquire lease o.checked last then set_leader (try_acquire o w) else w) idle
        (if_holds (IsLed o w) (may_acquire lease o.checked last) (set_leader (try_acquire o w)) w
          (may_acquire_over lease o.checked last over)
          (subst (λ f. IsTaken o w (acquire_fetched o (get_cm f w))) (sym healthy.0)
            (answered-IsTaken w w.cm refl healthy free)))

-- Rounds of one elector, each with what it meets outside.
abbrev pub rounds : List Outside → World → World
rounds [] w = w
rounds (o ∷ os) w = rounds os (try_acquire_or_refresh o w)

abbrev IsStuck : ConfigMap → World → Type 0
IsStuck c w = (w.cm ≡ some c) × (w.elector.is_leader ≡ false)

module _ (c : ConfigMap) (bare : c.acquired_time ≡ none) where
  posted_bare :
      (o : Outside) (fault : Fault) (w : World)
      → IsStuck c w
      → IsStuck c (set_leader (posted o fault w (some c)))
  posted_bare o fault w (is_c, idle) = (is_c, refl)

  acquire_bare :
      (o : Outside) (fault : Fault) (w : World)
      → IsStuck c w
      → IsStuck c (set_leader (acquire_fetched o (get_cm fault w)))
  unfolding acquire_fetched get_cm try_lock_cm
  acquire_bare o Fault.passes w (is_c, idle) =
      subst (λ cm. IsStuck c (set_leader (acquire_fetched o (answered w cm)))) (sym is_c)
        (subst (λ t. IsStuck c (set_leader (acquire_fetched o (fetched w c t)))) (sym bare)
          (is_c, refl))
  acquire_bare o Fault.refused w (is_c, idle) =
      subst (λ cm. IsStuck c (set_leader (posted o o.post w cm))) (sym is_c)
        (posted_bare o o.post w (is_c, idle))
  acquire_bare o Fault.no_response w (is_c, idle) = (is_c, refl)
  acquire_bare o Fault.lost w (is_c, idle) = (is_c, refl)

  round_bare : (o : Outside) (w : World) → IsStuck c w → IsStuck c (try_acquire_or_refresh o w)
  unfolding try_acquire_or_refresh try_acquire
  round_bare o w (is_c, idle) =
      let lease = w.elector.lease_duration in
      let last = w.elector.last_acquire_time in
      if_fails (IsStuck c) w.elector.is_leader
        (if needs_refresh lease o.checked last then set_leader (try_refresh o w) else w)
        (if may_acquire lease o.checked last then set_leader (try_acquire o w) else w) idle
        (if_cases (IsStuck c) (may_acquire lease o.checked last) (set_leader (try_acquire o w)) w
          (λ _. acquire_bare o o.get w (is_c, idle)) (λ _. (is_c, idle)))

  -- A ConfigMap without the annotation `acquired_time` is never replaced: in any rounds of an
  -- elector that is not leader, whatever the answers, the map stays and the elector is not leader.
  pub unstamped_never_locked :
      (os : List Outside) (w : World)
      → w.cm ≡ some c
      → w.elector.is_leader ≡ false
      → ((rounds os w).cm ≡ some c) × ((rounds os w).elector.is_leader ≡ false)
  unstamped_never_locked [] w is_c idle = (is_c, idle)
  unstamped_never_locked (o ∷ os) w is_c idle =
      let (still, not_leader) = round_bare o w (is_c, idle) in
      unstamped_never_locked os (try_acquire_or_refresh o w) still not_leader
