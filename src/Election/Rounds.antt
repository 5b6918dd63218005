-- ===== src/Election/Rounds.antt =====
-- utils/kubernetes/leader_elector.py, try_acquire_or_refresh: a round keeps the lock of another node.
use sts_agent.Prelude.{
  ℕ, ◌+◌, ◌≤◌, ◌<◌, Bool, true, false, Option, none, some, String, if◌then◌else◌, ◌≡◌, ◌≢◌, refl,
  ap, ◌∙◌, sym, arith, if_cases,
}
use sts_agent.Election.{
  ConfigMap, World, Fault, Outside, Fetched, get_cm, is_lock_expired, is_cm_mine, update_payload,
  build_update_cm_payload, try_lock_cm, try_refresh_cm, acquire_fetched, refresh_fetched,
  try_acquire, try_refresh, set_leader, needs_refresh, may_acquire, try_acquire_or_refresh, fetched,
  answered,
}
use sts_agent.Election.Lease.{
  Locks, Holds, IsOrderly, Spares, IsHis, Outcome, IsUpdate, IsFetch, lost-Outcome,
  lock_found-Outcome, lock_nothing-Outcome, put_update-Outcome, expired_vacant, mine-Holds,
  creator_of,
}

update_payload-IsUpdate :
    (now : ℕ) (c : ConfigMap) (version link uid : Option String)
    → IsUpdate now c (update_payload now c version link uid)
update_payload-IsUpdate now c (some version) (some link) (some uid) = (refl, refl)
update_payload-IsUpdate now c none link uid = tt
update_payload-IsUpdate now c (some version) none uid = tt
update_payload-IsUpdate now c (some version) (some link) none = tt

module _ (o : Outside) (orderly : IsOrderly o) (lease : ℕ) (name : String)
    (old : Option ConfigMap) where
  abbrev Fine : World × Bool → Type 0
  Fine = Outcome o orderly lease name old

  same-Spares : (w : World) → w.cm ≡ old → Spares o orderly lease name old w.cm
  same-Spares w same n t _ _ _ = same

  fetched-IsFetch :
      (w : World) (c : ConfigMap) (acquired : Option ℕ)
      → c.acquired_time ≡ acquired
      → IsHis o orderly lease name old w
      → w.cm ≡ old
      → old ≡ some c
      → IsFetch o orderly lease name old (fetched w c acquired)
  fetched-IsFetch w c none at his same is_c = (his, same, tt)
  fetched-IsFetch w c (some t) at his same is_c = (his, same, (is_c, sym at))

  answered-IsFetch :
      (w : World) (cm : Option ConfigMap)
      → old ≡ cm
      → IsHis o orderly lease name old w
      → w.cm ≡ old
      → IsFetch o orderly lease name old (answered w cm)
  answered-IsFetch w none is_cm his same = (his, same, tt)
  answered-IsFetch w (some c) is_cm his same =
      fetched-IsFetch w c c.acquired_time refl his same is_cm

  get_cm-IsFetch :
      (fault : Fault) (w : World)
      → IsHis o orderly lease name old w
      → w.cm ≡ old
      → IsFetch o orderly lease name old (get_cm fault w)
  unfolding get_cm
  get_cm-IsFetch Fault.passes w his same = answered-IsFetch w w.cm (sym same) his same
  get_cm-IsFetch Fault.refused w his same = (his, same, tt)
  get_cm-IsFetch Fault.no_response w his same = (his, same, tt)
  get_cm-IsFetch Fault.lost w his same = (his, same, tt)

  try_lock_expired :
      (w : World) (c : ConfigMap)
      → IsHis o orderly lease name old w
      → old ≡ some c
      → is_lock_expired o.compared w.elector c ≡ true
      → Fine (try_lock_cm o w (Fetched.found c))
  unfolding try_lock_cm
  try_lock_expired w c his is_c over =
      lock_found-Outcome o orderly lease name old o.delete w his
        (expired_vacant o orderly lease name old w.elector c his.1 is_c over)

  acquire_fetched-Outcome :
      (w : World) (f : Fetched)
      → IsFetch o orderly lease name old (w, f)
      → Fine (acquire_fetched o (w, f))
  unfolding acquire_fetched
  acquire_fetched-Outcome w Fetched.raised (his, same, _) =
      lost-Outcome o orderly lease name old w his (same-Spares w same)
  acquire_fetched-Outcome w Fetched.nothing (his, same, _) =
      lock_nothing-Outcome o orderly lease name old w his same
  acquire_fetched-Outcome w (Fetched.found c) (his, same, (is_c, last)) =
      if_cases Fine (is_lock_expired o.compared w.elector c) (try_lock_cm o w (Fetched.found c))
        (w, is_cm_mine w.elector c) (try_lock_expired w c his is_c)
        (λ live. (
          his,
          mine-Holds o orderly lease name old w c his (same ∙ is_c) last live,
          same-Spares w same,
        ))

  try_refresh_mine :
      (w : World) (c : ConfigMap)
      → IsFetch o orderly lease name old (w, Fetched.found c)
      → is_cm_mine w.elector c ≡ true
      → Fine (try_refresh_cm o w c)
  unfolding try_refresh_cm is_cm_mine build_update_cm_payload
  try_refresh_mine w c (his, same, (is_c, last)) mine =
      put_update-Outcome o orderly lease name old o.put w c (build_update_cm_payload o.stamped c)
        his same is_c (creator_of w.elector.node_name c.creator mine ∙ ap some his.0)
        (update_payload-IsUpdate o.stamped c c.resource_version c.self_link c.uid)

  refresh_fetched-Outcome :
      (w : World) (f : Fetched)
      → IsFetch o orderly lease name old (w, f)
      → Fine (refresh_fetched o (w, f))
  unfolding refresh_fetched
  refresh_fetched-Outcome w Fetched.raised (his, same, _) =
      lost-Outcome o orderly lease name old w his (same-Spares w same)
  refresh_fetched-Outcome w Fetched.nothing (his, same, _) =
      lock_nothing-Outcome o orderly lease name old w his same
  refresh_fetched-Outcome w (Fetched.found c) (his, same, (is_c, last)) =
      if_cases Fine (is_lock_expired o.compared w.elector c) (try_lock_cm o w (Fetched.found c))
        (if is_cm_mine w.elector c then try_refresh_cm o w c else (w, false))
        (try_lock_expired w c his is_c)
        (λ live.
          if_cases Fine (is_cm_mine w.elector c) (try_refresh_cm o w c) (w, false)
            (try_refresh_mine w c (his, same, (is_c, last)))
            (λ _. lost-Outcome o orderly lease name old w his (same-Spares w same)))

-- A node that is leader holds the lock, or its lease has ended.
abbrev pub Claimed : ℕ → World → Type 0
Claimed now w = w.elector.is_leader ≡ true → Holds now w

-- The world after a round of the elector of `w`.
abbrev pub IsRound : Outside → World → World → Type 0
IsRound o w w' =
    (w'.elector.node_name ≡ w.elector.node_name)
    × (w'.elector.lease_duration ≡ w.elector.lease_duration)
    × Claimed o.stamped w'
    × ((n : String) (t : ℕ)
        → n ≢ w.elector.node_name
        → Locks w.cm n t
        → o.stamped < t + w.elector.lease_duration
        → w'.cm ≡ w.cm)

set_leader-IsRound :
    (o : Outside) (orderly : IsOrderly o) (w : World) (r : World × Bool)
    → Outcome o orderly w.elector.lease_duration w.elector.node_name w.cm r
    → IsRound o w (set_leader r)
set_leader-IsRound o orderly w (w', won) (his, claim, spares) = (his.0, his.1, claim, spares)

kept-IsRound : (o : Outside) (now : ℕ) (w : World) → now ≤ o.stamped → Claimed now w → IsRound o w w
kept-IsRound o now w later claim = (
  refl,
  refl,
  (λ leads. let (t, last, locks) = claim leads in (t, last, λ lt. locks (omega arith))),
  λ n t _ _ _. refl,
)

pub round :
    (o : Outside) (now : ℕ) (w : World)
    → IsOrderly o
    → now ≤ o.stamped
    → Claimed now w
    → IsRound o w (try_acquire_or_refresh o w)
unfolding try_acquire_or_refresh try_acquire try_refresh
round o now w orderly later claim =
    let lease = w.elector.lease_duration in
    let last = w.elector.last_acquire_time in
    let fetch = get_cm-IsFetch o orderly lease w.elector.node_name w.cm o.get w (refl, refl) refl in
    let kept = kept-IsRound o now w later claim in
    if_cases (IsRound o w) w.elector.is_leader
      (if needs_refresh lease o.checked last then set_leader (try_refresh o w) else w)
      (if may_acquire lease o.checked last then set_leader (try_acquire o w) else w)
      (λ _.
        if_cases (IsRound o w) (needs_refresh lease o.checked last) (set_leader (try_refresh o w)) w
          (λ _. set_leader-IsRound o orderly w (try_refresh o w) (
            refresh_fetched-Outcome o orderly lease w.elector.node_name w.cm (get_cm o.get w).0
              (get_cm o.get w).1 fetch))
          (λ _. kept))
      (λ _.
        if_cases (IsRound o w) (may_acquire lease o.checked last) (set_leader (try_acquire o w)) w
          (λ _. set_leader-IsRound o orderly w (try_acquire o w) (
            acquire_fetched-Outcome o orderly lease w.elector.node_name w.cm (get_cm o.get w).0
              (get_cm o.get w).1 fetch))
          (λ _. kept))
