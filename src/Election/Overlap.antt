-- ===== src/Election/Overlap.antt =====
-- utils/kubernetes/leader_elector.py: two rounds that overlap.
use sts_agent.Prelude.{
  ℕ, ◌+◌, ◌≤◌, Bool, true, false, Option, none, some, ◌≡◌, ◌≢◌, refl, sym, arith, if_holds,
  if_fails, subst, ◌==◌, ==_iff, le→leb,
}
use sts_agent.Election.{
  ConfigMap, Elector, World, Outside, Fetched, get_cm, is_lock_expired, is_cm_mine, expired_at,
  answered, try_lock_cm, acquire_fetched, try_acquire_or_refresh, set_leader, fetched,
}
use sts_agent.Election.Cluster.{Cluster, seen_by, after, turn}
use sts_agent.Election.Progress.{IsHealthy, IsOver, IsFree, lock_found-IsTaken, takes_over}

-- The elector `i` fetches the map, `j` takes a whole round, and `i` goes on with what it fetched.
abbrev resumed : Outside → Cluster → World × Fetched → World × Bool
resumed o s (w, f) = acquire_fetched o (record { cm = s.cm; elector = w.elector }, f)

unfoldable pub overlapped : Cluster → ℕ → Outside → ℕ → Outside → Cluster
overlapped s i o j o' =
    let s' = turn s j o' in after s' i o (set_leader (resumed o s' (get_cm o.get (seen_by s i))))

-- The elector has become leader at `t`.
abbrev pub IsLeader : ℕ → Elector → Type 0
IsLeader t e = (e.is_leader ≡ true) × (e.last_acquire_time ≡ some t)

not_same : (a b : ℕ) → a ≢ b → (a == b) ≡ false
not_same a b h = ground arith

module _ (s : Cluster) (i j : ℕ) (o o' : Outside) (c : ConfigMap) (t : ℕ) where
  abbrev Done : World × Bool → Type 0
  Done (w, won) = (won ≡ true) × (w.elector.last_acquire_time ≡ some o.stamped)

  resumed-fetched :
      (s' : Cluster) (w : World) (acquired : Option ℕ)
      → IsHealthy o
      → c.acquired_time ≡ some t
      → acquired ≡ some t
      → t + w.elector.lease_duration ≤ o.compared
      → Done (resumed o s' (fetched w c acquired))
  unfolding acquire_fetched is_lock_expired
  resumed-fetched s' w none healthy at e le = absurd (ground arith)
  resumed-fetched s' w (some u) healthy at e le =
      let w' : World = record {
        cm = s'.cm;
        elector = record w.elector { last_acquire_time = some u };
      } in
      let over : expired_at w.elector.lease_duration o.compared c.acquired_time ≡ true =
        subst (λ x. expired_at w.elector.lease_duration o.compared x ≡ true) (sym at)
          (le→leb (t + w.elector.lease_duration) o.compared le) in
      let taken = lock_found-IsTaken o w' c healthy in
      if_holds Done (is_lock_expired o.compared w'.elector c) (try_lock_cm o w' (Fetched.found c))
        (w', is_cm_mine w'.elector c) over (taken.0, taken.2)

  resumed-get_cm :
      (s' : Cluster) (w : World)
      → IsHealthy o
      → w.cm ≡ some c
      → c.acquired_time ≡ some t
      → t + w.elector.lease_duration ≤ o.compared
      → Done (resumed o s' (get_cm o.get w))
  unfolding get_cm
  resumed-get_cm s' w healthy is_c at le =
      subst (λ f. Done (resumed o s' (get_cm f w))) (sym healthy.0)
        (subst (λ cm. Done (resumed o s' (answered w cm))) (sym is_c)
          (resumed-fetched s' w c.acquired_time healthy at at le))

  -- If an elector in `_try_acquire` fetches an annotated map whose lease has ended, and another
  -- elector that is not leader, and last saw no lease or one that has ended, takes a whole round
  -- before the first one goes on, with no request failing, then both are leader, each with the time
  -- of its own round: the DELETE of the first takes away the map of the second.
  pub overlapping_leaders :
      i ≢ j
      → IsHealthy o
      → IsHealthy o'
      → s.cm ≡ some c
      → c.acquired_time ≡ some t
      → t + (s.electors i).lease_duration ≤ o.compared
      → t + (s.electors j).lease_duration ≤ o'.compared
      → (s.electors j).is_leader ≡ false
      → IsOver (s.electors j).lease_duration o'.checked (s.electors j).last_acquire_time
      → IsLeader o.stamped ((overlapped s i o j o').electors i)
        × IsLeader o'.stamped ((overlapped s i o j o').electors j)
  unfolding overlapped turn
  overlapping_leaders distinct healthy healthy' is_c at le le' idle over =
      let s' = turn s j o' in
      let w' = set_leader (resumed o s' (get_cm o.get (seen_by s i))) in
      let led =
        takes_over o' (seen_by s j) healthy' idle over
          (subst (IsFree (s.electors j).lease_duration o'.compared) (sym is_c) (t, at, le')) in
      (
        if_holds (IsLeader o.stamped) (i == i) w'.elector (s'.electors i) ((==_iff i i).1 refl)
            (resumed-get_cm s' (seen_by s i) healthy is_c at le),
        if_fails (IsLeader o'.stamped) (j == i) w'.elector (s'.electors j)
            (not_same j i (λ e. distinct (sym e)))
            (if_holds (IsLeader o'.stamped) (j == j)
              (try_acquire_or_refresh o' (seen_by s j)).elector (s.electors j) ((==_iff j j).1 refl)
              (led.0, led.2)),
      )
