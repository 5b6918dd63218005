-- ===== src/Election/Cluster.antt =====
-- utils/kubernetes/leader_elector.py: the electors of several nodes, which take their rounds one
-- after the other, on one clock and one ConfigMap.
use mathlib.Core.Option.{some-injective}
use sts_agent.Prelude.{
  ℕ, ◌+◌, ◌≤◌, ◌<◌, true, Option, some, String, if◌then◌else◌, ◌≡◌, ◌≢◌, refl, ap, ◌∙◌, sym, arith,
  if_cases, ◌==◌, ==_iff, subst,
}
use sts_agent.Election.{ConfigMap, Elector, World, Outside, create_elector, try_acquire_or_refresh}
use sts_agent.Election.Lease.{Locks, IsOrderly}
use sts_agent.Election.Rounds.{Claimed, IsRound, round}

pub record Cluster : Type 0 where
  pub cm : Option ConfigMap
  pub electors : ℕ → Elector
  pub now : ℕ

abbrev pub seen_by : Cluster → ℕ → World
seen_by s i = record { cm = s.cm; elector = s.electors i }

-- The cluster after the round `w` of the elector `i`.
abbrev pub after : Cluster → ℕ → Outside → World → Cluster
after s i o w = record {
  cm = w.cm;
  electors = λ k. if k == i then w.elector else s.electors k;
  now = o.stamped;
}

unfoldable pub turn : Cluster → ℕ → Outside → Cluster
turn s i o = after s i o (try_acquire_or_refresh o (seen_by s i))

-- The electors of the nodes `names`, created with one lease, before any round.
abbrev pub begin_with : (ℕ → String) → Option ℕ → Option ConfigMap → ℕ → Cluster
begin_with names lease cm now = record {
  cm = cm;
  electors = λ i. create_elector (names i) lease;
  now = now;
}

-- Any number of rounds of any electors, in any order.
pub data Reach (names : ℕ → String) (lease : Option ℕ) : Cluster → Type 0 where
  begun : {cm : Option ConfigMap} {now : ℕ} → Reach names lease (begin_with names lease cm now)
  later :
      {s : Cluster} (i : ℕ) (o : Outside)
      → Reach names lease s
      → IsOrderly o
      → s.now ≤ o.checked
      → Reach names lease (turn s i o)

-- The elector `i` is leader, and its lease has not ended.
abbrev pub Leads : Cluster → ℕ → Type 0
Leads s i =
    (s.electors i).is_leader ≡ true
    × (t : ℕ) × ((s.electors i).last_acquire_time ≡ some t)
    × (s.now < t + (s.electors i).lease_duration)

module _ (names : ℕ → String) (lease : Option ℕ)
    (distinct : (i j : ℕ) → names i ≡ names j → i ≡ j) where
  abbrev duration : ℕ
  duration = (create_elector "" lease).lease_duration

  abbrev Member : Option ConfigMap → ℕ → ℕ → Elector → Type 0
  Member cm now k e =
      (e.node_name ≡ names k)
      × (e.lease_duration ≡ duration)
      × Claimed now (record { cm = cm; elector = e })

  abbrev IsLeased : Cluster → Type 0
  IsLeased s = (k : ℕ) → Member s.cm s.now k (s.electors k)

  after-Member :
      (s : Cluster) (i k : ℕ) (o : Outside) (w : World)
      → IsLeased s
      → s.now ≤ o.stamped
      → IsRound o (seen_by s i) w
      → k ≢ i
      → Member w.cm o.stamped k (s.electors k)
  after-Member s i k o w h le (name, same, claim, spares) other =
      let (name_k, lease_k, claim_k) = h k in
      let (name_i, lease_i, _) = h i in
      (
        name_k,
        lease_k,
        λ leads.
            let (t, last, locks) = claim_k leads in
            (
              t,
              last,
              λ lt.
                  let kept =
                    spares (s.electors k).node_name t
                      (λ e. other (distinct k i (sym name_k ∙ e ∙ name_i)))
                      (locks (omega (arith, le))) (omega (arith, lt, lease_i, lease_k)) in
                  subst (λ cm. Locks cm (s.electors k).node_name t) (sym kept)
                    (locks (omega (arith, le))),
            ),
      )

  turn-IsLeased :
      (s : Cluster) (i : ℕ) (o : Outside)
      → IsLeased s
      → IsOrderly o
      → s.now ≤ o.checked
      → IsLeased (turn s i o)
  unfolding turn
  turn-IsLeased s i o h orderly le k =
      let w = try_acquire_or_refresh o (seen_by s i) in
      let le_stamped : s.now ≤ o.stamped = omega (arith, le, orderly.0, orderly.1) in
      let (name_i, lease_i, claim_i) = h i in
      let done = round o s.now (seen_by s i) orderly le_stamped claim_i in
      if_cases (Member w.cm o.stamped k) (k == i) w.elector (s.electors k)
        (λ e.
          subst (λ j. Member w.cm o.stamped j w.elector) (sym ((==_iff k i).0 e))
            (done.0 ∙ name_i, done.1 ∙ lease_i, done.2))
        (λ e. after-Member s i k o w h le_stamped done (λ same. ground (arith, ==_iff k i)))

  begin_with-IsLeased : (cm : Option ConfigMap) (now : ℕ) → IsLeased (begin_with names lease cm now)
  unfolding create_elector
  begin_with-IsLeased cm now k = (refl, refl, λ e. absurd (ground arith))

  Reach-IsLeased : (s : Cluster) → Reach names lease s → IsLeased s
  Reach-IsLeased _ (Reach.begun {cm} {now}) = begin_with-IsLeased cm now
  Reach-IsLeased _ (Reach.later {s} i o r orderly le) =
      turn-IsLeased s i o (Reach-IsLeased s r) orderly le

  Leads-Locks : (s : Cluster) (k : ℕ) → IsLeased s → Leads s k → (t : ℕ) × Locks s.cm (names k) t
  Leads-Locks s k h (leads, u, at, lt) =
      let (name, _, claim) = h k in
      let (t, last, locks) = claim leads in
      let same : u ≡ t = some-injective u t (sym at ∙ last) in
      (t, subst (λ n. Locks s.cm n t) name (locks (omega (arith, lt, same))))

  -- After any number of rounds of electors that were created with one lease on nodes of distinct
  -- names, which read one clock and do not overlap, whichever requests fail or lose their answer,
  -- and if the server keeps the two annotations of a payload and no one else writes the ConfigMap,
  -- at most one elector is leader with a lease that has not ended.
  pub one_leader : (s : Cluster) (i j : ℕ) → Reach names lease s → Leads s i → Leads s j → i ≡ j
  one_leader s i j r leads_i leads_j =
      let h = Reach-IsLeased s r in
      let (t, (c, is_c, his, _)) = Leads-Locks s i h leads_i in
      let (u, (d, is_d, hers, _)) = Leads-Locks s j h leads_j in
      let same : c ≡ d = some-injective c d (sym is_c ∙ is_d) in
      distinct i j (some-injective (names i) (names j) (sym his ∙ ap (λ x. x.creator) same ∙ hers))
