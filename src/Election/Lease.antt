-- ===== src/Election/Lease.antt =====
-- utils/kubernetes/leader_elector.py: what one round of an elector does to the lock.
use text.Mathlib.TextEquality.{eq_iff}
use mathlib.Core.Option.{some-injective, none-ne-some}
use sts_agent.Prelude.{
  ℕ, ◌+◌, ◌≤◌, ◌<◌, Bool, true, false, Option, none, some, String, ◌≡◌, ◌≢◌, refl, ap, ◌∙◌, sym,
  arith,
}
use sts_agent.Election.{
  ConfigMap, Elector, World, Fault, Outside, Fetched, expired_at, is_lock_expired, created_by,
  is_cm_mine, create_payload, deleted, put_cm, posted, post_lock, try_lock_cm, put_update,
}

-- The map locks the election for the node `name` since `t`.
abbrev pub Locks : Option ConfigMap → String → ℕ → Type 0
Locks cm name t =
    (c : ConfigMap) × (cm ≡ some c) × (c.creator ≡ some name) × (c.acquired_time ≡ some t)

-- The elector's lease, if it has not ended, stands in the map.
abbrev pub Holds : ℕ → World → Type 0
Holds now w =
    (t : ℕ) × (w.elector.last_acquire_time ≡ some t)
    × (now < t + w.elector.lease_duration → Locks w.cm w.elector.node_name t)

-- The readings of the clock are in order, and the server keeps the annotations.
abbrev pub IsOrderly : Outside → Type 0
IsOrderly o =
    (o.checked ≤ o.compared)
    × (o.compared ≤ o.stamped)
    × ((c : ConfigMap) → (o.stored c).creator ≡ c.creator)
    × ((c : ConfigMap) → (o.stored c).acquired_time ≡ c.acquired_time)

ended :
    (lease now t : ℕ) (acquired : Option ℕ)
    → acquired ≡ some t
    → expired_at lease now acquired ≡ true
    → t + lease ≤ now
ended lease now t none e h = absurd (ground arith)
ended lease now t (some s) e h = let same : s ≡ t = some-injective s t e in ground arith

live_time :
    (lease now : ℕ) (acquired : Option ℕ)
    → expired_at lease now acquired ≡ false
    → (t : ℕ) × (acquired ≡ some t)
live_time lease now none h = absurd (ground arith)
live_time lease now (some t) h = (t, refl)

pub creator_of :
    (name : String) (creator : Option String) → created_by name creator ≡ true → creator ≡ some name
creator_of name none h = absurd (ground arith)
creator_of name (some creator) h = ap some ((eq_iff creator name).0 h)

-- The payload, if it is built, keeps the creator and has a new time.
abbrev pub IsUpdate : ℕ → ConfigMap → Option ConfigMap → Type 0
IsUpdate now c none = Unit
IsUpdate now c (some u) = (u.creator ≡ c.creator) × (u.acquired_time ≡ some now)

module _ (o : Outside) (orderly : IsOrderly o) (lease : ℕ) (name : String)
    (old : Option ConfigMap) where
  -- No lease in the map reaches the end of the round, and a lease of another node that does is left.
  abbrev Vacant : Type 0
  Vacant = (n : String) (t : ℕ) → Locks old n t → o.stamped < t + lease → true ≡ false

  abbrev pub Spares : Option ConfigMap → Type 0
  Spares cm = (n : String) (t : ℕ) → n ≢ name → Locks old n t → o.stamped < t + lease → cm ≡ old

  abbrev pub IsHis : World → Type 0
  IsHis w = (w.elector.node_name ≡ name) × (w.elector.lease_duration ≡ lease)

  abbrev pub Outcome : World × Bool → Type 0
  Outcome (w, won) = IsHis w × (won ≡ true → Holds o.stamped w) × Spares w.cm

  pub lost-Outcome : (w : World) → IsHis w → Spares w.cm → Outcome (w, false)
  lost-Outcome w his spares = (his, (λ e. absurd (ground arith)), spares)

  Spares-vacant : (cm : Option ConfigMap) → Vacant → Spares cm
  Spares-vacant cm free n t other locks lt = absurd (ground (arith, free n t locks lt))

  posted-Outcome :
      (fault : Fault) (w : World) (cm : Option ConfigMap)
      → IsHis w
      → Spares w.cm
      → (cm ≡ none → Vacant)
      → Outcome (posted o fault w cm)
  posted-Outcome Fault.passes w none his spares free =
      let made = create_payload o.stamped w.elector in
      let (_, _, keeps_creator, keeps_time) = orderly in
      (
        his,
        (λ _. (o.stamped, refl, λ _. (o.stored made, refl, keeps_creator made, keeps_time made))),
        Spares-vacant (some (o.stored made)) (free refl),
      )
  posted-Outcome Fault.lost w none his spares free =
      lost-Outcome (put_cm o w (create_payload o.stamped w.elector)) his
        (Spares-vacant (some (o.stored (create_payload o.stamped w.elector))) (free refl))
  posted-Outcome Fault.refused w none his spares free = lost-Outcome w his spares
  posted-Outcome Fault.no_response w none his spares free = lost-Outcome w his spares
  posted-Outcome fault w (some c) his spares free = lost-Outcome w his spares

  pub lock_found-Outcome :
      (fault : Fault) (w : World) → IsHis w → Vacant → Outcome (post_lock o (deleted fault w))
  lock_found-Outcome Fault.passes w his free =
      posted-Outcome o.post (record w { cm = none }) none his (Spares-vacant none free) (λ _. free)
  lock_found-Outcome Fault.refused w his free = lost-Outcome w his (Spares-vacant w.cm free)
  lock_found-Outcome Fault.no_response w his free = lost-Outcome w his (Spares-vacant w.cm free)
  lock_found-Outcome Fault.lost w his free =
      lost-Outcome (record w { cm = none }) his (Spares-vacant none free)

  -- A map of this node is not one of another node.
  Spares-mine :
      (c : ConfigMap) (cm : Option ConfigMap) → old ≡ some c → c.creator ≡ some name → Spares cm
  Spares-mine c cm is_c mine n t other (c', is_c', his, _) lt =
      let same : c ≡ c' = some-injective c c' (sym is_c ∙ is_c') in
      absurd (other (some-injective n name (sym his ∙ ap (λ x. x.creator) (sym same) ∙ mine)))

  pub put_update-Outcome :
      (fault : Fault) (w : World) (c : ConfigMap) (update : Option ConfigMap)
      → IsHis w
      → w.cm ≡ old
      → old ≡ some c
      → c.creator ≡ some name
      → IsUpdate o.stamped c update
      → Outcome (put_update o fault w update)
  put_update-Outcome fault w c none his same is_c mine updated =
      lost-Outcome w his (λ n t _ _ _. same)
  put_update-Outcome Fault.passes w c (some u) his same is_c mine updated =
      let (_, _, keeps_creator, keeps_time) = orderly in
      let (mines, stamped) = updated in
      (
        his,
        (λ _. (
          o.stamped,
          refl,
          λ _. (
            o.stored u,
            refl,
            keeps_creator u ∙ mines ∙ mine ∙ ap some (sym his.0),
            keeps_time u ∙ stamped,
          ),
        )),
        Spares-mine c (some (o.stored u)) is_c mine,
      )
  put_update-Outcome Fault.lost w c (some u) his same is_c mine updated =
      lost-Outcome (put_cm o w u) his (Spares-mine c (some (o.stored u)) is_c mine)
  put_update-Outcome Fault.refused w c (some u) his same is_c mine updated =
      lost-Outcome w his (λ n t _ _ _. same)
  put_update-Outcome Fault.no_response w c (some u) his same is_c mine updated =
      lost-Outcome w his (λ n t _ _ _. same)

  abbrev IsAnswer : World → Fetched → Type 0
  IsAnswer w Fetched.raised = Unit
  IsAnswer w Fetched.nothing = Unit
  IsAnswer w (Fetched.found c) = (old ≡ some c) × (w.elector.last_acquire_time ≡ c.acquired_time)

  abbrev pub IsFetch : World × Fetched → Type 0
  IsFetch (w, f) = IsHis w × (w.cm ≡ old) × IsAnswer w f

  pub expired_vacant :
      (e : Elector) (c : ConfigMap)
      → e.lease_duration ≡ lease
      → old ≡ some c
      → is_lock_expired o.compared e c ≡ true
      → Vacant
  unfolding is_lock_expired
  expired_vacant e c same is_c expired n t (c', is_c', _, at) lt =
      let same_c : c' ≡ c = some-injective c' c (sym is_c' ∙ is_c) in
      let over =
        ended e.lease_duration o.compared t c.acquired_time
          (ap (λ x. x.acquired_time) (sym same_c) ∙ at) expired in
      absurd (omega (arith, orderly.1))

  none_vacant : old ≡ none → Vacant
  none_vacant e n t (c, is_c, _, _) lt = absurd (none-ne-some c (sym e ∙ is_c))

  pub lock_nothing-Outcome :
      (w : World) → IsHis w → w.cm ≡ old → Outcome (try_lock_cm o w Fetched.nothing)
  unfolding try_lock_cm
  lock_nothing-Outcome w his same =
      posted-Outcome o.post w w.cm his (λ n t _ _ _. same) (λ e. none_vacant (sym same ∙ e))

  pub mine-Holds :
      (w : World) (c : ConfigMap)
      → IsHis w
      → w.cm ≡ some c
      → w.elector.last_acquire_time ≡ c.acquired_time
      → is_lock_expired o.compared w.elector c ≡ false
      → is_cm_mine w.elector c ≡ true
      → Holds o.stamped w
  unfolding is_cm_mine is_lock_expired
  mine-Holds w c his is_c last live mine =
      let (t, at) = live_time w.elector.lease_duration o.compared c.acquired_time live in
      (t, last ∙ at, λ _. (c, is_c, creator_of w.elector.node_name c.creator mine, at))
