-- ===== src/Topology/Snapshots.antt =====
-- checks/__init__.py, TopologyInstance over several runs of a check: the snapshots that a receiver
-- of the reports sees.
use sts_agent.Prelude.{
  Bool, true, false, ◌||◌, Option, none, some, List, [], ◌∷◌, String, ◌≡◌, ◌++◌, refl,
  if◌then◌else◌, arith,
}
use sts_agent.Topology.{
  TopologyInstance, Topology, create_instance, add_component, add_relation, start_snapshot,
  stop_snapshot, get_topology, clear_topology_and_snapshot,
}

-- The calls of a check.
pub data Call (A B : Type 0) : Type 0 where
  component : A → Call A B
  relation : B → Call A B
  start : Call A B
  stop : Call A B

-- A flag that is there and set.
abbrev pub is_set : Option Bool → Bool
is_set none = false
is_set (some b) = b

-- The flags in the course of a run that began with `opened`.
abbrev IsCoherent : Bool → Bool → Bool → Bool → Type 0
IsCoherent opened in_snapshot started stopped =
    (in_snapshot ≡ (if stopped then false else opened || started))
    × (started ≡ true → opened ≡ false)
    × (stopped ≡ true → (opened || started) ≡ true)

-- The flags after `start_snapshot`, and after `stop_snapshot`.
start-IsCoherent :
    (opened in_snapshot started stopped : Bool)
    → stopped ≡ false
    → in_snapshot ≡ false
    → IsCoherent opened in_snapshot started stopped
    → IsCoherent opened true true stopped
start-IsCoherent opened in_snapshot started stopped e f (h, _, _) =
    (ground arith, (λ _. ground arith), λ _. ground arith)

fresh-IsCoherent :
    (opened in_snapshot started stopped : Bool)
    → in_snapshot ≡ opened
    → started ≡ false
    → stopped ≡ false
    → IsCoherent opened in_snapshot started stopped
fresh-IsCoherent opened in_snapshot started stopped h e f =
    (ground arith, (λ x. ground arith), λ x. ground arith)

stop-IsCoherent :
    (opened in_snapshot started stopped : Bool)
    → in_snapshot ≡ true
    → IsCoherent opened in_snapshot started stopped
    → IsCoherent opened false started true
stop-IsCoherent opened in_snapshot started stopped f (h, k, _) = (refl, k, λ _. ground arith)

-- The flags of a report.
is_set_flag : (i s : Bool) → is_set (if i || s then some s else none) ≡ s
is_set_flag true s = refl
is_set_flag false true = refl
is_set_flag false false = refl

module _ {A B : Type 0} where
  abbrev pub result : Call A B → TopologyInstance A B → Option (TopologyInstance A B)
  result (Call.component c) t = add_component c t
  result (Call.relation r) t = add_relation r t
  result Call.start t = start_snapshot t
  result Call.stop t = stop_snapshot t

  -- A call that raises is caught by the check.
  abbrev pub caught : TopologyInstance A B → Option (TopologyInstance A B) → TopologyInstance A B
  caught t none = t
  caught t (some t') = t'

  unfoldable pub run : List (Call A B) → TopologyInstance A B → TopologyInstance A B
  run [] t = t
  run (c ∷ cs) t = run cs (caught t (result c t))

  -- The reports of several runs: after each the topology is taken and cleared, and an open
  -- snapshot stays open. An instance without one is dropped there; it is cleared then, and made
  -- again in that state.
  unfoldable pub session : List (List (Call A B)) → TopologyInstance A B → List (Topology A B)
  session [] t = []
  session (calls ∷ rest) t =
      let t' = run calls t in get_topology t' ∷ session rest (clear_topology_and_snapshot false t')

  -- What a receiver may rely on, who knows whether a snapshot is open: none is started while one
  -- is open, and none is stopped that is not open or started by the same report.
  abbrev pub IsAlternating : Bool → List (Topology A B) → Type 0
  IsAlternating opened [] = Unit
  IsAlternating opened (t ∷ ts) =
      (is_set t.start_snapshot ≡ true → opened ≡ false)
      × (is_set t.stop_snapshot ≡ true → (opened || is_set t.start_snapshot) ≡ true)
      × IsAlternating (if is_set t.stop_snapshot then false else opened || is_set t.start_snapshot)
          ts

  abbrev Coherent : Bool → TopologyInstance A B → Type 0
  Coherent opened t = IsCoherent opened t.in_snapshot t.start t.stop

  caught_unless-Coherent :
      (opened b : Bool) (t : TopologyInstance A B) (o : Option (TopologyInstance A B))
      → Coherent opened t
      → (b ≡ false → Coherent opened (caught t o))
      → Coherent opened (caught t (if b then none else o))
  caught_unless-Coherent opened true t o h k = h
  caught_unless-Coherent opened false t o h k = k refl

  caught_when-Coherent :
      (opened b : Bool) (t t' : TopologyInstance A B)
      → Coherent opened t
      → (b ≡ true → Coherent opened t')
      → Coherent opened (caught t (if b then some t' else none))
  caught_when-Coherent opened true t t' h k = k refl
  caught_when-Coherent opened false t t' h k = h

  caught-Coherent :
      (opened : Bool) (c : Call A B) (t : TopologyInstance A B)
      → Coherent opened t
      → Coherent opened (caught t (result c t))
  unfolding add_component add_relation start_snapshot stop_snapshot
  caught-Coherent opened (Call.component c) t h =
      caught_unless-Coherent opened t.stop t
        (some (record t { components = t.components ++ c ∷ [] })) h (λ _. h)
  caught-Coherent opened (Call.relation r) t h =
      caught_unless-Coherent opened t.stop t (some (record t { relations = t.relations ++ r ∷ [] }))
        h (λ _. h)
  caught-Coherent opened Call.start t h =
      let t' : TopologyInstance A B = record t { in_snapshot = true; start = true } in
      caught_unless-Coherent opened t.stop t (if t.in_snapshot then none else some t') h (λ e.
        caught_unless-Coherent opened t.in_snapshot t (some t') h
          (λ f. start-IsCoherent opened t.in_snapshot t.start t.stop e f h))
  caught-Coherent opened Call.stop t h =
      caught_when-Coherent opened t.in_snapshot t (record t { in_snapshot = false; stop = true }) h
        (λ e. stop-IsCoherent opened t.in_snapshot t.start t.stop e h)

  run-Coherent :
      (opened : Bool) (calls : List (Call A B)) (t : TopologyInstance A B)
      → Coherent opened t
      → Coherent opened (run calls t)
  unfolding run
  run-Coherent opened [] t h = h
  run-Coherent opened (c ∷ cs) t h =
      run-Coherent opened cs (caught t (result c t)) (caught-Coherent opened c t h)

  session-IsAlternating :
      (opened : Bool) (runs : List (List (Call A B))) (t : TopologyInstance A B)
      → t.in_snapshot ≡ opened
      → t.start ≡ false
      → t.stop ≡ false
      → IsAlternating opened (session runs t)
  unfolding session get_topology clear_topology_and_snapshot
  session-IsAlternating opened [] t h e f = tt
  session-IsAlternating opened (calls ∷ rest) t h e f =
      let t' = run calls t in
      let (follows, starts, stops) =
        run-Coherent opened calls t (fresh-IsCoherent opened t.in_snapshot t.start t.stop h e f) in
      rw (is_set_flag t'.in_snapshot t'.start, is_set_flag t'.in_snapshot t'.stop)
        (
          starts,
          stops,
          session-IsAlternating (if t'.stop then false else opened || t'.start) rest
              (clear_topology_and_snapshot false t') follows refl refl,
        )

  -- Whatever a check calls in its runs, and whatever raises and is caught, the reports open and
  -- close snapshots in turn: none is started while one is open, and none is stopped that is not
  -- open or started by the same report.
  pub session_snapshots :
      (instance_key : String) (runs : List (List (Call A B)))
      → IsAlternating false (session runs (create_instance instance_key))
  session_snapshots instance_key runs =
      session-IsAlternating false runs (create_instance instance_key) refl refl refl
