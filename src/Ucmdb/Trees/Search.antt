-- ===== src/Ucmdb/Trees/Search.antt =====
-- utils/ucmdb/ucmdb_component_trees.py, `_bfs`: the loop from one root.
use text.Mathlib.Text.{◌==◌ as str_eq}
use text.Mathlib.TextEquality.{eq_iff}
use native.Mathlib.Nat.{le_refl}
use sts_agent.Prelude.{
  ℕ, zero, suc, ◌≤◌, true, false, not, length-select-le, String, List, [], ◌∷◌, ◌++◌, map, length,
  All, All-append, All-map, ◌≡◌, ◌⊎◌, refl, sym, ap, ◌∙◌, subst, arith, Bool-cases, inl, inr,
}
use sts_agent.Ucmdb.{Elements, get, among}
use sts_agent.Ucmdb.Trees.{Graph, Run, keep_on, bfs}
use sts_agent.Ucmdb.Trees.Reach.{
  There, IsTarget, outgoing, Edge, Reaches, IsLive, HaveTargets, relabelled, stage, Status, Found,
}
use sts_agent.Ucmdb.Trees.Weights.{
  unvisited, unvisited-le, unvisited-lt, weight, one_le_weight, total, ranked, total-turn,
}
use sts_agent.Ucmdb.Trees.Turns.{There-back, There-on, bfs_turn-Turned}

abbrev key : String × ℕ → String
key (k, rank) = k

map-ranked :
    (queue : List (String × ℕ)) (rank : ℕ) (ts : List String)
    → map key (queue ++ ranked rank ts) ≡ map key queue ++ ts
map-ranked [] rank [] = refl
map-ranked [] rank (t ∷ ts) = ap (λ l. t ∷ l) (map-ranked [] rank ts)
map-ranked (e ∷ queue) rank ts = ap (λ l. key e ∷ l) (map-ranked queue rank ts)

among-append_left :
    (b : String) (xs ys : List String) → among b xs ≡ true → among b (xs ++ ys) ≡ true
among-append_left b [] ys h = absurd (ground arith)
among-append_left b (x ∷ xs) ys h = ground (arith, among-append_left b xs ys)

among-append_right :
    (b : String) (xs ys : List String) → among b ys ≡ true → among b (xs ++ ys) ≡ true
among-append_right b [] ys h = h
among-append_right b (x ∷ xs) ys h = ground (arith, among-append_right b xs ys h)

unvisited_start : (c : Elements) → unvisited c [] ≤ length c
unvisited_start c = length-select-le (λ e. not (among e.0 [])) c

among-root : (k : String) → among k (k ∷ []) ≡ true
among-root k = rw ((eq_iff k k).1 refl) refl

module _ (g : Graph) (label root : String) (c0 : Elements) (degree : ℕ) (live : IsLive c0)
    (ended : HaveTargets g) where
  -- An entry of the queue, with its rank.
  abbrev Entry : List String → String × ℕ → Type 0
  Entry visited (k, rank) =
      Reaches g c0 root k
      × There k c0
      × (unvisited c0 visited ≤ rank)
      × (among k visited ≡ true → suc (unvisited c0 visited) ≤ rank)

  abbrev Within : String → List String → List String → Type 0
  Within b visited queue = (among b visited ≡ true) ⊎ (among b queue ≡ true)

  abbrev Closed : List String → List String → Type 0
  Closed visited queue =
      (a b : String) → among a visited ≡ true → Edge g c0 a b → Within b visited queue

  abbrev AreReached : List String → Type 0
  AreReached visited = (a : String) → among a visited ≡ true → Reaches g c0 root a

  -- What the loop leaves: the label on the components that the root reaches, and no other change.
  abbrev pub IsLabelled : Elements → Type 0
  IsLabelled c =
      (k : String)
      → (Reaches g c0 root k × (get k c ≡ relabelled label (get k c0)))
        ⊎ ((Reaches g c0 root k → false ≡ true) × (get k c ≡ get k c0))

  Within-nil : (b : String) (visited : List String) → Within b visited [] → among b visited ≡ true
  Within-nil b visited (inl h) = h
  Within-nil b visited (inr h) = absurd (ground (arith, h))

  reached-visited :
      (visited : List String) (k : String)
      → Closed visited []
      → Within root visited []
      → Reaches g c0 root k
      → among k visited ≡ true
  reached-visited visited k closed start Reaches.here = Within-nil root visited start
  reached-visited visited k closed start (Reaches.there {a} {b} r e) =
      Within-nil b visited (closed a b (reached-visited visited a closed start r) e)

  done-IsLabelled :
      (visited : List String) (c : Elements)
      → Status label c0 c visited
      → AreReached visited
      → Closed visited []
      → Within root visited []
      → IsLabelled c
  done-IsLabelled visited c status reached closed start k = elim (Bool-cases (among k visited)) [
    | inl e ↦ inl (reached k e, status k ∙ ap (λ b. stage label b (get k c0)) e)
    | inr e ↦ inr (
      (λ r. sym e ∙ reached-visited visited k closed start r),
      status k ∙ ap (λ b. stage label b (get k c0)) e,
    )
  ]

  queued :
      (b : String) (visited queue ts : List String) (k : String)
      → among b (k ∷ visited) ≡ false
      → Within b visited (k ∷ queue)
      → among b (queue ++ ts) ≡ true
  queued b visited queue ts k new (inl h) = absurd (ground arith)
  queued b visited queue ts k new (inr h) = among-append_left b queue ts (ground arith)

  turn-Closed :
      (visited queue ts : List String) (k : String) (c : Elements)
      → Status label c0 c (k ∷ visited)
      → Found (k ∷ visited) c (outgoing g k) ts
      → Closed visited (k ∷ queue)
      → Closed (k ∷ visited) (queue ++ ts)
  turn-Closed visited queue ts k c status found closed a b in_a (target, at) =
      elim (Bool-cases (among b (k ∷ visited))) [
        | inl old ↦ inl old
        | inr new ↦ elim (Bool-cases (str_eq k a)) [
          | inl e ↦
              let from_k = subst (λ i. IsTarget b (outgoing g i)) (sym ((eq_iff k a).0 e)) target in
              inr (
                among-append_right b queue ts (
                  found.1 b from_k (There-on g label c0 live ended c (k ∷ visited) b status at)
                    new))
          | inr e ↦ inr (queued b visited queue ts k new (closed a b (ground arith) (target, at)))
        ]
      ]

  turn-Entry :
      (visited : List String) (k : String) (e : String × ℕ)
      → Entry visited e
      → Entry (k ∷ visited) e
  turn-Entry visited k (j, rank) (reach, at, le, lt) =
      let fewer = unvisited-le k visited c0 in
      (
        reach,
        at,
        omega (arith, fewer, le),
        λ member. elim (Bool-cases (among j visited)) [
          | inl e ↦ omega (arith, fewer, lt e)
          | inr e ↦
              let same : j ≡ k = sym ((eq_iff k j).0 (ground arith)) in
              omega (
                arith,
                le,
                unvisited-lt k visited c0 (subst (λ i. There i c0) same at)
                    (subst (λ i. among i visited ≡ false) same e),
              )
        ],
      )

  new-Entry :
      (visited ts : List String) (k : String) (c : Elements)
      → Reaches g c0 root k
      → Status label c0 c (k ∷ visited)
      → All (λ t. (among t (k ∷ visited) ≡ false) × IsTarget t (outgoing g k) × There t c) ts
      → All (Entry (k ∷ visited)) (ranked (unvisited c0 (k ∷ visited)) ts)
  new-Entry visited [] k c reach status sound = tt
  new-Entry visited (t ∷ ts) k c reach status ((new, target, at), sound) =
      let at0 = There-back g label c0 live ended c (k ∷ visited) t status at in
      (
        (
          Reaches.there reach (target, at0),
          at0,
          le_refl (unvisited c0 (k ∷ visited)),
          λ old. absurd (ground (arith, old, new)),
        ),
        new-Entry visited ts k c reach status sound,
      )

  turn-Reached :
      (visited : List String) (k : String)
      → Reaches g c0 root k
      → AreReached visited
      → AreReached (k ∷ visited)
  turn-Reached visited k reach reached a member = elim (Bool-cases (str_eq k a)) [
    | inl e ↦ subst (Reaches g c0 root) ((eq_iff k a).0 e) reach
    | inr e ↦ reached a (ground arith)
  ]

  turn-Within :
      (b : String) (visited queue ts : List String) (k : String)
      → Within b visited (k ∷ queue)
      → Within b (k ∷ visited) (queue ++ ts)
  turn-Within b visited queue ts k h = elim (Bool-cases (among b (k ∷ visited))) [
    | inl old ↦ inl old
    | inr new ↦ inr (queued b visited queue ts k new h)
  ]

  -- The rank of an entry is above what is left to visit after its turn.
  rank_lt :
      (visited : List String) (k : String) (rank : ℕ)
      → Entry visited (k, rank)
      → suc (unvisited c0 (k ∷ visited)) ≤ rank
  rank_lt visited k rank (reach, at, le, lt) = elim (Bool-cases (among k visited)) [
    | inl e ↦ omega (arith, unvisited-le k visited c0, lt e)
    | inr e ↦ omega (arith, le, unvisited-lt k visited c0 at e)
  ]

  abbrev pub Ends : Run → Type 0
  Ends run = (c : Elements) × (run ≡ Run.finished c) × IsLabelled c × (length c ≡ length c0)

  module _ (few : (a : String) → length (outgoing g a) ≤ degree) where
    pub search :
        (fuel : ℕ) (queue : List (String × ℕ)) (visited : List String) (c : Elements)
        → total degree queue ≤ fuel
        → Status label c0 c visited
        → length c ≡ length c0
        → All (Entry visited) queue
        → AreReached visited
        → Closed visited (map key queue)
        → Within root visited (map key queue)
        → Ends (bfs g label fuel (map key queue) visited c)
    unfolding bfs
    search fuel [] visited c enough status size entries reached closed start =
        (c, refl, done-IsLabelled visited c status reached closed start, size)
    search zero ((k, rank) ∷ queue) visited c enough status size entries reached closed start =
        absurd (omega (arith, enough, one_le_weight degree rank))
    search (suc fuel) ((k, rank) ∷ queue) visited c enough status size (entry, entries) reached
          closed start =
        let (c', ts, turn, status', size', found) =
          bfs_turn-Turned g label c0 live ended (map key queue) visited c k status entry.1 in
        let left = unvisited c0 (k ∷ visited) in
        let queue' = queue ++ ranked left ts in
        let keys = map-ranked queue left ts in
        let entries' =
          All-append (Entry (k ∷ visited)) queue (ranked left ts)
            (All-map (Entry visited) (Entry (k ∷ visited)) (turn-Entry visited k) queue entries)
            (new-Entry visited ts k c' entry.0 status' found.0) in
        let degree_ts : length ts ≤ degree = omega (arith, found.2, few k) in
        let later =
          search fuel queue' (k ∷ visited) c'
            (total-turn degree fuel rank left k queue ts enough (rank_lt visited k rank entry)
              degree_ts)
            status' (size' ∙ size) entries' (turn-Reached visited k entry.0 reached)
            (subst (Closed (k ∷ visited)) (sym keys)
              (turn-Closed visited (map key queue) ts k c' status' found closed))
            (subst (Within root (k ∷ visited)) (sym keys)
              (turn-Within root visited (map key queue) ts k start)) in
        subst (λ t. Ends (keep_on (bfs g label fuel) t)) (sym turn)
          (subst (λ q. Ends (bfs g label fuel q (k ∷ visited) c')) keys later)

    -- `_bfs` from the root alone.
    pub search_root :
        (fuel : ℕ)
        → There root c0
        → weight degree (length c0) ≤ fuel
        → Ends (bfs g label fuel (root ∷ []) [] c0)
    search_root fuel at enough =
        search fuel ((root, length c0) ∷ []) [] c0 (omega (arith, enough)) (λ j. refl) refl
          ((Reaches.here, at, unvisited_start c0, λ member. absurd (ground (arith, member))), tt)
          (λ a member. absurd (ground (arith, member)))
          (λ a b member edge. absurd (ground (arith, member))) (inr (among-root root))
