-- ===== src/Ucmdb/Trees/Weights.antt =====
-- utils/ucmdb/ucmdb_component_trees.py: a bound on the turns of the loop of `_bfs`, which may queue
-- a component more than once.
use text.Mathlib.Text.{◌==◌ as str_eq}
use text.Mathlib.TextEquality.{eq_iff}
use mathlib.Core.Option.{none-ne-some}
use native.Mathlib.Nat.{mul-le-mul_left, mul-le-mul_right}
use sts_agent.Prelude.{
  ℕ, zero, suc, ◌+◌, ◌*◌, ◌≤◌, true, false, not, some, String, List, [], ◌∷◌, ◌++◌, select, length,
  sum_by, sum_by-append, ◌≡◌, sym, subst, arith, Bool-cases, inl, inr,
}
use sts_agent.Prelude.Tests.{if_false}
use sts_agent.Prelude.Dicts.{lookup}
use sts_agent.Ucmdb.{Element, Elements, get, among}
use sts_agent.Ucmdb.Trees.Reach.{There}

-- How many components are not visited.
abbrev pub unvisited : Elements → List String → ℕ
unvisited c visited = length (select (λ e. not (among e.0 visited)) c)

pub unvisited-le :
    (k : String) (visited : List String) (c : Elements)
    → unvisited c (k ∷ visited) ≤ unvisited c visited
unvisited-le k visited [] = omega arith
unvisited-le k visited ((k', e) ∷ c) = ground (arith, unvisited-le k visited c)

unvisited-lt_of :
    (k : String) (visited : List String) (c : Elements) (e : Element)
    → get k c ≡ some e
    → among k visited ≡ false
    → suc (unvisited c (k ∷ visited)) ≤ unvisited c visited
unfolding lookup
unvisited-lt_of k visited [] e is new = absurd (none-ne-some e is)
unvisited-lt_of k visited ((k', e') ∷ c) e is new = elim (Bool-cases (str_eq k' k)) [
  | inl same ↦
      let is_new : among k' visited ≡ false =
        subst (λ i. among i visited ≡ false) (sym ((eq_iff k' k).0 same)) new in
      let back : str_eq k k' ≡ true = (eq_iff k k').1 (sym ((eq_iff k' k).0 same)) in
      ground (arith, unvisited-le k visited c, is_new, back)
  | inr other ↦ ground (
    arith,
    unvisited-lt_of k visited c e (if_false (str_eq k' k) (some e') (get k c) (some e) other is)
        new,
  )
]

pub unvisited-lt :
    (k : String) (visited : List String) (c : Elements)
    → There k c
    → among k visited ≡ false
    → suc (unvisited c (k ∷ visited)) ≤ unvisited c visited
unvisited-lt k visited c (e, is) = unvisited-lt_of k visited c e is

-- The turns that an entry of the queue may cost, where `rank` is at most the components that were
-- not visited when it was queued, and no component has more than `degree` relations.
abbrev pub weight : ℕ → ℕ → ℕ
weight degree zero = 1
weight degree (suc rank) = 1 + degree * weight degree rank

pub one_le_weight : (degree rank : ℕ) → 1 ≤ weight degree rank
one_le_weight degree zero = omega arith
one_le_weight degree (suc rank) = omega arith

pub weight-le : (degree r s : ℕ) → r ≤ s → weight degree r ≤ weight degree s
weight-le degree zero s h = one_le_weight degree s
weight-le degree (suc r) zero h = absurd (omega arith)
weight-le degree (suc r) (suc s) h =
    omega (arith, mul-le-mul_left degree (weight-le degree r s (omega arith)))

abbrev pub total : ℕ → List (String × ℕ) → ℕ
total degree queue = sum_by (λ e. weight degree e.1) queue

-- The queue with the entries of `ts`, each of one rank.
abbrev pub ranked : ℕ → List String → List (String × ℕ)
ranked rank [] = []
ranked rank (t ∷ ts) = (t, rank) ∷ ranked rank ts

pub total-append :
    (degree : ℕ) (queue new : List (String × ℕ))
    → total degree (queue ++ new) ≡ total degree queue + total degree new
total-append degree queue new = sum_by-append (λ e. weight degree e.1) queue new

pub total-ranked :
    (degree rank : ℕ) (ts : List String)
    → total degree (ranked rank ts) ≡ length ts * weight degree rank
total-ranked degree rank [] = omega arith
total-ranked degree rank (t ∷ ts) = grind (arith, total-ranked degree rank ts)

-- The first entry pays for what it queues.
pub total-turn :
    (degree n r rank : ℕ) (k : String) (queue : List (String × ℕ)) (ts : List String)
    → total degree ((k, r) ∷ queue) ≤ suc n
    → suc rank ≤ r
    → length ts ≤ degree
    → total degree (queue ++ ranked rank ts) ≤ n
total-turn degree n r rank k queue ts h lt few = omega (
  arith,
  total-append degree queue (ranked rank ts),
  total-ranked degree rank ts,
  weight-le degree (suc rank) r lt,
  mul-le-mul_right (weight degree rank) few,
)
