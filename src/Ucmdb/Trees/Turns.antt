-- ===== src/Ucmdb/Trees/Turns.antt =====
-- utils/ucmdb/ucmdb_component_trees.py, `_bfs`: one turn of its loop.
use text.Mathlib.Text.{◌==◌ as str_eq}
use text.Mathlib.TextEquality.{eq_iff}
use mathlib.Core.Option.{none-ne-some}
use mathlib.Core.List.{append-nil}
use sts_agent.Prelude.{
  Bool, true, false, Option, none, some, String, List, [], ◌∷◌, ◌++◌, length, All, if_fails, ◌≡◌,
  refl, sym, ap, ◌∙◌, subst, arith,
}
use sts_agent.Prelude.Dicts.{length-insert}
use sts_agent.Ucmdb.{Element, Elements, get, among}
use sts_agent.Ucmdb.Trees.{
  Graph, Turn, with_label, append_label, queue_targets, follow, turn_with, turn_at, bfs_turn,
}
use sts_agent.Ucmdb.Trees.Reach.{
  There, or_empty, outgoing, IsLive, HaveTargets, HasTarget, stage, Status, append_label-Status,
  Found, targets-Found,
}

stage-fields :
    (label : String) (b : Bool) (e0 : Element)
    → (e : Element) × (stage label b (some e0) ≡ some e)
      × (e.ucmdb_id ≡ e0.ucmdb_id)
      × (e.operation ≡ e0.operation)
stage-fields label true e0 = (with_label label e0, refl, refl, refl)
stage-fields label false e0 = (e0, refl, refl, refl)

stage-There :
    (label : String) (b : Bool) (o : Option Element) (e : Element)
    → stage label b o ≡ some e
    → (e0 : Element) × (o ≡ some e0)
stage-There label true none e h = absurd (none-ne-some e h)
stage-There label false none e h = absurd (none-ne-some e h)
stage-There label b (some e0) e h = (e0, refl)

module _ (g : Graph) (label : String) (c0 : Elements) (live : IsLive c0)
    (ended : HaveTargets g) where
  -- The two dictionaries have the same keys.
  pub There-back :
      (c : Elements) (visited : List String) (k : String)
      → Status label c0 c visited
      → There k c
      → There k c0
  There-back c visited k h (e, is) =
      stage-There label (among k visited) (get k c0) e (sym (h k) ∙ is)

  pub There-on :
      (c : Elements) (visited : List String) (k : String)
      → Status label c0 c visited
      → There k c0
      → There k c
  There-on c visited k h (e0, is) =
      let (e, same, _, _) = stage-fields label (among k visited) e0 in
      (e, h k ∙ ap (stage label (among k visited)) is ∙ same)

  follow-Found :
      (queue visited : List String) (c : Elements) (o : Option (List Element))
      → All HasTarget (or_empty o)
      → (ts : List String) × (follow queue visited c o ≡ Turn.goes_on (queue ++ ts) visited c)
        × Found visited c (or_empty o) ts
  follow-Found queue visited c none h = (
    [],
    ap (λ q. Turn.goes_on q visited c) (sym (append-nil queue)),
    (tt, (λ b e _ _. absurd (ground (arith, e))), omega arith),
  )
  follow-Found queue visited c (some rs) h =
      let (ts, is, found) = targets-Found visited c rs h in
      (ts, ap (queue_targets queue visited c) is, found)

  -- A turn at a component that is there.
  abbrev pub Turned : List String → List String → Elements → String → Turn → Type 0
  Turned queue visited c k turn =
      (c' : Elements) × (ts : List String) × (turn ≡ Turn.goes_on (queue ++ ts) (k ∷ visited) c')
      × Status label c0 c' (k ∷ visited)
      × (length c' ≡ length c)
      × Found (k ∷ visited) c' (outgoing g k) ts

  pub bfs_turn-Turned :
      (queue visited : List String) (c : Elements) (k : String)
      → Status label c0 c visited
      → There k c0
      → Turned queue visited c k (bfs_turn g label k queue visited c)
  unfolding bfs_turn
  bfs_turn-Turned queue visited c k h (e0, is0) =
      let (is_id, (op, is_op, kept)) = live k e0 is0 in
      let (e, same, id_same, op_same) = stage-fields label (among k visited) e0 in
      let is : get k c ≡ some e = h k ∙ ap (stage label (among k visited)) is0 ∙ same in
      let c' = append_label k label e c in
      let (ts, turn, found) = follow-Found queue (k ∷ visited) c' (get k g) (ended k) in
      subst (λ o. Turned queue visited c k (turn_at g label k queue visited c o)) (sym is)
        (subst (λ i. Turned queue visited c k (turn_with g label k queue visited c e i e.operation))
          (sym (id_same ∙ is_id))
          (subst (λ p. Turned queue visited c k (turn_with g label k queue visited c e (some k) p))
            (sym (op_same ∙ is_op))
            (if_fails (Turned queue visited c k) (str_eq op "deleted")
              (Turn.goes_on queue (k ∷ visited) c) (follow queue (k ∷ visited) c' (get k g)) kept
              (
                c',
                ts,
                turn,
                append_label-Status label c0 c visited k e0 e is0 is h,
                length-insert str_eq eq_iff k e (with_label label e) c is,
                found,
              ))))
