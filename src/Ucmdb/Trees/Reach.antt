-- ===== src/Ucmdb/Trees/Reach.antt =====
-- utils/ucmdb/ucmdb_component_trees.py: the components that relations lead to from a root, and the
-- components after a label is put on some of them.
use text.Mathlib.Text.{◌==◌ as str_eq}
use text.Mathlib.TextEquality.{eq_iff}
use Prim.Native.String.{◌++◌ as str_append}
use mathlib.Core.Option.{some-injective, none-ne-some}
use sts_agent.Prelude.{
  ◌≤◌, Bool, true, false, ◌||◌, Option, none, some, String, List, [], ◌∷◌, All, All-map, length,
  if◌then◌else◌, ◌≡◌, ◌⊎◌, inl, inr, refl, sym, ap, ◌∙◌, subst, arith, if_cases, if_cases,
}
use sts_agent.Prelude.Dicts.{insert-insert, lookup-insert_if}
use sts_agent.Ucmdb.{Element, Elements, get, among}
use sts_agent.Ucmdb.Trees.{Graph, with_label, append_label, target, add_target, targets}

abbrev pub There : String → Elements → Type 0
There k c = (e : Element) × (get k c ≡ some e)

-- A relation of the list has the target `b`.
abbrev pub IsTarget : String → List Element → Type 0
IsTarget b [] = false ≡ true
IsTarget b (r ∷ rs) = (r.target_id ≡ some (some b)) ⊎ IsTarget b rs

abbrev pub or_empty : Option (List Element) → List Element
or_empty none = []
or_empty (some rs) = rs

abbrev pub outgoing : Graph → String → List Element
outgoing g a = or_empty (get a g)

-- A relation of the graph leads from `a` to the component `b`.
abbrev pub Edge : Graph → Elements → String → String → Type 0
Edge g c a b = IsTarget b (outgoing g a) × There b c

-- A path of relations leads from the root to the component.
pub data Reaches (g : Graph) (c : Elements) (root : String) : String → Type 0 where
  here : Reaches g c root root
  there : {a b : String} → Reaches g c root a → Edge g c a b → Reaches g c root b

-- Each component has its key as its id, and an operation that is not `deleted`.
abbrev pub IsLive : Elements → Type 0
IsLive c =
    (k : String) (e : Element)
    → get k c ≡ some e
    → (e.ucmdb_id ≡ some k)
      × ((operation : String) × (e.operation ≡ some operation)
          × (str_eq operation "deleted" ≡ false))

abbrev pub HasTarget : Element → Type 0
HasTarget r = (t : Option String) × (r.target_id ≡ some t)

abbrev pub HaveTargets : Graph → Type 0
HaveTargets g = (a : String) → All HasTarget (outgoing g a)

module _ (label : String) where
  abbrev pub relabelled : Option Element → Option Element
  relabelled none = none
  relabelled (some e) = some (with_label label e)

  abbrev pub stage : Bool → Option Element → Option Element
  stage b o = if b then relabelled o else o

  -- The components `c` are those of `c0`, with the label on the visited ones.
  abbrev pub Status : Elements → Elements → List String → Type 0
  Status c0 c visited = (j : String) → get j c ≡ stage (among j visited) (get j c0)

  with_label-twice : (e : Element) → with_label label (with_label label e) ≡ with_label label e
  with_label-twice e =
      ap (λ a. record e { attributes = a })
        (insert-insert str_eq eq_iff (str_append "label." label) (some label) e.attributes)

  stage-with_label :
      (b : Bool) (e0 e : Element)
      → some e ≡ stage b (some e0)
      → with_label label e ≡ with_label label e0
  stage-with_label true e0 e h =
      ap (with_label label) (some-injective e (with_label label e0) h) ∙ with_label-twice e0
  stage-with_label false e0 e h = ap (with_label label) (some-injective e e0 h)

  stage-insert :
      (b v : Bool) (e e0 : Element) (old old0 : Option Element)
      → with_label label e ≡ with_label label e0
      → (b ≡ true → old0 ≡ some e0)
      → old ≡ stage v old0
      → (if b then some (with_label label e) else old) ≡ stage (b || v) old0
  stage-insert true v e e0 old old0 same at h = ap some same ∙ sym (ap relabelled (at refl))
  stage-insert false v e e0 old old0 same at h = h

  pub append_label-Status :
      (c0 c : Elements) (visited : List String) (k : String) (e0 e : Element)
      → get k c0 ≡ some e0
      → get k c ≡ some e
      → Status c0 c visited
      → Status c0 (append_label k label e c) (k ∷ visited)
  append_label-Status c0 c visited k e0 e is0 is h j =
      let first = lookup-insert_if str_eq eq_iff j k (with_label label e) c in
      let same : with_label label e ≡ with_label label e0 =
        stage-with_label (among k visited) e0 e (sym is ∙ h k ∙ ap (stage (among k visited)) is0) in
      first
      ∙ stage-insert (str_eq k j) (among j visited) e e0 (get j c) (get j c0) same
          (λ eq. subst (λ i. get i c0 ≡ some e0) ((eq_iff k j).0 eq) is0) (h j)

-- What `targets` finds of the relations.
abbrev IsSound : List String → Elements → List Element → List String → Type 0
IsSound visited c rs ts = All (λ t. (among t visited ≡ false) × IsTarget t rs × There t c) ts

abbrev IsWhole : List String → Elements → List Element → List String → Type 0
IsWhole visited c rs ts =
    (b : String) → IsTarget b rs → There b c → among b visited ≡ false → among b ts ≡ true

abbrev pub Found : List String → Elements → List Element → List String → Type 0
Found visited c rs ts = IsSound visited c rs ts × IsWhole visited c rs ts × (length ts ≤ length rs)

among-head : (t : String) (ts : List String) → among t (t ∷ ts) ≡ true
among-head t ts = rw ((eq_iff t t).1 refl) refl

among-tail : (b t : String) (ts : List String) → among b ts ≡ true → among b (t ∷ ts) ≡ true
among-tail b t ts h = ground (arith, h)

IsSound-later :
    (visited : List String) (c : Elements) (r : Element) (rs : List Element) (ts : List String)
    → IsSound visited c rs ts
    → IsSound visited c (r ∷ rs) ts
IsSound-later visited c r rs ts =
    All-map (λ u. (among u visited ≡ false) × IsTarget u rs × There u c)
      (λ u. (among u visited ≡ false) × IsTarget u (r ∷ rs) × There u c)
      (λ u (new, later, at). (new, inr later, at)) ts

abbrev FindsOf : List String → Elements → Element → List Element → Option (List String) → Type 0
FindsOf visited c r rs o = (us : List String) × (o ≡ some us) × Found visited c (r ∷ rs) us

-- A relation whose target is None.
Found-none :
    (visited : List String) (c : Elements) (r : Element) (rs : List Element) (ts : List String)
    → r.target_id ≡ some none
    → Found visited c rs ts
    → Found visited c (r ∷ rs) ts
Found-none visited c r rs ts is (sound, whole, bound) = (
  IsSound-later visited c r rs ts sound,
  (λ b target at new. elim target [
    | inl is_b ↦ absurd (none-ne-some b (some-injective none (some b) (sym is ∙ is_b)))
    | inr later ↦ whole b later at new
  ]),
  omega (arith, bound),
)

module _ (visited : List String) (c : Elements) (r : Element) (rs : List Element) (t : String)
    (ts : List String) (is : r.target_id ≡ some (some t)) where
  IsWhole-later :
      (ts' : List String)
      → IsWhole visited c rs ts
      → ((b : String) → among b ts ≡ true → among b ts' ≡ true)
      → (There t c → among t visited ≡ false → among t ts' ≡ true)
      → IsWhole visited c (r ∷ rs) ts'
  IsWhole-later ts' whole grows met b (inl is_b) at new =
      let same : t ≡ b = some-injective t b (some-injective (some t) (some b) (sym is ∙ is_b)) in
      subst (λ u. among u ts' ≡ true) same
        (met (subst (λ u. There u c) (sym same) at)
          (subst (λ u. among u visited ≡ false) (sym same) new))
  IsWhole-later ts' whole grows met b (inr later) at new = grows b (whole b later at new)

  Found-skip :
      Found visited c rs ts
      → (There t c → among t visited ≡ false → among t ts ≡ true)
      → Found visited c (r ∷ rs) ts
  Found-skip (sound, whole, bound) met = (
    IsSound-later visited c r rs ts sound,
    IsWhole-later ts whole (λ b h. h) met,
    omega (arith, bound),
  )

  Found-add :
      among t visited ≡ false
      → There t c
      → Found visited c rs ts
      → Found visited c (r ∷ rs) (t ∷ ts)
  Found-add new at (sound, whole, bound) = (
    ((new, inl is, at), IsSound-later visited c r rs ts sound),
    IsWhole-later (t ∷ ts) whole (λ b. among-tail b t ts) (λ _ _. among-head t ts),
    omega (arith, bound),
  )

  abbrev Finds : Option (List String) → Type 0
  Finds = FindsOf visited c r rs

  add_target-Finds :
      (o : Option Element)
      → get t c ≡ o
      → among t visited ≡ false
      → Found visited c rs ts
      → Finds (add_target t o (some ts))
  add_target-Finds none at new found =
      (ts, refl, Found-skip found (λ (e, is_e) _. absurd (none-ne-some e (sym at ∙ is_e))))
  add_target-Finds (some e) at new found = (t ∷ ts, refl, Found-add new (e, at) found)

  target-Finds : Found visited c rs ts → Finds (target visited c (some (some t)) (some ts))
  target-Finds found =
      if_cases Finds (among t visited) (some ts) (add_target t (get t c) (some ts))
        (λ old. (ts, refl, Found-skip found (λ _ new. absurd (ground (arith, old, new)))))
        (λ new. add_target-Finds (get t c) refl new found)

any_target-Finds :
    (visited : List String) (c : Elements) (r : Element) (rs : List Element) (t : Option String)
    (ts : List String)
    → r.target_id ≡ some t
    → Found visited c rs ts
    → FindsOf visited c r rs (target visited c (some t) (some ts))
any_target-Finds visited c r rs none ts is found = (ts, refl, Found-none visited c r rs ts is found)
any_target-Finds visited c r rs (some t) ts is found = target-Finds visited c r rs t ts is found

pub targets-Found :
    (visited : List String) (c : Elements) (rs : List Element)
    → All HasTarget rs
    → (ts : List String) × (targets visited c rs ≡ some ts) × Found visited c rs ts
targets-Found visited c [] h =
    ([], refl, (tt, (λ b e _ _. absurd (ground (arith, e))), omega arith))
targets-Found visited c (r ∷ rs) ((t, is), h) =
    let (ts, is_ts, found) = targets-Found visited c rs h in
    subst (λ o. FindsOf visited c r rs (target visited c r.target_id o)) (sym is_ts)
      (subst (λ i. FindsOf visited c r rs (target visited c i (some ts))) (sym is)
        (any_target-Finds visited c r rs t ts is found))
