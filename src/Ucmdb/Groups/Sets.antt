-- ===== src/Ucmdb/Groups/Sets.antt =====
-- utils/ucmdb/ucmdb_component_groups.py, `_union_groups`: the sets of the union-find are the groups
-- that relations connect.
use text.Mathlib.Text.{◌==◌ as str_eq}
use text.Mathlib.TextEquality.{eq_iff}
use mathlib.Core.Option.{none-ne-some}
use sts_agent.Prelude.{
  ℕ, ◌<◌, true, false, Option, none, some, String, [], ◌∷◌, if_cases, ◌≡◌, ◌↔◌, ◌⊎◌, inl, inr, refl,
  sym, ◌∙◌, subst, arith,
}
use sts_agent.Prelude.Dicts.{AllValues, AllEntries-lookup}
use sts_agent.Ucmdb.{Element, Elements, flat}
use sts_agent.Ucmdb.Groups.{UnionFind, Numbers, number_of, union_numbers, union_groups}

-- A structure over `n` items after some unions of its items.
pub data IsOf {U : Type 0} (uf : UnionFind U) (n : ℕ) : U → Type 0 where
  made : IsOf uf n (uf.create n)
  joined : {u : U} (a b : ℕ) → IsOf uf n u → a < n → b < n → IsOf uf n (uf.union u a b)

-- The items `x` and `y` are in one set once the sets of `a` and `b` are one.
abbrev pub IsMerged : {U : Type 0} → UnionFind U → U → ℕ → ℕ → ℕ → ℕ → Type 0
IsMerged uf u a b x y =
    (uf.find u x ≡ uf.find u y)
    ⊎ (((uf.find u x ≡ uf.find u a) × (uf.find u y ≡ uf.find u b))
        ⊎ ((uf.find u x ≡ uf.find u b) × (uf.find u y ≡ uf.find u a)))

-- What the package documents: each item is first a set of its own, a union makes one set of two and
-- leaves the others, and two items are connected if they are in one set.
pub record UnionFindLaws {U : Type 0} (uf : UnionFind U) : Type 0 where
  pub find_create :
      (n x y : ℕ) → x < n → y < n → uf.find (uf.create n) x ≡ uf.find (uf.create n) y → x ≡ y
  pub find_union :
      (n : ℕ) (u : U) (a b x y : ℕ)
      → IsOf uf n u
      → a < n
      → b < n
      → x < n
      → y < n
      → (uf.find (uf.union u a b) x ≡ uf.find (uf.union u a b) y) ↔ IsMerged uf u a b x y
  pub connected_iff :
      (n : ℕ) (u : U) (a b : ℕ)
      → IsOf uf n u
      → a < n
      → b < n
      → (uf.connected u a b ≡ true) ↔ (uf.find u a ≡ uf.find u b)

-- A relation connects the components with these numbers.
abbrev pub IsRelated : Numbers → Elements → ℕ → ℕ → Type 0
IsRelated numbers [] a b = false ≡ true
IsRelated numbers ((id, e) ∷ relations) a b =
    ((number_of numbers (flat e.source_id) ≡ some a)
      × (number_of numbers (flat e.target_id) ≡ some b))
    ⊎ IsRelated numbers relations a b

-- A chain of relations, in either direction, connects them.
pub data Linked (numbers : Numbers) (relations : Elements) : ℕ → ℕ → Type 0 where
  same : {a : ℕ} → Linked numbers relations a a
  related : {a b : ℕ} → IsRelated numbers relations a b → Linked numbers relations a b
  back : {a b : ℕ} → Linked numbers relations a b → Linked numbers relations b a
  through :
      {a b c : ℕ}
      → Linked numbers relations a b
      → Linked numbers relations b c
      → Linked numbers relations a c

module _ {U : Type 0} (uf : UnionFind U) (laws : UnionFindLaws uf) (n : ℕ) (numbers : Numbers)
    (bounded : AllValues (λ a. a < n) numbers) where
  number-lt : (id : Option String) (a : ℕ) → number_of numbers id ≡ some a → a < n
  number-lt none a h = absurd (none-ne-some a h)
  number-lt (some id) a h = AllEntries-lookup str_eq eq_iff (λ _ b. b < n) id a numbers bounded h

  abbrev Goes : U → Option ℕ → Option ℕ → Type 0
  Goes u o o' = ((a : ℕ) → o ≡ some a → a < n) × ((b : ℕ) → o' ≡ some b → b < n) × IsOf uf n u

  -- The items of one set stay in one set.
  abbrev Keeps : U → U → Type 0
  Keeps u u' = (x y : ℕ) → x < n → y < n → uf.find u x ≡ uf.find u y → uf.find u' x ≡ uf.find u' y

  union_numbers-IsOf : (u : U) (o o' : Option ℕ) → Goes u o o' → IsOf uf n (union_numbers uf u o o')
  union_numbers-IsOf u none o' (_, _, h) = h
  union_numbers-IsOf u (some a) none (_, _, h) = h
  union_numbers-IsOf u (some a) (some b) (la, lb, h) =
      if_cases (IsOf uf n) (uf.connected u a b) u (uf.union u a b) (λ _. h)
        (λ _. IsOf.joined a b h (la a refl) (lb b refl))

  union_numbers-Keeps : (u : U) (o o' : Option ℕ) → Goes u o o' → Keeps u (union_numbers uf u o o')
  union_numbers-Keeps u none o' g x y lx ly e = e
  union_numbers-Keeps u (some a) none g x y lx ly e = e
  union_numbers-Keeps u (some a) (some b) (la, lb, h) x y lx ly e =
      if_cases (λ v. uf.find v x ≡ uf.find v y) (uf.connected u a b) u (uf.union u a b) (λ _. e)
        (λ _. (laws.find_union n u a b x y h (la a refl) (lb b refl) lx ly).1 (inl e))

  union_numbers-joins :
      (u : U) (a b : ℕ)
      → Goes u (some a) (some b)
      → uf.find (union_numbers uf u (some a) (some b)) a
        ≡ uf.find (union_numbers uf u (some a) (some b)) b
  union_numbers-joins u a b (la, lb, h) =
      if_cases (λ v. uf.find v a ≡ uf.find v b) (uf.connected u a b) u (uf.union u a b)
        (λ c. (laws.connected_iff n u a b h (la a refl) (lb b refl)).0 c)
        (λ _.
          (laws.find_union n u a b a b h (la a refl) (lb b refl) (la a refl) (lb b refl)).1
            (inr (inl (refl, refl))))

  abbrev Joined : U → ℕ → ℕ → Type 0
  Joined u a b = uf.find u a ≡ uf.find u b

  goes :
      (u : U) (e : Element)
      → IsOf uf n u
      → Goes u (number_of numbers (flat e.source_id)) (number_of numbers (flat e.target_id))
  goes u e h = (number-lt (flat e.source_id), number-lt (flat e.target_id), h)

  abbrev next : U → Element → U
  next u e =
      union_numbers uf u (number_of numbers (flat e.source_id))
        (number_of numbers (flat e.target_id))

  union_groups-IsOf :
      (relations : Elements) (u : U) → IsOf uf n u → IsOf uf n (union_groups uf numbers relations u)
  unfolding union_groups
  union_groups-IsOf [] u h = h
  union_groups-IsOf ((id, e) ∷ relations) u h =
      union_groups-IsOf relations (next u e) (union_numbers-IsOf u _ _ (goes u e h))

  union_groups-Keeps :
      (relations : Elements) (u : U) → IsOf uf n u → Keeps u (union_groups uf numbers relations u)
  unfolding union_groups
  union_groups-Keeps [] u h x y lx ly e = e
  union_groups-Keeps ((id, r) ∷ relations) u h x y lx ly e =
      union_groups-Keeps relations (next u r) (union_numbers-IsOf u _ _ (goes u r h)) x y lx ly
        (union_numbers-Keeps u _ _ (goes u r h) x y lx ly e)

  IsRelated-lt :
      (relations : Elements) (a b : ℕ) → IsRelated numbers relations a b → (a < n) × (b < n)
  IsRelated-lt [] a b h = absurd (ground (arith, h))
  IsRelated-lt ((id, e) ∷ relations) a b (inl (s, t)) =
      (number-lt (flat e.source_id) a s, number-lt (flat e.target_id) b t)
  IsRelated-lt ((id, e) ∷ relations) a b (inr h) = IsRelated-lt relations a b h

  -- The ends of each relation are in one set.
  union_groups-joins :
      (relations : Elements) (u : U) (a b : ℕ)
      → IsOf uf n u
      → IsRelated numbers relations a b
      → uf.find (union_groups uf numbers relations u) a
        ≡ uf.find (union_groups uf numbers relations u) b
  unfolding union_groups
  union_groups-joins [] u a b h r = absurd (ground (arith, r))
  union_groups-joins ((id, e) ∷ relations) u a b h (inl (s, t)) =
      let o = number_of numbers (flat e.source_id) in
      let o' = number_of numbers (flat e.target_id) in
      let g : Goes u (some a) (some b) =
        subst (λ x. Goes u x (some b)) s (subst (λ y. Goes u o y) t (goes u e h)) in
      let now : uf.find (next u e) a ≡ uf.find (next u e) b =
        subst (λ x. Joined (union_numbers uf u x o') a b) (sym s)
          (subst (λ y. Joined (union_numbers uf u (some a) y) a b) (sym t)
            (union_numbers-joins u a b g)) in
      union_groups-Keeps relations (next u e) (union_numbers-IsOf u o o' (goes u e h)) a b
        (number-lt (flat e.source_id) a s) (number-lt (flat e.target_id) b t) now
  union_groups-joins ((id, e) ∷ relations) u a b h (inr r) =
      union_groups-joins relations (next u e) a b (union_numbers-IsOf u _ _ (goes u e h)) r

  module _ (relations : Elements) where
    -- Items of one set are linked.
    abbrev IsSound : U → Type 0
    IsSound u = (x y : ℕ) → x < n → y < n → uf.find u x ≡ uf.find u y → Linked numbers relations x y

    merged-Linked :
        (u : U) (a b x y : ℕ)
        → a < n
        → b < n
        → x < n
        → y < n
        → IsSound u
        → Linked numbers relations a b
        → IsMerged uf u a b x y
        → Linked numbers relations x y
    merged-Linked u a b x y la lb lx ly sound link (inl e) = sound x y lx ly e
    merged-Linked u a b x y la lb lx ly sound link (inr (inl (e, f))) =
        Linked.through (sound x a lx la e) (Linked.through link (sound b y lb ly (sym f)))
    merged-Linked u a b x y la lb lx ly sound link (inr (inr (e, f))) =
        Linked.through (sound x b lx lb e)
          (Linked.through (Linked.back link) (sound a y la ly (sym f)))

    union_numbers-IsSound :
        (u : U) (o o' : Option ℕ)
        → Goes u o o'
        → ((a b : ℕ) → o ≡ some a → o' ≡ some b → Linked numbers relations a b)
        → IsSound u
        → IsSound (union_numbers uf u o o')
    union_numbers-IsSound u none o' g link sound = sound
    union_numbers-IsSound u (some a) none g link sound = sound
    union_numbers-IsSound u (some a) (some b) (la, lb, h) link sound =
        if_cases IsSound (uf.connected u a b) u (uf.union u a b) (λ _. sound)
          (λ _ x y lx ly e.
            merged-Linked u a b x y (la a refl) (lb b refl) lx ly sound (link a b refl refl)
              ((laws.find_union n u a b x y h (la a refl) (lb b refl) lx ly).0 e))

    union_groups-IsSound :
        (rest : Elements) (u : U)
        → ((a b : ℕ) → IsRelated numbers rest a b → IsRelated numbers relations a b)
        → IsOf uf n u
        → IsSound u
        → IsSound (union_groups uf numbers rest u)
    unfolding union_groups
    union_groups-IsSound [] u within h sound = sound
    union_groups-IsSound ((id, e) ∷ rest) u within h sound =
        union_groups-IsSound rest (next u e) (λ a b r. within a b (inr r))
          (union_numbers-IsOf u _ _ (goes u e h))
          (union_numbers-IsSound u _ _ (goes u e h)
            (λ a b s t. Linked.related (within a b (inl (s, t)))) sound)

    linked-find :
        (u : U) (a b : ℕ)
        → ((x y : ℕ) → IsRelated numbers relations x y → uf.find u x ≡ uf.find u y)
        → Linked numbers relations a b
        → uf.find u a ≡ uf.find u b
    linked-find u a b joins Linked.same = refl
    linked-find u _ _ joins (Linked.related {a} {b} r) = joins a b r
    linked-find u _ _ joins (Linked.back {a} {b} l) = sym (linked-find u a b joins l)
    linked-find u _ _ joins (Linked.through {a} {b} {c} l m) =
        linked-find u a b joins l ∙ linked-find u b c joins m

  -- If the union-find keeps its laws, and the numbers of the components are below the size that it
  -- was created with, then after _union_groups two items have one representative exactly if a chain
  -- of relations, in either direction, connects them.
  pub union_groups-Linked :
      (relations : Elements) (x y : ℕ)
      → x < n
      → y < n
      → (uf.find (union_groups uf numbers relations (uf.create n)) x
          ≡ uf.find (union_groups uf numbers relations (uf.create n)) y)
        ↔ Linked numbers relations x y
  union_groups-Linked relations x y lx ly = (
    union_groups-IsSound relations relations (uf.create n) (λ a b r. r) IsOf.made
        (λ a b la lb e.
          subst (Linked numbers relations a) (laws.find_create n a b la lb e) Linked.same)
        x y lx ly,
    linked-find relations (union_groups uf numbers relations (uf.create n)) x y
        (λ a b. union_groups-joins relations (uf.create n) a b IsOf.made),
  )
