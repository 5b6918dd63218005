-- ===== src/Checks/Agent/Historate/Rates.antt =====
-- checks/__init__.py, historate of class AgentCheck: the rates that it submits, and the tags left.
use Prim.Native.String.{◌++◌ as str_append}
use text.Mathlib.Text.{◌==◌ as str_eq, starts_with}
use text.Mathlib.TextEquality.{eq_iff}
use mathlib.Core.Bool.{true≢false}
use mathlib.Core.List.{append_assoc}
use sts_agent.Prelude.{
  ℕ, ◌+◌, ◌≤◌, Bool, true, false, Option, none, some, List, [], ◌∷◌, ◌++◌, String, ◌==◌,
  if◌then◌else◌, select, All, All-append, ◌≡◌, refl, ap, sym, subst, ◌∙◌, inl, inr, Bool-cases,
  arith,
}
use sts_agent.Prelude.Dicts.{lookup, insert, lookup-insert, eq_refl}
use sts_agent.Aggregator.Number.{Number}
use sts_agent.Aggregator.Metric.Point.{Result, returned, raised}
use sts_agent.Aggregator.State.{same_strings}
use sts_agent.Aggregator.State.Contexts.{same_strings→eq, same_strings_refl}
use sts_agent.Aggregator.Received.{Metrics}
use sts_agent.Checks.Agent.Historate.{
  Historates, Reading, and_then, kept_before, remove, exclude_tag, exclude_tags, historate_context,
  rate_since, submit_histogram, noted, submit_rate, historate,
}

-- The number of excluding tags that a tag starts with.
unfoldable pub matches : List String → String → ℕ
matches [] tag = 0
matches (exc_tag ∷ excluding_tags) tag =
    (if starts_with tag (str_append exc_tag ":") then 1 else 0) + matches excluding_tags tag

abbrev pub is_left : List String → String → Bool
is_left excluding_tags tag = matches excluding_tags tag == 0

remove-first :
    (tag : String) (kept ts : List String)
    → All (λ t. str_eq t tag ≡ false) kept
    → remove tag (kept ++ tag ∷ ts) ≡ some (kept ++ ts)
unfolding remove
remove-first tag [] ts h = rw (eq_refl str_eq eq_iff tag) refl
remove-first tag (t ∷ kept) ts (h, hs) = rw h (ap (kept_before t) (remove-first tag kept ts hs))

exclude_tag-none :
    (es : List String) (tag : String) (ts : List String)
    → matches es tag ≡ 0
    → exclude_tag es tag ts ≡ some ts
unfolding exclude_tag matches
exclude_tag-none [] tag ts h = refl
exclude_tag-none (e ∷ es) tag ts h = elim (Bool-cases (starts_with tag (str_append e ":"))) [
  | inl eq ↦ absurd (ground arith)
  | inr eq ↦ rw eq (exclude_tag-none es tag ts (ground arith))
]

exclude_tag-one :
    (es : List String) (tag : String) (kept ts : List String)
    → matches es tag ≡ 1
    → All (λ t. str_eq t tag ≡ false) kept
    → exclude_tag es tag (kept ++ tag ∷ ts) ≡ some (kept ++ ts)
unfolding exclude_tag matches
exclude_tag-one [] tag kept ts h k = absurd (ground arith)
exclude_tag-one (e ∷ es) tag kept ts h k = elim (Bool-cases (starts_with tag (str_append e ":"))) [
  | inl eq ↦ rw eq (
      ap (λ o. and_then o (exclude_tag es tag)) (remove-first tag kept ts k)
      ∙ exclude_tag-none es tag (kept ++ ts) (ground arith))
  | inr eq ↦ rw eq (exclude_tag-one es tag kept ts (ground arith) k)
]

module _ (es : List String) where
  others :
      (tag : String) (kept : List String)
      → is_left es tag ≡ false
      → All (λ t. is_left es t ≡ true) kept
      → All (λ t. str_eq t tag ≡ false) kept
  others tag [] h k = tt
  others tag (t ∷ kept) h (k, ks) = (
    elim (Bool-cases (str_eq t tag)) [
      | inl e ↦ absurd (true≢false (sym k ∙ ap (is_left es) ((eq_iff t tag).0 e) ∙ h))
      | inr e ↦ e
    ],
    others tag kept h ks,
  )

  exclude_tags-left :
      (copied kept : List String)
      → All (λ t. matches es t ≤ 1) copied
      → All (λ t. is_left es t ≡ true) kept
      → exclude_tags es copied (kept ++ copied) ≡ some (kept ++ select (is_left es) copied)
  unfolding exclude_tags
  exclude_tags-left [] kept once k = refl
  exclude_tags-left (tag ∷ copied) kept (once, more) k = elim (Bool-cases (is_left es tag)) [
    | inl e ↦ rw e (
        ap (λ o. and_then o (exclude_tags es copied))
          (exclude_tag-none es tag (kept ++ tag ∷ copied) (ground arith))
        ∙ ap (exclude_tags es copied) (sym (append_assoc kept (tag ∷ []) copied))
        ∙ exclude_tags-left copied (kept ++ tag ∷ []) more
            (All-append (λ t. is_left es t ≡ true) kept (tag ∷ []) k (e, tt))
        ∙ ap some (append_assoc kept (tag ∷ []) (select (is_left es) copied)))
    | inr e ↦ rw e (
        ap (λ o. and_then o (exclude_tags es copied))
          (exclude_tag-one es tag kept copied (ground arith) (others tag kept e k))
        ∙ exclude_tags-left copied kept more k)
  ]

same_strings_iff :
    (ss ts : List String)
    → (same_strings ss ts ≡ true → ss ≡ ts) × (ss ≡ ts → same_strings ss ts ≡ true)
same_strings_iff ss ts =
    (same_strings→eq ss ts, λ e. subst (λ us. same_strings ss us ≡ true) e (same_strings_refl ss))

module _ {V G : Type 0} (num : Number V) (aggregates : Metrics V G) (metric : String)
    (excluding_tags : List String) (hostname device_name : Option String) (tags : List String) where
  -- The calls, each of which is caught where it raises.
  unfoldable pub historates : List (Reading V) → Historates V × G → Historates V × G
  historates [] h = h
  historates (r ∷ readings) h =
      historates readings
        (historate num aggregates metric excluding_tags hostname device_name (some tags) r h).1

  -- Each reading is compared with the last one that did not raise.
  abbrev compared : V × ℕ → Reading V → Result Unit × G → (V × ℕ) × G
  compared prev r (returned u, g) = ((r.value, r.now), g)
  compared prev r (raised e, g) = (prev, g)

  abbrev submitted : V × ℕ → Reading V → G → Result V → (V × ℕ) × G
  submitted prev r g (raised e) = (prev, g)
  submitted prev r g (returned rate) = compared prev r (
      submit_histogram num aggregates metric excluding_tags hostname device_name rate
        (select (is_left excluding_tags) tags) r g)

  unfoldable pub rates_submitted : V × ℕ → List (Reading V) → G → G
  rates_submitted prev [] g = g
  rates_submitted prev (r ∷ readings) g =
      let after = submitted prev r g (rate_since num prev r) in
      rates_submitted after.0 readings after.1

  abbrev context : List String
  context = historate_context metric tags hostname device_name

  -- What a call with an entry leaves.
  abbrev IsAfter : (V × ℕ) × G → Historates V × G → Type 0
  IsAfter (prev, g) (d, g') = (lookup same_strings context d ≡ some prev) × (g' ≡ g)

  noted-IsAfter :
      (prev : V × ℕ) (r : Reading V) (d : Historates V) (run : Result Unit × G)
      → lookup same_strings context d ≡ some prev
      → IsAfter
          (compared prev r run)
          (noted num aggregates metric excluding_tags hostname device_name context r d run).1
  noted-IsAfter prev r d (returned u, g) h =
      (lookup-insert same_strings same_strings_iff context (r.value, r.now) d, refl)
  noted-IsAfter prev r d (raised e, g) h = (h, refl)

  submit_rate-IsAfter :
      (prev : V × ℕ) (r : Reading V) (d : Historates V) (g : G) (rate : Result V)
      → lookup same_strings context d ≡ some prev
      → IsAfter
          (submitted prev r g rate)
          (submit_rate num aggregates metric excluding_tags hostname device_name context r
            (d, g)
            (some (select (is_left excluding_tags) tags))
            rate).1
  submit_rate-IsAfter prev r d g (raised e) h = (h, refl)
  submit_rate-IsAfter prev r d g (returned rate) h = noted-IsAfter prev r d _ h

  historate-IsAfter :
      (prev : V × ℕ) (r : Reading V) (d : Historates V) (g : G)
      → All (λ t. matches excluding_tags t ≤ 1) tags
      → lookup same_strings context d ≡ some prev
      → IsAfter
          (submitted prev r g (rate_since num prev r))
          (historate num aggregates metric excluding_tags hostname device_name
            (some tags)
            r
            (d, g)).1
  unfolding historate
  historate-IsAfter prev r d g once h =
      rw (h, exclude_tags-left excluding_tags tags [] once tt)
        (submit_rate-IsAfter prev r d g (rate_since num prev r) h)

  historates-after :
      (prev : V × ℕ) (readings : List (Reading V)) (d : Historates V) (g : G)
      → All (λ t. matches excluding_tags t ≤ 1) tags
      → lookup same_strings context d ≡ some prev
      → (historates readings (d, g)).1 ≡ rates_submitted prev readings g
  unfolding historates rates_submitted
  historates-after prev [] d g once h = refl
  historates-after prev (r ∷ readings) d g once h =
      let after = submitted prev r g (rate_since num prev r) in
      let next =
        (historate num aggregates metric excluding_tags hostname device_name (some tags) r
          (d, g)).1 in
      let (found, same) = historate-IsAfter prev r d g once h in
      historates-after after.0 readings next.0 next.1 once found
      ∙ ap (rates_submitted after.0 readings) same

  historate-new :
      (r : Reading V) (d : Historates V) (g : G)
      → lookup same_strings context d ≡ none
      → (historate num aggregates metric excluding_tags hostname device_name (some tags) r (d, g)).1
        ≡ (insert same_strings context (r.value, r.now) d, g)
  unfolding historate
  historate-new r d g new = rw new refl

  -- If no tag starts with two of the excluding tags, and a context is new, then the first call of
  -- historate submits nothing, and every later one a histogram sample of the rate between its value
  -- and that of the last call which did not raise, with the tags that start with no excluding tag;
  -- a call at the same time as that one submits nothing.
  pub historates-rates_submitted :
      (r : Reading V) (readings : List (Reading V)) (d : Historates V) (g : G)
      → All (λ t. matches excluding_tags t ≤ 1) tags
      → lookup same_strings context d ≡ none
      → (historates (r ∷ readings) (d, g)).1 ≡ rates_submitted (r.value, r.now) readings g
  unfolding historates
  historates-rates_submitted r readings d g once new =
      ap (λ h. (historates readings h).1) (historate-new r d g new)
      ∙ historates-after (r.value, r.now) readings (insert same_strings context (r.value, r.now) d)
          g once (lookup-insert same_strings same_strings_iff context (r.value, r.now) d)
