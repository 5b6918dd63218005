-- ===== src/Services/Members.antt =====
-- utils/kubernetes/pod_service_mapper.py, process_events: sets of pods and lists of services.
use text.Mathlib.Text.{◌==◌ as str_eq}
use text.Mathlib.TextEquality.{eq_iff}
use sts_agent.Prelude.{
  Bool, true, false, ◌||◌, none, some, String, List, [], ◌∷◌, ◌++◌, ◌≡◌, inl, inr, refl, ap, sym,
  subst, ◌∙◌, if_cases, Bool-cases, if_true, if_false, arith,
}
use mathlib.Core.Bool.{true≢false}
use mathlib.Core.Option.{none-ne-some, some-injective}
use sts_agent.Prelude.Dicts.{lookup, eq_refl}
use sts_agent.Services.{has, keys_with}
use sts_agent.Services.Events.{add, add_all, remove_uid, remove_from_all}

has-append : (x y : String) (ys : List String) → has x (ys ++ y ∷ []) ≡ (has x ys || str_eq y x)
unfolding has
has-append x y [] = ground arith
has-append x y (z ∷ ys) = elim (Bool-cases (str_eq z x)) [
  | inl e ↦ rw e refl
  | inr e ↦ rw e (has-append x y ys)
]

-- What is in a set stays in it.
pub add-grows : (x y : String) (ys : List String) → has x ys ≡ true → has x (add y ys) ≡ true
add-grows x y ys h =
    if_cases (λ zs. has x zs ≡ true) (has y ys) ys (ys ++ y ∷ []) (λ e. h)
      (λ e. has-append x y ys ∙ ap (λ b. b || str_eq y x) h)

pub has-add : (x : String) (ys : List String) → has x (add x ys) ≡ true
has-add x ys =
    if_cases (λ zs. has x zs ≡ true) (has x ys) ys (ys ++ x ∷ []) (λ e. e)
      (λ e. has-append x x ys ∙ ap (λ b. b || str_eq x x) e ∙ eq_refl str_eq eq_iff x)

pub add_all-grows :
    (x : String) (more ys : List String) → has x ys ≡ true → has x (add_all more ys) ≡ true
unfolding add_all
add_all-grows x [] ys h = h
add_all-grows x (y ∷ more) ys h = add_all-grows x more (add y ys) (add-grows x y ys h)

pub has-add_all :
    (x : String) (more ys : List String) → has x more ≡ true → has x (add_all more ys) ≡ true
unfolding add_all has
has-add_all x [] ys h = absurd (true≢false (sym h))
has-add_all x (y ∷ more) ys h = elim (Bool-cases (str_eq y x)) [
  | inl e ↦
      add_all-grows x more (add y ys)
        (subst (λ z. has x (add z ys) ≡ true) (sym ((eq_iff y x).0 e)) (has-add x ys))
  | inr e ↦ has-add_all x more (add y ys) (sym (ap (λ b. b || has x more) e) ∙ h)
]

pub has-keys_with :
    {W : Type 0} (p : W → Bool) (k : String) (w : W) (d : List (String × W))
    → lookup str_eq k d ≡ some w
    → p w ≡ true
    → has k (keys_with p d) ≡ true
unfolding has keys_with lookup
has-keys_with p k w [] h q = absurd (none-ne-some w h)
has-keys_with p k w ((k', w') ∷ d) h q = elim (Bool-cases (str_eq k' k)) [
  | inl e ↦
      let is_w =
        some-injective w' w (if_true (str_eq k' k) (some w') (lookup str_eq k d) (some w) e h) in
      rw (ap p is_w ∙ q) (rw e refl)
  | inr e ↦
      let found =
        has-keys_with p k w d (if_false (str_eq k' k) (some w') (lookup str_eq k d) (some w) e h)
          q in
      if_cases (λ ks. has k ks ≡ true) (p w') (k' ∷ keys_with p d) (keys_with p d)
        (λ f. ap (λ b. b || has k (keys_with p d)) e ∙ found) (λ f. found)
]

remove_absent : (uid : String) (us : List String) → has uid us ≡ false → remove_uid uid us ≡ us
unfolding has remove_uid
remove_absent uid [] h = refl
remove_absent uid (u ∷ us) h = elim (Bool-cases (str_eq u uid)) [
  | inl e ↦ absurd (true≢false (sym (ap (λ b. b || has uid us) e) ∙ h))
  | inr e ↦ rw e (ap (λ xs. u ∷ xs) (remove_absent uid us (sym (ap (λ b. b || has uid us) e) ∙ h)))
]

pub remove_from_all-none :
    (uid pod : String) (d : List (String × List String))
    → lookup str_eq pod d ≡ none
    → lookup str_eq pod (remove_from_all uid d) ≡ none
unfolding lookup remove_from_all
remove_from_all-none uid pod [] h = refl
remove_from_all-none uid pod ((k, us) ∷ d) h = elim (Bool-cases (str_eq k pod)) [
  | inl e ↦
      absurd
        (none-ne-some us (sym (if_true (str_eq k pod) (some us) (lookup str_eq pod d) none e h)))
  | inr e ↦ rw e (
      remove_from_all-none uid pod d
        (if_false (str_eq k pod) (some us) (lookup str_eq pod d) none e h))
]

pub remove_from_all-other :
    (uid pod : String) (us : List String) (d : List (String × List String))
    → lookup str_eq pod d ≡ some us
    → has uid us ≡ false
    → lookup str_eq pod (remove_from_all uid d) ≡ some us
unfolding lookup remove_from_all
remove_from_all-other uid pod us [] h q = absurd (none-ne-some us h)
remove_from_all-other uid pod us ((k, vs) ∷ d) h q = elim (Bool-cases (str_eq k pod)) [
  | inl e ↦
      let is_us =
        some-injective vs us
          (if_true (str_eq k pod) (some vs) (lookup str_eq pod d) (some us) e h) in
      rw e (ap (λ xs. some xs) (ap (remove_uid uid) is_us ∙ remove_absent uid us q))
  | inr e ↦ rw e (
      remove_from_all-other uid pod us d
        (if_false (str_eq k pod) (some vs) (lookup str_eq pod d) (some us) e h) q)
]
