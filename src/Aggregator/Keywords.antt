-- ===== src/Aggregator/Keywords.antt =====
-- aggregator.py: the dictionaries that the packet parsers return, and a method called with one of them as its
-- keyword arguments.
use text.Mathlib.Text.{◌==◌ as str_eq}
use text.Mathlib.TextEquality.{eq_iff}
use mathlib.Core.Option.{some-injective}
use sts_agent.Prelude.{
  Bool, true, false, ◌&&◌, Option, none, some, List, [], ◌∷◌, String, ℤ, ◌≡◌, inl, inr, refl, sym,
  ◌∙◌, ap, subst, if_cases, Option-cases, arith,
}
use sts_agent.Prelude.Dicts.{
  lookup, insert, AllEntries, AllEntries-insert, AllEntries-lookup, lookup-insert_if,
}

pub data Kind : Type 0 where
  a_text : Kind
  an_int : Kind
  a_float : Kind
  a_list : Kind

pub data Value (V : Type 0) : Type 0 where
  str : String → Value V
  int : ℤ → Value V
  float : V → Value V
  strs : List String → Value V

abbrev pub kind_of : {V : Type 0} → Value V → Kind
kind_of (str s) = a_text
kind_of (int i) = an_int
kind_of (float v) = a_float
kind_of (strs ts) = a_list

abbrev pub Keywords : Type 0 → Type 0
Keywords V = List (String × Value V)

-- The parameters of a method, with what it takes for them.
abbrev pub Parameters : Type 0
Parameters = List (String × Kind)

abbrev pub is_expected : {A : Type 0} → Option A → Bool
is_expected none = false
is_expected (some a) = true

-- No keyword is unexpected.
unfoldable pub knows_all : {V : Type 0} → Parameters → Keywords V → Bool
knows_all parameters [] = true
knows_all parameters ((k, v) ∷ keywords) =
    is_expected (lookup str_eq k parameters) && knows_all parameters keywords

-- An argument that may be absent; `none` where it is of another kind.
abbrev pub text_of : {V : Type 0} → Option (Value V) → Option (Option String)
text_of none = some none
text_of (some (str s)) = some (some s)
text_of (some _) = none

abbrev pub int_of : {V : Type 0} → Option (Value V) → Option (Option ℤ)
int_of none = some none
int_of (some (int i)) = some (some i)
int_of (some _) = none

abbrev pub float_of : {V : Type 0} → Option (Value V) → Option (Option V)
float_of none = some none
float_of (some (float v)) = some (some v)
float_of (some _) = none

abbrev pub texts_of : {V : Type 0} → Option (Value V) → Option (Option (List String))
texts_of none = some none
texts_of (some (strs ts)) = some (some ts)
texts_of (some _) = none

-- An argument that has to be there.
abbrev pub required : {A : Type 0} → Option (Option A) → Option A
required none = none
required (some o) = o

-- Every keyword is a parameter, and its value is of the kind that the method takes.
abbrev pub IsTyped : {V : Type 0} → Parameters → Keywords V → Type 0
IsTyped parameters keywords =
    AllEntries (λ k v. lookup str_eq k parameters ≡ some (kind_of v)) keywords

module _ {V : Type 0} (parameters : Parameters) where
  pub insert-IsTyped :
      (k : String) (v : Value V) (keywords : Keywords V)
      → lookup str_eq k parameters ≡ some (kind_of v)
      → IsTyped parameters keywords
      → IsTyped parameters (insert str_eq k v keywords)
  insert-IsTyped =
      AllEntries-insert str_eq eq_iff (λ k v. lookup str_eq k parameters ≡ some (kind_of v))

  pub IsTyped-knows_all :
      (keywords : Keywords V) → IsTyped parameters keywords → knows_all parameters keywords ≡ true
  unfolding knows_all
  IsTyped-knows_all [] h = refl
  IsTyped-knows_all ((k, v) ∷ keywords) (first, rest) = rw first (IsTyped-knows_all keywords rest)

  -- What a lookup finds is of the kind of the parameter.
  kind_found :
      (k : String) (q : Kind) (v : Value V) (keywords : Keywords V)
      → lookup str_eq k parameters ≡ some q
      → IsTyped parameters keywords
      → lookup str_eq k keywords ≡ some v
      → q ≡ kind_of v
  kind_found k q v keywords expected h found = some-injective q (kind_of v) (
      sym expected
      ∙ AllEntries-lookup str_eq eq_iff (λ j u. lookup str_eq j parameters ≡ some (kind_of u)) k v
          keywords h found)

  -- An argument that may be absent is read, if a value of its kind is.
  pub optional-IsTyped :
      {A : Type 0} (f : Option (Value V) → Option (Option A)) (k : String) (q : Kind)
      (keywords : Keywords V)
      → lookup str_eq k parameters ≡ some q
      → IsTyped parameters keywords
      → f none ≡ some none
      → ((v : Value V) → q ≡ kind_of v → (a : A) × (f (some v) ≡ some (some a)))
      → (o : Option A) × (f (lookup str_eq k keywords) ≡ some o)
  optional-IsTyped f k q keywords expected h absent reads =
      elim (Option-cases (lookup str_eq k keywords)) [
        | inl e ↦ (none, ap f e ∙ absent)
        | inr (v, e) ↦
            let (a, read) = reads v (kind_found k q v keywords expected h e) in
            (some a, ap f e ∙ read)
      ]

  -- An argument that is there is read, if a value of its kind is.
  pub required-IsTyped :
      {A : Type 0} (f : Option (Value V) → Option (Option A)) (k : String) (q : Kind)
      (keywords : Keywords V) (v : Value V)
      → lookup str_eq k parameters ≡ some q
      → IsTyped parameters keywords
      → lookup str_eq k keywords ≡ some v
      → ((v : Value V) → q ≡ kind_of v → (a : A) × (f (some v) ≡ some (some a)))
      → (a : A) × (required (f (lookup str_eq k keywords)) ≡ some a)
  required-IsTyped f k q keywords v expected h there reads =
      let (a, read) = reads v (kind_found k q v keywords expected h there) in
      (a, ap (λ o. required (f o)) there ∙ ap required read)

module _ {V : Type 0} where
  pub reads_text :
      (v : Value V) → a_text ≡ kind_of v → (s : String) × (text_of (some v) ≡ some (some s))
  reads_text (str s) h = (s, refl)
  reads_text (int i) h = absurd (ground arith)
  reads_text (float v) h = absurd (ground arith)
  reads_text (strs ts) h = absurd (ground arith)

  pub reads_int : (v : Value V) → an_int ≡ kind_of v → (i : ℤ) × (int_of (some v) ≡ some (some i))
  reads_int (str s) h = absurd (ground arith)
  reads_int (int i) h = (i, refl)
  reads_int (float v) h = absurd (ground arith)
  reads_int (strs ts) h = absurd (ground arith)

  pub reads_float :
      (v : Value V) → a_float ≡ kind_of v → (a : V) × (float_of (some v) ≡ some (some a))
  reads_float (str s) h = absurd (ground arith)
  reads_float (int i) h = absurd (ground arith)
  reads_float (float v) h = (v, refl)
  reads_float (strs ts) h = absurd (ground arith)

  pub reads_texts :
      (v : Value V) → a_list ≡ kind_of v → (ts : List String) × (texts_of (some v) ≡ some (some ts))
  reads_texts (str s) h = absurd (ground arith)
  reads_texts (int i) h = absurd (ground arith)
  reads_texts (float v) h = absurd (ground arith)
  reads_texts (strs ts) h = (ts, refl)

-- What a parser returns, if it returns.
abbrev pub Holds : {A : Type 0} → (A → Type 0) → Option A → Type 0
Holds P none = Unit
Holds P (some a) = P a

abbrev pub Has : {V : Type 0} → String → Keywords V → Type 0
Has k keywords = (v : Value _) × (lookup str_eq k keywords ≡ some v)

pub insert-Has :
    {V : Type 0} (j k : String) (v : Value V) (keywords : Keywords V)
    → Has j keywords
    → Has j (insert str_eq k v keywords)
insert-Has j k v keywords (w, h) =
    subst (λ o. (u : Value _) × (o ≡ some u)) (sym (lookup-insert_if str_eq eq_iff j k v keywords))
      (if_cases (λ o. (u : Value _) × (o ≡ some u)) (str_eq k j) (some v) (lookup str_eq j keywords)
        (λ e. (v, refl)) (λ e. (w, h)))
