-- ===== src/Ucmdb.antt =====
-- utils/ucmdb: dumps of a configuration management database, merged, and labelled by the trees and
-- the connected groups of their components. This file has the elements, as the parser builds them.
pub mod Parser
pub mod Dump
pub mod Trees
pub mod Groups
pub mod Tests
use mathlib.Core.Option.{none-ne-some}
use text.Mathlib.Text.{◌==◌ as str_eq}
use text.Mathlib.TextEquality.{eq_iff}
use sts_agent.Prelude.{
  refl, Bool, false, ◌||◌, Option, none, some, String, List, [], ◌∷◌, ◌≡◌, ◌↔◌, true,
}
use sts_agent.Prelude.Dicts.{lookup, insert, pop}

-- The dictionary of an element: a key that is not there is `none`. A text of an attribute, and so an
-- end of a relation, may be None.
pub record Element : Type 0 where
  pub operation : Option String
  pub name : Option String
  pub ucmdb_id : Option String
  pub source_id : Option (Option String)
  pub target_id : Option (Option String)
  pub attributes : List (String × Option String)

abbrev pub Elements : Type 0
Elements = List (String × Element)

-- `new_element`
abbrev pub new_element : Element
new_element = record {
  operation = none;
  name = none;
  ucmdb_id = none;
  source_id = none;
  target_id = none;
  attributes = [];
}

abbrev pub get : {W : Type 0} → String → List (String × W) → Option W
get k d = lookup str_eq k d

-- `data.get(k)`, where a value None is as good as none.
abbrev pub flat : {W : Type 0} → Option (Option W) → Option W
flat none = none
flat (some v) = v

abbrev pub get_value : String → List (String × Option String) → Option String
get_value k d = flat (get k d)

-- `s in names`
abbrev pub among : String → List String → Bool
among s [] = false
among s (t ∷ ts) = str_eq t s || among s ts

-- An operation that may raise, and the rest.
abbrev pub bind : {A B : Type 0} → Option A → (A → Option B) → Option B
bind none f = none
bind (some a) f = f a

pub bind-some :
    {A B : Type 0} (o : Option A) (f : A → Option B) (b : B)
    → bind o f ≡ some b
    → (a : A) × (o ≡ some a) × (f a ≡ some b)
bind-some none f b h = absurd (none-ne-some b h)
bind-some (some a) f b h = (a, refl, h)
