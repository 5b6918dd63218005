-- ===== src/Emitter/Sanitize.antt =====
-- emitter.py, sanitize_payload: a function on texts, at every text of a message and at every key.
use Prim.Native.Char.{Char, code}
use Prim.Native.String.{String, [] as empty, ◌∷◌ as char_cons}
use text.Mathlib.Text.{◌==◌ as str_eq}
use mathlib.Core.Bool.{Bool, false, ◌&&◌, ◌||◌}
use sts_agent.Prelude.{◌≤◌, ◌<◌, ◌⊎◌, ℕ, leb, ltb, if◌then◌else◌, ◌≡◌, arith, if_cases}

-- A message, as Python's data; `other` stands for the data that are no texts and hold none.
mutual
  pub data Item : Type 0 where
    dict : Fields → Item
    listed : Items → Item
    tupled : Items → Item
    basestring : String → Item
    other : ℕ → Item

  pub data Items : Type 0 where
    nil : Items
    cons : Item → Items → Items

  pub data Fields : Type 0 where
    end : Fields
    field : String → Item → Fields → Fields

-- `newdict[newkey] = newval`
unfoldable pub insert_field : String → Item → Fields → Fields
insert_field k v end = field k v end
insert_field k v (field k' v' fs) =
    let rest = insert_field k v fs in if str_eq k' k then field k v fs else field k' v' rest

unfoldable mutual
  pub sanitize_payload : (String → String) → Item → Item
  sanitize_payload f (dict fs) = dict (sanitize_fields f fs end)
  sanitize_payload f (listed xs) = listed (sanitize_items f xs)
  sanitize_payload f (tupled xs) = tupled (sanitize_items f xs)
  sanitize_payload f (basestring s) = basestring (f s)
  sanitize_payload f (other n) = other n

  pub sanitize_items : (String → String) → Items → Items
  sanitize_items f nil = nil
  sanitize_items f (cons x xs) = cons (sanitize_payload f x) (sanitize_items f xs)

  -- The loop over a dictionary, with the new one so far.
  pub sanitize_fields : (String → String) → Fields → Fields → Fields
  sanitize_fields f end new = new
  sanitize_fields f (field k v fs) new =
      sanitize_fields f fs (insert_field (f k) (sanitize_payload f v) new)

-- The class of characters of `control_char_re`.
abbrev pub is_control : Char → Bool
is_control c = ltb (code c) 32 || (leb 127 (code c) && ltb (code c) 160)

-- `remove_control_chars` of a `str`
unfoldable pub remove_control_chars : String → String
remove_control_chars empty = empty
remove_control_chars (char_cons c s) =
    let rest = remove_control_chars s in if is_control c then rest else char_cons c rest

-- Each character stands between the two ranges of control characters, or above both.
abbrev pub IsClean : String → Type 0
IsClean empty = Unit
IsClean (char_cons c s) = (((32 ≤ code c) × (code c < 127)) ⊎ (160 ≤ code c)) × IsClean s

is_control-false :
    (c : Char) → is_control c ≡ false → ((32 ≤ code c) × (code c < 127)) ⊎ (160 ≤ code c)
is_control-false c h = ground arith

remove_control_chars-IsClean : (s : String) → IsClean (remove_control_chars s)
unfolding remove_control_chars
remove_control_chars-IsClean empty = tt
remove_control_chars-IsClean (char_cons c s) =
    let rest = remove_control_chars-IsClean s in
    if_cases IsClean (is_control c) (remove_control_chars s) (char_cons c (remove_control_chars s))
      (λ _. rest) (λ e. (is_control-false c e, rest))

-- Every text of the message, keys included, has the property.
unfoldable mutual
  pub AllTexts : (String → Type 0) → Item → Type 0
  AllTexts P (dict fs) = AllFields P fs
  AllTexts P (listed xs) = AllItems P xs
  AllTexts P (tupled xs) = AllItems P xs
  AllTexts P (basestring s) = P s
  AllTexts P (other n) = Unit

  pub AllItems : (String → Type 0) → Items → Type 0
  AllItems P nil = Unit
  AllItems P (cons x xs) = AllTexts P x × AllItems P xs

  pub AllFields : (String → Type 0) → Fields → Type 0
  AllFields P end = Unit
  AllFields P (field k v fs) = P k × AllTexts P v × AllFields P fs

insert_field-AllFields :
    (P : String → Type 0) (k : String) (v : Item) (fs : Fields)
    → P k
    → AllTexts P v
    → AllFields P fs
    → AllFields P (insert_field k v fs)
unfolding insert_field AllTexts
insert_field-AllFields P k v end p h hs = (p, h, tt)
insert_field-AllFields P k v (field k' v' fs) p h (p', h', hs) =
    if_cases (AllFields P) (str_eq k' k) (field k v fs) (field k' v' (insert_field k v fs))
      (λ _. (p, h, hs)) (λ _. (p', h', insert_field-AllFields P k v fs p h hs))

mutual
  unfolding sanitize_payload AllTexts

  -- What the function gives for every text, holds of every text and every key of the result.
  sanitize_payload-AllTexts :
      (P : String → Type 0) (f : String → String)
      → ((s : String) → P (f s))
      → (item : Item) → AllTexts P (sanitize_payload f item)
  sanitize_payload-AllTexts P f h (dict fs) = sanitize_fields-AllFields P f h fs end tt
  sanitize_payload-AllTexts P f h (listed xs) = sanitize_items-AllItems P f h xs
  sanitize_payload-AllTexts P f h (tupled xs) = sanitize_items-AllItems P f h xs
  sanitize_payload-AllTexts P f h (basestring s) = h s
  sanitize_payload-AllTexts P f h (other n) = tt

  sanitize_items-AllItems :
      (P : String → Type 0) (f : String → String)
      → ((s : String) → P (f s))
      → (xs : Items) → AllItems P (sanitize_items f xs)
  sanitize_items-AllItems P f h nil = tt
  sanitize_items-AllItems P f h (cons x xs) =
      (sanitize_payload-AllTexts P f h x, sanitize_items-AllItems P f h xs)

  sanitize_fields-AllFields :
      (P : String → Type 0) (f : String → String)
      → ((s : String) → P (f s))
      → (fs new : Fields) → AllFields P new
      → AllFields P (sanitize_fields f fs new)
  sanitize_fields-AllFields P f h end new all = all
  sanitize_fields-AllFields P f h (field k v fs) new all =
      sanitize_fields-AllFields P f h fs (insert_field (f k) (sanitize_payload f v) new) (
        insert_field-AllFields P (f k) (sanitize_payload f v) new (h k)
          (sanitize_payload-AllTexts P f h v) all)

-- Every character of every text and key of a message has a code from 32 to 126, or from 160 on,
-- after sanitize_payload with remove_control_chars.
pub sanitize_payload-IsClean :
    (item : Item) → AllTexts IsClean (sanitize_payload remove_control_chars item)
sanitize_payload-IsClean item =
    sanitize_payload-AllTexts IsClean remove_control_chars remove_control_chars-IsClean item
