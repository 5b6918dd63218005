-- ===== src/Aggregator/Events.antt =====
-- aggregator.py, class Aggregator: event packets, and the events that they make.
pub mod Bound
pub mod Framed
use Prim.Native.Char.{code}
use Prim.Native.String.{[] as empty, ◌∷◌ as char_cons}
use text.Mathlib.Text.{◌==◌ as str_eq}
use sts_agent.Prelude.{
  ℕ, ◌/◌, Bool, true, false, ◌&&◌, ltb, Option, none, some, List, [], ◌∷◌, String, ◌==◌,
  if◌then◌else◌, ℤ, pos, negsuc, ◌+ℤ◌, map,
}
use sts_agent.Prelude.Dicts.{lookup, insert}
use sts_agent.Prelude.Texts.{Texts, split, split_once}
use sts_agent.Prelude.Texts.Parts.{drop_chars, text_from, text_between, replace}
use sts_agent.Aggregator.Metric.{second}
use sts_agent.Aggregator.State.{or_else}
use sts_agent.Aggregator.Packets.{colon, pipe, sorted_texts}
use sts_agent.Aggregator.Keywords.{
  Kind, a_text, an_int, a_list, Value, str, int, strs, Keywords, Parameters, knows_all, text_of,
  int_of, texts_of, required,
}

-- `_unescape_event_text`
abbrev pub unescape_event_text : String → String
unescape_event_text s = replace "\\n" "\n" s

abbrev pub all_of : Texts → List String
all_of (t, ts) = t ∷ ts

unfoldable pub is_ascii : String → Bool
is_ascii empty = true
is_ascii (char_cons c s) = ltb (code c) 128 && is_ascii s

-- The text as unicode: of characters, or of bytes, where Python raises UnicodeDecodeError, a
-- ValueError, if they are not all ASCII.
abbrev pub to_unicode : Bool → String → Option String
to_unicode true meta = some meta
to_unicode false meta = if is_ascii meta then some meta else none

-- `sorted(m[1:].split(u','))`, where `u','` makes unicode of the text.
abbrev pub with_tags : {V : Type 0} → Option String → Keywords V → Option (Keywords V)
with_tags none event = none
with_tags (some tags) event =
    some (insert str_eq "tags" (strs (sorted_texts (all_of (split "," tags)))) event)

abbrev pub with_date : {V : Type 0} → Option ℤ → Keywords V → Option (Keywords V)
with_date none event = none
with_date (some date) event = some (insert str_eq "date_happened" (int date) event)

abbrev pub title_and_text : {V : Type 0} → ℤ → ℤ → String → Keywords V
title_and_text title_length text_length metadata =
    insert str_eq "text"
      (str (
        unescape_event_text
          (text_between (title_length +ℤ pos 1) (title_length +ℤ text_length +ℤ pos 1) metadata)))
      (insert str_eq "title" (str (text_between (pos 0) title_length metadata)) [])

module _ {V : Type 0} (wide : Bool) (parse_int : String → Option ℤ) where
  -- One part of the metadata; `none` where it raises IndexError or ValueError.
  unfoldable pub event_field : String → Keywords V → Option (Keywords V)
  event_field empty event = none
  event_field (char_cons c m) event =
      if code c == b't'
      then some (insert str_eq "alert_type" (str (drop_chars 1 m)) event)
      else if code c == b'k'
      then some (insert str_eq "aggregation_key" (str (drop_chars 1 m)) event)
      else if code c == b's'
      then some (insert str_eq "source_type_name" (str (drop_chars 1 m)) event)
      else if code c == b'd'
      then with_date (parse_int (drop_chars 1 m)) event
      else if code c == b'p'
      then some (insert str_eq "priority" (str (drop_chars 1 m)) event)
      else if code c == b'h'
      then some (insert str_eq "hostname" (str (drop_chars 1 m)) event)
      else if code c == b'#'
      then with_tags (to_unicode wide m) event
      else some event

  unfoldable pub event_fields : List String → Keywords V → Option (Keywords V)
  event_fields [] event = some event
  event_fields (m ∷ ms) event = elim (event_field m event) [
    | none ↦ none
    | some next ↦ event_fields ms next
  ]

  -- The two lengths are read.
  abbrev pub event_sized : String → Option ℤ → Option ℤ → Option (Keywords V)
  event_sized metadata none text_length = none
  event_sized metadata (some title_length) none = none
  event_sized metadata (some title_length) (some text_length) =
      event_fields (split pipe (text_from (title_length +ℤ text_length +ℤ pos 1) metadata)).1
        (title_and_text title_length text_length metadata)

  abbrev pub event_named : Texts → String → Option (Keywords V)
  event_named (title_length, text_length ∷ []) metadata =
      event_sized metadata (parse_int (text_from (pos 3) title_length))
        (parse_int (text_between (pos 0) (negsuc 0) text_length))
  event_named (title_length, _) metadata = none

  abbrev pub event_split : Option (String × String) → Option (Keywords V)
  event_split none = none
  event_split (some (name, metadata)) = event_named (split "," name) metadata

  -- `parse_event_packet`; `none` where it raises that the packet is unparseable, or that its bytes
  -- are not ASCII, in the making of that message too.
  unfoldable pub parse_event_packet : String → Option (Keywords V)
  parse_event_packet packet = event_split (split_once colon packet)

-- The parameters of `event`.
abbrev pub event_parameters : Parameters
event_parameters =
    ("title", a_text)
    ∷ ("text", a_text)
    ∷ ("date_happened", an_int)
    ∷ ("alert_type", a_text)
    ∷ ("aggregation_key", a_text)
    ∷ ("source_type_name", a_text)
    ∷ ("priority", a_text)
    ∷ ("tags", a_list)
    ∷ ("hostname", a_text)
    ∷ []

pub record EventArguments : Type 0 where
  pub title : String
  pub text : String
  pub date_happened : Option ℤ
  pub alert_type : Option String
  pub aggregation_key : Option String
  pub source_type_name : Option String
  pub priority : Option String
  pub tags : Option (List String)
  pub hostname : Option String

-- The dictionary that `event` appends; a key is `none` where the dictionary has not got it.
pub record Event : Type 0 where
  pub msg_title : String
  pub msg_text : String
  pub timestamp : ℤ
  pub alert_type : Option String
  pub aggregation_key : Option String
  pub source_type_name : Option String
  pub priority : Option String
  pub tags : Option (List String)
  pub host : String

infixl 1 ◌>>=◌
abbrev pub ◌>>=◌ : {A B : Type 0} → Option A → (A → Option B) → Option B
none >>= f = none
some a >>= f = f a

-- The arguments of `self.event(**event)`; `none` where Python raises TypeError.
unfoldable pub event_arguments : {V : Type 0} → Keywords V → Option EventArguments
event_arguments event =
    let known = knows_all event_parameters event in
    let arguments = do
      title ← required (text_of (lookup str_eq "title" event))
      text ← required (text_of (lookup str_eq "text" event))
      date_happened ← int_of (lookup str_eq "date_happened" event)
      alert_type ← text_of (lookup str_eq "alert_type" event)
      aggregation_key ← text_of (lookup str_eq "aggregation_key" event)
      source_type_name ← text_of (lookup str_eq "source_type_name" event)
      priority ← text_of (lookup str_eq "priority" event)
      tags ← texts_of (lookup str_eq "tags" event)
      hostname ← text_of (lookup str_eq "hostname" event)
      some (record {
        title = title;
        text = text;
        date_happened = date_happened;
        alert_type = alert_type;
        aggregation_key = aggregation_key;
        source_type_name = source_type_name;
        priority = priority;
        tags = tags;
        hostname = hostname;
      })
    in if known then arguments else none

abbrev pub sorted_or_none : Option (List String) → Option (List String)
sorted_or_none none = none
sorted_or_none (some tags) = some (sorted_texts tags)

-- `event`, where the aggregator is on the host `hostname` and `time()` answers `now`.
abbrev pub make_event : String → ℕ → EventArguments → Event
make_event hostname now a = record {
  msg_title = a.title;
  msg_text = a.text;
  timestamp = or_else a.date_happened (pos (now / second));
  alert_type = a.alert_type;
  aggregation_key = a.aggregation_key;
  source_type_name = a.source_type_name;
  priority = a.priority;
  tags = sorted_or_none a.tags;
  host = or_else a.hostname hostname;
}
