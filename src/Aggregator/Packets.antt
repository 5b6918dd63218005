-- ===== src/Aggregator/Packets.antt =====
-- aggregator.py, class Aggregator: the metric packets of StatsD clients.
pub mod Data
pub mod Magic
pub mod Rates
mod Tests
use Prim.Native.Char.{Char, code}
use Prim.Native.Nat.{Ordering}
use Prim.Native.String.{
  String, [] as empty, ◌∷◌ as char_cons, ◌++◌ as str_append, compare as str_compare, len, slice,
}
use text.Mathlib.Text.{◌==◌ as str_eq, starts_with}
use sts_agent.Prelude.{
  ℕ, Bool, true, false, not, ◌&&◌, ◌||◌, Option, none, some, List, [], ◌∷◌, select, ◌==◌,
  if◌then◌else◌,
}
use sts_agent.Prelude.Texts.{Texts, has_char, split, split_once}
use sts_agent.Aggregator.Number.{Number, nought, unit}
use sts_agent.Aggregator.Metric.Point.{
  Error, value_error, unparseable, not_a_number, Result, returned, raised,
}
use sts_agent.Aggregator.State.{or_else}

-- `int(s)` and `float(s)`, `none` where they raise ValueError, and a text as a value.
pub record Literals (V : Type 0) : Type 0 where
  pub int : String → Option V
  pub float : String → Option V
  pub text : String → V

-- An element of `parsed_packets`.
pub record Packet (V : Type 0) : Type 0 where
  pub name : String
  pub value : V
  pub mtype : String
  pub tags : Option (List String)
  pub sample_rate : V

abbrev pub colon : Char
colon = ":"

abbrev pub pipe : Char
pipe = "|"

-- `partial_datum` after a token.
abbrev pub next_partial : Bool → String → String → String
next_partial true partial token = token
next_partial false partial token = str_append partial (char_cons colon token)

-- The datum before the token, if it is complete, in front of the others.
abbrev pub attach : Bool → String → Texts → Texts
attach true partial (datum, more) = (partial, datum ∷ more)
attach false partial texts = texts

-- The tag groups that the split at the colons broke are put together again: a token without a
-- pipe belongs to the datum before it.
unfoldable pub regroup : String → List String → Texts
regroup partial [] = (partial, [])
regroup partial (token ∷ tokens) =
    let b = has_char pipe token in attach b partial (regroup (next_partial b partial token) tokens)

-- `data`, from what follows the name.
unfoldable pub data_of : String → Texts
data_of rest = let (token, tokens) = split colon rest in regroup token tokens

insert_sorted : String → List String → List String
insert_sorted s [] = s ∷ []
insert_sorted s (t ∷ ts) =
    let rest = insert_sorted s ts in
    elim (str_compare t s) [ Ordering.lt ↦ t ∷ rest | _ ↦ s ∷ t ∷ ts ]

-- `sorted(tags)`
unfoldable pub sorted_texts : List String → List String
unfolding insert_sorted
sorted_texts [] = []
sorted_texts (t ∷ ts) = insert_sorted t (sorted_texts ts)

module _ {V : Type 0} (num : Number V) (literals : Literals V) where
  abbrev pub first_some : Option V → Option V → Result (Option V)
  first_some (some v) other = returned (some v)
  first_some none (some v) = returned (some v)
  first_some none none = raised not_a_number

  -- The value of a datum: `none` where the type is ignored.
  unfoldable pub value_of : String → String → Result (Option V)
  value_of raw_value mtype =
      if str_eq mtype "s"
      then returned (some (literals.text raw_value))
      else if str_eq mtype "d"
      then returned none
      else first_some (literals.int raw_value) (literals.float raw_value)

  -- A rate that is in a bad state is 1.
  abbrev pub checked_rate : V → V
  checked_rate v = if num.less v (nought num) || num.less (unit num) v then unit num else v

  abbrev pub with_rate : Option V → Option (List String) → Result (V × Option (List String))
  with_rate none tags = raised value_error
  with_rate (some v) tags = returned (checked_rate v, tags)

  abbrev pub tags_of : Texts → List String
  tags_of (t, ts) = sorted_texts (t ∷ ts)

  -- One more value of the metadata: `none` where it is empty, which ends the loop.
  unfoldable pub metadatum :
      String → V → Option (List String) → Option (Result (V × Option (List String)))
  metadatum empty rate tags = none
  metadatum (char_cons c m) rate tags =
      if code c == b'@'
      then some (with_rate (literals.float m) tags)
      else if code c == b'#'
      then some (returned (rate, some (tags_of (split "," m))))
      else some (returned (rate, tags))

  -- The sample rate and the tags.
  unfoldable pub metadata :
      List String → V → Option (List String) → Result (V × Option (List String))
  metadata [] rate tags = returned (rate, tags)
  metadata (m ∷ ms) rate tags = elim (metadatum m rate tags) [
    | none ↦ returned (rate, tags)
    | some o ↦ elim o [ raised e ↦ raised e | returned r ↦ metadata ms r.0 r.1 ]
  ]

  abbrev pub packet :
      String → V → String → Result (V × Option (List String)) → Result (Option (Packet V))
  packet name v mtype (raised e) = raised e
  packet name v mtype (returned (rate, tags)) =
      returned
        (some (record { name = name; value = v; mtype = mtype; tags = tags; sample_rate = rate }))

  abbrev pub valued : String → String → List String → Result (Option V) → Result (Option (Packet V))
  valued name mtype ms (raised e) = raised e
  valued name mtype ms (returned none) = returned none
  valued name mtype ms (returned (some v)) = packet name v mtype (metadata ms (unit num) none)

  abbrev pub parse_fields : String → Texts → Result (Option (Packet V))
  parse_fields name (raw_value, []) = raised unparseable
  parse_fields name (raw_value, mtype ∷ ms) = valued name mtype ms (value_of raw_value mtype)

  abbrev pub add_packet :
      Result (Option (Packet V)) → Result (List (Packet V)) → Result (List (Packet V))
  add_packet (raised e) rest = raised e
  add_packet (returned o) (raised e) = raised e
  add_packet (returned none) (returned packets) = returned packets
  add_packet (returned (some p)) (returned packets) = returned (p ∷ packets)

  unfoldable pub parse_data : String → List String → Result (List (Packet V))
  parse_data name [] = returned []
  parse_data name (datum ∷ more) =
      add_packet (parse_fields name (split pipe datum)) (parse_data name more)

  abbrev pub parse_named : Option (String × String) → Result (List (Packet V))
  parse_named none = raised unparseable
  parse_named (some (name, rest)) =
      let (datum, more) = data_of rest in parse_data name (datum ∷ more)

  unfoldable pub parse_metric_packet : String → Result (List (Packet V))
  parse_metric_packet text = parse_named (split_once colon text)

-- `tag.startswith('host:')` or `tag.startswith('device:')`
abbrev pub is_magic : String → Bool
is_magic tag = starts_with tag "host:" || starts_with tag "device:"

-- `tags.remove(tag)`
unfoldable pub remove_tag : String → List String → List String
remove_tag tag [] = []
remove_tag tag (t ∷ ts) = let rest = remove_tag tag ts in if str_eq t tag then ts else t ∷ rest

unfoldable pub remove_tags : List String → List String → List String
remove_tags [] tags = tags
remove_tags (tag ∷ to_remove) tags = remove_tags to_remove (remove_tag tag tags)

-- The host name and the device of the magic tags: the last of each kind.
unfoldable pub magic_values :
    Option String → Option String → List String → Option String × Option String
magic_values hostname device_name [] = (hostname, device_name)
magic_values hostname device_name (tag ∷ tags) = elim (starts_with tag "host:") [
  | true ↦ magic_values (some (slice tag 5 (len tag))) device_name tags
  | false ↦ elim (starts_with tag "device:") [
    | true ↦ magic_values hostname (some (slice tag 7 (len tag))) tags
    | false ↦ magic_values hostname device_name tags
  ]
]

-- `tuple(tags) or None`
abbrev pub or_none : List String → Option (List String)
or_none [] = none
or_none (t ∷ ts) = some (t ∷ ts)

-- The tags without `tags_to_remove`.
abbrev pub left_of : List String → List String → Option (List String)
left_of [] tags = some tags
left_of (tag ∷ to_remove) tags = or_none (remove_tags (tag ∷ to_remove) tags)

-- Host name, device and the other tags.
unfoldable pub extract_magic_tags :
    Option (List String) → (Option String × Option String) × Option (List String)
extract_magic_tags none = ((none, none), none)
extract_magic_tags (some tags) = (magic_values none none tags, left_of (select is_magic tags) tags)
