-- ===== src/Aggregator/ServiceChecks.antt =====
-- aggregator.py, class Aggregator: service check packets, and the service checks that they make.
pub mod Bound
use Prim.Native.Char.{code}
use Prim.Native.String.{[] as empty, ◌∷◌ as char_cons}
use text.Mathlib.Text.{◌==◌ as str_eq, starts_with}
use sts_agent.Prelude.{
  ℕ, ◌/◌, Bool, true, false, ◌&&◌, Option, none, some, List, [], ◌∷◌, String, ltb, ◌==◌,
  if◌then◌else◌, ℤ, pos,
}
use sts_agent.Prelude.Dicts.{lookup, insert}
use sts_agent.Prelude.Texts.{split, split_once}
use sts_agent.Prelude.Texts.Parts.{drop_chars, replace, split_at_last}
use sts_agent.Aggregator.Number.{Number, is_zero}
use sts_agent.Aggregator.Metric.{second}
use sts_agent.Aggregator.State.{or_else}
use sts_agent.Aggregator.Packets.{pipe, sorted_texts}
use sts_agent.Aggregator.Keywords.{
  a_text, an_int, a_float, a_list, str, int, float, strs, Keywords, Parameters, knows_all, text_of,
  int_of, float_of, texts_of, required,
}
use sts_agent.Aggregator.Events.{all_of, to_unicode, sorted_or_none, ◌>>=◌}

-- `_unescape_sc_content`
abbrev pub unescape_sc_content : String → String
unescape_sc_content s = replace "m\\:" "m:" (replace "\\n" "\n" s)

-- The name, the status and the metadata, which is empty where there are two parts.
abbrev pub status_and_metadata :
    String → String → Option (String × String) → String × String × String
status_and_metadata check_name status none = (check_name, status, "")
status_and_metadata check_name rest (some (status, metadata)) = (check_name, status, metadata)

abbrev pub sc_parts : Option (String × String) → Option (String × String × String)
sc_parts none = none
sc_parts (some (check_name, rest)) =
    some (status_and_metadata check_name rest (split_once pipe rest))

-- `meta`, and the message if there is one.
abbrev pub with_message :
    {V : Type 0} → String → Option (String × String) → Keywords V → String × Keywords V
with_message metadata none service_check = (metadata, service_check)
with_message metadata (some (meta, message)) service_check =
    (meta, insert str_eq "message" (str (unescape_sc_content message)) service_check)

abbrev pub message_delimiter : String → String
message_delimiter metadata = if starts_with metadata "m:" then "m:" else "|m:"

abbrev pub with_timestamp : {V : Type 0} → Option V → Keywords V → Option (Keywords V)
with_timestamp none service_check = none
with_timestamp (some t) service_check = some (insert str_eq "timestamp" (float t) service_check)

module _ {V : Type 0} (wide : Bool) (parse_int : String → Option ℤ)
    (parse_float : String → Option V) where
  -- One part of the metadata; `none` where it raises IndexError or ValueError.
  unfoldable pub sc_field : String → Keywords V → Option (Keywords V)
  sc_field empty service_check = none
  sc_field (char_cons c m) service_check =
      if code c == b'd'
      then with_timestamp (parse_float (drop_chars 1 m)) service_check
      else if code c == b'h'
      then some (insert str_eq "hostname" (str (drop_chars 1 m)) service_check)
      else if code c == b'#'
      then some (insert str_eq "tags" (strs (sorted_texts (all_of (split "," m)))) service_check)
      else some service_check

  unfoldable pub sc_fields : List String → Keywords V → Option (Keywords V)
  sc_fields [] service_check = some service_check
  sc_fields (m ∷ ms) service_check = elim (sc_field m service_check) [
    | none ↦ none
    | some next ↦ sc_fields ms next
  ]

  abbrev pub sc_unicode : Option String → Keywords V → Option (Keywords V)
  sc_unicode none service_check = none
  sc_unicode (some meta) service_check = sc_fields (all_of (split pipe meta)) service_check

  abbrev pub sc_meta : String × Keywords V → Option (Keywords V)
  sc_meta (meta, service_check) =
      if str_eq meta "" then some service_check else sc_unicode (to_unicode wide meta) service_check

  abbrev pub sc_status : String → Option ℤ → String → Option (Keywords V)
  sc_status check_name none metadata = none
  sc_status check_name (some status) metadata = sc_meta (
      with_message metadata (split_at_last (message_delimiter metadata) metadata)
        (insert str_eq "status" (int status) (insert str_eq "check_name" (str check_name) [])))

  abbrev pub sc_named : Option (String × String × String) → Option (Keywords V)
  sc_named none = none
  sc_named (some (check_name, status, metadata)) = sc_status check_name (parse_int status) metadata

  abbrev pub sc_split : Option (String × String) → Option (Keywords V)
  sc_split none = none
  sc_split (some (prefix, data_and_metadata)) =
      sc_named (sc_parts (split_once pipe data_and_metadata))

  -- `parse_sc_packet`; `none` where it raises that the packet is unparseable.
  unfoldable pub parse_sc_packet : String → Option (Keywords V)
  parse_sc_packet packet = sc_split (split_once pipe packet)

-- The parameters of `service_check`.
abbrev pub sc_parameters : Parameters
sc_parameters =
    ("check_name", a_text)
    ∷ ("status", an_int)
    ∷ ("tags", a_list)
    ∷ ("timestamp", a_float)
    ∷ ("hostname", a_text)
    ∷ ("message", a_text)
    ∷ []

pub record ScArguments (V : Type 0) : Type 0 where
  pub check_name : String
  pub status : ℤ
  pub tags : Option (List String)
  pub timestamp : Option V
  pub hostname : Option String
  pub message : Option String

-- The dictionary that `service_check` appends.
pub record ServiceCheck (V : Type 0) : Type 0 where
  pub check : String
  pub status : ℤ
  pub timestamp : V
  pub tags : Option (List String)
  pub host_name : String
  pub message : Option String

-- The arguments of `self.service_check(**service_check)`; `none` where Python raises TypeError.
unfoldable pub sc_arguments : {V : Type 0} → Keywords V → Option (ScArguments V)
sc_arguments service_check =
    let known = knows_all sc_parameters service_check in
    let arguments = do
      check_name ← required (text_of (lookup str_eq "check_name" service_check))
      status ← required (int_of (lookup str_eq "status" service_check))
      tags ← texts_of (lookup str_eq "tags" service_check)
      timestamp ← float_of (lookup str_eq "timestamp" service_check)
      hostname ← text_of (lookup str_eq "hostname" service_check)
      message ← text_of (lookup str_eq "message" service_check)
      some (record {
        check_name = check_name;
        status = status;
        tags = tags;
        timestamp = timestamp;
        hostname = hostname;
        message = message;
      })
    in if known then arguments else none

module _ {V : Type 0} (num : Number V) where
  -- `timestamp or int(time())`
  abbrev pub or_clock : Option V → ℕ → V
  or_clock none now = num.of_int (pos (now / second))
  or_clock (some t) now = if is_zero num t then num.of_int (pos (now / second)) else t

  -- `service_check`, where the aggregator is on the host `hostname` and `time()` answers `now`.
  abbrev pub make_service_check : String → ℕ → ScArguments V → ServiceCheck V
  make_service_check hostname now a = record {
    check = a.check_name;
    status = a.status;
    timestamp = or_clock a.timestamp now;
    tags = sorted_or_none a.tags;
    host_name = or_else a.hostname hostname;
    message = a.message;
  }
