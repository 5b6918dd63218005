-- ===== src/Aggregator/ServiceChecks/Bound.antt =====
-- aggregator.py: what parse_sc_packet returns is what service_check takes.
use Prim.Native.Char.{code}
use Prim.Native.String.{[] as empty, ◌∷◌ as char_cons}
use text.Mathlib.Text.{◌==◌ as str_eq}
use sts_agent.Prelude.{
  Bool, Option, none, some, List, [], ◌∷◌, String, ◌==◌, ℤ, ◌≡◌, refl, subst, if_cases,
}
use sts_agent.Prelude.Dicts.{lookup, insert}
use sts_agent.Prelude.Texts.{split, split_once}
use sts_agent.Prelude.Texts.Parts.{drop_chars, split_at_last}
use sts_agent.Aggregator.Packets.{pipe, sorted_texts}
use sts_agent.Aggregator.Keywords.{
  a_text, an_int, a_float, a_list, Value, str, int, float, strs, kind_of, Keywords, text_of, int_of,
  float_of, texts_of, IsTyped, insert-IsTyped, IsTyped-knows_all, optional-IsTyped,
  required-IsTyped, reads_text, reads_int, reads_float, reads_texts, Holds, Has, insert-Has,
}
use sts_agent.Aggregator.Events.{all_of, to_unicode}
use sts_agent.Aggregator.ServiceChecks.{
  unescape_sc_content, sc_parts, with_message, message_delimiter, with_timestamp, sc_field,
  sc_fields, sc_unicode, sc_meta, sc_status, sc_named, sc_split, parse_sc_packet, sc_parameters,
  ScArguments, sc_arguments,
}

-- The keywords of a call of `service_check`.
IsCheck : {V : Type 0} → Keywords V → Type 0
IsCheck check = IsTyped sc_parameters check × Has "check_name" check × Has "status" check

module _ {V : Type 0} where
  insert-IsCheck :
      (k : String) (v : Value V) (check : Keywords V)
      → lookup str_eq k sc_parameters ≡ some (kind_of v)
      → IsCheck check
      → IsCheck (insert str_eq k v check)
  unfolding IsCheck
  insert-IsCheck k v check expected (typed, name, status) = (
    insert-IsTyped sc_parameters k v check expected typed,
    insert-Has "check_name" k v check name,
    insert-Has "status" k v check status,
  )

  with_timestamp-IsCheck :
      (o : Option V) (check : Keywords V) → IsCheck check → Holds IsCheck (with_timestamp o check)
  unfolding lookup
  with_timestamp-IsCheck none check h = tt
  with_timestamp-IsCheck (some t) check h = insert-IsCheck "timestamp" (float t) check refl h

  with_message-IsCheck :
      (metadata : String) (o : Option (String × String)) (check : Keywords V)
      → IsCheck check
      → IsCheck (with_message metadata o check).1
  unfolding lookup
  with_message-IsCheck metadata none check h = h
  with_message-IsCheck metadata (some (meta, message)) check h =
      insert-IsCheck "message" (str (unescape_sc_content message)) check refl h

module _ (V : Type 0) (wide : Bool) (parse_int : String → Option ℤ)
    (parse_float : String → Option V) where
  sc_field-IsCheck :
      (m : String) (check : Keywords V)
      → IsCheck check
      → Holds IsCheck (sc_field wide parse_int parse_float m check)
  unfolding sc_field lookup
  sc_field-IsCheck empty check h = tt
  sc_field-IsCheck (char_cons c m) check h =
      let rest = drop_chars 1 m in
      let is_check = Holds {A = Keywords V} IsCheck in
      if_cases is_check (code c == b'd') _ _
        (λ e. with_timestamp-IsCheck (parse_float rest) check h)
        (λ e.
          if_cases is_check (code c == b'h') _ _
            (λ e. insert-IsCheck "hostname" (str rest) check refl h)
            (λ e.
              if_cases is_check (code c == b'#') _ _
                (λ e.
                  insert-IsCheck "tags" (strs (sorted_texts (all_of (split "," m)))) check refl h)
                (λ e. h)))

  sc_fields-IsCheck :
      (ms : List String) (check : Keywords V)
      → IsCheck check
      → Holds IsCheck (sc_fields wide parse_int parse_float ms check)
  unfolding sc_fields
  sc_fields-IsCheck [] check h = h
  sc_fields-IsCheck (m ∷ ms) check h =
      elim (sc_field wide parse_int parse_float m check)
          as (λ o.
            Holds IsCheck o
            → Holds IsCheck (elim o [
              | none ↦ none
              | some next ↦ sc_fields wide parse_int parse_float ms next
            ])) [ none ↦ λ k. tt | some next ↦ λ k. sc_fields-IsCheck ms next k ]
        (sc_field-IsCheck m check h)

  sc_unicode-IsCheck :
      (o : Option String) (check : Keywords V)
      → IsCheck check
      → Holds IsCheck (sc_unicode wide parse_int parse_float o check)
  sc_unicode-IsCheck none check h = tt
  sc_unicode-IsCheck (some meta) check h = sc_fields-IsCheck (all_of (split pipe meta)) check h

  sc_meta-IsCheck :
      (p : String × Keywords V) → IsCheck p.1 → Holds IsCheck (sc_meta wide parse_int parse_float p)
  sc_meta-IsCheck (meta, check) h =
      if_cases (Holds {A = Keywords V} IsCheck) (str_eq meta "") _ _ (λ e. h)
        (λ e. sc_unicode-IsCheck (to_unicode wide meta) check h)

  sc_status-IsCheck :
      (check_name : String) (o : Option ℤ) (metadata : String)
      → Holds IsCheck (sc_status wide parse_int parse_float check_name o metadata)
  unfolding IsCheck insert lookup
  sc_status-IsCheck check_name none metadata = tt
  sc_status-IsCheck check_name (some status) metadata =
      let first =
        insert str_eq "status" (int status) (insert str_eq "check_name" (str check_name) []) in
      let parts =
        with_message metadata (split_at_last (message_delimiter metadata) metadata) first in
      sc_meta-IsCheck parts (
        with_message-IsCheck metadata (split_at_last (message_delimiter metadata) metadata) first
          ((refl, (refl, tt)), (_, refl), (_, refl)))

  sc_named-IsCheck :
      (o : Option (String × String × String))
      → Holds IsCheck (sc_named wide parse_int parse_float o)
  sc_named-IsCheck none = tt
  sc_named-IsCheck (some (check_name, status, metadata)) =
      sc_status-IsCheck check_name (parse_int status) metadata

  sc_split-IsCheck :
      (o : Option (String × String)) → Holds IsCheck (sc_split wide parse_int parse_float o)
  sc_split-IsCheck none = tt
  sc_split-IsCheck (some (prefix, rest)) = sc_named-IsCheck (sc_parts (split_once pipe rest))

-- The keywords of a service check are arguments of the method.
sc_arguments-IsCheck :
    {V : Type 0} (check : Keywords V)
    → IsCheck check
    → (a : ScArguments V) × (sc_arguments check ≡ some a)
unfolding IsCheck sc_arguments lookup
sc_arguments-IsCheck check (typed, (v, name), (w, status)) =
    let known = IsTyped-knows_all sc_parameters check typed in
    let (a1, e1) =
      required-IsTyped sc_parameters text_of "check_name" a_text check v refl typed name
        reads_text in
    let (a2, e2) =
      required-IsTyped sc_parameters int_of "status" an_int check w refl typed status reads_int in
    let (a3, e3) =
      optional-IsTyped sc_parameters texts_of "tags" a_list check refl typed refl reads_texts in
    let (a4, e4) =
      optional-IsTyped sc_parameters float_of "timestamp" a_float check refl typed refl
        reads_float in
    let (a5, e5) =
      optional-IsTyped sc_parameters text_of "hostname" a_text check refl typed refl reads_text in
    let (a6, e6) =
      optional-IsTyped sc_parameters text_of "message" a_text check refl typed refl reads_text in
    (
      record {
        check_name = a1;
        status = a2;
        tags = a3;
        timestamp = a4;
        hostname = a5;
        message = a6;
      },
      rw (known, e1, e2, e3, e4, e5, e6) refl,
    )

-- Where parse_sc_packet returns a dictionary, `service_check` takes it as its keyword arguments: it
-- has a name and a status, no unexpected keyword, and values of the types that the method takes.
pub parse_sc_packet-IsBound :
    (V : Type 0) (wide : Bool) (parse_int : String → Option ℤ) (parse_float : String → Option V)
    (packet : String) (check : Keywords V)
    → parse_sc_packet wide parse_int parse_float packet ≡ some check
    → (a : ScArguments V) × (sc_arguments check ≡ some a)
unfolding parse_sc_packet
parse_sc_packet-IsBound V wide parse_int parse_float packet check h = sc_arguments-IsCheck check (
    subst (Holds IsCheck) h
      (sc_split-IsCheck V wide parse_int parse_float (split_once pipe packet)))
