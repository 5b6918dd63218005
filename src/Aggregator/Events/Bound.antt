-- ===== src/Aggregator/Events/Bound.antt =====
-- aggregator.py: what parse_event_packet returns is what event takes.
use Prim.Native.Char.{code}
use Prim.Native.String.{[] as empty, ◌∷◌ as char_cons}
use text.Mathlib.Text.{◌==◌ as str_eq}
use sts_agent.Prelude.{
  Bool, Option, none, some, List, [], ◌∷◌, String, ◌==◌, ℤ, pos, negsuc, ◌+ℤ◌, ◌≡◌, refl, subst,
  if_cases,
}
use sts_agent.Prelude.Dicts.{lookup, insert}
use sts_agent.Prelude.Texts.{Texts, split, split_once}
use sts_agent.Prelude.Texts.Parts.{drop_chars, text_from, text_between}
use sts_agent.Aggregator.Packets.{colon, pipe, sorted_texts}
use sts_agent.Aggregator.Keywords.{
  a_text, an_int, a_list, Value, str, int, strs, kind_of, Keywords, text_of, int_of, texts_of,
  IsTyped, insert-IsTyped, IsTyped-knows_all, optional-IsTyped, required-IsTyped, reads_text,
  reads_int, reads_texts, Holds, Has, insert-Has,
}
use sts_agent.Aggregator.Events.{
  all_of, to_unicode, with_tags, with_date, event_field, event_fields, title_and_text, event_sized,
  event_named, event_split, parse_event_packet, event_parameters, EventArguments, event_arguments,
}

-- The keywords of a call of `event`.
IsEvent : {V : Type 0} → Keywords V → Type 0
IsEvent event = IsTyped event_parameters event × Has "title" event × Has "text" event

title_and_text-IsEvent :
    (W : Type 0) (title_length text_length : ℤ) (metadata : String)
    → IsEvent (title_and_text {V = W} title_length text_length metadata)
unfolding IsEvent lookup insert
title_and_text-IsEvent W title_length text_length metadata =
    ((refl, (refl, tt)), (_, refl), (_, refl))

module _ {V : Type 0} where
  insert-IsEvent :
      (k : String) (v : Value V) (event : Keywords V)
      → lookup str_eq k event_parameters ≡ some (kind_of v)
      → IsEvent event
      → IsEvent (insert str_eq k v event)
  unfolding IsEvent
  insert-IsEvent k v event expected (typed, title, text) = (
    insert-IsTyped event_parameters k v event expected typed,
    insert-Has "title" k v event title,
    insert-Has "text" k v event text,
  )

  with_date-IsEvent :
      (o : Option ℤ) (event : Keywords V) → IsEvent event → Holds IsEvent (with_date o event)
  unfolding lookup
  with_date-IsEvent none event h = tt
  with_date-IsEvent (some date) event h = insert-IsEvent "date_happened" (int date) event refl h

  with_tags-IsEvent :
      (tags : Option String) (event : Keywords V)
      → IsEvent event
      → Holds IsEvent (with_tags tags event)
  unfolding lookup
  with_tags-IsEvent none event h = tt
  with_tags-IsEvent (some tags) event h =
      insert-IsEvent "tags" (strs (sorted_texts (all_of (split "," tags)))) event refl h

module _ {V : Type 0} (wide : Bool) (parse_int : String → Option ℤ) where
  event_field-IsEvent :
      (m : String) (event : Keywords V)
      → IsEvent event
      → Holds IsEvent (event_field wide parse_int m event)
  unfolding event_field lookup
  event_field-IsEvent empty event h = tt
  event_field-IsEvent (char_cons c m) event h =
      let rest = drop_chars 1 m in
      let is_event = Holds {A = Keywords V} IsEvent in
      if_cases is_event (code c == b't') _ _
        (λ e. insert-IsEvent "alert_type" (str rest) event refl h)
        (λ e.
          if_cases is_event (code c == b'k') _ _
            (λ e. insert-IsEvent "aggregation_key" (str rest) event refl h)
            (λ e.
              if_cases is_event (code c == b's') _ _
                (λ e. insert-IsEvent "source_type_name" (str rest) event refl h)
                (λ e.
                  if_cases is_event (code c == b'd') _ _
                    (λ e. with_date-IsEvent (parse_int rest) event h)
                    (λ e.
                      if_cases is_event (code c == b'p') _ _
                        (λ e. insert-IsEvent "priority" (str rest) event refl h)
                        (λ e.
                          if_cases is_event (code c == b'h') _ _
                            (λ e. insert-IsEvent "hostname" (str rest) event refl h)
                            (λ e.
                              if_cases is_event (code c == b'#') _ _
                                (λ e. with_tags-IsEvent (to_unicode wide m) event h) (λ e. h)))))))

  event_fields-IsEvent :
      (ms : List String) (event : Keywords V)
      → IsEvent event
      → Holds IsEvent (event_fields wide parse_int ms event)
  unfolding event_fields
  event_fields-IsEvent [] event h = h
  event_fields-IsEvent (m ∷ ms) event h =
      elim (event_field wide parse_int m event)
          as (λ o.
            Holds IsEvent o
            → Holds IsEvent
                (elim o [ none ↦ none | some next ↦ event_fields wide parse_int ms next ])) [
                  | none ↦ λ k. tt
                  | some next ↦ λ k. event_fields-IsEvent ms next k
                ]
        (event_field-IsEvent m event h)

module _ (V : Type 0) (wide : Bool) (parse_int : String → Option ℤ) where
  event_sized-IsEvent :
      (metadata : String) (title_length text_length : Option ℤ)
      → Holds (IsEvent {V = V}) (event_sized wide parse_int metadata title_length text_length)
  event_sized-IsEvent metadata none text_length = tt
  event_sized-IsEvent metadata (some t) none = tt
  event_sized-IsEvent metadata (some t) (some n) =
      event_fields-IsEvent wide parse_int (split pipe (text_from (t +ℤ n +ℤ pos 1) metadata)).1
        (title_and_text t n metadata) (title_and_text-IsEvent V t n metadata)

  event_named-IsEvent :
      (name : Texts) (metadata : String)
      → Holds (IsEvent {V = V}) (event_named wide parse_int name metadata)
  event_named-IsEvent (title_length, []) metadata = tt
  event_named-IsEvent (title_length, text_length ∷ []) metadata =
      event_sized-IsEvent metadata (parse_int (text_from (pos 3) title_length))
        (parse_int (text_between (pos 0) (negsuc 0) text_length))
  event_named-IsEvent (title_length, text_length ∷ t ∷ ts) metadata = tt

  event_split-IsEvent :
      (o : Option (String × String)) → Holds (IsEvent {V = V}) (event_split wide parse_int o)
  event_split-IsEvent none = tt
  event_split-IsEvent (some (name, metadata)) = event_named-IsEvent (split "," name) metadata

-- The keywords of an event are arguments of the method.
event_arguments-IsEvent :
    {V : Type 0} (event : Keywords V)
    → IsEvent event
    → (a : EventArguments) × (event_arguments event ≡ some a)
unfolding IsEvent event_arguments lookup
event_arguments-IsEvent event (typed, (v, title), (w, text)) =
    let known = IsTyped-knows_all event_parameters event typed in
    let (a1, e1) =
      required-IsTyped event_parameters text_of "title" a_text event v refl typed title
        reads_text in
    let (a2, e2) =
      required-IsTyped event_parameters text_of "text" a_text event w refl typed text reads_text in
    let (a3, e3) =
      optional-IsTyped event_parameters int_of "date_happened" an_int event refl typed refl
        reads_int in
    let (a4, e4) =
      optional-IsTyped event_parameters text_of "alert_type" a_text event refl typed refl
        reads_text in
    let (a5, e5) =
      optional-IsTyped event_parameters text_of "aggregation_key" a_text event refl typed refl
        reads_text in
    let (a6, e6) =
      optional-IsTyped event_parameters text_of "source_type_name" a_text event refl typed refl
        reads_text in
    let (a7, e7) =
      optional-IsTyped event_parameters text_of "priority" a_text event refl typed refl
        reads_text in
    let (a8, e8) =
      optional-IsTyped event_parameters texts_of "tags" a_list event refl typed refl reads_texts in
    let (a9, e9) =
      optional-IsTyped event_parameters text_of "hostname" a_text event refl typed refl
        reads_text in
    (
      record {
        title = a1;
        text = a2;
        date_happened = a3;
        alert_type = a4;
        aggregation_key = a5;
        source_type_name = a6;
        priority = a7;
        tags = a8;
        hostname = a9;
      },
      rw (known, e1, e2, e3, e4, e5, e6, e7, e8, e9) refl,
    )

-- Where parse_event_packet returns a dictionary, `event` takes it as its keyword arguments: it has a
-- title and a text, no unexpected keyword, and values of the types that the method takes.
pub parse_event_packet-IsBound :
    (V : Type 0) (wide : Bool) (parse_int : String → Option ℤ) (packet : String)
    (event : Keywords V)
    → parse_event_packet wide parse_int packet ≡ some event
    → (a : EventArguments) × (event_arguments event ≡ some a)
unfolding parse_event_packet
parse_event_packet-IsBound V wide parse_int packet event h =
    event_arguments-IsEvent event
      (subst (Holds IsEvent) h (event_split-IsEvent V wide parse_int (split_once colon packet)))
