-- ===== src/Emitter/Tests.antt =====
-- Series cut into parts, posts of which one is refused, a text with a control character, and the
-- theorems at them.
use text.Mathlib.Text.{◌==◌ as str_eq}
use sts_agent.Prelude.{
  ℕ, ◌+◌, ◌*◌, Bool, true, Option, none, some, List, [], ◌∷◌, ◌++◌, length, ◌≡◌, refl, arith, not,
}
use sts_agent.Emitter.{
  Codec, serialize_payload, count_chunks, all_chunks, serialize_and_compress_whole,
  serialize_and_compress_metrics,
}
use sts_agent.Emitter.Sanitize.{
  Item, Items, Fields, insert_field, sanitize_payload, remove_control_chars, AllTexts, IsClean,
  sanitize_payload-IsClean,
}
use sts_agent.Emitter.Parts.{AreParts, serialize_and_compress_metrics-AreParts}
use sts_agent.Emitter.Posts.{
  Series, Message, Legacy, Post, split_payload, post_payloads, http_emitter, planned_posts,
  until_refused, intake_url, api_url, http_emitter-until_refused,
}

-- Every number takes ten bytes, and a list five more; nothing is compressed.
abbrev codec : Codec (List ℕ) (List ℕ) (List ℕ)
codec = record {
  dumps = λ xs. some xs;
  without_control_chars = λ xs. xs;
  without_undecodable_chars = λ xs. xs;
  size = λ xs. 10 * length xs + 5;
  compress = λ xs. xs;
  compressed_size = λ xs. 10 * length xs + 5;
}

program : Unit {0}
unfolding serialize_payload count_chunks all_chunks serialize_and_compress_whole
    serialize_and_compress_metrics insert_field sanitize_payload remove_control_chars split_payload
    post_payloads http_emitter
program = tt

encodes : (series : List ℕ) → serialize_payload codec series ≡ some series
unfolding program
encodes series = refl

abbrev series : List ℕ
series = 1 ∷ 2 ∷ 3 ∷ 4 ∷ 5 ∷ []

two_parts :
    serialize_and_compress_metrics codec (λ xs. xs) 4 50 0 series
    ≡ some ((1 ∷ 2 ∷ 3 ∷ []) ∷ (4 ∷ 5 ∷ []) ∷ [])
unfolding program
two_parts = refl

dropped : serialize_and_compress_metrics codec (λ xs. xs) 4 10 0 (1 ∷ []) ≡ some ([] ∷ [] ∷ [] ∷ [])
unfolding program
dropped = refl

serialize_and_compress_metrics-AreParts_example :
    AreParts codec
      (λ xs. xs)
      50
      (λ xs. xs)
      encodes
      series
      (serialize_and_compress_metrics codec (λ xs. xs) 4 50 0 series)
serialize_and_compress_metrics-AreParts_example =
    serialize_and_compress_metrics-AreParts codec (λ xs. xs) 50 (λ xs. xs) encodes (omega arith)
      (λ z. omega arith) 4 0 series (omega arith) (omega arith)

abbrev message : Message ℕ ℕ ℕ
message = record {
  api_key = some "key";
  internal_hostname = "host";
  metrics = record { metric = "cpu"; timestamp = 7; value = 3; attributes = none } ∷ [];
  service_checks = 9;
  rest = 8;
}

abbrev accepts : Post ℕ → Bool
accepts (url, payload) = not (str_eq url "dd/api/v1/series?api_key=key")

abbrev legacy_payloads : Legacy ℕ → Option (List ℕ)
legacy_payloads legacy = some (legacy.rest ∷ [])

abbrev metrics_payloads : List (Series ℕ) → Option (List ℕ)
metrics_payloads s = some (length s ∷ [])

abbrev checkruns_payloads : ℕ → Option (List ℕ)
checkruns_payloads c = some (c ∷ [])

stopped :
    http_emitter accepts legacy_payloads metrics_payloads checkruns_payloads message "dd" "agent"
    ≡ some (("dd/intake/agent?api_key=key", 8) ∷ ("dd/api/v1/series?api_key=key", 1) ∷ [], true)
unfolding program
stopped = refl

http_emitter-until_refused_example :
    http_emitter accepts legacy_payloads metrics_payloads checkruns_payloads message "dd" "agent"
    ≡ some (
        until_refused accepts (
          planned_posts (intake_url "dd" "agent" "key") (some (8 ∷ []))
          ++ (planned_posts (api_url "dd" "/api/v1/series" "key") (some (1 ∷ []))
              ++ planned_posts (api_url "dd" "/api/v1/check_run" "key") (some (9 ∷ [])))))
http_emitter-until_refused_example =
    http_emitter-until_refused accepts legacy_payloads metrics_payloads checkruns_payloads message
      "dd" "agent" "key" refl

abbrev item : Item
item = Item.dict (
    Fields.field "a\u{7}" (Item.listed (Items.cons (Item.basestring "\u{1}b") Items.nil))
      Fields.end)

sanitized :
    sanitize_payload remove_control_chars item
    ≡ Item.dict
        (Fields.field "a" (Item.listed (Items.cons (Item.basestring "b") Items.nil)) Fields.end)
unfolding program
sanitized = refl

sanitize_payload-IsClean_example : AllTexts IsClean (sanitize_payload remove_control_chars item)
sanitize_payload-IsClean_example = sanitize_payload-IsClean item
