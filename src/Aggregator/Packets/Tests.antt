-- ===== src/Aggregator/Packets/Tests.antt =====
-- Packets as clients send them, and the theorems at them.
use sts_agent.Prelude.{
  ℕ, ◌+◌, ◌-◌, ◌*◌, ◌/◌, true, false, not, Option, none, some, List, [], ◌∷◌, String, ℤ, pos,
  negsuc, All, select, ltb, ◌==◌, ◌≡◌, refl,
}
use sts_agent.Prelude.Texts.{has_char, split, split_once, join}
use sts_agent.Aggregator.Number.{Number}
use sts_agent.Aggregator.Metric.Point.{returned}
use sts_agent.Aggregator.State.{or_else}
use sts_agent.Aggregator.Packets.{
  Literals, colon, regroup, data_of, sorted_texts, value_of, metadatum, metadata, parse_data,
  parse_metric_packet, is_magic, remove_tag, remove_tags, magic_values, extract_magic_tags,
}
use sts_agent.Aggregator.Packets.Data.{HasPipe, join-data_of}
use sts_agent.Aggregator.Packets.Magic.{extract_magic_tags_left}

program : Unit {0}
unfolding has_char split split_once regroup data_of sorted_texts value_of metadatum metadata
    parse_data parse_metric_packet remove_tag remove_tags magic_values extract_magic_tags
program = tt

abbrev of_int : ℤ → ℕ
of_int (pos n) = n
of_int (negsuc n) = 0

abbrev numbers : Number ℕ
numbers = record {
  of_int = of_int;
  of_float = of_int;
  seconds = λ t. t / 1_000_000;
  add = λ a b. a + b;
  sub = λ a b. a - b;
  mul = λ a b. a * b;
  div = λ a b. a / b;
  overflows = λ a b. false;
  less = ltb;
  equal = λ a b. a == b;
  int = λ v. pos v;
  round = λ v. pos v;
  text = λ i. "0";
}

-- Only the text of 7 is a number.
abbrev seven : String → Option ℕ
seven s = elim (has_char "7" s) [ true ↦ some 7 | false ↦ none ]

abbrev literals : Literals ℕ
literals = record { int = seven; float = seven; text = λ s. 0 }

-- Two data, the first with a tag that has a colon.
abbrev rest : String
rest = "7|g|#host:a:b,role:db:77|c|@7"

told_apart : data_of rest ≡ ("7|g|#host:a:b,role:db", "77|c|@7" ∷ [])
unfolding program
told_apart = refl

parsed :
    parse_metric_packet numbers literals "load:7|g|#role:db,host:a:77|c|@7"
    ≡ returned (
        record {
          name = "load";
          value = 7;
          mtype = "g";
          tags = some ("host:a" ∷ "role:db" ∷ []);
          sample_rate = 1;
        }
        ∷ record { name = "load"; value = 7; mtype = "c"; tags = none; sample_rate = 1 }
        ∷ [])
unfolding program
parsed = refl

abbrev tags : List String
tags = "device:sda" ∷ "host:a" ∷ "role:db" ∷ []

extracted : extract_magic_tags (some tags) ≡ ((some "a", some "sda"), some ("role:db" ∷ []))
unfolding program
extracted = refl

join-data_of_example : (join colon (data_of rest) ≡ rest) × All HasPipe (data_of rest).1
join-data_of_example = join-data_of rest

extract_magic_tags_left_example :
    or_else (extract_magic_tags (some tags)).1 [] ≡ select (λ t. not (is_magic t)) tags
extract_magic_tags_left_example = extract_magic_tags_left tags
