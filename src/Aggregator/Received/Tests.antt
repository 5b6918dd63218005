-- ===== src/Aggregator/Received/Tests.antt =====
-- aggregator.py: what StatsD clients send, on three lines with a blank one.
use Prim.Native.Char.{code}
use Prim.Native.String.{[] as empty, ◌∷◌ as char_cons}
use sts_agent.Prelude.{
  ℕ, ◌+◌, ◌-◌, ◌*◌, ◌/◌, true, false, Option, none, some, [], ◌∷◌, String, ltb, leb, ◌&&◌, ◌==◌,
  length, if◌then◌else◌, ℤ, pos, negsuc, ◌≡◌, refl,
}
use sts_agent.Prelude.Dicts.{lookup, insert}
use sts_agent.Prelude.Texts.{has_char, split, split_once}
use sts_agent.Prelude.Texts.Parts.{
  drop_chars, take_chars, replaced, split_at_last, split_lines, is_blank,
}
use sts_agent.Aggregator.Number.{Number}
use sts_agent.Aggregator.Metric.{sample, sample_data}
use sts_agent.Aggregator.Metric.Point.{setting_of, Result, returned, raised, unparseable}
use sts_agent.Aggregator.State.{Config, same, same_strings, same_device, sorted_set, is_old}
use sts_agent.Aggregator.Metrics.{MetricsAggregator, class_of, accept, submit_metric}
use sts_agent.Aggregator.Packets.{
  regroup, data_of, sorted_texts, value_of, metadatum, metadata, parse_data, parse_metric_packet,
  remove_tag, remove_tags, magic_values, extract_magic_tags,
}
use sts_agent.Aggregator.Keywords.{str, int, float, strs, Keywords, knows_all}
use sts_agent.Aggregator.Events.{
  EventArguments, event_field, event_fields, parse_event_packet, is_ascii, event_arguments,
}
use sts_agent.Aggregator.Events.Bound.{parse_event_packet-IsBound}
use sts_agent.Aggregator.Events.Framed.{event_packet, parse_event_packet-framed}
use sts_agent.Aggregator.ServiceChecks.{
  ScArguments, sc_field, sc_fields, parse_sc_packet, sc_arguments,
}
use sts_agent.Aggregator.ServiceChecks.Bound.{parse_sc_packet-IsBound}
use sts_agent.Aggregator.Received.{
  Received, Setup, submit_all, receive_packet, receive_lines, submit_packets, flush_events,
  flush_service_checks,
}
use sts_agent.Aggregator.Received.Counted.{all_counts, submit_packets-IsCounted}
use sts_agent.Aggregator.Received.Queues.{AreQueued, created, received, Reach-AreQueued}
use sts_agent.Aggregator.Received.Aggregators.{metrics_aggregator, metrics_aggregator-IsMetrics}

program : Unit {0}
unfolding lookup insert has_char split split_once drop_chars take_chars replaced split_at_last
    split_lines is_blank same same_strings same_device sorted_set is_old class_of accept
    submit_metric regroup data_of sorted_texts value_of metadatum metadata parse_data
    parse_metric_packet remove_tag remove_tags magic_values extract_magic_tags knows_all event_field
    event_fields parse_event_packet event_arguments sc_field sc_fields parse_sc_packet sc_arguments
    is_ascii submit_all receive_packet receive_lines submit_packets flush_events
    flush_service_checks sample sample_data
program = tt

abbrev of_int : ℤ → ℕ
of_int (pos n) = n
of_int (negsuc n) = 0

abbrev numbers : Number ℕ
numbers = record {
  of_int = of_int;
  of_float = of_int;
  seconds = λ t. t / 1_000_000;
  add = λ a b. a + b;
  sub = λ a b. a - b;
  mul = λ a b. a * b;
  div = λ a b. a / b;
  overflows = λ a b. false;
  less = ltb;
  equal = λ a b. a == b;
  int = λ v. pos v;
  round = λ v. pos v;
  text = λ i. "0";
}

-- One digit.
abbrev digit : String → Option ℕ
digit (char_cons c empty) = if leb 48 (code c) && leb (code c) 57 then some (code c - 48) else none
digit s = none

abbrev whole : Option ℕ → Option ℤ
whole none = none
whole (some n) = some (pos n)

abbrev parse_int : String → Option ℤ
parse_int s = whole (digit s)

abbrev setup : Setup ℕ
setup = record {
  hostname = "node";
  utf8_decoding = false;
  decode = λ s. s;
  parse_int = parse_int;
  literals = record { int = digit; float = digit; text = λ s. 0 };
  time = λ n. (7 + n) * 1_000_000;
}

abbrev config : Config ℕ
config = record {
  hostname = "node";
  interval = 10_000_000;
  expiry_seconds = 300_000_000;
  recent_point_threshold = 3_600_000_000;
  setting = setting_of (λ p. p) 0 none none;
}

abbrev start : Received ℕ (MetricsAggregator ℕ)
start = record {
  metrics = record { metrics = []; num_discarded_old_points = 0; count = 0; total_count = 0 };
  events = [];
  service_checks = [];
  event_count = 0;
  service_check_count = 0;
  readings = 0;
}

abbrev event : String
event = "_e{3,4}:a|b|x\\ny|t:error|#b,a"

abbrev check : String
check = "_sc|db|2|d:5|#b,a|m:it is m\\: down"

abbrev event_keywords : Keywords ℕ
event_keywords =
    ("title", str "a|b")
    ∷ ("text", str "x\ny")
    ∷ ("alert_type", str "error")
    ∷ ("tags", strs ("a" ∷ "b" ∷ []))
    ∷ []

event_parsed :
    Path (Option (Keywords ℕ)) (parse_event_packet false parse_int event) (some event_keywords)
unfolding program
event_parsed = refl

-- Tags of bytes that are not ASCII, which are read with utf8_decoding only.
tags_undecodable :
    Path (Option (Keywords ℕ)) (parse_event_packet false parse_int "_e{1,1}:a|b|#é") none
unfolding program
tags_undecodable = refl

tags_decoded :
    Path
      (Option (Keywords ℕ))
      (parse_event_packet true parse_int "_e{1,1}:a|b|#é")
      (some (("title", str "a") ∷ ("text", str "b") ∷ ("tags", strs ("é" ∷ [])) ∷ []))
unfolding program
tags_decoded = refl

parse_event_packet-IsBound_example :
    (a : EventArguments) × (event_arguments event_keywords ≡ some a)
parse_event_packet-IsBound_example =
    parse_event_packet-IsBound ℕ false parse_int event event_keywords event_parsed

parse_event_packet-framed_example :
    Path
      (Option (Keywords ℕ))
      (parse_event_packet false parse_int (event_packet "3" "5" "a|b" "c:d,e" "|p:low"))
      (some (("title", str "a|b") ∷ ("text", str "c:d,e") ∷ ("priority", str "low") ∷ []))
unfolding program
parse_event_packet-framed_example =
    parse_event_packet-framed false parse_int "3" "5" "a|b" "c:d,e" "|p:low" refl refl refl refl
      refl refl

abbrev check_keywords : Keywords ℕ
check_keywords =
    ("check_name", str "db")
    ∷ ("status", int (pos 2))
    ∷ ("message", str "it is m: down")
    ∷ ("timestamp", float 5)
    ∷ ("tags", strs ("a" ∷ "b" ∷ []))
    ∷ []

check_parsed : parse_sc_packet false parse_int digit check ≡ some check_keywords
unfolding program
check_parsed = refl

parse_sc_packet-IsBound_example : (a : ScArguments ℕ) × (sc_arguments check_keywords ≡ some a)
parse_sc_packet-IsBound_example =
    parse_sc_packet-IsBound ℕ false parse_int digit check check_keywords check_parsed

abbrev packets : String
packets = "load:7|g|#host:b,c\r\n  \n_e{1,1}:a|b\n_sc|db|0\n"

abbrev after : Result Unit × Received ℕ (MetricsAggregator ℕ)
after = submit_packets numbers setup (metrics_aggregator numbers config) packets start

all_received :
    (after.0 ≡ returned tt)
    × (length after.1.metrics.metrics ≡ 1)
    × (after.1.metrics.count ≡ 1)
    × (after.1.event_count ≡ 1)
    × (after.1.service_check_count ≡ 1)
unfolding program
all_received = (refl, refl, refl, refl, refl)

-- A bad line ends the loop, and what came before it stays.
stopped :
    let run =
      submit_packets numbers setup
        (metrics_aggregator numbers config)
        "_sc|db|0\n_e\nload:7|g"
        start in
    (run.0 ≡ raised unparseable) × (run.1.service_check_count ≡ 1) × (run.1.metrics.count ≡ 0)
unfolding program
stopped = (refl, refl, refl)

submit_packets-IsCounted_example :
    let flushed =
      (flush_service_checks numbers setup
        (metrics_aggregator numbers config)
        (flush_events numbers setup (metrics_aggregator numbers config) after.1).1).1 in
    (all_counts (metrics_aggregator numbers config) after.1 ≡ 3)
    × (all_counts (metrics_aggregator numbers config) flushed
        ≡ all_counts (metrics_aggregator numbers config) after.1)
unfolding program
submit_packets-IsCounted_example =
    submit_packets-IsCounted numbers setup (metrics_aggregator numbers config)
      (metrics_aggregator-IsMetrics numbers config) packets start refl

Reach-AreQueued_example : AreQueued after.1
Reach-AreQueued_example =
    Reach-AreQueued numbers setup (metrics_aggregator numbers config)
      (received packets (created start.metrics))
