-- ===== src/Aggregator/Received.antt =====
-- aggregator.py, submit_packets of class Aggregator: the packets of StatsD clients, one to a line, and the
-- queues of events and service checks.
pub mod Aggregators
pub mod Counted
pub mod Queues
pub mod Tests
use text.Mathlib.Text.{starts_with}
use sts_agent.Prelude.{
  ℕ, ◌+◌, Bool, true, false, Option, none, some, List, [], ◌∷◌, ◌++◌, String, if◌then◌else◌, ℤ, pos,
}
use sts_agent.Prelude.Texts.Parts.{split_lines, is_blank}
use sts_agent.Aggregator.Number.{Number, unit}
use sts_agent.Aggregator.Metric.Point.{Error, unparseable, type_error, Result, returned, raised}
use sts_agent.Aggregator.State.{Submission}
use sts_agent.Aggregator.Packets.{Literals, Packet, parse_metric_packet, extract_magic_tags}
use sts_agent.Aggregator.Keywords.{Keywords}
use sts_agent.Aggregator.Events.{
  Event, EventArguments, parse_event_packet, event_arguments, make_event,
}
use sts_agent.Aggregator.ServiceChecks.{
  ServiceCheck, ScArguments, parse_sc_packet, sc_arguments, make_service_check,
}

-- What an aggregator of metrics gives to the base class: `submit_metric`, with its two readings of the
-- clock, and the attributes `count` and `total_count`.
pub record Metrics (V A : Type 0) : Type 0 where
  pub submit : Submission V → ℕ → ℕ → A → Result Unit × A
  pub count : A → ℕ
  pub total_count : A → ℕ
  pub count_packet : A → A
  pub add_total : ℕ → A → A

pub record Received (V A : Type 0) : Type 0 where
  pub metrics : A
  pub events : List Event
  pub service_checks : List (ServiceCheck V)
  pub event_count : ℕ
  pub service_check_count : ℕ
  pub readings : ℕ

-- The configuration, and what the parsing of numbers, the decoding of texts and the clock answer.
pub record Setup (V : Type 0) : Type 0 where
  pub hostname : String
  pub utf8_decoding : Bool
  pub decode : String → String
  pub parse_int : String → Option ℤ
  pub literals : Literals V
  pub time : ℕ → ℕ

module _ {V A : Type 0} (num : Number V) (setup : Setup V) (aggregator : Metrics V A) where
  -- What a call leaves, and whether it raises.
  abbrev pub Called : Type 0
  Called = Result Unit × Received V A

  abbrev pub reading : Received V A → ℕ → ℕ
  reading r n = setup.time (r.readings + n)

  abbrev pub append_event : Received V A → Option EventArguments → Called
  append_event r none = (raised type_error, r)
  append_event r (some a) = (
    returned tt,
    record r {
      events = r.events ++ make_event setup.hostname (reading r 0) a ∷ [];
      event_count = r.event_count + 1;
      readings = r.readings + 1;
    },
  )

  abbrev pub receive_event : Received V A → Option (Keywords V) → Called
  receive_event r none = (raised unparseable, r)
  receive_event r (some event) = append_event r (event_arguments event)

  abbrev pub append_service_check : Received V A → Option (ScArguments V) → Called
  append_service_check r none = (raised type_error, r)
  append_service_check r (some a) = (
    returned tt,
    record r {
      service_checks =
          r.service_checks ++ make_service_check num setup.hostname (reading r 0) a ∷ [];
      service_check_count = r.service_check_count + 1;
      readings = r.readings + 1;
    },
  )

  abbrev pub receive_service_check : Received V A → Option (Keywords V) → Called
  receive_service_check r none = (raised unparseable, r)
  receive_service_check r (some service_check) = append_service_check r (sc_arguments service_check)

  -- The arguments of `submit_metric` for a parsed packet.
  abbrev pub submission_of : Packet V → Submission V
  submission_of p =
      let ((hostname, device_name), tags) = extract_magic_tags p.tags in
      record {
        name = p.name;
        value = p.value;
        mtype = p.mtype;
        tags = tags;
        hostname = hostname;
        device_name = device_name;
        timestamp = none;
        sample_rate = p.sample_rate;
      }

  abbrev pub submitted : Packet V → Received V A → Called
  submitted p r =
      let (result, metrics) =
        aggregator.submit (submission_of p) (reading r 0) (reading r 1) r.metrics in
      (result, record r { metrics = metrics; readings = r.readings + 2 })

  -- A call, and then another one unless the first raises.
  abbrev pub unless_raised : Called → (Received V A → Called) → Called
  unless_raised (raised e, r) next = (raised e, r)
  unless_raised (returned u, r) next = next r

  unfoldable pub submit_all : List (Packet V) → Received V A → Called
  submit_all [] r = (returned tt, r)
  submit_all (p ∷ packets) r = unless_raised (submitted p r) (submit_all packets)

  abbrev pub receive_metrics : Received V A → Result (List (Packet V)) → Called
  receive_metrics r (raised e) = (raised e, r)
  receive_metrics r (returned packets) =
      submit_all packets (record r { metrics = aggregator.count_packet r.metrics })

  -- One line.
  unfoldable pub receive_packet : String → Received V A → Called
  receive_packet packet r =
      if is_blank setup.utf8_decoding packet
      then (returned tt, r)
      else if starts_with packet "_e"
      then receive_event r (parse_event_packet setup.utf8_decoding setup.parse_int packet)
      else if starts_with packet "_sc"
      then receive_service_check r
          (parse_sc_packet setup.utf8_decoding setup.parse_int setup.literals.float packet)
      else receive_metrics r (parse_metric_packet num setup.literals packet)

  unfoldable pub receive_lines : List String → Received V A → Called
  receive_lines [] r = (returned tt, r)
  receive_lines (packet ∷ packets) r =
      unless_raised (receive_packet packet r) (receive_lines packets)

  abbrev pub decoded : String → String
  decoded packets = if setup.utf8_decoding then setup.decode packets else packets

  unfoldable pub submit_packets : String → Received V A → Called
  submit_packets packets r = receive_lines (split_lines setup.utf8_decoding (decoded packets)) r

  unfoldable pub flush_events : Received V A → List Event × Received V A
  flush_events r = (
    r.events,
    record r {
      events = [];
      event_count = 0;
      metrics = aggregator.add_total r.event_count r.metrics;
    },
  )

  unfoldable pub flush_service_checks : Received V A → List (ServiceCheck V) × Received V A
  flush_service_checks r = (
    r.service_checks,
    record r {
      service_checks = [];
      service_check_count = 0;
      metrics = aggregator.add_total r.service_check_count r.metrics;
    },
  )

  -- `send_packet_count`
  unfoldable pub send_packet_count : String → Received V A → Called
  send_packet_count metric_name r =
      submitted
        (record {
          name = metric_name;
          value = num.of_int (pos (aggregator.count r.metrics));
          mtype = "g";
          tags = none;
          sample_rate = unit num;
        })
        r
