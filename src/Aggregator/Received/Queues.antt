-- ===== src/Aggregator/Received/Queues.antt =====
-- aggregator.py: the queues of events and service checks and their counts.
use text.Mathlib.Text.{starts_with}
use sts_agent.Prelude.{
  ℕ, ◌+◌, Option, none, some, List, [], ◌∷◌, ◌++◌, String, length, length-append, ◌≡◌, refl,
  if_cases, arith,
}
use sts_agent.Prelude.Texts.Parts.{split_lines, is_blank}
use sts_agent.Aggregator.Number.{Number}
use sts_agent.Aggregator.Metric.Point.{Result, returned, raised}
use sts_agent.Aggregator.Packets.{Packet, parse_metric_packet}
use sts_agent.Aggregator.Keywords.{Keywords}
use sts_agent.Aggregator.Events.{EventArguments, parse_event_packet, event_arguments, make_event}
use sts_agent.Aggregator.ServiceChecks.{
  ScArguments, parse_sc_packet, sc_arguments, make_service_check,
}
use sts_agent.Aggregator.Received.{
  Metrics, Received, Setup, append_event, receive_event, append_service_check,
  receive_service_check, submitted, unless_raised, submit_all, receive_metrics, receive_packet,
  receive_lines, submit_packets, decoded, flush_events, flush_service_checks, send_packet_count,
  reading,
}

-- The counts are the lengths of the queues.
abbrev pub AreQueued : {V A : Type 0} → Received V A → Type 0
AreQueued r = (length r.events ≡ r.event_count) × (length r.service_checks ≡ r.service_check_count)

length-append_one :
    {A : Type 0} (xs : List A) (x : A) (n : ℕ) → length xs ≡ n → length (xs ++ x ∷ []) ≡ n + 1
length-append_one xs x n h = omega (arith, length-append xs (x ∷ []), h)

module _ {V A : Type 0} (num : Number V) (setup : Setup V) (aggregator : Metrics V A) where
  -- The state of a received aggregator after any calls; its metrics may change in between.
  pub data Reach : Received V A → Type 0 where
    created :
        (metrics : A)
        → Reach (record {
          metrics = metrics;
          events = [];
          service_checks = [];
          event_count = 0;
          service_check_count = 0;
          readings = 0;
        })
    received :
        (packets : String) {r : Received V A}
        → Reach r
        → Reach (submit_packets num setup aggregator packets r).1
    events_flushed : {r : Received V A} → Reach r → Reach (flush_events num setup aggregator r).1
    checks_flushed :
        {r : Received V A} → Reach r → Reach (flush_service_checks num setup aggregator r).1
    count_sent :
        (metric_name : String) {r : Received V A}
        → Reach r
        → Reach (send_packet_count num setup aggregator metric_name r).1
    metrics_changed :
        (metrics : A) {r : Received V A} → Reach r → Reach (record r { metrics = metrics })

  unless_raised-AreQueued :
      (run : Result Unit × Received V A) (next : Received V A → Result Unit × Received V A)
      → AreQueued run.1
      → ((r : Received V A) → AreQueued r → AreQueued (next r).1)
      → AreQueued (unless_raised num setup aggregator run next).1
  unless_raised-AreQueued (raised e, r) next h k = h
  unless_raised-AreQueued (returned u, r) next h k = k r h

  append_event-AreQueued :
      (r : Received V A) (o : Option EventArguments)
      → AreQueued r
      → AreQueued (append_event num setup aggregator r o).1
  append_event-AreQueued r none h = h
  append_event-AreQueued r (some a) (events, checks) = (
    length-append_one r.events (make_event setup.hostname (reading num setup aggregator r 0) a)
        r.event_count events,
    checks,
  )

  receive_event-AreQueued :
      (r : Received V A) (o : Option (Keywords V))
      → AreQueued r
      → AreQueued (receive_event num setup aggregator r o).1
  receive_event-AreQueued r none h = h
  receive_event-AreQueued r (some event) h = append_event-AreQueued r (event_arguments event) h

  append_check-AreQueued :
      (r : Received V A) (o : Option (ScArguments V))
      → AreQueued r
      → AreQueued (append_service_check num setup aggregator r o).1
  append_check-AreQueued r none h = h
  append_check-AreQueued r (some a) (events, checks) = (
    events,
    length-append_one r.service_checks
        (make_service_check num setup.hostname (reading num setup aggregator r 0) a)
        r.service_check_count checks,
  )

  receive_check-AreQueued :
      (r : Received V A) (o : Option (Keywords V))
      → AreQueued r
      → AreQueued (receive_service_check num setup aggregator r o).1
  receive_check-AreQueued r none h = h
  receive_check-AreQueued r (some check) h = append_check-AreQueued r (sc_arguments check) h

  submit_all-AreQueued :
      (packets : List (Packet V)) (r : Received V A)
      → AreQueued r
      → AreQueued (submit_all num setup aggregator packets r).1
  unfolding submit_all
  submit_all-AreQueued [] r h = h
  submit_all-AreQueued (p ∷ packets) r h =
      unless_raised-AreQueued (submitted num setup aggregator p r)
        (submit_all num setup aggregator packets) h (submit_all-AreQueued packets)

  receive_metrics-AreQueued :
      (r : Received V A) (o : Result (List (Packet V)))
      → AreQueued r
      → AreQueued (receive_metrics num setup aggregator r o).1
  receive_metrics-AreQueued r (raised e) h = h
  receive_metrics-AreQueued r (returned packets) h =
      submit_all-AreQueued packets (record r { metrics = aggregator.count_packet r.metrics }) h

  receive_packet-AreQueued :
      (packet : String) (r : Received V A)
      → AreQueued r
      → AreQueued (receive_packet num setup aggregator packet r).1
  unfolding receive_packet
  receive_packet-AreQueued packet r h =
      let queued : Result Unit × Received V A → Type 0 = λ run. AreQueued run.1 in
      if_cases queued (is_blank setup.utf8_decoding packet) _ _ (λ e. h)
        (λ e.
          if_cases queued (starts_with packet "_e") _ _
            (λ e.
              receive_event-AreQueued r
                (parse_event_packet setup.utf8_decoding setup.parse_int packet) h)
            (λ e.
              if_cases queued (starts_with packet "_sc") _ _
                (λ e.
                  receive_check-AreQueued r
                    (parse_sc_packet setup.utf8_decoding setup.parse_int setup.literals.float
                      packet)
                    h)
                (λ e.
                  receive_metrics-AreQueued r (parse_metric_packet num setup.literals packet) h)))

  receive_lines-AreQueued :
      (packets : List String) (r : Received V A)
      → AreQueued r
      → AreQueued (receive_lines num setup aggregator packets r).1
  unfolding receive_lines
  receive_lines-AreQueued [] r h = h
  receive_lines-AreQueued (packet ∷ packets) r h =
      unless_raised-AreQueued (receive_packet num setup aggregator packet r)
        (receive_lines num setup aggregator packets) (receive_packet-AreQueued packet r h)
        (receive_lines-AreQueued packets)

  -- After any packets, also those that raise, any flushes and any calls on the metrics, the counts of
  -- events and of service checks are the lengths of the queues that the next flushes return.
  pub Reach-AreQueued : {r : Received V A} → Reach r → AreQueued r
  unfolding submit_packets flush_events flush_service_checks send_packet_count
  Reach-AreQueued (created metrics) = (refl, refl)
  Reach-AreQueued (received packets {r} h) =
      receive_lines-AreQueued
        (split_lines setup.utf8_decoding (decoded num setup aggregator packets)) r
        (Reach-AreQueued h)
  Reach-AreQueued (events_flushed h) = (refl, (Reach-AreQueued h).1)
  Reach-AreQueued (checks_flushed h) = ((Reach-AreQueued h).0, refl)
  Reach-AreQueued (count_sent metric_name h) = Reach-AreQueued h
  Reach-AreQueued (metrics_changed metrics h) = Reach-AreQueued h
