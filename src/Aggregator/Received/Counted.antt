-- ===== src/Aggregator/Received/Counted.antt =====
-- aggregator.py: how many packets are counted.
use text.Mathlib.Text.{starts_with}
use sts_agent.Prelude.{
  ℕ, ◌+◌, Bool, not, Option, none, some, List, [], ◌∷◌, String, length, select, if◌then◌else◌, ◌≡◌,
  refl, ◌∙◌, subst, if_cases, Bool-cases, inl, inr, arith,
}
use sts_agent.Prelude.Texts.Parts.{split_lines, is_blank}
use sts_agent.Aggregator.Number.{Number}
use sts_agent.Aggregator.Metric.Point.{Error, Result, returned, raised}
use sts_agent.Aggregator.State.{Submission}
use sts_agent.Aggregator.Packets.{Packet, parse_metric_packet}
use sts_agent.Aggregator.Keywords.{Keywords}
use sts_agent.Aggregator.Events.{EventArguments, parse_event_packet, event_arguments}
use sts_agent.Aggregator.ServiceChecks.{ScArguments, parse_sc_packet, sc_arguments}
use sts_agent.Aggregator.Received.{
  Metrics, Received, Setup, append_event, receive_event, append_service_check,
  receive_service_check, submission_of, reading, submitted, unless_raised, submit_all,
  receive_metrics, receive_packet, receive_lines, submit_packets, decoded, flush_events,
  flush_service_checks,
}

-- An aggregator of metrics whose submissions leave the counts alone.
pub record IsMetrics {V A : Type 0} (aggregator : Metrics V A) : Type 0 where
  pub submit_counts :
      (s : Submission V) (cur_time now : ℕ) (a : A)
      → (aggregator.count (aggregator.submit s cur_time now a).1 ≡ aggregator.count a)
        × (aggregator.total_count (aggregator.submit s cur_time now a).1 ≡ aggregator.total_count a)
  pub packet_counts :
      (a : A)
      → (aggregator.count (aggregator.count_packet a) ≡ aggregator.count a + 1)
        × (aggregator.total_count (aggregator.count_packet a) ≡ aggregator.total_count a)
  pub total_counts :
      (n : ℕ) (a : A)
      → (aggregator.count (aggregator.add_total n a) ≡ aggregator.count a)
        × (aggregator.total_count (aggregator.add_total n a) ≡ aggregator.total_count a + n)

-- The packets that are counted now, and those that the flushes have added to the total.
abbrev pub all_counts : {V A : Type 0} → Metrics V A → Received V A → ℕ
all_counts aggregator r =
    aggregator.count r.metrics
    + aggregator.total_count r.metrics
    + r.event_count
    + r.service_check_count

-- The lines that are not blank.
abbrev pub packets_of : Bool → List String → List String
packets_of wide lines = select (λ line. not (is_blank wide line)) lines

raised-ne : {e : Error} → Path (Result Unit) (raised e) (returned tt) → ⊥
raised-ne h = cc h

module _ {V A : Type 0} (num : Number V) (setup : Setup V) (aggregator : Metrics V A)
    (laws : IsMetrics aggregator) where
  -- If the call returns, it counts `n` packets.
  abbrev Counts : ℕ → Received V A → Result Unit × Received V A → Type 0
  Counts n r run = run.0 ≡ returned tt → all_counts aggregator run.1 ≡ all_counts aggregator r + n

  unless_raised-Counts :
      (m n : ℕ) (r : Received V A) (run : Result Unit × Received V A)
      (next : Received V A → Result Unit × Received V A)
      → Counts m r run
      → ((s : Received V A) → Counts n s (next s))
      → Counts (m + n) r (unless_raised num setup aggregator run next)
  unless_raised-Counts m n r (raised e, s) next h k = λ e'. absurd (raised-ne e')
  unless_raised-Counts m n r (returned u, s) next h k = λ e. omega (arith, h refl, k s e)

  append_event-Counts :
      (r : Received V A) (o : Option EventArguments)
      → Counts 1 r (append_event num setup aggregator r o)
  append_event-Counts r none = λ e. absurd (raised-ne e)
  append_event-Counts r (some a) = λ e. omega arith

  receive_event-Counts :
      (r : Received V A) (o : Option (Keywords V))
      → Counts 1 r (receive_event num setup aggregator r o)
  receive_event-Counts r none = λ e. absurd (raised-ne e)
  receive_event-Counts r (some event) = append_event-Counts r (event_arguments event)

  append_check-Counts :
      (r : Received V A) (o : Option (ScArguments V))
      → Counts 1 r (append_service_check num setup aggregator r o)
  append_check-Counts r none = λ e. absurd (raised-ne e)
  append_check-Counts r (some a) = λ e. omega arith

  receive_check-Counts :
      (r : Received V A) (o : Option (Keywords V))
      → Counts 1 r (receive_service_check num setup aggregator r o)
  receive_check-Counts r none = λ e. absurd (raised-ne e)
  receive_check-Counts r (some check) = append_check-Counts r (sc_arguments check)

  submitted-Counts :
      (p : Packet V) (r : Received V A) → Counts 0 r (submitted num setup aggregator p r)
  submitted-Counts p r =
      let (count, total) =
        laws.submit_counts (submission_of num setup aggregator p) (reading num setup aggregator r 0)
          (reading num setup aggregator r 1) r.metrics in
      λ e. omega (arith, count, total)

  submit_all-Counts :
      (packets : List (Packet V)) (r : Received V A)
      → Counts 0 r (submit_all num setup aggregator packets r)
  unfolding submit_all
  submit_all-Counts [] r = λ e. omega arith
  submit_all-Counts (p ∷ packets) r =
      unless_raised-Counts 0 0 r (submitted num setup aggregator p r)
        (submit_all num setup aggregator packets) (submitted-Counts p r) (submit_all-Counts packets)

  receive_metrics-Counts :
      (r : Received V A) (o : Result (List (Packet V)))
      → Counts 1 r (receive_metrics num setup aggregator r o)
  receive_metrics-Counts r (raised e) = λ h. absurd (raised-ne h)
  receive_metrics-Counts r (returned packets) =
      let (count, total) = laws.packet_counts r.metrics in
      λ e. omega (
        arith,
        count,
        total,
        submit_all-Counts packets (record r { metrics = aggregator.count_packet r.metrics }) e,
      )

  abbrev size_of : String → ℕ
  size_of packet = if is_blank setup.utf8_decoding packet then 0 else 1

  receive_packet-Counts :
      (packet : String) (r : Received V A)
      → Counts (size_of packet) r (receive_packet num setup aggregator packet r)
  unfolding receive_packet
  receive_packet-Counts packet r = elim (Bool-cases (is_blank setup.utf8_decoding packet)) [
    | inl e ↦ rw e (λ h. omega arith)
    | inr e ↦ rw e (
        if_cases (Counts 1 r) (starts_with packet "_e") _ _
          (λ e.
            receive_event-Counts r (parse_event_packet setup.utf8_decoding setup.parse_int packet))
          (λ e.
            if_cases (Counts 1 r) (starts_with packet "_sc") _ _
              (λ e.
                receive_check-Counts r
                  (parse_sc_packet setup.utf8_decoding setup.parse_int setup.literals.float packet))
              (λ e. receive_metrics-Counts r (parse_metric_packet num setup.literals packet))))
  ]

  size_of-packets :
      (packet : String) (packets : List String)
      → size_of packet + length (packets_of setup.utf8_decoding packets)
        ≡ length (packets_of setup.utf8_decoding (packet ∷ packets))
  size_of-packets packet packets = elim (Bool-cases (is_blank setup.utf8_decoding packet)) [
    | inl e ↦ rw e (omega arith)
    | inr e ↦ rw e (omega arith)
  ]

  receive_lines-Counts :
      (packets : List String) (r : Received V A)
      → Counts
          (length (packets_of setup.utf8_decoding packets))
          r
          (receive_lines num setup aggregator packets r)
  unfolding receive_lines
  receive_lines-Counts [] r = λ e. omega arith
  receive_lines-Counts (packet ∷ packets) r =
      subst (λ n. Counts n r (receive_lines num setup aggregator (packet ∷ packets) r))
        (size_of-packets packet packets)
        (unless_raised-Counts (size_of packet) (length (packets_of setup.utf8_decoding packets)) r
          (receive_packet num setup aggregator packet r)
          (receive_lines num setup aggregator packets) (receive_packet-Counts packet r)
          (receive_lines-Counts packets))

  flushes-AreCounted :
      (r : Received V A)
      → (all_counts aggregator (flush_events num setup aggregator r).1 ≡ all_counts aggregator r)
        × (all_counts aggregator (flush_service_checks num setup aggregator r).1
            ≡ all_counts aggregator r)
  unfolding flush_events flush_service_checks
  flushes-AreCounted r =
      let (count, total) = laws.total_counts r.event_count r.metrics in
      let (count', total') = laws.total_counts r.service_check_count r.metrics in
      (omega (arith, count, total), omega (arith, count', total'))

  -- If submit_packets returns, then each of its lines that is not blank is counted once, as an event, a
  -- service check or a packet of metrics, and flush_events and flush_service_checks after it lose no
  -- count, if a submission to the metrics leaves their counts alone.
  pub submit_packets-IsCounted :
      (packets : String) (r : Received V A)
      → (submit_packets num setup aggregator packets r).0 ≡ returned tt
      → let lines = split_lines setup.utf8_decoding (decoded num setup aggregator packets) in
        let after = (submit_packets num setup aggregator packets r).1 in
        let flushed =
          (flush_service_checks num setup aggregator
            (flush_events num setup aggregator after).1).1 in
        (all_counts aggregator after
          ≡ all_counts aggregator r + length (packets_of setup.utf8_decoding lines))
        × (all_counts aggregator flushed ≡ all_counts aggregator after)
  unfolding submit_packets
  submit_packets-IsCounted packets r h =
      let after = (submit_packets num setup aggregator packets r).1 in
      (
        receive_lines-Counts
            (split_lines setup.utf8_decoding (decoded num setup aggregator packets)) r h,
        (flushes-AreCounted (flush_events num setup aggregator after).1).1
            ∙ (flushes-AreCounted after).0,
      )
