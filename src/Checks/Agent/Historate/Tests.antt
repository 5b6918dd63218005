-- ===== src/Checks/Agent/Historate/Tests.antt =====
-- checks/__init__.py, historate of class AgentCheck: readings of one metric, with a tag excluded.
use sts_agent.Prelude.{
  false, ℕ, ◌+◌, ◌-◌, ◌*◌, ◌/◌, ◌≤◌, Option, none, some, List, [], ◌∷◌, ◌++◌, String, ltb, ◌==◌,
  if◌then◌else◌, ℤ, pos, negsuc, All, ◌≡◌, refl, arith,
}
use sts_agent.Prelude.Dicts.{lookup, insert}
use sts_agent.Aggregator.Number.{Number}
use sts_agent.Aggregator.Metric.Point.{value_error, returned, raised}
use sts_agent.Aggregator.State.{same_strings}
use sts_agent.Aggregator.Packets.{sorted_texts}
use sts_agent.Aggregator.Received.{Metrics}
use sts_agent.Checks.Agent.Historate.{
  Reading, remove, exclude_tag, exclude_tags, historate, histogram_excluding,
}
use sts_agent.Checks.Agent.Historate.Rates.{
  matches, historates, rates_submitted, historates-rates_submitted,
}

abbrev of_int : ℤ → ℕ
of_int (pos n) = n
of_int (negsuc n) = 0

abbrev numbers : Number ℕ
numbers = record {
  of_int = of_int;
  of_float = of_int;
  seconds = λ t. t / 1_000_000;
  add = λ a b. a + b;
  sub = λ a b. a - b;
  mul = λ a b. a * b;
  div = λ a b. a / b;
  overflows = λ a b. false;
  less = ltb;
  equal = λ a b. a == b;
  int = λ n. pos n;
  round = λ n. pos n;
  text = λ i. "";
}

-- What was submitted; the value 9 is refused.
abbrev Submitted : Type 0
Submitted = List (ℕ × Option (List String))

abbrev listing : Metrics ℕ Submitted
listing = record {
  submit = λ s cur_time now xs.
      if s.value == 9
      then (raised value_error, xs)
      else (returned tt, xs ++ (s.value, s.tags) ∷ []);
  count = λ xs. 0;
  total_count = λ xs. 0;
  count_packet = λ xs. xs;
  add_total = λ k xs. xs;
}

abbrev at_second : ℕ → ℕ → Reading ℕ
at_second t value = record {
  value = value;
  now = t * 1_000_000;
  cur_time = t * 1_000_000;
  sample_time = t * 1_000_000;
}

abbrev tags : List String
tags = "url:a" ∷ "env:prod" ∷ "url:b" ∷ "url:a" ∷ []

-- The third at the time of the second, and the fourth with a rate that is refused.
abbrev later : List (Reading ℕ)
later = at_second 12 30 ∷ at_second 12 40 ∷ at_second 13 39 ∷ at_second 14 50 ∷ []

submitted :
    (historates numbers listing "req"
      ("url" ∷ [])
      (some "host")
      none
      tags
      (at_second 10 10 ∷ later)
      ([], [])).1
    ≡ (10, some ("env:prod" ∷ [])) ∷ (10, some ("env:prod" ∷ [])) ∷ []
unfolding lookup insert same_strings sorted_texts remove exclude_tag exclude_tags historate
    historates
submitted = refl

-- A tag that starts with two of the excluding tags is removed twice.
removed_twice :
    (histogram_excluding numbers listing "req"
      ("a" ∷ "a:b" ∷ [])
      none
      none
      (some ("a:b:c" ∷ []))
      (at_second 10 10)
      []).0
    ≡ raised value_error
unfolding remove exclude_tag exclude_tags histogram_excluding
removed_twice = refl

once : All (λ t. matches ("url" ∷ []) t ≤ 1) tags
unfolding matches
once = (omega arith, (omega arith, (omega arith, (omega arith, tt))))

historates-rates_submitted_example :
    (historates numbers listing "req"
      ("url" ∷ [])
      (some "host")
      none
      tags
      (at_second 10 10 ∷ later)
      ([], [])).1
    ≡ rates_submitted numbers listing "req"
        ("url" ∷ [])
        (some "host")
        none
        tags
        (10, 10_000_000)
        later
        []
unfolding lookup
historates-rates_submitted_example =
    historates-rates_submitted numbers listing "req" ("url" ∷ []) (some "host") none tags
      (at_second 10 10) later [] [] once refl
