-- ===== src/Checks/Tests.antt =====
-- checks/__init__.py, class Check: tests on checks of one counter and one gauge.
use sts_agent.Prelude.{
  ℕ, suc, ◌+◌, ◌*◌, ◌/◌, Bool, true, false, none, some, String, List, [], ◌∷◌, ltb, ◌==◌, ℤ, pos,
  negsuc, difference, ◌≡◌, refl,
}
use sts_agent.Prelude.Dicts.{lookup, insert}
use sts_agent.Aggregator.Number.{Number}
use sts_agent.Aggregator.State.{same_strings, same_device}
use sts_agent.Checks.{
  no_tags, listed, tupled, Check, returned, raised, infinity, unknown_value, sorted_tags, counter,
  gauge, save_sample, save_gauge, rate, get_sample_with_timestamp,
}
use sts_agent.Checks.Metrics.{Metric, key_metrics, store_metrics, get_metrics}
use sts_agent.Checks.Stored.{IsStored}
use sts_agent.Checks.Reports.{metric_report, reports, get_metrics-reports}
use sts_agent.Checks.Calls.{
  new_check, created, count, measure, save, ask_all, Reach, Reach-IsStored,
}
use sts_agent.Checks.Rates.{Reading, sample_of, answers, answers-counter}

program : Unit {0}
unfolding lookup insert same_strings same_device sorted_tags counter gauge save_sample save_gauge
    rate get_sample_with_timestamp key_metrics store_metrics get_metrics answers metric_report
    reports
program = tt

-- Integers as values.
abbrev minus : ℤ → ℤ → ℤ
minus (pos a) (pos b) = difference a b
minus (pos a) (negsuc b) = pos (a + b + 1)
minus (negsuc a) (pos b) = negsuc (a + b)
minus (negsuc a) (negsuc b) = difference b a

abbrev is_less : ℤ → ℤ → Bool
is_less (pos a) (pos b) = ltb a b
is_less (pos a) (negsuc b) = false
is_less (negsuc a) (pos b) = true
is_less (negsuc a) (negsuc b) = ltb b a

abbrev is_equal : ℤ → ℤ → Bool
is_equal (pos a) (pos b) = a == b
is_equal (pos a) (negsuc b) = false
is_equal (negsuc a) (pos b) = false
is_equal (negsuc a) (negsuc b) = a == b

abbrev times : ℤ → ℤ → ℤ
times (pos a) (pos b) = pos (a * b)
times (pos a) (negsuc b) = minus (pos 0) (pos (a * suc b))
times (negsuc a) (pos b) = minus (pos 0) (pos (suc a * b))
times (negsuc a) (negsuc b) = pos (suc a * suc b)

-- Division where nothing is below zero.
abbrev divided : ℤ → ℤ → ℤ
divided (pos a) (pos b) = pos (a / b)
divided a b = pos 0

abbrev numbers : Number ℤ
numbers = record {
  of_int = λ v. v;
  of_float = λ v. v;
  seconds = λ t. pos (t / 1_000_000);
  add = λ a b. minus a (minus (pos 0) b);
  sub = minus;
  mul = times;
  div = divided;
  overflows = λ a b. false;
  less = is_less;
  equal = is_equal;
  int = λ v. v;
  round = λ v. v;
  text = λ i. "0";
}

abbrev reading : ℤ → ℕ → Reading ℤ
reading v t = record { value = v; timestamp = some (pos t); now = pos 0; hostname = none }

abbrev tags : List String
tags = "tag1" ∷ "tag2" ∷ []

-- A gauge and a counter, with a reading of each.
abbrev declared : Check ℤ
declared = counter "test-counter" (gauge "test-metric" new_check)

abbrev saved : Check ℤ
saved =
    (save_sample "test-counter" (some (pos 3)) (some (pos 2)) (pos 0)
      (listed ("tag2" ∷ "tag1" ∷ [])) none none
      (save_sample "test-counter" (some (pos 1)) (some (pos 1)) (pos 0) (tupled tags) none none
        (save_sample "test-metric" (some (pos 7)) none (pos 5) no_tags none none declared).0).0).0

saved-Reach : Reach numbers saved
saved-Reach =
    save "test-counter" (some (pos 3)) (some (pos 2)) (pos 0) (listed ("tag2" ∷ "tag1" ∷ [])) none
      none
      (save "test-counter" (some (pos 1)) (some (pos 1)) (pos 0) (tupled tags) none none (
        save "test-metric" (some (pos 7)) none (pos 5) no_tags none none
          (count "test-counter" (measure "test-metric" created))))

abbrev values : List (Metric ℤ) → List (String × ℤ × ℤ)
values [] = []
values (x ∷ xs) = (x.metric, x.timestamp, x.value) ∷ values xs

all_metrics :
    values (get_metrics numbers true saved).1
    ≡ ("test-metric", pos 5, pos 7) ∷ ("test-counter", pos 2, pos 2) ∷ []
unfolding program
all_metrics = refl

Reach-IsStored_example : IsStored (get_metrics numbers true saved).0
Reach-IsStored_example = Reach-IsStored numbers (ask_all true saved-Reach)

answers-counter_example :
    answers numbers true "test-counter"
      (listed tags)
      (tupled tags)
      none
      (reading (pos 1) 1 ∷ reading (pos 2) 2 ∷ reading (pos 2) 2 ∷ reading (pos 6) 4 ∷ [])
      (counter "test-counter" saved)
    ≡ raised unknown_value
      ∷ returned (
          sample_of none
            (record { value = pos 1; timestamp = some (pos 2); now = pos 0; hostname = none }))
      ∷ raised infinity
      ∷ returned (
          sample_of none
            (record { value = pos 2; timestamp = some (pos 4); now = pos 0; hostname = none }))
      ∷ []
unfolding program
answers-counter_example =
    answers-counter numbers true "test-counter" (listed tags) (tupled tags) (some tags) none
      (reading (pos 1) 1) (reading (pos 2) 2 ∷ reading (pos 2) 2 ∷ reading (pos 6) 4 ∷ []) saved
      refl refl

-- Two samples of one time for the first tags of a counter: nothing is reported for the others.
abbrev stalled : Check ℤ
stalled =
    (save_sample "test-counter" (some (pos 3)) (some (pos 2)) (pos 0) no_tags none none
      (save_sample "test-counter" (some (pos 1)) (some (pos 1)) (pos 0) no_tags none none
        (save_sample "test-counter" (some (pos 9)) (some (pos 1)) (pos 0) (listed tags) none none
          (save_sample "test-counter" (some (pos 9)) (some (pos 1)) (pos 0) (listed tags) none none
            (save_sample "test-metric" (some (pos 7)) none (pos 5) no_tags none none
              declared).0).0).0).0).0

stalled_metrics : values (get_metrics numbers true stalled).1 ≡ ("test-metric", pos 5, pos 7) ∷ []
unfolding program
stalled_metrics = refl

get_metrics-reports_example :
    (get_metrics numbers true stalled).1 ≡ reports numbers stalled.counters stalled.sample_store
unfolding program
get_metrics-reports_example =
    get_metrics-reports numbers true stalled (refl, (refl, tt))
      ((refl, tt), ((refl, (refl, tt)), tt))
