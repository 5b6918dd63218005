-- ===== src/Aggregator/State.antt =====
-- aggregator.py: contexts, the configuration of an aggregator, and the arguments of submit_metric.
pub mod Contexts
use Prim.Native.String.{compare as str_compare}
use Prim.Native.Nat.{Ordering}
use text.Mathlib.Text.{◌==◌ as str_eq}
use sts_agent.Prelude.{
  ℕ, ◌+◌, ◌-◌, ◌%◌, Bool, true, false, ◌&&◌, Option, none, some, List, [], ◌∷◌, String, ltb,
}
use sts_agent.Aggregator.Metric.{second}
use sts_agent.Aggregator.Metric.Point.{Setting}

-- The key of a metric: name, sorted tags, host name and device.
pub record Context : Type 0 where
  pub name : String
  pub tags : List String
  pub hostname : String
  pub device_name : Option String

insert_tag : String → List String → List String
insert_tag s [] = s ∷ []
insert_tag s (t ∷ ts) =
    let rest = insert_tag s ts in
    elim (str_compare s t) [
      | Ordering.lt ↦ s ∷ t ∷ ts
      | Ordering.eq ↦ t ∷ ts
      | Ordering.gt ↦ t ∷ rest
    ]

-- `tuple(sorted(set(tags)))`
unfoldable pub sorted_set : List String → List String
unfolding insert_tag
sorted_set [] = []
sorted_set (t ∷ ts) = insert_tag t (sorted_set ts)

unfoldable pub same_strings : List String → List String → Bool
same_strings [] [] = true
same_strings [] (t ∷ ts) = false
same_strings (s ∷ ss) [] = false
same_strings (s ∷ ss) (t ∷ ts) = str_eq s t && same_strings ss ts

unfoldable pub same_device : Option String → Option String → Bool
same_device none none = true
same_device none (some t) = false
same_device (some s) none = false
same_device (some s) (some t) = str_eq s t

-- Equality of the tuples.
unfoldable pub same : Context → Context → Bool
same a b =
    str_eq a.name b.name
    && same_strings a.tags b.tags
    && str_eq a.hostname b.hostname
    && same_device a.device_name b.device_name

-- The arguments of the constructor; `float(interval)` and the thresholds are in microseconds.
pub record Config (V : Type 0) : Type 0 where
  pub hostname : String
  pub interval : ℕ
  pub expiry_seconds : ℕ
  pub recent_point_threshold : ℕ
  pub setting : Setting V

-- The arguments of `submit_metric`.
pub record Submission (V : Type 0) : Type 0 where
  pub name : String
  pub value : V
  pub mtype : String
  pub tags : Option (List String)
  pub hostname : Option String
  pub device_name : Option String
  pub timestamp : Option ℕ
  pub sample_rate : V

-- `x if x is not None else default`
abbrev pub or_else {ℓ} : {A : Type ℓ} → Option A → A → A
or_else none default = default
or_else (some x) default = x

module _ {V : Type 0} (cfg : Config V) where
  -- An empty host name is kept.
  abbrev pub context_of : Submission V → Context
  context_of s = record {
    name = s.name;
    tags = sorted_set (or_else s.tags []);
    hostname = or_else s.hostname cfg.hostname;
    device_name = s.device_name;
  }

  -- `timestamp is not None and cur_time - int(timestamp) > recent_point_threshold`
  unfoldable pub is_old : Option ℕ → ℕ → Bool
  is_old none cur_time = false
  is_old (some t) cur_time = ltb (cfg.recent_point_threshold + (t - t % second)) cur_time

  -- `last_sample_time < cur_time - expiry_seconds`, where None is less than every time.
  unfoldable pub is_expired : ℕ → Option ℕ → Bool
  is_expired cur_time none = true
  is_expired cur_time (some t) = ltb (t + cfg.expiry_seconds) cur_time
