-- ===== src/Aggregator/Metric/Point.antt =====
-- aggregator.py, the point that api_formatter makes, and what an aggregator gives its metrics.
use Prim.Native.String.{◌++◌ as str_append, len, slice}
use text.Mathlib.Text.{◌==◌ as str_eq}
use sts_agent.Prelude.{
  ◌-◌, ℕ, Bool, false, ◌||◌, Option, none, some, List, [], ◌∷◌, String, ◌==◌, if◌then◌else◌,
}
use sts_agent.Aggregator.Metric.{Metric}

pub data Error : Type 0 where
  zero_division : Error
  key_error : Error
  index_error : Error
  value_error : Error
  unparseable : Error
  not_a_number : Error
  type_error : Error
  overflow : Error

pub data Result (A : Type 0) : Type 0 where
  returned : A → Result A
  raised : Error → Result A

-- checks/metric_types.py
pub data MetricTypes : Type 0 where
  gauge : MetricTypes
  counter : MetricTypes
  rate : MetricTypes
  count : MetricTypes
  raw : MetricTypes

-- The dictionary of `api_formatter`; its `points` is the pair of `timestamp` and `value`.
pub record Point (V : Type 0) : Type 0 where
  pub metric : String
  pub timestamp : ℕ
  pub value : V
  pub tags : Option (List String)
  pub host : Option String
  pub device_name : Option String
  pub type : MetricTypes
  pub interval : ℕ

-- What an aggregator gives its metrics: the formatter, and the configuration of the histograms.
pub record Setting (V : Type 0) : Type 0 where
  pub formatter : Point V → Point V
  pub aggregates : List String
  pub percentiles : List V

-- `DEFAULT_HISTOGRAM_AGGREGATES`
abbrev pub default_aggregates : List String
default_aggregates = "max" ∷ "median" ∷ "avg" ∷ "count" ∷ []

-- The configured value, if there is one.
abbrev pub configured : {A : Type 0} → Option A → A → A
configured none default = default
configured (some x) default = x

-- The constructor of Histogram; `percentile` is 0.95, that of `DEFAULT_HISTOGRAM_PERCENTILES`.
abbrev pub setting_of :
    {A : Type 0} → (Point A → Point A) → A → Option (List String) → Option (List A) → Setting A
setting_of formatter percentile aggregates percentiles = record {
  formatter = formatter;
  aggregates = configured aggregates default_aggregates;
  percentiles = configured percentiles (percentile ∷ []);
}

-- `x in xs`
unfoldable pub contains_string : String → List String → Bool
contains_string s [] = false
contains_string s (x ∷ xs) = str_eq x s || contains_string s xs

-- The formatter of `get_formatter`: the namespace, closed by a dot, in front of the name.
unfoldable pub get_formatter : {A : Type 0} → String → Point A → Point A
get_formatter ns p =
    if str_eq ns ""
    then p
    else if str_eq (slice ns (len ns - 1) (len ns)) "."
    then record p { metric = str_append ns p.metric }
    else record p { metric = str_append (str_append ns ".") p.metric }

-- `timestamp or default`
unfoldable pub or_time : Option ℕ → ℕ → ℕ
or_time none now = now
or_time (some t) now = if t == 0 then now else t

-- The call of the formatter with what all the classes give it.
module _ {V : Type 0} (setting : Setting V) (ts interval : ℕ) (m : Metric V) where
  abbrev pub plain : MetricTypes → ℕ → V → Point V
  plain type t v = record {
    metric = m.name;
    timestamp = t;
    value = v;
    tags = m.tags;
    host = m.hostname;
    device_name = m.device_name;
    type = type;
    interval = interval;
  }

  abbrev pub point : MetricTypes → ℕ → V → Point V
  point type t v = setting.formatter (plain type t v)

  -- The same for a metric of the name `name` and the suffix, at `ts`.
  abbrev pub suffixed : String → Option String → MetricTypes → V → Point V
  suffixed suffix device_name type v = setting.formatter (record {
    metric = str_append m.name (str_append "." suffix);
    timestamp = ts;
    value = v;
    tags = m.tags;
    host = m.hostname;
    device_name = device_name;
    type = type;
    interval = interval;
  })
