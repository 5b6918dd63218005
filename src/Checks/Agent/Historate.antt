-- ===== src/Checks/Agent/Historate.antt =====
-- checks/__init__.py, historate of class AgentCheck: histograms of rates, without some of the tags.
pub mod Rates
pub mod Tests
use Prim.Native.String.{◌++◌ as str_append}
use text.Mathlib.Text.{◌==◌ as str_eq, starts_with}
use sts_agent.Prelude.{
  ℕ, Bool, true, false, Option, none, some, List, [], ◌∷◌, ◌++◌, ◌||◌, String, if◌then◌else◌,
}
use sts_agent.Prelude.Dicts.{lookup, insert}
use sts_agent.Prelude.Texts.{join}
use sts_agent.Aggregator.Number.{Number, is_zero}
use sts_agent.Aggregator.Metric.Point.{
  type_error, value_error, zero_division, overflow, Result, returned, raised,
}
use sts_agent.Aggregator.State.{same_strings}
use sts_agent.Aggregator.Metrics.{histogram}
use sts_agent.Aggregator.Packets.{sorted_texts}
use sts_agent.Aggregator.Received.{Metrics}

-- `historate_dict`: the last value of a context, and its time.
abbrev pub Historates : Type 0 → Type 0
Historates V = List (List String × (V × ℕ))

-- A value of a call, the time of the call, and the two readings of the clock by the aggregator.
pub record Reading (V : Type 0) : Type 0 where
  pub value : V
  pub now : ℕ
  pub cur_time : ℕ
  pub sample_time : ℕ

abbrev pub and_then : {A : Type 0} → Option A → (A → Option A) → Option A
and_then none f = none
and_then (some x) f = f x

abbrev kept_before : String → Option (List String) → Option (List String)
kept_before t none = none
kept_before t (some ts) = some (t ∷ ts)

-- `tags.remove(tag)`, `none` where it raises ValueError.
unfoldable pub remove : String → List String → Option (List String)
remove tag [] = none
remove tag (t ∷ ts) =
    let rest = remove tag ts in if str_eq t tag then some ts else kept_before t rest

-- `for exc_tag in excluding_tags`
unfoldable pub exclude_tag : List String → String → List String → Option (List String)
exclude_tag [] tag tags = some tags
exclude_tag (exc_tag ∷ excluding_tags) tag tags =
    let rest = exclude_tag excluding_tags tag in
    if starts_with tag (str_append exc_tag ":") then and_then (remove tag tags) rest else rest tags

-- `for tag in list(tags)`
unfoldable pub exclude_tags : List String → List String → List String → Option (List String)
exclude_tags excluding_tags [] tags = some tags
exclude_tags excluding_tags (tag ∷ copied) tags =
    and_then (exclude_tag excluding_tags tag tags) (exclude_tags excluding_tags copied)

abbrev joined : List String → String
joined [] = ""
joined (t ∷ ts) = join "-" (t, ts)

abbrev labelled : String → Option String → List String
labelled label none = []
labelled label (some x) = str_append label x ∷ []

abbrev pub historate_context : String → List String → Option String → Option String → List String
historate_context metric tags hostname device_name =
    (metric ∷ joined (sorted_texts tags) ∷ [])
    ++ labelled "host:" hostname
    ++ labelled "device:" device_name

module _ {V : Type 0} (num : Number V) where
  -- `float(value - prev_value) / float(now - prev_ts)`
  abbrev pub rate_since : V × ℕ → Reading V → Result V
  rate_since (prev_value, prev_ts) r =
      let span = num.sub (num.seconds r.now) (num.seconds prev_ts) in
      let delta = num.sub r.value prev_value in
      if num.overflows r.value prev_value || num.overflows delta span
      then raised overflow
      else if is_zero num span
      then raised zero_division
      else returned (num.div delta span)

module _ {V G : Type 0} (num : Number V) (aggregates : Metrics V G) (metric : String)
    (excluding_tags : List String) (hostname device_name : Option String) where
  -- What a call leaves, and whether it raises.
  abbrev pub Historated : Type 0
  Historated = Result Unit × (Historates V × G)

  abbrev pub submit_histogram : V → List String → Reading V → G → Result Unit × G
  submit_histogram value tags r g =
      aggregates.submit (histogram num metric value (some tags) hostname device_name) r.cur_time
        r.sample_time g

  abbrev pub noted : List String → Reading V → Historates V → Result Unit × G → Historated
  noted context r d (returned u, g) =
      (returned tt, (insert same_strings context (r.value, r.now) d, g))
  noted context r d (raised e, g) = (raised e, (d, g))

  abbrev pub submit_rate :
      List String → Reading V → Historates V × G → Option (List String) → Result V → Historated
  submit_rate context r (d, g) none value = (raised value_error, (d, g))
  submit_rate context r (d, g) (some tags) (raised e) = (raised e, (d, g))
  submit_rate context r (d, g) (some tags) (returned value) =
      noted context r d (submit_histogram value tags r g)

  abbrev pub historate_after :
      List String → List String → Reading V → Historates V × G → Option (V × ℕ) → Historated
  historate_after context tags r (d, g) none =
      (returned tt, (insert same_strings context (r.value, r.now) d, g))
  historate_after context tags r (d, g) (some prev) =
      submit_rate context r (d, g) (exclude_tags excluding_tags tags tags) (rate_since num prev r)

  -- `historate`; `list(None)` raises TypeError.
  unfoldable pub historate : Option (List String) → Reading V → Historates V × G → Historated
  historate none r h = (raised type_error, h)
  historate (some tags) r (d, g) =
      let context = historate_context metric tags hostname device_name in
      historate_after context tags r (d, g) (lookup same_strings context d)

  abbrev pub histogram_of : Option (List String) → Reading V → G → Result Unit × G
  histogram_of none r g = (raised value_error, g)
  histogram_of (some tags) r g = submit_histogram r.value tags r g

  -- The function that `generate_histogram_func` makes.
  unfoldable pub histogram_excluding : Option (List String) → Reading V → G → Result Unit × G
  histogram_excluding none r g = (raised type_error, g)
  histogram_excluding (some tags) r g = histogram_of (exclude_tags excluding_tags tags tags) r g
