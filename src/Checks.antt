-- ===== src/Checks.antt =====
-- checks/__init__.py, class Check: the samples that a check saves, and the metrics made of them.
pub mod Agent
pub mod Calls
pub mod Metrics
pub mod Names
pub mod Reports
pub mod Stored
pub mod Rates
pub mod Tests
use Prim.Native.String.{compare as str_compare}
use Prim.Native.Nat.{Ordering}
use text.Mathlib.Text.{◌==◌ as str_eq}
use sts_agent.Prelude.{
  ℕ, suc, Bool, true, false, not, ◌&&◌, ◌||◌, Option, none, some, String, List, [], ◌∷◌, ◌++◌,
  length, ℤ, if◌then◌else◌, ltb,
}
use sts_agent.Prelude.Dicts.{lookup, insert}
use sts_agent.Aggregator.Number.{Number, is_zero, nought, quotient}
use sts_agent.Aggregator.State.{same_strings, same_device}

-- The tags of a call: None, a list, a tuple or a value of another type.
pub data Tags : Type 0 where
  no_tags : Tags
  listed : List String → Tags
  tupled : List String → Tags
  other_tags : Tags

-- The key of a sample: the tags, and the device.
abbrev pub Key : Type 0
Key = Option (List String) × Option String

abbrev pub same_tags : Option (List String) → Option (List String) → Bool
same_tags none none = true
same_tags none (some ts) = false
same_tags (some ts) none = false
same_tags (some ts) (some us) = same_strings ts us

abbrev pub same_key : Key → Key → Bool
same_key (ts, d) (us, e) = same_tags ts us && same_device d e

-- A time is the float of `time.time()`.
pub record Sample (V : Type 0) : Type 0 where
  pub timestamp : V
  pub value : V
  pub hostname : Option String
  pub device_name : Option String

abbrev pub Samples : Type 0 → Type 0
Samples V = List (Key × List (Sample V))

pub record Check (V : Type 0) : Type 0 where
  pub sample_store : List (String × Samples V)
  pub counters : List String

pub data Error : Type 0 where
  check_exception : Error
  nan : Error
  infinity : Error
  unknown_value : Error
  key_error : Error

pub data Result (A : Type 0) : Type 0 where
  returned : A → Result A
  raised : Error → Result A

-- A check after a call that saves, and what the call raises.
abbrev pub Saved : Type 0 → Type 0
Saved V = Check V × Option Error

insert_string : String → List String → List String
insert_string s [] = s ∷ []
insert_string s (t ∷ ts) =
    let rest = insert_string s ts in
    elim (str_compare s t) [ Ordering.gt ↦ t ∷ rest | _ ↦ s ∷ t ∷ ts ]

-- `sorted(tags)`
unfoldable pub sorted_tags : List String → List String
unfolding insert_string
sorted_tags [] = []
sorted_tags (t ∷ ts) = insert_string t (sorted_tags ts)

-- The tags of the key in `save_sample`, which has none for a value of another type.
abbrev pub saved_tags : Tags → Option (Option (List String))
saved_tags no_tags = some none
saved_tags (listed ts) = some (some (sorted_tags ts))
saved_tags (tupled ts) = some (some (sorted_tags ts))
saved_tags other_tags = none

-- The tags of the key in `get_sample_with_timestamp`; a value of another type is no key of the store.
abbrev pub asked_tags : Tags → Option (Option (List String))
asked_tags no_tags = some none
asked_tags (listed ts) = some (some (sorted_tags ts))
asked_tags (tupled ts) = some (some ts)
asked_tags other_tags = none

abbrev pub has_name : String → List String → Bool
has_name m [] = false
has_name m (n ∷ names) = str_eq n m || has_name m names

abbrev pub is_present : {A : Type 0} → Option A → Bool
is_present none = false
is_present (some a) = true

-- `ss[-1:]`
abbrev pub last_one : {A : Type 0} → List A → List A
last_one [] = []
last_one (x ∷ []) = x ∷ []
last_one (x ∷ y ∷ ys) = last_one (y ∷ ys)

module _ {V : Type 0} where
  abbrev pub is_counter : Check V → String → Bool
  is_counter c m = has_name m c.counters

  abbrev pub is_metric : Check V → String → Bool
  is_metric c m = is_present (lookup str_eq m c.sample_store)

  abbrev pub is_gauge : Check V → String → Bool
  is_gauge c m = is_metric c m && not (is_counter c m)

  unfoldable pub counter : String → Check V → Check V
  counter m c = record {
    counters = if is_counter c m then c.counters else m ∷ c.counters;
    sample_store = insert str_eq m [] c.sample_store;
  }

  unfoldable pub gauge : String → Check V → Check V
  gauge m c = record c { sample_store = insert str_eq m [] c.sample_store }

  -- The samples of a key after one more.
  abbrev pub evicted : Bool → Option (List (Sample V)) → Sample V → List (Sample V)
  evicted false old s = s ∷ []
  evicted true none s = s ∷ []
  evicted true (some old) s = last_one old ++ s ∷ []

  abbrev pub stored : Check V → String → Key → Sample V → Samples V → Check V
  stored c m key s samples = record c {
    sample_store =
        insert str_eq m
          (insert same_key key (evicted (is_counter c m) (lookup same_key key samples) s) samples)
          c.sample_store;
  }

  abbrev pub save_tagged :
      Check V → String → Option (Option (List String)) → Sample V → Samples V → Saved V
  save_tagged c m none s samples = (c, some check_exception)
  save_tagged c m (some ts) s samples = (stored c m (ts, s.device_name) s samples, none)

  abbrev pub save_value :
      Check V → String → Option V → V → Tags → Option String → Option String → Samples V → Saved V
  save_value c m none timestamp tags hostname device samples = (c, some nan)
  save_value c m (some value) timestamp tags hostname device samples =
      save_tagged c m (saved_tags tags)
        (record { timestamp = timestamp; value = value; hostname = hostname; device_name = device })
        samples

  abbrev pub save_in :
      Check V
      → String
      → Option V
      → V
      → Tags
      → Option String
      → Option String
      → Option (Samples V)
      → Saved V
  save_in c m value timestamp tags hostname device none = (c, some check_exception)
  save_in c m value timestamp tags hostname device (some samples) =
      save_value c m value timestamp tags hostname device samples

  abbrev pub or_now : V → Option V → V
  or_now now none = now
  or_now now (some timestamp) = timestamp

  -- `save_sample`; the value is what `cast_metric_val` makes of it, `none` where that raises, and the
  -- time is `now` where none is given.
  unfoldable pub save_sample :
      String → Option V → Option V → V → Tags → Option String → Option String → Check V → Saved V
  save_sample m value timestamp now tags hostname device c =
      save_in c m value (or_now now timestamp) tags hostname device (lookup str_eq m c.sample_store)

  unfoldable pub save_gauge :
      String → Option V → Option V → V → Tags → Option String → Option String → Check V → Saved V
  save_gauge m value timestamp now tags hostname device c =
      save_sample m value timestamp now tags hostname device (if is_gauge c m then c else gauge m c)

abbrev rate_sample : {V : Type 0} → Sample V → Option V → Result (Sample V)
rate_sample s none = raised nan
rate_sample s (some value) = returned (record s { value = value })

module _ {V : Type 0} (num : Number V) where
  -- `_rate`; an OverflowError becomes NaN.
  unfoldable pub rate : Sample V → Sample V → Result (Sample V)
  rate a b =
      let interval = num.sub b.timestamp a.timestamp in
      let delta = num.sub b.value a.value in
      if num.overflows b.timestamp a.timestamp
      then raised nan
      else if is_zero num interval
      then raised infinity
      else if num.overflows b.value a.value
      then raised nan
      else if num.less delta (nought num)
      then raised unknown_value
      else rate_sample b (quotient num delta interval)

  -- The rate of the last two samples.
  abbrev pub last_rate : List (Sample V) → Result (Sample V)
  last_rate [] = raised unknown_value
  last_rate (a ∷ []) = raised unknown_value
  last_rate (a ∷ b ∷ []) = rate a b
  last_rate (a ∷ b ∷ d ∷ samples) = last_rate (b ∷ d ∷ samples)

  abbrev pub last_sample : List (Sample V) → Result (Sample V)
  last_sample [] = raised unknown_value
  last_sample (a ∷ []) = returned a
  last_sample (a ∷ b ∷ samples) = last_sample (b ∷ samples)

  -- `del ...[:-1]` once a rate is computed.
  abbrev pub expired : Bool → Result (Sample V) → List (Sample V) → List (Sample V)
  expired false r samples = samples
  expired true (returned s) samples = last_one samples
  expired true (raised e) samples = samples

  -- What is asked of a metric: the check after it, and the sample.
  abbrev pub Got : Type 0
  Got = Check V × Result (Sample V)

  abbrev pub get_of_key : Bool → Check V → String → Key → Samples V → Option (List (Sample V)) → Got
  get_of_key expire c m key samples none = (c, raised key_error)
  get_of_key expire c m key samples (some ss) =
      if is_counter c m
      then (
        record c {
          sample_store =
              insert str_eq m (insert same_key key (expired expire (last_rate ss) ss) samples)
                c.sample_store;
        },
        last_rate ss,
      )
      else (c, last_sample ss)

  abbrev pub get_of_tags :
      Bool → Check V → String → Option (Option (List String)) → Option String → Samples V → Got
  get_of_tags expire c m none device samples = (c, raised key_error)
  get_of_tags expire c m (some ts) device samples =
      get_of_key expire c m (ts, device) samples (lookup same_key (ts, device) samples)

  abbrev pub get_of_metric :
      Bool
      → Check V
      → String
      → Option (Option (List String))
      → Option String
      → Option (Samples V)
      → Got
  get_of_metric expire c m tags device none = (c, raised unknown_value)
  get_of_metric expire c m tags device (some samples) = get_of_tags expire c m tags device samples

  unfoldable pub get_sample_with_timestamp : Bool → String → Tags → Option String → Check V → Got
  get_sample_with_timestamp expire m tags device c =
      get_of_metric expire c m (asked_tags tags) device (lookup str_eq m c.sample_store)
