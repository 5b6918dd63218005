-- ===== src/Checks/Rates.antt =====
-- checks/__init__.py, class Check: a counter gives the rate of its last two samples.
use text.Mathlib.Text.{◌==◌ as str_eq}
use text.Mathlib.TextEquality.{eq_iff}
use sts_agent.Prelude.{
  Bool, true, false, Option, none, some, String, List, [], ◌∷◌, ◌++◌, ◌≡◌, refl, ap, sym, subst,
  ◌∙◌, if_cases, if_holds,
}
use sts_agent.Prelude.Dicts.{lookup, insert, lookup-insert, eq_refl}
use sts_agent.Aggregator.Number.{Number}
use sts_agent.Checks.{
  Tags, Key, same_key, Sample, Samples, Check, Result, returned, raised, has_name, unknown_value,
  counter, last_one, or_now, expired, last_sample, saved_tags, asked_tags, is_counter, evicted,
  save_in, save_tagged, save_sample, rate, last_rate, get_of_key, get_of_tags, get_of_metric,
  get_sample_with_timestamp,
}
use sts_agent.Checks.Stored.{same_key_iff}

-- The arguments of one call of save_sample, apart from its metric and its key.
pub record Reading (V : Type 0) : Type 0 where
  pub value : V
  pub timestamp : Option V
  pub now : V
  pub hostname : Option String

abbrev pub sample_of : {V : Type 0} → Option String → Reading V → Sample V
sample_of device r = record {
  timestamp = or_now r.now r.timestamp;
  value = r.value;
  hostname = r.hostname;
  device_name = device;
}

module _ {V : Type 0} (num : Number V) where
  -- Each reading is saved, and then the metric is asked for.
  unfoldable pub answers :
      Bool
      → String
      → Tags
      → Tags
      → Option String
      → List (Reading V)
      → Check V
      → List (Result (Sample V))
  answers expire m tags asked device [] c = []
  answers expire m tags asked device (r ∷ readings) c =
      let saved = (save_sample m (some r.value) r.timestamp r.now tags r.hostname device c).0 in
      let got = get_sample_with_timestamp num expire m asked device saved in
      got.1 ∷ answers expire m tags asked device readings got.0

  -- The rate of each reading after the one before it.
  abbrev pub rates : Option String → Sample V → List (Reading V) → List (Result (Sample V))
  rates device s [] = []
  rates device s (r ∷ readings) =
      rate num s (sample_of device r) ∷ rates device (sample_of device r) readings

  -- A counter with these samples for the key.
  abbrev Has : String → Key → List (Sample V) → Check V → Type 0
  Has m key ss c =
      (is_counter c m ≡ true)
      × ((samples : Samples V) × (lookup str_eq m c.sample_store ≡ some samples)
          × (lookup same_key key samples ≡ some ss))

  insert-Has :
      (m : String) (key : Key) (ss : List (Sample V)) (samples : Samples V) (c : Check V)
      → is_counter c m ≡ true
      → Has m key ss (record c {
        sample_store = insert str_eq m (insert same_key key ss samples) c.sample_store;
      })
  insert-Has m key ss samples c counts = (
    counts,
    (
      insert same_key key ss samples,
      lookup-insert str_eq eq_iff m (insert same_key key ss samples) c.sample_store,
      lookup-insert same_key same_key_iff key ss samples,
    ),
  )

  -- A sample saved for a counter.
  save_sample-Has :
      (m : String) (r : Reading V) (tags : Tags) (ts : Option (List String))
      (device : Option String) (samples : Samples V) (o : Option (List (Sample V))) (c : Check V)
      → saved_tags tags ≡ some ts
      → is_counter c m ≡ true
      → lookup str_eq m c.sample_store ≡ some samples
      → lookup same_key (ts, device) samples ≡ o
      → Has m
          (ts, device)
          (evicted true o (sample_of device r))
          (save_sample m (some r.value) r.timestamp r.now tags r.hostname device c).0
  unfolding save_sample
  save_sample-Has m r tags ts device samples o c tuple counts here found =
      let key : Key = (ts, device) in
      let s = sample_of device r in
      subst
        (λ us.
          Has m key (evicted true o s)
            (save_in c m (some r.value) (or_now r.now r.timestamp) tags r.hostname device us).0)
        (sym here)
        (subst (λ o'. Has m key (evicted true o s) (save_tagged c m o' s samples).0) (sym tuple)
          (subst
            (λ ss. Has m key (evicted true o s) (record c {
              sample_store = insert str_eq m (insert same_key key ss samples) c.sample_store;
            }))
            (sym (
              ap (λ b. evicted b (lookup same_key key samples) s) counts
              ∙ ap (λ us. evicted true us s) found))
            (insert-Has m key (evicted true o s) samples c counts)))

  -- What a counter is asked for.
  abbrev Answers : String → Key → List (Sample V) → Bool → Check V × Result (Sample V) → Type 0
  Answers m key ss expire got =
      (got.1 ≡ last_rate num ss) × Has m key (expired num expire (last_rate num ss) ss) got.0

  get_of_key-Answers :
      (expire : Bool) (m : String) (key : Key) (samples : Samples V) (ss : List (Sample V))
      (c : Check V)
      → is_counter c m ≡ true
      → Answers m key ss expire (get_of_key num expire c m key samples (some ss))
  get_of_key-Answers expire m key samples ss c counts =
      let next = expired num expire (last_rate num ss) ss in
      if_holds (Answers m key ss expire) (is_counter c m)
        (
          record c {
            sample_store = insert str_eq m (insert same_key key next samples) c.sample_store;
          },
          last_rate num ss,
        )
        (c, last_sample num ss) counts (refl, insert-Has m key next samples c counts)

  get_sample-Answers :
      (expire : Bool) (m : String) (asked : Tags) (ts : Option (List String))
      (device : Option String) (ss : List (Sample V)) (c : Check V)
      → asked_tags asked ≡ some ts
      → Has m (ts, device) ss c
      → Answers m (ts, device) ss expire (get_sample_with_timestamp num expire m asked device c)
  unfolding get_sample_with_timestamp
  get_sample-Answers expire m asked ts device ss c tuple (counts, (samples, here, found)) =
      let key : Key = (ts, device) in
      subst
        (λ us. Answers m key ss expire (get_of_metric num expire c m (asked_tags asked) device us))
        (sym here)
        (subst (λ o. Answers m key ss expire (get_of_tags num expire c m o device samples))
          (sym tuple)
          (subst (λ o. Answers m key ss expire (get_of_key num expire c m key samples o))
            (sym found) (get_of_key-Answers expire m key samples ss c counts)))

  last_one-expired :
      (expire : Bool) (r : Result (Sample V)) (s t : Sample V)
      → last_one (expired num expire r (s ∷ t ∷ [])) ≡ t ∷ []
  last_one-expired false r s t = refl
  last_one-expired true (returned u) s t = refl
  last_one-expired true (raised e) s t = refl

  answers-rates :
      (expire : Bool) (m : String) (tags asked : Tags) (ts : Option (List String))
      (device : Option String) (s : Sample V) (ss : List (Sample V)) (readings : List (Reading V))
      (c : Check V)
      → saved_tags tags ≡ some ts
      → asked_tags asked ≡ some ts
      → Has m (ts, device) ss c
      → last_one ss ≡ s ∷ []
      → answers expire m tags asked device readings c ≡ rates device s readings
  unfolding answers
  answers-rates expire m tags asked ts device s ss [] c to from has last = refl
  answers-rates expire m tags asked ts device s ss (r ∷ readings) c to from
        (counts, (samples, here, found)) last =
      let t = sample_of device r in
      let saved = (save_sample m (some r.value) r.timestamp r.now tags r.hostname device c).0 in
      let got = get_sample_with_timestamp num expire m asked device saved in
      let has =
        subst (λ us. Has m (ts, device) (us ++ t ∷ []) saved) last
          (save_sample-Has m r tags ts device samples (some ss) c to counts here found) in
      let (first, after) =
        get_sample-Answers expire m asked ts device (s ∷ t ∷ []) saved from has in
      cc (
        first,
        answers-rates expire m tags asked ts device t
            (expired num expire (last_rate num (s ∷ t ∷ [])) (s ∷ t ∷ [])) readings got.0 to from
            after (last_one-expired expire (last_rate num (s ∷ t ∷ [])) s t),
      )

  last_one-first :
      (expire : Bool) (s : Sample V)
      → last_one (expired num expire (raised unknown_value) (s ∷ [])) ≡ s ∷ []
  last_one-first false s = refl
  last_one-first true s = refl

  counts : (m : String) (c : Check V) → is_counter (counter m c) m ≡ true
  unfolding counter
  counts m c =
      if_cases (λ names. has_name m names ≡ true) (is_counter c m) c.counters (m ∷ c.counters)
        (λ e. e) (λ e. rw (eq_refl str_eq eq_iff m) refl)

  -- If a metric is declared as a counter in any check, and each of a list of readings is saved for one
  -- key and then asked for, by tags that give the tuple under which save_sample stores it, with or
  -- without expiry, then the first answer is UnknownValue and every later one is the rate of the
  -- reading and the one before it, or what `_rate` raises on them.
  pub answers-counter :
      (expire : Bool) (m : String) (tags asked : Tags) (ts : Option (List String))
      (device : Option String) (r : Reading V) (readings : List (Reading V)) (c : Check V)
      → saved_tags tags ≡ some ts
      → asked_tags asked ≡ some ts
      → answers expire m tags asked device (r ∷ readings) (counter m c)
        ≡ raised unknown_value ∷ rates device (sample_of device r) readings
  unfolding answers counter lookup
  answers-counter expire m tags asked ts device r readings c to from =
      let s = sample_of device r in
      let saved =
        (save_sample m (some r.value) r.timestamp r.now tags r.hostname device (counter m c)).0 in
      let got = get_sample_with_timestamp num expire m asked device saved in
      let has =
        save_sample-Has m r tags ts device [] none (counter m c) to (counts m c)
          (lookup-insert str_eq eq_iff m [] c.sample_store) refl in
      let (first, after) = get_sample-Answers expire m asked ts device (s ∷ []) saved from has in
      cc (
        first,
        answers-rates expire m tags asked ts device s
            (expired num expire (raised unknown_value) (s ∷ [])) readings got.0 to from after
            (last_one-first expire s),
      )
