-- ===== src/Checks/Reports.antt =====
-- checks/__init__.py, get_metrics of class Check: the report of a whole store.
use text.Mathlib.Text.{◌==◌ as str_eq}
use text.Mathlib.TextEquality.{eq_iff}
use sts_agent.Prelude.{
  Bool, true, false, Option, none, some, String, List, [], ◌∷◌, ◌++◌, ◌≡◌, refl, ap, sym, subst,
  ◌∙◌, if_cases,
}
use sts_agent.Prelude.Dicts.{
  lookup, insert, lookup-insert, lookup-insert_other, IsDict, AllEntries, AllValues,
  IsDict-AllEntries,
}
use sts_agent.Prelude.Dicts.Gather.{AllEntries-others}
use sts_agent.Aggregator.Number.{Number}
use sts_agent.Checks.{
  Key, same_key, Sample, Samples, Check, Result, returned, raised, unknown_value, check_exception,
  nan, infinity, key_error, has_name, asked_tags, is_counter, expired, last_sample, last_rate,
  get_of_key, get_of_tags, get_of_metric, get_sample_with_timestamp,
}
use sts_agent.Checks.Metrics.{
  Metric, tags_of_key, keys_of, reported, reported_with, key_metrics, store_metrics, get_metrics,
}
use sts_agent.Checks.Stored.{same_key_iff}
use sts_agent.Checks.Calls.{reported_with_state}

tags_of_key-asked : (ts : Option (List String)) → asked_tags (tags_of_key ts) ≡ some ts
tags_of_key-asked none = refl
tags_of_key-asked (some ts) = refl

module _ {V : Type 0} (num : Number V) where
  -- What the samples of one key give: the rate of the last two, or the last one.
  abbrev pub outcome : Bool → List (Sample V) → Result (Sample V)
  outcome true ss = last_rate num ss
  outcome false ss = last_sample num ss

  abbrev pub report_with :
      String → Option (List String) → Result (Sample V) → List (Metric V) → List (Metric V)
  report_with m tags (returned s) rest = reported num m tags s ∷ rest
  report_with m tags (raised unknown_value) rest = rest
  report_with m tags (raised _) rest = []

  -- The report of one metric: the keys in turn, up to the first error that is not UnknownValue.
  unfoldable pub metric_report : Bool → String → Samples V → List (Metric V)
  metric_report counts m [] = []
  metric_report counts m (((tags, device), ss) ∷ samples) =
      report_with m tags (outcome counts ss) (metric_report counts m samples)

  unfoldable pub reports : List String → List (String × Samples V) → List (Metric V)
  reports counters [] = []
  reports counters ((m, samples) ∷ store) =
      metric_report (has_name m counters) m samples ++ reports counters store

  reported_with-report_with :
      (m : String) (tags : Option (List String)) (r : Result (Sample V))
      (rest : Check V × List (Metric V)) (c : Check V)
      → (reported_with num m tags r rest c).1 ≡ report_with m tags r rest.1
  reported_with-report_with m tags (returned s) rest c = refl
  reported_with-report_with m tags (raised unknown_value) rest c = refl
  reported_with-report_with m tags (raised check_exception) rest c = refl
  reported_with-report_with m tags (raised nan) rest c = refl
  reported_with-report_with m tags (raised infinity) rest c = refl
  reported_with-report_with m tags (raised key_error) rest c = refl

  -- Only the samples of `m` have changed.
  abbrev Changes : String → Check V → Check V → Type 0
  Changes m c c' =
      (c'.counters ≡ c.counters)
      × ((n : String)
          → str_eq m n ≡ false
          → lookup str_eq n c'.sample_store ≡ lookup str_eq n c.sample_store)

  -- The samples of `m` have these entries.
  abbrev Finds : String → Samples V → Check V → Type 0
  Finds m rest c =
      (samples : Samples V) × (lookup str_eq m c.sample_store ≡ some samples)
      × AllEntries (λ key ss. lookup same_key key samples ≡ some ss) rest

  -- What asking for one key does, where the entries of other keys are to be asked for later.
  abbrev Asks :
      String → List (Sample V) → Samples V → Check V → Check V × Result (Sample V) → Type 0
  Asks m ss rest c got =
      (got.1 ≡ outcome (is_counter c m) ss) × Changes m c got.0 × Finds m rest got.0

  get_of_key-Asks :
      (expire : Bool) (m : String) (key : Key) (ss : List (Sample V)) (rest samples : Samples V)
      (c : Check V)
      → lookup str_eq m c.sample_store ≡ some samples
      → AllEntries (λ k us. lookup same_key k samples ≡ some us) rest
      → lookup same_key key rest ≡ none
      → Asks m ss rest c (get_of_key num expire c m key samples (some ss))
  get_of_key-Asks expire m key ss rest samples c here found new =
      let next = expired num expire (last_rate num ss) ss in
      let after = insert same_key key next samples in
      if_cases (Asks m ss rest c) (is_counter c m)
        (record c { sample_store = insert str_eq m after c.sample_store }, last_rate num ss)
        (c, last_sample num ss)
        (λ e. (
          sym (ap (λ b. outcome b ss) e),
          (refl, λ n other. lookup-insert_other str_eq eq_iff n m after c.sample_store other),
          (
            after,
            lookup-insert str_eq eq_iff m after c.sample_store,
            AllEntries-others same_key same_key_iff (λ k us. lookup same_key k samples ≡ some us)
                (λ k us. lookup same_key k after ≡ some us) key rest new
                (λ k us other h.
                  lookup-insert_other same_key same_key_iff k key next samples other ∙ h)
                found,
          ),
        ))
        (λ e. (sym (ap (λ b. outcome b ss) e), (refl, λ n other. refl), (samples, here, found)))

  get_sample-Asks :
      (expire : Bool) (m : String) (ts : Option (List String)) (device : Option String)
      (ss : List (Sample V)) (rest : Samples V) (c : Check V)
      → Finds m (((ts, device), ss) ∷ rest) c
      → lookup same_key (ts, device) rest ≡ none
      → Asks m ss rest c (get_sample_with_timestamp num expire m (tags_of_key ts) device c)
  unfolding get_sample_with_timestamp
  get_sample-Asks expire m ts device ss rest c (samples, here, (first, found)) new =
      let key : Key = (ts, device) in
      subst
        (λ us.
          Asks m ss rest c (get_of_metric num expire c m (asked_tags (tags_of_key ts)) device us))
        (sym here)
        (subst (λ o. Asks m ss rest c (get_of_tags num expire c m o device samples))
          (sym (tags_of_key-asked ts))
          (subst (λ o. Asks m ss rest c (get_of_key num expire c m key samples o)) (sym first)
            (get_of_key-Asks expire m key ss rest samples c here found new)))

  Changes-then : (m : String) (a b c : Check V) → Changes m a b → Changes m b c → Changes m a c
  Changes-then m a b c (names, others) (names', others') =
      (names' ∙ names, λ n other. others' n other ∙ others n other)

  key_metrics-metric_report :
      (expire : Bool) (m : String) (samples : Samples V) (c : Check V)
      → Finds m samples c
      → IsDict same_key samples
      → ((key_metrics num expire m (keys_of samples) c).1
          ≡ metric_report (is_counter c m) m samples)
        × Changes m c (key_metrics num expire m (keys_of samples) c).0
  unfolding key_metrics metric_report
  key_metrics-metric_report expire m [] c found distinct = (refl, (refl, λ n other. refl))
  key_metrics-metric_report expire m (((tags, device), ss) ∷ samples) c found (new, distinct) =
      let got = get_sample_with_timestamp num expire m (tags_of_key tags) device c in
      let (answer, changes, later) = get_sample-Asks expire m tags device ss samples c found new in
      let rest = key_metrics num expire m (keys_of samples) got.0 in
      let (same, changes') = key_metrics-metric_report expire m samples got.0 later distinct in
      (
        reported_with-report_with m tags got.1 rest got.0
            ∙ ap (λ r. report_with m tags r rest.1) answer
            ∙ ap (report_with m tags (outcome (is_counter c m) ss))
                (same ∙ ap (λ names. metric_report (has_name m names) m samples) changes.0),
        reported_with_state num (Changes m c) m tags got.1 rest got.0
            (Changes-then m c got.0 rest.0 changes changes') changes,
      )

  store_metrics-reports :
      (expire : Bool) (store : List (String × Samples V)) (c : Check V)
      → AllEntries (λ m samples. lookup str_eq m c.sample_store ≡ some samples) store
      → IsDict str_eq store
      → AllValues (IsDict same_key) store
      → (store_metrics num expire store c).1 ≡ reports c.counters store
  unfolding store_metrics reports
  store_metrics-reports expire [] c found distinct keys = refl
  store_metrics-reports expire ((m, samples) ∷ store) c (here, found) (new, distinct) (own, keys) =
      let got = key_metrics num expire m (keys_of samples) c in
      let (same, changes) =
        key_metrics-metric_report expire m samples c
          (samples, here, IsDict-AllEntries same_key same_key_iff samples own) own in
      let later =
        AllEntries-others str_eq eq_iff (λ n us. lookup str_eq n c.sample_store ≡ some us)
          (λ n us. lookup str_eq n got.0.sample_store ≡ some us) m store new
          (λ n us other h. changes.1 n other ∙ h) found in
      ap (λ xs. xs ++ (store_metrics num expire store got.0).1) same
      ∙ ap (λ xs. metric_report (is_counter c m) m samples ++ xs)
          (store_metrics-reports expire store got.0 later distinct keys
            ∙ ap (λ names. reports names store) changes.0)

  -- If the store is a dictionary of dictionaries, then get_metrics, which changes the store on its
  -- way where it expires samples, reports what the store held at its start: for every metric in turn
  -- its keys in turn, with the rate of the last two samples of a counter and the last sample of a
  -- gauge, without those whose value is unknown, up to the first key that has any other error.
  pub get_metrics-reports :
      (expire : Bool) (c : Check V)
      → IsDict str_eq c.sample_store
      → AllValues (IsDict same_key) c.sample_store
      → (get_metrics num expire c).1 ≡ reports c.counters c.sample_store
  unfolding get_metrics
  get_metrics-reports expire c distinct keys =
      store_metrics-reports expire c.sample_store c
        (IsDict-AllEntries str_eq eq_iff c.sample_store distinct) distinct keys
