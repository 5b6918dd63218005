-- ===== src/Checks/Stored.antt =====
-- checks/__init__.py, class Check: how many samples a key has, after any calls.
use text.Mathlib.Text.{◌==◌ as str_eq}
use text.Mathlib.TextEquality.{eq_iff}
use mathlib.Core.Option.{none-ne-some}
use sts_agent.Prelude.{
  Bool, true, false, Option, none, some, String, List, [], ◌∷◌, ◌++◌, length, length-append,
  if◌then◌else◌, ◌≡◌, ◌↔◌, ◌⊎◌, inl, inr, refl, ap, sym, subst, if_cases, arith,
}
use sts_agent.Prelude.Dicts.{lookup, insert}
use sts_agent.Prelude.Dicts.Gather.{insert-lookup}
use sts_agent.Aggregator.Number.{Number}
use sts_agent.Aggregator.State.{same_device}
use sts_agent.Aggregator.State.Contexts.{
  and_true, same_strings→eq, same_strings_refl, same_device→eq, same_device_refl,
}
use sts_agent.Checks.{
  Tags, Key, same_tags, same_key, Sample, Samples, Check, Result, returned, raised, last_one,
  has_name, is_counter, counter, gauge, evicted, stored, save_in, save_tagged, save_sample,
  save_gauge, expired, or_now, saved_tags, asked_tags, is_gauge, last_sample, last_rate, get_of_key,
  get_of_metric, get_sample_with_timestamp,
}

same_tags→eq : (ts us : Option (List String)) → same_tags ts us ≡ true → ts ≡ us
same_tags→eq none none h = refl
same_tags→eq none (some us) h = absurd (ground arith)
same_tags→eq (some ts) none h = absurd (ground arith)
same_tags→eq (some ts) (some us) h = ap (λ x. some x) (same_strings→eq ts us h)

same_tags_refl : (ts : Option (List String)) → same_tags ts ts ≡ true
same_tags_refl none = refl
same_tags_refl (some ts) = same_strings_refl ts

same_key→eq : (a b : Key) → same_key a b ≡ true → a ≡ b
same_key→eq (ts, d) (us, e) h =
    let (tags, devices) = (and_true (same_tags ts us) (same_device d e)).0 h in
    cc (same_tags→eq ts us tags, same_device→eq d e devices)

same_key_refl : (a : Key) → same_key a a ≡ true
same_key_refl (ts, d) = rw (same_tags_refl ts, same_device_refl d) refl

-- The test finds exactly the equal keys.
pub same_key_iff : (a b : Key) → (same_key a b ≡ true) ↔ (a ≡ b)
same_key_iff a b = (same_key→eq a b, λ e. subst (λ k. same_key a k ≡ true) e (same_key_refl a))

-- A counter keeps one sample or two, a gauge one.
abbrev pub Kept : {A : Type 0} → Bool → List A → Type 0
Kept false ss = length ss ≡ 1
Kept true ss = (length ss ≡ 1) ⊎ (length ss ≡ 2)

abbrev pub AreKept : {V : Type 0} → Bool → Samples V → Type 0
AreKept counts samples =
    (key : Key) (ss : List (Sample _)) → lookup same_key key samples ≡ some ss → Kept counts ss

abbrev pub IsStored : {V : Type 0} → Check V → Type 0
IsStored c =
    (m : String) (samples : Samples _)
    → lookup str_eq m c.sample_store ≡ some samples
    → AreKept (is_counter c m) samples

none-AreKept : {V : Type 0} (counts : Bool) → AreKept {V = V} counts []
unfolding lookup
none-AreKept counts key ss h = absurd (none-ne-some ss h)

module _ {V : Type 0} where
  insert-AreKept :
      (counts : Bool) (key : Key) (ss : List (Sample V)) (samples : Samples V)
      → Kept counts ss
      → AreKept counts samples
      → AreKept counts (insert same_key key ss samples)
  insert-AreKept counts key ss samples new old =
      insert-lookup same_key same_key_iff (λ k. Kept counts) key ss samples new
        (λ k us other. old k us)

  insert-IsStored :
      (c : Check V) (m : String) (samples : Samples V)
      → AreKept (is_counter c m) samples
      → IsStored c
      → IsStored (record c { sample_store = insert str_eq m samples c.sample_store })
  insert-IsStored c m samples new old =
      insert-lookup str_eq eq_iff (λ n. AreKept (is_counter c n)) m samples c.sample_store new
        (λ n us other. old n us)

  pub gauge-IsStored : (m : String) (c : Check V) → IsStored c → IsStored (gauge m c)
  unfolding gauge
  gauge-IsStored m c h = insert-IsStored c m [] (none-AreKept (is_counter c m)) h

  counter-others :
      (m n : String) (c : Check V)
      → str_eq m n ≡ false
      → is_counter c n ≡ is_counter (counter m c) n
  unfolding counter
  counter-others m n c other =
      if_cases (λ names. is_counter c n ≡ has_name n names) (is_counter c m) c.counters
        (m ∷ c.counters) (λ e. refl) (λ e. rw other refl)

  pub counter-IsStored : (m : String) (c : Check V) → IsStored c → IsStored (counter m c)
  unfolding counter
  counter-IsStored m c old =
      insert-lookup str_eq eq_iff (λ n. AreKept (is_counter (counter m c) n)) m [] c.sample_store
        (none-AreKept (is_counter (counter m c) m))
        (λ n us other h. subst (λ b. AreKept b us) (counter-others m n c other) (old n us h))

  length-last_one : (s : Sample V) (ss : List (Sample V)) → length (last_one (s ∷ ss)) ≡ 1
  length-last_one s [] = refl
  length-last_one s (t ∷ ss) = length-last_one t ss

  last_one-Kept : (ss : List (Sample V)) → Kept true ss → length (last_one ss) ≡ 1
  last_one-Kept [] (inl h) = absurd (ground arith)
  last_one-Kept [] (inr h) = absurd (ground arith)
  last_one-Kept (s ∷ ss) h = length-last_one s ss

  length-with_one :
      (ss : List (Sample V)) (s : Sample V) → length ss ≡ 1 → length (ss ++ s ∷ []) ≡ 2
  length-with_one ss s h = omega (arith, length-append ss (s ∷ []), h)

  evicted-Kept :
      (counts : Bool) (old : Option (List (Sample V))) (s : Sample V)
      → ((ss : List (Sample V)) → old ≡ some ss → Kept counts ss)
      → Kept counts (evicted counts old s)
  evicted-Kept false old s h = refl
  evicted-Kept true none s h = inl refl
  evicted-Kept true (some ss) s h =
      inr (length-with_one (last_one ss) s (last_one-Kept ss (h ss refl)))

  stored-IsStored :
      (c : Check V) (m : String) (key : Key) (s : Sample V) (samples : Samples V)
      → AreKept (is_counter c m) samples
      → IsStored c
      → IsStored (stored c m key s samples)
  stored-IsStored c m key s samples kept old =
      let counts = is_counter c m in
      insert-IsStored c m
        (insert same_key key (evicted counts (lookup same_key key samples) s) samples)
        (insert-AreKept counts key (evicted counts (lookup same_key key samples) s) samples
          (evicted-Kept counts (lookup same_key key samples) s (kept key)) kept)
        old

  save_tagged-IsStored :
      (c : Check V) (m : String) (tags : Option (Option (List String))) (s : Sample V)
      (samples : Samples V)
      → AreKept (is_counter c m) samples
      → IsStored c
      → IsStored (save_tagged c m tags s samples).0
  save_tagged-IsStored c m none s samples kept old = old
  save_tagged-IsStored c m (some ts) s samples kept old =
      stored-IsStored c m (ts, s.device_name) s samples kept old

  save_in-IsStored :
      (c : Check V) (m : String) (value : Option V) (timestamp : V) (tags : Tags)
      (hostname device : Option String) (samples : Option (Samples V))
      → ((us : Samples V) → samples ≡ some us → AreKept (is_counter c m) us)
      → IsStored c
      → IsStored (save_in c m value timestamp tags hostname device samples).0
  save_in-IsStored c m value timestamp tags hostname device none kept old = old
  save_in-IsStored c m none timestamp tags hostname device (some samples) kept old = old
  save_in-IsStored c m (some value) timestamp tags hostname device (some samples) kept old =
      save_tagged-IsStored c m (saved_tags tags)
        (record { timestamp = timestamp; value = value; hostname = hostname; device_name = device })
        samples (kept samples refl) old

  pub save_sample-IsStored :
      (m : String) (value timestamp : Option V) (now : V) (tags : Tags)
      (hostname device : Option String) (c : Check V)
      → IsStored c
      → IsStored (save_sample m value timestamp now tags hostname device c).0
  unfolding save_sample
  save_sample-IsStored m value timestamp now tags hostname device c h =
      save_in-IsStored c m value (or_now now timestamp) tags hostname device
        (lookup str_eq m c.sample_store) (h m) h

  pub save_gauge-IsStored :
      (m : String) (value timestamp : Option V) (now : V) (tags : Tags)
      (hostname device : Option String) (c : Check V)
      → IsStored c
      → IsStored (save_gauge m value timestamp now tags hostname device c).0
  unfolding save_gauge
  save_gauge-IsStored m value timestamp now tags hostname device c h =
      save_sample-IsStored m value timestamp now tags hostname device
        (if is_gauge c m then c else gauge m c)
        (if_cases IsStored (is_gauge c m) c (gauge m c) (λ e. h) (λ e. gauge-IsStored m c h))

module _ {V : Type 0} (num : Number V) where
  expired-Kept :
      (expire : Bool) (r : Result (Sample V)) (ss : List (Sample V))
      → Kept true ss
      → Kept true (expired num expire r ss)
  expired-Kept false r ss h = h
  expired-Kept true (returned s) ss h = inl (last_one-Kept ss h)
  expired-Kept true (raised e) ss h = h

  get_of_key-IsStored :
      (expire : Bool) (c : Check V) (m : String) (key : Key) (samples : Samples V)
      (ss : Option (List (Sample V)))
      → lookup str_eq m c.sample_store ≡ some samples
      → lookup same_key key samples ≡ ss
      → IsStored c
      → IsStored (get_of_key num expire c m key samples ss).0
  get_of_key-IsStored expire c m key samples none here found h = h
  get_of_key-IsStored expire c m key samples (some ss) here found h =
      let next = expired num expire (last_rate num ss) ss in
      if_cases (λ (r : Check V × Result (Sample V)). IsStored r.0) (is_counter c m)
        (
          record c {
            sample_store = insert str_eq m (insert same_key key next samples) c.sample_store;
          },
          last_rate num ss,
        )
        (c, last_sample num ss)
        (λ counts.
          insert-IsStored c m (insert same_key key next samples)
            (insert-AreKept (is_counter c m) key next samples
              (subst (λ b. Kept b next) (sym counts)
                (expired-Kept expire (last_rate num ss) ss
                  (subst (λ b. Kept b ss) counts (h m samples here key ss found))))
              (h m samples here))
            h)
        (λ other. h)

  get_of_metric-IsStored :
      (expire : Bool) (c : Check V) (m : String) (tags : Option (Option (List String)))
      (device : Option String) (samples : Option (Samples V))
      → lookup str_eq m c.sample_store ≡ samples
      → IsStored c
      → IsStored (get_of_metric num expire c m tags device samples).0
  get_of_metric-IsStored expire c m tags device none here h = h
  get_of_metric-IsStored expire c m none device (some samples) here h = h
  get_of_metric-IsStored expire c m (some ts) device (some samples) here h =
      let key : Key = (ts, device) in
      get_of_key-IsStored expire c m key samples (lookup same_key key samples) here refl h

  pub get_sample_with_timestamp-IsStored :
      (expire : Bool) (m : String) (tags : Tags) (device : Option String) (c : Check V)
      → IsStored c
      → IsStored (get_sample_with_timestamp num expire m tags device c).0
  unfolding get_sample_with_timestamp
  get_sample_with_timestamp-IsStored expire m tags device c h =
      get_of_metric-IsStored expire c m (asked_tags tags) device (lookup str_eq m c.sample_store)
        refl h
