-- ===== src/Emitter/Posts.antt =====
-- emitter.py, split_payload, post_payload and http_emitter: a message becomes three kinds of posts.
use Prim.Native.String.{◌++◌ as str_append}
use text.Mathlib.Text.{◌==◌ as str_eq}
use sts_agent.Prelude.{
  ℕ, Bool, true, false, Option, none, some, String, List, [], ◌∷◌, ◌++◌, map, if◌then◌else◌, ◌≡◌,
  refl, ap, ◌∙◌, Bool-cases, inl, inr,
}

-- What `ts[3]` may have.
pub record Attributes : Type 0 where
  pub hostname : Option String
  pub type : Option String
  pub tags : Option (List String)
  pub device_name : Option String

-- A metric as a check reports it: `ts[0]`, `ts[1]`, `ts[2]`, and `ts[3]` if it is there.
pub record Metric (V : Type 0) : Type 0 where
  pub metric : String
  pub timestamp : ℕ
  pub value : V
  pub attributes : Option Attributes

pub record Series (V : Type 0) : Type 0 where
  pub metric : String
  pub points : List (ℕ × V)
  pub source_type_name : String
  pub host : Option String
  pub type : Option String
  pub tags : Option (List String)
  pub device : Option String

-- The message: the fields that are read, and the others.
pub record Message (V C R : Type 0) : Type 0 where
  pub api_key : Option String
  pub internal_hostname : String
  pub metrics : List (Metric V)
  pub service_checks : C
  pub rest : R

-- What is left of it once `metrics` and `service_checks` are deleted.
pub record Legacy (R : Type 0) : Type 0 where
  pub api_key : Option String
  pub internal_hostname : String
  pub rest : R

-- A value that Python takes as false is as good as none.
abbrev pub truthy : Option String → Option String
truthy none = none
truthy (some s) = if str_eq s "" then none else some s

abbrev pub truthy_tags : Option (List String) → Option (List String)
truthy_tags none = none
truthy_tags (some []) = none
truthy_tags (some (t ∷ ts)) = some (t ∷ ts)

abbrev pub or_host : Option String → String → String
or_host none host = host
or_host (some s) host = s

abbrev pub with_attributes : {V : Type 0} → String → Option Attributes → Series V → Series V
with_attributes host none s = s
with_attributes host (some a) s = record s {
  host = some (or_host (truthy a.hostname) host);
  type = truthy a.type;
  tags = truthy_tags a.tags;
  device = truthy a.device_name;
}

abbrev pub series_of : {V : Type 0} → String → Metric V → Series V
series_of host ts = with_attributes host ts.attributes (record {
  metric = ts.metric;
  points = (ts.timestamp, ts.value) ∷ [];
  source_type_name = "System";
  host = none;
  type = none;
  tags = none;
  device = none;
})

unfoldable pub split_payload : {V C R : Type 0} → Message V C R → Legacy R × List (Series V) × C
split_payload m = (
  record { api_key = m.api_key; internal_hostname = m.internal_hostname; rest = m.rest },
  map (series_of m.internal_hostname) m.metrics,
  m.service_checks,
)

-- A request: the url and the payload.
abbrev pub Post : Type 0 → Type 0
Post Z = String × Z

-- The posts that were made, and whether the last one raised.
abbrev pub Posted : Type 0 → Type 0
Posted Z = List (Post Z) × Bool

abbrev made : {Z : Type 0} → Post Z → Posted Z → Posted Z
made post (posts, raised) = (post ∷ posts, raised)

-- The loop of `post_payload`.
unfoldable pub post_payloads : {Z : Type 0} → (Post Z → Bool) → String → List Z → Posted Z
post_payloads accepted url [] = ([], false)
post_payloads accepted url (z ∷ payloads) =
    let later = post_payloads accepted url payloads in
    if accepted (url, z) then made (url, z) later else ((url, z) ∷ [], true)

-- `post_payload`, where the payloads are `none` if the serialization raises.
abbrev pub post_payload : {Z : Type 0} → (Post Z → Bool) → String → Option (List Z) → Posted Z
post_payload accepted url none = ([], false)
post_payload accepted url (some payloads) = post_payloads accepted url payloads

-- A call after which the next one is made only if it did not raise.
abbrev pub and_then : {Z : Type 0} → Posted Z → Posted Z → Posted Z
and_then (posts, true) later = (posts, true)
and_then (posts, false) (posts', raised) = (posts ++ posts', raised)

abbrev pub intake_url : String → String → String → String
intake_url dd_url endpoint api_key =
    str_append dd_url (str_append "/intake/" (str_append endpoint (str_append "?api_key=" api_key)))

abbrev pub api_url : String → String → String → String
api_url dd_url path api_key = str_append dd_url (str_append path (str_append "?api_key=" api_key))

module _ {V C R Z : Type 0} (accepted : Post Z → Bool)
    (legacy_payloads : Legacy R → Option (List Z))
    (metrics_payloads : List (Series V) → Option (List Z))
    (checkruns_payloads : C → Option (List Z)) where
  abbrev pub emitted : Message V C R → String → String → String → Posted Z
  emitted m dd_url endpoint api_key =
      let (legacy, metrics, checkruns) = split_payload m in
      and_then (post_payload accepted (intake_url dd_url endpoint api_key) (legacy_payloads legacy))
        (and_then
          (post_payload accepted (api_url dd_url "/api/v1/series" api_key)
            (metrics_payloads metrics))
          (post_payload accepted (api_url dd_url "/api/v1/check_run" api_key)
            (checkruns_payloads checkruns)))

  abbrev pub with_key : Message V C R → String → String → Option String → Option (Posted Z)
  with_key m dd_url endpoint none = none
  with_key m dd_url endpoint (some api_key) = some (emitted m dd_url endpoint api_key)

  -- `http_emitter`; `none` where it raises for want of an api key.
  unfoldable pub http_emitter : Message V C R → String → String → Option (Posted Z)
  http_emitter m dd_url endpoint = with_key m dd_url endpoint (truthy m.api_key)

-- The posts of a list up to the first one that is refused, and whether there is one.
abbrev pub until_refused : {Z : Type 0} → (Post Z → Bool) → List (Post Z) → Posted Z
until_refused accepted [] = ([], false)
until_refused accepted (post ∷ posts) =
    let later = until_refused accepted posts in
    if accepted post then made post later else (post ∷ [], true)

abbrev pub planned_posts : {Z : Type 0} → String → Option (List Z) → List (Post Z)
planned_posts url none = []
planned_posts url (some []) = []
planned_posts url (some (z ∷ payloads)) = (url, z) ∷ planned_posts url (some payloads)

module _ {Z : Type 0} (accepted : Post Z → Bool) where
  and_then-made :
      (post : Post Z) (first later : Posted Z)
      → and_then (made post first) later ≡ made post (and_then first later)
  and_then-made post (posts, true) later = refl
  and_then-made post (posts, false) later = refl

  and_then-until_refused :
      (xs ys : List (Post Z))
      → and_then (until_refused accepted xs) (until_refused accepted ys)
        ≡ until_refused accepted (xs ++ ys)
  and_then-until_refused [] ys = refl
  and_then-until_refused (x ∷ xs) ys = elim (Bool-cases (accepted x)) [
    | inl e ↦ rw e (
        and_then-made x (until_refused accepted xs) (until_refused accepted ys)
        ∙ ap (made x) (and_then-until_refused xs ys))
    | inr e ↦ rw e refl
  ]

  post_payloads-until_refused :
      (url : String) (payloads : List Z)
      → post_payloads accepted url payloads
        ≡ until_refused accepted (planned_posts url (some payloads))
  unfolding post_payloads
  post_payloads-until_refused url [] = refl
  post_payloads-until_refused url (z ∷ payloads) =
      ap (λ later. if accepted (url, z) then made (url, z) later else ((url, z) ∷ [], true))
        (post_payloads-until_refused url payloads)

  post_payload-until_refused :
      (url : String) (o : Option (List Z))
      → post_payload accepted url o ≡ until_refused accepted (planned_posts url o)
  post_payload-until_refused url none = refl
  post_payload-until_refused url (some payloads) = post_payloads-until_refused url payloads

module _ {V C R Z : Type 0} (accepted : Post Z → Bool)
    (legacy_payloads : Legacy R → Option (List Z))
    (metrics_payloads : List (Series V) → Option (List Z))
    (checkruns_payloads : C → Option (List Z)) where
  -- With an api key that is not empty, http_emitter posts the legacy payloads, those of the series of
  -- all metrics and those of the check runs, in this order and as one list, up to and with the first
  -- post that is refused, and raises exactly if there is one; what cannot be serialized is left out.
  pub http_emitter-until_refused :
      (m : Message V C R) (dd_url endpoint api_key : String)
      → truthy m.api_key ≡ some api_key
      → http_emitter accepted legacy_payloads metrics_payloads checkruns_payloads m dd_url endpoint
        ≡ some (
            until_refused accepted (
              planned_posts (intake_url dd_url endpoint api_key) (
                legacy_payloads (record {
                  api_key = m.api_key;
                  internal_hostname = m.internal_hostname;
                  rest = m.rest;
                }))
              ++ (planned_posts
                    (api_url dd_url "/api/v1/series" api_key)
                    (metrics_payloads (map (series_of m.internal_hostname) m.metrics))
                  ++ planned_posts
                      (api_url dd_url "/api/v1/check_run" api_key)
                      (checkruns_payloads m.service_checks))))
  unfolding http_emitter split_payload
  http_emitter-until_refused m dd_url endpoint api_key is =
      let legacy : Legacy R = record {
        api_key = m.api_key;
        internal_hostname = m.internal_hostname;
        rest = m.rest;
      } in
      let a = intake_url dd_url endpoint api_key in
      let b = api_url dd_url "/api/v1/series" api_key in
      let c = api_url dd_url "/api/v1/check_run" api_key in
      let x = legacy_payloads legacy in
      let y = metrics_payloads (map (series_of m.internal_hostname) m.metrics) in
      let z = checkruns_payloads m.service_checks in
      ap (with_key accepted legacy_payloads metrics_payloads checkruns_payloads m dd_url endpoint)
        is
      ∙ ap some (
          ap (λ p. and_then p (and_then (post_payload accepted b y) (post_payload accepted c z)))
            (post_payload-until_refused accepted a x)
          ∙ ap
              (λ p.
                and_then (until_refused accepted (planned_posts a x))
                  (and_then p (post_payload accepted c z)))
              (post_payload-until_refused accepted b y)
          ∙ ap
              (λ p.
                and_then (until_refused accepted (planned_posts a x))
                  (and_then (until_refused accepted (planned_posts b y)) p))
              (post_payload-until_refused accepted c z)
          ∙ ap (and_then (until_refused accepted (planned_posts a x)))
              (and_then-until_refused accepted (planned_posts b y) (planned_posts c z))
          ∙ and_then-until_refused accepted (planned_posts a x)
              (planned_posts b y ++ planned_posts c z))
