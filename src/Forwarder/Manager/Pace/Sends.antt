-- ===== src/Forwarder/Manager/Pace/Sends.antt =====
-- The calls that send nothing: they leave the attempts and the time of the last one alone.
use text.Mathlib.Text.{◌==◌ as str_eq}
use sts_agent.Prelude.{
  ℕ, ◌+◌, ◌≡◌, refl, ◌∙◌, Bool, true, false, not, inl, inr, Option, none, some, String, List, [],
  ◌∷◌, ◌++◌, arith, ltb, ◌==◌, if◌then◌else◌, Bool-cases,
}
use sts_agent.Forwarder.Manager.State.{Config, World, Manager, Run, done, fault, delay, delay_all}
use sts_agent.Forwarder.Manager.Queue.{remove, evict}
use sts_agent.Forwarder.Manager.Outcomes.{
  finished, errored, booked, reject, skip_endpoint, break_circuit, replay, tr_error,
}

-- The transactions sent so far, and the time of the last one.
abbrev pub pace : Manager → ℕ × ℕ
pace m = (m.loop.attempts, m.last_flush)

module _ (cfg : Config) (world : World) where
  pub pace-remove : (r : ℕ) (m : Manager) → pace (remove world r m) ≡ pace m
  unfolding remove
  pace-remove r m = ground arith

  pub pace-delay_all : (rs : List ℕ) (m : Manager) → pace (delay_all cfg world rs m) ≡ pace m
  unfolding delay_all
  pace-delay_all [] m = refl
  pace-delay_all (r ∷ rs) m = pace-delay_all rs (delay cfg world r m)

  pub pace-skip_endpoint :
      (endpoint : String) (ts kept : List ℕ) (m : Manager)
      → pace (skip_endpoint cfg world endpoint ts kept m) ≡ pace m
  unfolding skip_endpoint delay
  pace-skip_endpoint endpoint [] kept m = refl
  pace-skip_endpoint endpoint (r ∷ rs) kept m =
      elim (Bool-cases (not (str_eq (m.objects r).endpoint endpoint))) [
        | inl e ↦ rw (e, skip_endpoint) (pace-skip_endpoint endpoint rs (kept ++ r ∷ []) m)
        | inr e ↦ rw (e, skip_endpoint) (pace-skip_endpoint endpoint rs kept (delay cfg world r m))
      ]

  pub pace-evict : (n : ℕ) (trs : List ℕ) (m : Manager) → pace (evict cfg world n trs m) ≡ pace m
  unfolding evict
  pace-evict n [] m = refl
  pace-evict n (r ∷ rs) m = elim (Bool-cases (ltb cfg.max_queue_size (m.total_size + n))) [
    | inl e ↦ rw (e, evict) (pace-evict n rs (remove world r m) ∙ pace-remove r m)
    | inr e ↦ rw (e, evict) (pace-evict n rs m)
  ]

  -- If the call returns, it has sent nothing.
  abbrev pub Sends0 : Manager → Run → Type 0
  Sends0 m (done m') = pace m' ≡ pace m
  Sends0 m (fault e m') = Unit

  pub Sends0-if :
      (m : Manager) (b : Bool) (x y : Run) → Sends0 m x → Sends0 m y → Sends0 m (if b then x else y)
  Sends0-if m true x y hx hy = hx
  Sends0-if m false x y hx hy = hy

  pub break_circuit-Sends0 :
      (endpoint : String) (o : Option (List ℕ)) (m : Manager)
      → Sends0 m (break_circuit cfg world endpoint o m)
  unfolding break_circuit
  break_circuit-Sends0 endpoint none m = tt
  break_circuit-Sends0 endpoint (some trs) m = pace-skip_endpoint endpoint trs [] m

  pub replay-Sends0 : (r : ℕ) (m : Manager) → Sends0 m (replay cfg world r m)
  unfolding replay delay
  replay-Sends0 r m =
      let endpoint = ((delay cfg world r m).objects r).endpoint in
      let noted = booked endpoint (delay cfg world r m) in
      Sends0-if m (noted.endpoints_errors endpoint == cfg.max_endpoint_errors)
        (break_circuit cfg world endpoint noted.trs_to_flush noted) (done noted)
        (break_circuit-Sends0 endpoint noted.trs_to_flush noted) refl

  pub tr_error-Sends0 : (r : ℕ) (m : Manager) → Sends0 m (tr_error cfg world r m)
  unfolding tr_error reject
  tr_error-Sends0 r m =
      let once_more = errored r (finished m) in
      Sends0-if m (ltb cfg.max_endpoint_errors (once_more.objects r).error_count)
        (done (reject cfg world r once_more)) (replay cfg world r once_more)
        (pace-remove r once_more) (replay-Sends0 r once_more)
