-- ===== src/Forwarder/Manager/Replay/Kept.antt =====
-- Which transactions `skip_endpoint` leaves in the current flush, and what it leaves alone.
use mathlib.Core.Path.{fun_ext}
use mathlib.Core.List.{append-nil, append_assoc}
use text.Mathlib.Text.{◌==◌ as str_eq}
use sts_agent.Prelude.{
  ℕ, ◌≡◌, refl, ◌∙◌, ap, sym, Bool, not, inl, inr, some, String, List, [], ◌∷◌, ◌++◌, ◌==◌, ==_iff,
  Bool-cases, select,
}
use sts_agent.Forwarder.Transaction.{Transaction, compute_next_flush}
use sts_agent.Forwarder.Manager.State.{Config, World, Manager, delay}
use sts_agent.Forwarder.Manager.Outcomes.{skip_endpoint}

-- The transactions of other endpoints.
abbrev pub others : (ℕ → Transaction) → String → ℕ → Bool
others objects endpoint x = not (str_eq (objects x).endpoint endpoint)

module _ (cfg : Config) (world : World) where
  pub endpoint-delay :
      (r x : ℕ) (m : Manager) → ((delay cfg world r m).objects x).endpoint ≡ (m.objects x).endpoint
  unfolding delay compute_next_flush
  endpoint-delay r x m = elim (Bool-cases (x == r)) [
    | inl e ↦ rw e (ap (λ y. (m.objects y).endpoint) (sym ((==_iff x r).0 e)))
    | inr e ↦ rw e
  ]

  pub others-delay :
      (r : ℕ) (endpoint : String) (m : Manager)
      → others (delay cfg world r m).objects endpoint ≡ others m.objects endpoint
  others-delay r endpoint m = fun_ext λ x. ap (λ e. not (str_eq e endpoint)) (endpoint-delay r x m)

  pub skip_endpoint-flushing :
      (endpoint : String) (ts kept : List ℕ) (m : Manager)
      → (skip_endpoint cfg world endpoint ts kept m).trs_to_flush
        ≡ some (kept ++ select (others m.objects endpoint) ts)
  unfolding skip_endpoint
  skip_endpoint-flushing endpoint [] kept m = rw append-nil
  skip_endpoint-flushing endpoint (r ∷ rs) kept m =
      elim (Bool-cases (not (str_eq (m.objects r).endpoint endpoint))) [
        | inl e ↦
            rw (e, skip_endpoint)
              (skip_endpoint-flushing endpoint rs (kept ++ r ∷ []) m
                ∙ ap some (append_assoc kept (r ∷ []) _))
        | inr e ↦
            rw (e, skip_endpoint)
              (skip_endpoint-flushing endpoint rs kept (delay cfg world r m)
                ∙ ap (λ p. some (kept ++ select p rs)) (others-delay r endpoint m))
      ]

-- The queue, the counters and the errors of `m'` are those of `m`; next flushes and the flush in
-- progress may differ.
pub record IsKept (m m' : Manager) : Type 0 where
  pub queued : m'.transactions ≡ m.transactions
  pub flushed : m'.transactions_flushed ≡ m.transactions_flushed
  pub rejected : m'.transactions_rejected ≡ m.transactions_rejected
  pub by_endpoint : m'.endpoints_errors ≡ m.endpoints_errors
  pub errors : (x : ℕ) → (m'.objects x).error_count ≡ (m.objects x).error_count

module _ (cfg : Config) (world : World) where
  pub delay-IsKept : (r : ℕ) (m : Manager) → IsKept m (delay cfg world r m)
  unfolding delay compute_next_flush
  delay-IsKept r m = record {
    queued = refl;
    flushed = refl;
    rejected = refl;
    by_endpoint = refl;
    errors = λ x. elim (Bool-cases (x == r)) [
      | inl e ↦ rw e (ap (λ y. (m.objects y).error_count) (sym ((==_iff x r).0 e)))
      | inr e ↦ rw e
    ];
  }

  pub IsKept-refl : (m : Manager) → IsKept m m
  IsKept-refl m = record {
    queued = refl;
    flushed = refl;
    rejected = refl;
    by_endpoint = refl;
    errors = λ x. refl;
  }

  pub trans : {m1 m2 m3 : Manager} → IsKept m1 m2 → IsKept m2 m3 → IsKept m1 m3
  trans h k = record {
    queued = k.queued ∙ h.queued;
    flushed = k.flushed ∙ h.flushed;
    rejected = k.rejected ∙ h.rejected;
    by_endpoint = k.by_endpoint ∙ h.by_endpoint;
    errors = λ x. k.errors x ∙ h.errors x;
  }

  pub skip_endpoint-IsKept :
      (endpoint : String) (ts kept : List ℕ) (m : Manager)
      → IsKept m (skip_endpoint cfg world endpoint ts kept m)
  unfolding skip_endpoint
  skip_endpoint-IsKept endpoint [] kept m = record {
    queued = refl;
    flushed = refl;
    rejected = refl;
    by_endpoint = refl;
    errors = λ x. refl;
  }
  skip_endpoint-IsKept endpoint (r ∷ rs) kept m =
      elim (Bool-cases (not (str_eq (m.objects r).endpoint endpoint))) [
        | inl e ↦ rw (e, skip_endpoint) (skip_endpoint-IsKept endpoint rs (kept ++ r ∷ []) m)
        | inr e ↦
            rw (e, skip_endpoint)
              (trans (delay-IsKept r m)
                (skip_endpoint-IsKept endpoint rs kept (delay cfg world r m)))
      ]
