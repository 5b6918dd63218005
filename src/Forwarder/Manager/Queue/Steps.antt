-- ===== src/Forwarder/Manager/Queue/Steps.antt =====
-- `append` taken apart: the number it gives, and when it gives one.
use sts_agent.Prelude.{ℕ, ◌+◌, ◌≡◌, inl, inr, none, some, Option-cases}
use sts_agent.Forwarder.Manager.State.{Config, World, Manager, done, fault, assertion_error, update}
use sts_agent.Forwarder.Manager.Queue.{enqueue, set_id, append}

-- The manager after `tr.set_id(self.get_tr_id())`.
abbrev pub numbered : ℕ → Manager → Manager
numbered r m =
    let id : ℕ = m.counter + 1 in
    record m { counter = id; objects = update m.objects r (record (m.objects r) { id = some id }) }

module _ (cfg : Config) (world : World) (r : ℕ) (m : Manager) where
  set_id-new :
      (m.objects r).id ≡ none
      → set_id cfg world (m.counter + 1) r (record m { counter = m.counter + 1 })
        ≡ done (numbered r m)
  unfolding set_id
  set_id-new e = simp e

  pub append-new :
      (m.objects r).id ≡ none → append cfg world r m ≡ done (enqueue cfg world r (numbered r m))
  unfolding append
  append-new e = rw (set_id-new e)

  pub append-numbered :
      (n : ℕ)
      → (m.objects r).id ≡ some n
      → append cfg world r m ≡ fault assertion_error (record m { counter = m.counter + 1 })
  unfolding append set_id
  append-numbered n e = rw e

  pub append-eq-done :
      (m' : Manager)
      → append cfg world r m ≡ done m'
      → ((m.objects r).id ≡ none) × (m' ≡ enqueue cfg world r (numbered r m))
  append-eq-done m' h = elim (Option-cases (m.objects r).id) [
    | inl e ↦ (e, cc (append-new e))
    | inr (n, e) ↦ cc (append-numbered n e)
  ]
