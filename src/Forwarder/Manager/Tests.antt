-- ===== src/Forwarder/Manager/Tests.antt =====
-- Small runs of the manager, and the theorems at them.
use sts_agent.Prelude.{ℕ, ◌+◌, ◌*◌, ◌<◌, ◌≡◌, refl, true, false, inl, some, [], ◌∷◌, arith}
use sts_agent.Prelude.Bag.{contains, remove_first}
use sts_agent.Prelude.Sorting.{sorted}
use sts_agent.Forwarder.Transaction.{
  Transaction, create, second, inc_error_count, replay_delay, compute_next_flush, time_to_flush,
}
use sts_agent.Forwarder.Manager.State.{
  Config, World, Manager, Run, done, fault, assertion_error, start, delay, delay_all,
}
use sts_agent.Forwarder.Manager.Queue.{get_size, remove, evict, enqueue, set_id, append}
use sts_agent.Forwarder.Manager.Queue.Accounting.{IsCounted, append-IsCounted}
use sts_agent.Forwarder.Manager.Queue.Room.{IsAppended, append-IsAppended}
use sts_agent.Forwarder.Manager.Outcomes.{
  tr_success, reject, tr_error_reject_request, skip_endpoint, break_circuit, replay, tr_error,
}
use sts_agent.Forwarder.Manager.Outcomes.Frame.{IsConsistent, Returns}
use sts_agent.Forwarder.Manager.Flush.{
  Response, after_error, resume, launch, pop_and_launch, wait, throttled, pass_with, pass_without,
  pass_at, flush_next, due, begin_with, flush_at, flush, settle, on_response,
}
use sts_agent.Forwarder.Manager.Loop.{
  Reach, here, next, appended, flushed, responded, enough, IsLive, Reach-IsConsistent, Reach-IsLive,
}
use sts_agent.Forwarder.Manager.Replay.{IsReplayed, IsRejected, tr_error_replays, tr_error_rejects}
use sts_agent.Forwarder.Manager.Pace.{IsPaced, Reach-IsPaced}

program : Unit {0}
unfolding inc_error_count replay_delay compute_next_flush time_to_flush delay delay_all get_size
    remove evict enqueue set_id append tr_success reject tr_error_reject_request skip_endpoint
    break_circuit replay tr_error after_error resume launch pop_and_launch wait throttled pass_with
    pass_without pass_at flush_next due begin_with flush_at flush settle on_response contains
    remove_first sorted
program = tt

-- A queue of two payloads of ten bytes, half a second between two attempts.
abbrev config : Config
config = record {
  max_wait_for_replay = 90 * second;
  max_queue_size = 25;
  throttling_delay = 500_000;
  max_parallelism = 1;
  max_endpoint_errors = 1;
  flush_without_ioloop = false;
}

-- The clock advances by a second with each reading.
abbrev world : World
world = record {
  utcnow = λ n. n * second;
  getsizeof = λ r. 10;
  flush_raises = λ r n. false;
  ioloop_running = true;
}

abbrev objects : ℕ → Transaction
objects r = create (r * second) "intake"

abbrev state : Run → Manager
state (done m) = m
state (fault e m) = m

abbrev initial : Manager
initial = start world objects

abbrev one : Manager
unfolding program
one = state (append config world 1 initial)

abbrev two : Manager
unfolding program
two = state (append config world 2 one)

abbrev three : Manager
unfolding program
three = state (append config world 3 two)

-- The third payload displaces the second, whose next flush is later than that of the first.
three_queued : three.transactions ≡ 1 ∷ 3 ∷ []
unfolding program
three_queued = refl

append_again : append config world 1 one ≡ fault assertion_error (record one { counter = 2 })
unfolding program
append_again = refl

abbrev sending : Manager
unfolding program
sending = state (flush config world (enough two) two)

sending_flight : sending.loop.in_flight ≡ 1 ∷ []
unfolding program
sending_flight = refl

initial-IsCounted : IsCounted world initial
initial-IsCounted = record { counted = refl; sized = refl }

append-one : append config world 1 initial ≡ done one
unfolding program
append-one = refl

append-two : append config world 2 one ≡ done two
unfolding program
append-two = refl

append-three : append config world 3 two ≡ done three
unfolding program
append-three = refl

flush_two : flush config world (enough two) two ≡ done sending
unfolding program
flush_two = refl

two-IsCounted : IsCounted world two
two-IsCounted =
    append-IsCounted config world 2 one two
      (append-IsCounted config world 1 initial one initial-IsCounted append-one) append-two

append-IsAppended_example : IsAppended config world 3 two three
append-IsAppended_example = append-IsAppended config world 3 two three two-IsCounted append-three

-- Two payloads, a flush that sends one of them, and its response.
abbrev failed_response : Response
failed_response = record { error = true; code = 503 }

abbrev answered : Manager
unfolding program
answered = state (on_response config world (enough sending) 1 failed_response sending)

respond_one : on_response config world (enough sending) 1 failed_response sending ≡ done answered
unfolding program
respond_one = refl

in_flight_one : contains 1 sending.loop.in_flight ≡ true
unfolding program
in_flight_one = refl

history : Reach config world initial answered
history =
    next
      (next (next (next here (appended 1 append-one)) (appended 2 append-two)) (flushed flush_two))
      (responded 1 failed_response in_flight_one respond_one)

Reach-IsConsistent_example : IsConsistent config world answered
Reach-IsConsistent_example = Reach-IsConsistent config world (inl refl) objects history

Reach-IsLive_example : IsLive config world answered
Reach-IsLive_example = Reach-IsLive config world (inl refl) objects history

Reach-IsPaced_example : IsPaced config world answered
Reach-IsPaced_example = Reach-IsPaced config world (λ n. omega arith) objects history

due-two : due config world (9 * second) two ≡ 1 ∷ 2 ∷ []
unfolding program
due-two = refl

-- A flush of two transactions in progress, of which the first has failed.
abbrev flushing : Manager
unfolding program
flushing = record sending { trs_to_flush = some (2 ∷ []) }

tr_error_replays_example :
    Returns (IsReplayed config 1 (2 ∷ []) flushing) (tr_error config world 1 flushing)
unfolding program
tr_error_replays_example = tr_error_replays config world 1 (2 ∷ []) flushing refl (omega arith)

tr_error_rejects_example :
    IsRejected 1 answered (tr_error_reject_request config world 1 answered)
    × (1 < (answered.objects 1).error_count + 1
        → Returns (IsRejected 1 answered) (tr_error config world 1 answered))
tr_error_rejects_example = tr_error_rejects config world 1 answered
