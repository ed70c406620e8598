-- ===== src/WriteQueue/Tests.antt =====
-- A run of two writers and a shutdown, and the theorems about the queue at its states.
use cppmcp.Base.{◌≤◌, ◌≡◌, refl, true, [], ◌∷◌, ◌++◌, arith}
use cppmcp.WriteQueue.{drop_newest}
use cppmcp.WriteQueue.Steps.{
  System, start, enqueue_step, arm_step, shutdown_step, completed_step, Reach, here, next, enqueues,
  arms, shuts_down,
}
use cppmcp.WriteQueue.Invariant.{outstanding}
use cppmcp.WriteQueue.Guarantees.{Reach-one_write, Reach-order, Reach-no_lost_item}
use cppmcp.WriteQueue.Bytes.{total, Reach-bytes_bounded}

-- "ab" is written while "cde" waits; the limit is 4 bytes, so "f" and "g" are refused or not.
abbrev two_queued : System
two_queued = enqueue_step (arm_step (enqueue_step (start 4 drop_newest true) "ab")) "cde"

run : Unit {0}
unfolding start enqueue_step arm_step shutdown_step completed_step total
run = tt

two_queued_state :
    (two_queued.q.queue ≡ "cde" ∷ [])
    × (two_queued.in_flight ≡ "ab" ∷ [])
    × (two_queued.q.queued_bytes ≡ 3)
unfolding run
two_queued_state = (refl, refl, refl)

too_large : (enqueue_step two_queued "fg").q.queue ≡ "cde" ∷ []
unfolding run
too_large = refl

two_queued-Reach : Reach (start 4 drop_newest true) two_queued
unfolding run
two_queued-Reach = next (next (next here (enqueues "ab")) (arms (omega arith))) (enqueues "cde")

abbrev closed : System
closed = shutdown_step two_queued

Reach-one_write_example : outstanding two_queued ≤ 1
Reach-one_write_example = Reach-one_write 4 drop_newest true two_queued two_queued-Reach

Reach-order_example : closed.entered ≡ closed.written ++ (closed.q.queue ++ closed.discarded)
Reach-order_example = Reach-order 4 drop_newest true closed (next two_queued-Reach shuts_down)

Reach-no_lost_item_example : outstanding two_queued ≡ 1
unfolding run
Reach-no_lost_item_example =
    Reach-no_lost_item 4 drop_newest true two_queued two_queued-Reach refl (λ e. cc)

Reach-bytes_bounded_example :
    (total two_queued.q.queue ≤ 4) × (two_queued.q.queued_bytes ≡ total two_queued.q.queue)
unfolding run
Reach-bytes_bounded_example =
    Reach-bytes_bounded 4 drop_newest true two_queued (omega arith) (omega arith) two_queued-Reach
      (omega arith)
