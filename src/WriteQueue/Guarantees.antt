-- ===== src/WriteQueue/Guarantees.antt =====
-- What a write queue guarantees to its users in every reachable state.
use cppmcp.Base.{ℕ, ◌≤◌, ◌≡◌, ◌≢◌, ◌⊎◌, refl, Bool, true, false, [], ◌++◌, arith}
use cppmcp.WriteQueue.{QueueOverflowPolicy}
use cppmcp.WriteQueue.Steps.{
  System, start, enqueue_step, arm_step, shutdown_step, failed_step, completed_step, Step, enqueues,
  arms, shuts_down, write_fails, write_completes, Reach, here, next,
}
use cppmcp.WriteQueue.Invariant.{outstanding, start-Inv, Reach-Inv}

module _ (m : ℕ) (p : QueueOverflowPolicy) (h : Bool) where
  -- However calls of enqueue, arm_write, shutdown and the completions of writes interleave on a new
  -- queue, the writes that are due or running are at most one.
  pub Reach-one_write : (s : System) → Reach (start m p h) s → outstanding s ≤ 1
  Reach-one_write s r = (Reach-Inv (start-Inv m p h) r).one

  -- In every reachable state the items handed to `do_write_`, then those in the queue, then those
  -- that `shutdown` discarded are the items that entered the queue, in the order of their entry.
  pub Reach-order :
      (s : System) → Reach (start m p h) s → s.entered ≡ s.written ++ (s.q.queue ++ s.discarded)
  Reach-order s r = (Reach-Inv (start-Inv m p h) r).order

  -- No item is left behind: if a reachable queue is active and holds an item, then exactly one write
  -- is due or running.
  pub Reach-no_lost_item :
      (s : System) → Reach (start m p h) s → s.q.active ≡ true → s.q.queue ≢ [] → outstanding s ≡ 1
  Reach-no_lost_item s r a q =
      let v = Reach-Inv (start-Inv m p h) r in ground (arith, v.gate, v.no_lost_item)

  -- In every reachable state the error callback has run at most once, and not at all while the
  -- queue is active.
  pub Reach-signalled_once :
      (s : System)
      → Reach (start m p h) s
      → (s.errors ≤ 1) × ((s.q.active ≡ false) ⊎ (s.errors ≡ 0))
  Reach-signalled_once s r =
      let v = Reach-Inv (start-Inv m p h) r in (v.signalled_once, ground (arith, v.quiet))

record Stays (s t : System) : Type 0 where
  stopped : t.q.active ≡ false
  same_written : t.written ≡ s.written
  same_entered : t.entered ≡ s.entered

Step-Stays : {s t : System} → Step s t → s.q.active ≡ false → Stays s t
unfolding enqueue_step arm_step shutdown_step failed_step completed_step
Step-Stays (enqueues item) a = ground arith
Step-Stays (arms due) a = ground arith
Step-Stays shuts_down a = ground arith
Step-Stays (write_fails before item after h) a = ground arith
Step-Stays (write_completes before item after h) a = ground arith

Reach-Stays : {s t : System} → s.q.active ≡ false → Reach s t → Stays s t
Reach-Stays a here = record { stopped = a; same_written = refl; same_entered = refl }
Reach-Stays {s} {t} a (next {t = u} r st) =
    let before = Reach-Stays a r in let last = Step-Stays st before.stopped in ground arith

-- A queue that is no longer active stays so, hands nothing more to `do_write_` and takes no item,
-- whatever steps follow.
pub Reach-inactive :
    (s t : System)
    → s.q.active ≡ false
    → Reach s t
    → (t.q.active ≡ false) × (t.written ≡ s.written) × (t.entered ≡ s.entered)
Reach-inactive s t a r =
    let stays = Reach-Stays a r in (stays.stopped, stays.same_written, stays.same_entered)
