-- ===== src/WriteQueue/Steps.antt =====
-- The threads that use a write queue: any interleaving of the critical sections, where a section
-- is one step and the calls that it leads to wait for a later step.
use cppmcp.Base.{
  ℕ, ◌+◌, ◌-◌, ◌<◌, ◌≡◌, String, Bool, List, [], ◌∷◌, ◌++◌, Option, none, some, if◌then◌else◌,
}
use cppmcp.WriteQueue.{
  AsyncWriteQueue, Enqueued, inactive, dropped, overflow_close, queued, enqueue, shutdown,
  arm_write, on_write_error, on_write_success, new_queue, QueueOverflowPolicy,
}

-- `arming` counts the calls of `arm_write` that are due, `in_flight` holds the buffer of each
-- write that has not completed, `errors` counts the calls of `on_error_`. The histories: what
-- `enqueue` put into the queue, what left it for `do_write_`, what `shutdown` discarded.
pub record System : Type 0 where
  pub q : AsyncWriteQueue
  pub arming : ℕ
  pub in_flight : List String
  pub errors : ℕ
  pub entered : List String
  pub written : List String
  pub discarded : List String

unfoldable pub start : ℕ → QueueOverflowPolicy → Bool → System
unfolding new_queue
start max_queued_bytes policy has_on_error = record {
  q = new_queue max_queued_bytes policy has_on_error;
  arming = 0;
  in_flight = [];
  errors = 0;
  entered = [];
  written = [];
  discarded = [];
}

abbrev pub one_if : Bool → ℕ
one_if b = if b then 1 else 0

after_enqueue : System → String → AsyncWriteQueue → Enqueued → System
after_enqueue s item q inactive = record s { q = q }
after_enqueue s item q dropped = record s { q = q }
after_enqueue s item q overflow_close = record s {
  q = q;
  errors = s.errors + one_if q.has_on_error;
}
after_enqueue s item q (queued arm) = record s {
  q = q;
  arming = s.arming + one_if arm;
  entered = s.entered ++ item ∷ [];
}

unfoldable pub enqueue_step : System → String → System
unfolding after_enqueue enqueue
enqueue_step s item = let (q, outcome) = enqueue s.q item in after_enqueue s item q outcome

after_arm : System → AsyncWriteQueue → Option String → System
after_arm s q none = record s { q = q; arming = s.arming - 1 }
after_arm s q (some item) = record s {
  q = q;
  arming = s.arming - 1;
  in_flight = item ∷ s.in_flight;
  written = s.written ++ item ∷ [];
}

unfoldable pub arm_step : System → System
unfolding after_arm arm_write
arm_step s = let (q, buffer) = arm_write s.q in after_arm s q buffer

unfoldable pub shutdown_step : System → System
unfolding shutdown
shutdown_step s = record s { q = shutdown s.q; discarded = s.q.queue ++ s.discarded }

-- The write of a buffer completes; `rest` are the other writes in flight.
unfoldable pub failed_step : System → List String → System
unfolding on_write_error
failed_step s rest =
    let (q, signal) = on_write_error s.q in
    record s { q = q; in_flight = rest; errors = s.errors + one_if signal }

unfoldable pub completed_step : System → List String → System
unfolding on_write_success
completed_step s rest =
    let (q, more) = on_write_success s.q in
    record s { q = q; in_flight = rest; arming = s.arming + one_if more }

pub data Step (s : System) : System → Type 0 where
  enqueues : (item : String) → Step s (enqueue_step s item)
  arms : 0 < s.arming → Step s (arm_step s)
  shuts_down : Step s (shutdown_step s)
  write_fails :
      (before : List String) (item : String) (after : List String)
      → s.in_flight ≡ before ++ item ∷ after
      → Step s (failed_step s (before ++ after))
  write_completes :
      (before : List String) (item : String) (after : List String)
      → s.in_flight ≡ before ++ item ∷ after
      → Step s (completed_step s (before ++ after))

pub data Reach (s : System) : System → Type 0 where
  here : Reach s s
  next : {t u : System} → Reach s t → Step t u → Reach s u
