-- ===== src/WriteQueue/Invariant.antt =====
-- What holds of a write queue however its callers interleave.
use mathlib.Core.List.{append_assoc, append-nil}
use cppmcp.Base.{
  ℕ, ◌+◌, ◌≤◌, ◌<◌, ◌≡◌, ◌≢◌, refl, sym, ap, ◌∙◌, String, Bool, true, false, List, [], ◌∷◌, ◌++◌,
  arith, length, length-append,
}
use cppmcp.WriteQueue.{QueueOverflowPolicy}
use cppmcp.WriteQueue.Steps.{
  System, start, enqueue_step, arm_step, shutdown_step, failed_step, completed_step, Step, enqueues,
  arms, shuts_down, write_fails, write_completes, Reach, here, next,
}

-- The writes that are due or running.
abbrev pub outstanding : System → ℕ
outstanding s = s.arming + length s.in_flight

pub record Inv (s : System) : Type 0 where
  pub one : outstanding s ≤ 1
  pub gate : s.q.active ≡ true → s.q.writing ≡ true → outstanding s ≡ 1
  pub free : s.q.active ≡ true → s.q.writing ≡ false → outstanding s ≡ 0
  pub no_lost_item : s.q.active ≡ true → s.q.writing ≡ false → s.q.queue ≡ []
  pub armed : s.q.active ≡ true → 0 < s.arming → s.q.queue ≢ []
  pub order : s.entered ≡ s.written ++ (s.q.queue ++ s.discarded)
  pub kept : s.q.active ≡ true → s.discarded ≡ []
  pub quiet : s.q.active ≡ true → s.errors ≡ 0
  pub signalled_once : s.errors ≤ 1

pub start-Inv : (m : ℕ) (p : QueueOverflowPolicy) (h : Bool) → Inv (start m p h)
unfolding start
start-Inv m p h = ground arith

module _ {A : Type 0} where
  push_order :
      (e w q d : List A) (x : A)
      → e ≡ w ++ (q ++ d)
      → d ≡ []
      → e ++ x ∷ [] ≡ w ++ ((q ++ x ∷ []) ++ d)
  push_order e w q d x h k = rw (h, k) (simp (append-nil, append_assoc))

  pop_order : (e w q d : List A) (x : A) → e ≡ w ++ ((x ∷ q) ++ d) → e ≡ (w ++ x ∷ []) ++ (q ++ d)
  pop_order e w q d x h = h ∙ sym (append_assoc w (x ∷ []) (q ++ d))

  shut_order : (e w q d : List A) → e ≡ w ++ (q ++ d) → e ≡ w ++ ([] ++ (q ++ d))
  shut_order e w q d h = h

enqueue_step-Inv : (s : System) (item : String) → Inv s → Inv (enqueue_step s item)
unfolding enqueue_step
enqueue_step-Inv s item v =
    ground (arith, push_order s.entered s.written s.q.queue s.discarded item v.order)

module _ (s : System) (v : Inv s) where
  arm_step-Inv_at : (queue : List String) → s.q.queue ≡ queue → 0 < s.arming → Inv (arm_step s)
  unfolding arm_step
  arm_step-Inv_at [] e due = ground arith
  arm_step-Inv_at (item ∷ rest) e due =
      ground (arith, v.order, pop_order s.entered s.written rest s.discarded item)

  arm_step-Inv : 0 < s.arming → Inv (arm_step s)
  arm_step-Inv = arm_step-Inv_at s.q.queue refl

  shutdown_step-Inv : Inv (shutdown_step s)
  unfolding shutdown_step
  shutdown_step-Inv = ground arith

  failed_step-Inv :
      (before : List String) (item : String) (after : List String)
      → s.in_flight ≡ before ++ item ∷ after
      → Inv (failed_step s (before ++ after))
  unfolding failed_step
  failed_step-Inv before item after h =
      ground (arith, ap length h, length-append before (item ∷ after), length-append before after)

  completed_step-Inv :
      (before : List String) (item : String) (after : List String)
      → s.in_flight ≡ before ++ item ∷ after
      → Inv (completed_step s (before ++ after))
  unfolding completed_step
  completed_step-Inv before item after h =
      ground (arith, ap length h, length-append before (item ∷ after), length-append before after)

-- Every step of any thread keeps the invariant.
pub Step-Inv : {s t : System} → Step s t → Inv s → Inv t
Step-Inv {s} (enqueues item) v = enqueue_step-Inv s item v
Step-Inv {s} (arms due) v = arm_step-Inv s v due
Step-Inv {s} shuts_down v = shutdown_step-Inv s v
Step-Inv {s} (write_fails before item after h) v = failed_step-Inv s v before item after h
Step-Inv {s} (write_completes before item after h) v = completed_step-Inv s v before item after h

pub Reach-Inv : {s t : System} → Inv s → Reach s t → Inv t
Reach-Inv v here = v
Reach-Inv v (next r st) = Step-Inv st (Reach-Inv v r)
