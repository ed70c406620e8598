-- ===== src/WriteQueue/Bytes.antt =====
-- The byte count of a write queue, and the bound on it.
use Prim.Native.String.{len}
use cppmcp.Base.{
  ℕ, ◌+◌, ◌%◌, ◌^◌, ◌≤◌, ◌<◌, ◌≡◌, refl, String, Bool, List, [], ◌∷◌, ◌++◌, arith, All,
}
use cppmcp.WriteQueue.{QueueOverflowPolicy, size_mod, add_size, sub_size}
use cppmcp.WriteQueue.Steps.{
  System, start, enqueue_step, arm_step, shutdown_step, failed_step, completed_step, Step, enqueues,
  arms, shuts_down, write_fails, write_completes, Reach, here, next,
}

-- The bytes that wait in the queue.
unfoldable pub total : List String → ℕ
total [] = 0
total (x ∷ xs) = len x + total xs

total-append : (xs : List String) (x : String) → total (xs ++ x ∷ []) ≡ total xs + len x
unfolding total
total-append [] x = omega arith
total-append (y ∷ xs) x = omega (arith, total-append xs x)

push_counted :
    (c : ℕ) (q : List String) (x : String)
    → c ≡ total q % size_mod
    → add_size c (len x) ≡ total (q ++ x ∷ []) % size_mod
push_counted c q x h = omega (arith, total-append q x)

pop_counted :
    (c : ℕ) (q : List String) (x : String)
    → c ≡ total (x ∷ q) % size_mod
    → sub_size c (len x) ≡ total q % size_mod
unfolding total
pop_counted c q x h = omega arith

-- Texts that a `std::string` can hold.
abbrev pub IsShort : String → Type 0
IsShort x = len x < 2 ^ 63

All-snoc : (xs : List String) (x : String) → All IsShort (xs ++ x ∷ []) → All IsShort xs × IsShort x
All-snoc [] x h = (tt, h.0)
All-snoc (y ∷ xs) x h = let rest = All-snoc xs x h.1 in ((h.0, rest.0), rest.1)

-- The count is the bytes in the queue modulo the width of `std::size_t`; the limit is fixed.
record IsCounted (m : ℕ) (s : System) : Type 0 where
  limit : s.q.max_queued_bytes ≡ m
  counted : s.q.queued_bytes ≡ total s.q.queue % size_mod
  bounded : All IsShort s.entered → total s.q.queue ≤ m

start-IsCounted : (m : ℕ) (p : QueueOverflowPolicy) (h : Bool) → IsCounted m (start m p h)
unfolding start total
start-IsCounted m p h = ground arith

module _ {m : ℕ} (positive : 0 < m) (small : m ≤ 2 ^ 63) (s : System) (v : IsCounted m s) where
  enqueue_step-IsCounted : (item : String) → IsCounted m (enqueue_step s item)
  unfolding enqueue_step
  enqueue_step-IsCounted item = ground (
    arith,
    push_counted s.q.queued_bytes s.q.queue item,
    total-append s.q.queue item,
    All-snoc s.entered item,
  )

  arm_step-IsCounted_at : (queue : List String) → s.q.queue ≡ queue → IsCounted m (arm_step s)
  unfolding arm_step total
  arm_step-IsCounted_at [] e = ground arith
  arm_step-IsCounted_at (item ∷ rest) e = ground (arith, pop_counted s.q.queued_bytes rest item)

  shutdown_step-IsCounted : IsCounted m (shutdown_step s)
  unfolding shutdown_step total
  shutdown_step-IsCounted = ground arith

  failed_step-IsCounted : (rest : List String) → IsCounted m (failed_step s rest)
  unfolding failed_step
  failed_step-IsCounted rest = ground arith

  completed_step-IsCounted : (rest : List String) → IsCounted m (completed_step s rest)
  unfolding completed_step
  completed_step-IsCounted rest = ground arith

module _ {m : ℕ} (positive : 0 < m) (small : m ≤ 2 ^ 63) where
  Step-IsCounted : {s t : System} → Step s t → IsCounted m s → IsCounted m t
  Step-IsCounted {s} (enqueues item) v = enqueue_step-IsCounted positive small s v item
  Step-IsCounted {s} (arms due) v = arm_step-IsCounted_at positive small s v s.q.queue refl
  Step-IsCounted {s} shuts_down v = shutdown_step-IsCounted positive small s v
  Step-IsCounted {s} (write_fails before item after h) v =
      failed_step-IsCounted positive small s v (before ++ after)
  Step-IsCounted {s} (write_completes before item after h) v =
      completed_step-IsCounted positive small s v (before ++ after)

  Reach-IsCounted : {s t : System} → IsCounted m s → Reach s t → IsCounted m t
  Reach-IsCounted v here = v
  Reach-IsCounted v (next r st) = Step-IsCounted st (Reach-IsCounted v r)

-- A limit between 1 and 2^63 holds: if each item that entered is shorter than 2^63 bytes, then the
-- bytes in the queue of any reachable state are within the limit, and the count is exact.
pub Reach-bytes_bounded :
    (m : ℕ) (p : QueueOverflowPolicy) (h : Bool) (s : System)
    → 0 < m
    → m ≤ 2 ^ 63
    → Reach (start m p h) s
    → All IsShort s.entered
    → (total s.q.queue ≤ m) × (s.q.queued_bytes ≡ total s.q.queue)
Reach-bytes_bounded m p h s positive small r short =
    let v = Reach-IsCounted positive small (start-IsCounted m p h) r in
    let fits = v.bounded short in (fits, omega (arith, v.counted))
