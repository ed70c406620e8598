-- ===== src/WriteQueue.antt =====
-- include/cppmcp/async_write_queue.hpp. Each critical section of the class is a function on the
-- queue's state, and what follows the section outside the lock is its result.
pub mod Steps
pub mod Invariant
pub mod Guarantees
pub mod Bytes
pub mod Tests
use Prim.Native.String.{len}
use cppmcp.Base.{
  ℕ, ◌+◌, ◌-◌, ◌%◌, ◌^◌, String, Bool, true, false, ◌&&◌, ◌||◌, not, List, [], ◌∷◌, ◌++◌, Option,
  none, some, ltb, if◌then◌else◌,
}

pub data QueueOverflowPolicy : Type 0 where
  drop_newest close_on_error : QueueOverflowPolicy

-- `has_on_error` says whether a callback was given. The head of `queue` is the front of the deque.
pub record AsyncWriteQueue : Type 0 where
  pub queue : List String
  pub max_queued_bytes : ℕ
  pub policy : QueueOverflowPolicy
  pub has_on_error : Bool
  pub queued_bytes : ℕ
  pub writing : Bool
  pub active : Bool

unfoldable pub new_queue : ℕ → QueueOverflowPolicy → Bool → AsyncWriteQueue
new_queue max_queued_bytes policy has_on_error = record {
  queue = [];
  max_queued_bytes = max_queued_bytes;
  policy = policy;
  has_on_error = has_on_error;
  queued_bytes = 0;
  writing = false;
  active = true;
}

-- Arithmetic of `std::size_t`.
abbrev pub size_mod : ℕ
size_mod = 2 ^ 64

abbrev pub add_size : ℕ → ℕ → ℕ
add_size a b = (a + b) % size_mod

abbrev pub sub_size : ℕ → ℕ → ℕ
sub_size a b = (a + size_mod - b % size_mod) % size_mod

-- How the critical section of `enqueue` ends: an early return, the deactivation for an overflow,
-- or the item in the queue and whether this call has to arm the write.
pub data Enqueued : Type 0 where
  inactive dropped overflow_close : Enqueued
  queued : (arm : Bool) → Enqueued

abbrev overflows : AsyncWriteQueue → String → Bool
overflows q item =
    ltb 0 q.max_queued_bytes && ltb q.max_queued_bytes (add_size q.queued_bytes (len item))

refuse : QueueOverflowPolicy → AsyncWriteQueue → AsyncWriteQueue × Enqueued
refuse close_on_error q = (record q { active = false; writing = false }, overflow_close)
refuse drop_newest q = (q, dropped)

push : AsyncWriteQueue → String → AsyncWriteQueue × Enqueued
push q item = (
  record q {
    queued_bytes = add_size q.queued_bytes (len item);
    queue = q.queue ++ item ∷ [];
    writing = true;
  },
  queued (not q.writing),
)

unfoldable pub enqueue : AsyncWriteQueue → String → AsyncWriteQueue × Enqueued
unfolding refuse push
enqueue q item =
    if not q.active
    then (q, inactive)
    else if overflows q item
    then refuse q.policy q
    else push q item

-- What `enqueue` returns.
unfoldable pub accepted : Enqueued → Bool
accepted (queued arm) = true
accepted _ = false

unfoldable pub shutdown : AsyncWriteQueue → AsyncWriteQueue
shutdown q = record q { active = false; queued_bytes = 0; queue = [] }

take_front : AsyncWriteQueue → List String → AsyncWriteQueue × Option String
take_front q [] = (record q { writing = false }, none)
take_front q (item ∷ rest) =
    (record q { queued_bytes = sub_size q.queued_bytes (len item); queue = rest }, some item)

-- The critical section of `arm_write`: the buffer to hand to `do_write_`, if there is one.
unfoldable pub arm_write : AsyncWriteQueue → AsyncWriteQueue × Option String
unfolding take_front
arm_write q = if q.active then take_front q q.queue else (record q { writing = false }, none)

-- `on_write_complete` with an error: the new state, and whether `on_error_` is called.
unfoldable pub on_write_error : AsyncWriteQueue → AsyncWriteQueue × Bool
on_write_error q = (record q { active = false; writing = false }, q.active && q.has_on_error)

abbrev is_empty_list : List String → Bool
is_empty_list [] = true
is_empty_list (x ∷ xs) = false

-- `on_write_complete` without an error: the new state, and whether `arm_write` is called again.
unfoldable pub on_write_success : AsyncWriteQueue → AsyncWriteQueue × Bool
on_write_success q =
    if q.active && not (is_empty_list q.queue)
    then (q, true)
    else (record q { writing = false }, false)
