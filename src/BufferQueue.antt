-- ===== src/BufferQueue.antt =====
-- class DoubleBufferQueue (framework/base/double_buffer_queue.h). Threads push; the thread that
-- pops is the one that swaps. A push reads the index first and takes the queue's lock later, so it
-- is two events with others between them; `pending` holds the pushes between the two.
pub mod Counting
pub mod Tests
use white_board_server.Prelude.{
  ℕ, ◌+◌, ◌%◌, Bool, true, false, Option, none, some, List, [], ◌∷◌, ◌++◌, ◌==◌, if◌then◌else◌,
  length, zero, suc,
}

pub record BufferQueue (A : Type 0) : Type 0 where
  pub queue0 : List A
  pub queue1 : List A
  pub queue_index : ℕ
  pub pending : List (ℕ × A)

-- NextQueueIndex
abbrev pub next_queue_index : ℕ → ℕ
next_queue_index v = (v + 1) % 2

pub data Event (A : Type 0) : Type 0 where
  begins : A → Event A
  inserts : ℕ → Event A
  pops swaps : Event A

module _ {A : Type 0} where
  -- The constructor
  pub new_queue : BufferQueue A
  new_queue = record { queue0 = []; queue1 = []; queue_index = 0; pending = [] }

  -- queues_[i]
  abbrev pub queue_at : BufferQueue A → ℕ → List A
  queue_at b i = if i == 0 then b.queue0 else b.queue1

  abbrev pub set_queue : BufferQueue A → ℕ → List A → BufferQueue A
  set_queue b i q = if i == 0 then record b { queue0 = q } else record b { queue1 = q }

  pub swap : BufferQueue A → BufferQueue A
  swap b = record b { queue_index = next_queue_index b.queue_index }

  -- The part of push under the lock.
  push_to : ℕ → A → BufferQueue A → BufferQueue A
  push_to i x b = set_queue b i (queue_at b i ++ x ∷ [])

  -- push, with nothing between its two parts.
  pub push : A → BufferQueue A → BufferQueue A
  unfolding push_to
  push x b = push_to (next_queue_index b.queue_index) x b

  -- pop: the item, or `none`, nullptr, where it returns false.
  pop_from : ℕ → List A → BufferQueue A → Option A × BufferQueue A
  pop_from i [] b = (none, b)
  pop_from i (x ∷ rest) b = (some x, set_queue b i rest)

  pub pop : BufferQueue A → Option A × BufferQueue A
  unfolding pop_from
  pop b = pop_from b.queue_index (queue_at b b.queue_index) b

  pub size : BufferQueue A → ℕ
  size b = length (queue_at b b.queue_index)

  pub empty : BufferQueue A → Bool
  empty b = size b == 0

  -- The push at a place among the pending ones ends.
  insert_at : ℕ → List (ℕ × A) → Option (ℕ × A) × List (ℕ × A)
  insert_at n [] = (none, [])
  insert_at zero (e ∷ rest) = (some e, rest)
  insert_at (suc n) (e ∷ rest) = let (found, left) = insert_at n rest in (found, e ∷ left)

  -- One event: the item that it pops, if any, and the queue after it.
  pub step : Event A → BufferQueue A → Option A × BufferQueue A
  unfolding push_to pop insert_at swap
  step (begins x) b = (none, record b { pending = (next_queue_index b.queue_index, x) ∷ b.pending })
  step (inserts n) b =
      let (found, left) = insert_at n b.pending in
      elim found [
        | none ↦ (none, b)
        | some (i, x) ↦ (none, push_to i x (record b { pending = left }))
      ]
  step pops b = pop b
  step swaps b = (none, swap b)

  -- A sequence of events: what was popped, in order, and the queue at the end.
  pub run : List (Event A) → BufferQueue A → List A × BufferQueue A
  unfolding step
  run [] b = ([], b)
  run (e ∷ rest) b =
      let (out, b') = step e b in
      let (popped, b'') = run rest b' in (elim out [ none ↦ popped | some x ↦ x ∷ popped ], b'')
