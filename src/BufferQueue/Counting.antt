-- ===== src/BufferQueue/Counting.antt =====
-- Counting the items of the queue over all sequences of the threads' events.
use white_board_server.Prelude.{
  ℕ, ◌+◌, ◌≡◌, refl, Bool, Option, none, some, List, [], ◌∷◌, ◌++◌, ◌==◌, arith, if◌then◌else◌,
  zero, suc, Bool-cases, inl, inr,
}
use white_board_server.BufferQueue.{
  BufferQueue, Event, swap, push_to, pop_from, pop, insert_at, step, run, queue_at,
}

module _ {A : Type 0} (test : A → Bool) where
  -- How many items pass a test.
  abbrev pub count : List A → ℕ
  count [] = 0
  count (x ∷ rest) = (if test x then 1 else 0) + count rest

  abbrev pub count_pending : List (ℕ × A) → ℕ
  count_pending [] = 0
  count_pending ((i, x) ∷ rest) = (if test x then 1 else 0) + count_pending rest

  -- The items in a queue, those of pending pushes included.
  abbrev pub held : BufferQueue A → ℕ
  held b = count b.queue0 + count b.queue1 + count_pending b.pending

  -- The items whose push begins in a sequence of events.
  abbrev pub begun : List (Event A) → ℕ
  begun [] = 0
  begun (Event.begins x ∷ rest) = (if test x then 1 else 0) + begun rest
  begun (Event.inserts n ∷ rest) = begun rest
  begun (Event.pops ∷ rest) = begun rest
  begun (Event.swaps ∷ rest) = begun rest

  count-append : (xs ys : List A) → count (xs ++ ys) ≡ count xs + count ys
  count-append [] ys = omega arith
  count-append (x ∷ xs) ys = omega (arith, count-append xs ys)

  count-push_to :
      (i : ℕ) (x : A) (b : BufferQueue A)
      → held (push_to i x b) ≡ held b + (if test x then 1 else 0)
  unfolding push_to
  count-push_to i x b = elim (Bool-cases (i == 0)) [
    | inl e ↦ ground (arith, e, count-append b.queue0 (x ∷ []))
    | inr e ↦ ground (arith, e, count-append b.queue1 (x ∷ []))
  ]

  abbrev count_option : Option A → ℕ
  count_option none = 0
  count_option (some x) = if test x then 1 else 0

  count-pop_from :
      (i : ℕ) (q : List A) (b : BufferQueue A)
      → queue_at b i ≡ q
      → count_option (pop_from i q b).0 + held (pop_from i q b).1 ≡ held b
  unfolding pop_from
  count-pop_from i [] b h = omega arith
  count-pop_from i (x ∷ rest) b h = elim (Bool-cases (i == 0)) [
    | inl e ↦ ground (arith, e, h)
    | inr e ↦ ground (arith, e, h)
  ]

  abbrev weight : Option (ℕ × A) → ℕ
  weight none = 0
  weight (some (i, x)) = if test x then 1 else 0

  count-insert_at :
      (n : ℕ) (l : List (ℕ × A))
      → weight (insert_at n l).0 + count_pending (insert_at n l).1 ≡ count_pending l
  unfolding insert_at
  count-insert_at n [] = refl
  count-insert_at zero (e ∷ rest) = refl
  count-insert_at (suc n) (e ∷ rest) = omega (arith, count-insert_at n rest)

  count-step :
      (e : Event A) (b : BufferQueue A)
      → count_option (step e b).0 + held (step e b).1 ≡ held b + begun (e ∷ [])
  unfolding step pop swap
  count-step (Event.begins x) b = omega arith
  count-step (Event.pops) b =
      omega (arith, count-pop_from b.queue_index (queue_at b b.queue_index) b refl)
  count-step (Event.swaps) b = omega arith
  count-step (Event.inserts n) b = by_found (insert_at n b.pending) (count-insert_at n b.pending)
    where
      by_found :
          (r : Option (ℕ × A) × List (ℕ × A))
          → weight r.0 + count_pending r.1 ≡ count_pending b.pending
          → let after : Option A × BufferQueue A = elim r.0 [
            | none ↦ (none, b)
            | some (i, x) ↦ (none, push_to i x (record b { pending = r.1 }))
          ] in
            count_option after.0 + held after.1 ≡ held b + 0
      by_found (none, left) h = omega arith
      by_found (some (i, x), left) h =
          omega (arith, h, count-push_to i x (record b { pending = left }))

  -- Whatever sequence of events happens, for every test of items: the items that pass it and were
  -- popped or are in the queue at the end, pending pushes included, are as many as those that were
  -- in the queue at first or whose push began; so no item is lost and none is popped twice.
  pub run-count :
      (events : List (Event A)) (b : BufferQueue A)
      → let (popped, b') = run events b in count popped + held b' ≡ held b + begun events
  unfolding run
  run-count [] b = omega arith
  run-count (e ∷ rest) b =
      ground (arith, count-step e b, run-count rest (step e b).1, begun-cons e rest)
    where
      begun-cons :
          (e : Event A) (rest : List (Event A)) → begun (e ∷ rest) ≡ begun (e ∷ []) + begun rest
      begun-cons (Event.begins x) rest = omega arith
      begun-cons (Event.inserts n) rest = omega arith
      begun-cons (Event.pops) rest = omega arith
      begun-cons (Event.swaps) rest = omega arith
