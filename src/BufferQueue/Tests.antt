-- ===== src/BufferQueue/Tests.antt =====
-- Two pushes with a swap between the parts of the first, and the theorem applied to them.
use white_board_server.Prelude.{ℕ, ◌+◌, ◌≡◌, List, [], ◌∷◌, ◌==◌}
use white_board_server.BufferQueue.{Event, new_queue, run}
use white_board_server.BufferQueue.Counting.{count, held, begun, run-count}

abbrev crossing : List (Event ℕ)
crossing =
    Event.begins 7
    ∷ Event.swaps
    ∷ Event.begins 8
    ∷ Event.inserts 0
    ∷ Event.inserts 0
    ∷ Event.pops
    ∷ Event.swaps
    ∷ Event.pops
    ∷ []

run-count_example :
    let (popped, b') = run crossing new_queue in
    count (◌==◌ 7) popped + held (◌==◌ 7) b' ≡ held (◌==◌ 7) new_queue + begun (◌==◌ 7) crossing
run-count_example = run-count (◌==◌ 7) crossing new_queue
