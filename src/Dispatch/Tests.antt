-- ===== src/Dispatch/Tests.antt =====
-- Two services and their opcodes, and the theorems applied to them.
use white_board_server.Prelude.{ℕ, true, List, [], ◌∷◌}
use white_board_server.Containers.Ord.{nat_ord}
use white_board_server.Dispatch.{Dispatcher}

abbrev other_service : Dispatcher
other_service = record { dispatch_rules = (3, 1) ∷ []; subscribers = []; is_running = true }

abbrev account_opcodes : List ℕ
account_opcodes = 101 ∷ 104 ∷ 105 ∷ []
