-- ===== src/Dispatch.antt =====
-- Which service a packet's opcode goes to: class Dispatcher (framework/server/packet_dispatcher.cpp).
-- A service is its pointer, and `none` is nullptr.
pub mod Routing
pub mod Tests
use white_board_server.Prelude.{ℕ, Bool, true, false, Option, none, some, List, [], ◌∷◌}
use white_board_server.Containers.Ord.{nat_ord}
use white_board_server.Containers.Map.{Map, find, put, erase}
use white_board_server.Containers.Set.{add, discard}

pub record Dispatcher : Type 0 where
  pub dispatch_rules : Map ℕ ℕ
  pub subscribers : List ℕ
  pub is_running : Bool

-- The loop of RegisterOpcode: it stops at an opcode that has a service, and keeps what it did.
unfoldable pub register_from : List ℕ → ℕ → Map ℕ ℕ → Bool × Map ℕ ℕ
register_from [] service rules = (true, rules)
register_from (o ∷ rest) service rules = elim (find o rules) [
  | none ↦ register_from rest service (put o service rules)
  | some _ ↦ (false, rules)
]

unfoldable pub register_opcode : List ℕ → Option ℕ → Dispatcher → Bool × Dispatcher
unfolding register_from
register_opcode opcodes none d = (false, d)
register_opcode opcodes (some service) d =
    let (good, rules) = register_from opcodes service d.dispatch_rules in
    (good, record d { dispatch_rules = rules })

deregister_from : List ℕ → Map ℕ ℕ → Map ℕ ℕ
deregister_from [] rules = rules
deregister_from (o ∷ rest) rules = elim (find o rules) [
  | none ↦ deregister_from rest rules
  | some _ ↦ deregister_from rest (erase o rules)
]

pub deregister_opcode : List ℕ → Dispatcher → Bool × Dispatcher
unfolding deregister_from
deregister_opcode opcodes d =
    (true, record d { dispatch_rules = deregister_from opcodes d.dispatch_rules })

pub subscribe_conn_closed_message : Option ℕ → Dispatcher → Bool × Dispatcher
subscribe_conn_closed_message none d = (false, d)
subscribe_conn_closed_message (some service) d =
    (true, record d { subscribers = add service d.subscribers })

pub unsubscribe_conn_closed_message : ℕ → Dispatcher → Bool × Dispatcher
unsubscribe_conn_closed_message service d =
    (true, record d { subscribers = discard service d.subscribers })

-- Start and Stop
pub start : Dispatcher → Bool × Dispatcher
start d = (true, record d { is_running = true })

pub stop : Dispatcher → Bool × Dispatcher
stop d = (true, record { dispatch_rules = []; subscribers = []; is_running = false })

-- The service that Update hands a packet of an opcode to.
abbrev pub route : ℕ → Dispatcher → Option ℕ
route opcode d = find opcode d.dispatch_rules
