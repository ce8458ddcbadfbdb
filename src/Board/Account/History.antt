-- ===== src/Board/Account/History.antt =====
-- The server as a sequence of events: connections come and go, packets arrive, rooms expire.
use white_board_server.Prelude.{ℕ, ◌≡◌, Bool, true, Option, none, some, [], arith, subst}
use white_board_server.Containers.Ord.{Bytes}
use white_board_server.Containers.Map.{find}
use white_board_server.Board.Message.{Codec}
use white_board_server.Board.World.{World}
use white_board_server.Board.Invariant.{Inv}
use white_board_server.Board.Manager.{update_manager}
use white_board_server.Board.Manager.Expiry.{update_manager_lem}
use white_board_server.Board.Account.{
  Connection, add_tcp_connection, on_conn_closed, on_recv_packet,
}
use white_board_server.Board.Account.Closing.{add_tcp_connection_lem, on_conn_closed_lem}
use white_board_server.Board.Account.Safe.{on_recv_packet-Inv}

-- The store when the server starts.
abbrev pub initial : World
initial = record {
  rooms = λ p. none;
  sessions = λ s. none;
  next_room = 0;
  next_session = 0;
  room_map = [];
  player_sessions = [];
  tcp_connection_list = [];
  can_login = true;
  sent = [];
}

pub initial-Inv : Inv initial
unfolding find
initial-Inv = record {
  listed = λ k p h. absurd (ground (arith, h));
  owned = λ p r h. absurd (ground (arith, h));
  inside = λ s p x h j. absurd (ground (arith, h));
  member = λ p s r h m. absurd (ground (arith, h));
  ordered = λ p r h. absurd (ground (arith, h));
  fresh_room = λ p r h. absurd (ground (arith, h));
  registered = λ id s h. absurd (ground (arith, h));
  known = λ s x h. absurd (ground (arith, h));
  sorted = tt;
  fresh_session = λ s x h. absurd (ground (arith, h));
}

module _ ⦃c : Codec⦄ where
  -- One event that ends without a fault. Time may move as it likes.
  pub data Step (w w' : World) : Type 0 where
    connects : (k : Connection) → add_tcp_connection k w ≡ some (tt, w') → Step w w'
    closes :
        (k : Connection) (now : ℕ) {b : Bool} → on_conn_closed k now w ≡ some (b, w') → Step w w'
    receives :
        (k : Connection) (opcode now : ℕ) (body : Bytes) {b : Bool}
        → on_recv_packet k opcode body now w ≡ some (b, w')
        → Step w w'
    expires : (now : ℕ) → update_manager now w ≡ some (tt, w') → Step w w'

  pub data Reach : World → Type 0 where
    start : Reach initial
    next : {w w' : World} → Reach w → Step w w' → Reach w'

  ends_at :
      {A : Type 0} (P : World → Type 0) (o : Option (A × World)) (w' v : World) (a b : A)
      → o ≡ some (a, w')
      → o ≡ some (b, v)
      → P v
      → P w'
  ends_at P o w' v a b e f q = subst P (ground (arith, e, f)) q

  Step-Inv : {w w' : World} → Step w w' → Inv w → Inv w'
  Step-Inv {w} {w'} (connects k e) i =
      let (a, v, f, q) = add_tcp_connection_lem k w i in
      ends_at Inv (add_tcp_connection k w) w' v tt a e f q.0
  Step-Inv {w} {w'} (closes k now {b} e) i =
      let (a, v, f, q) = on_conn_closed_lem k now w i in
      ends_at Inv (on_conn_closed k now w) w' v b a e f q.0
  Step-Inv {w} {w'} (receives k opcode now body {b} e) i =
      on_recv_packet-Inv k opcode now body w w' b i e
  Step-Inv {w} {w'} (expires now e) i =
      let (a, v, f, q) = update_manager_lem now w i in
      ends_at Inv (update_manager now w) w' v tt a e f q.inv

  -- Whatever happened before, the store is well formed.
  pub Reach-Inv : {w : World} → Reach w → Inv w
  Reach-Inv start = initial-Inv
  Reach-Inv (next r st) = Step-Inv st (Reach-Inv r)
