-- ===== src/Board/Account/Examples.antt =====
-- A run of the server: a player connects and creates a room.
use white_board_server.Prelude.{◌≡◌, refl, some, [], ◌∷◌, arith, if◌then◌else◌, ◌==◌, none}
use white_board_server.Containers.Map.{find, put}
use white_board_server.Board.Message.{proto_buff_room_operate}
use white_board_server.Board.World.{World, Ends, load_session, store_session}
use white_board_server.Board.Invariant.{Inv}
use white_board_server.Board.Account.{
  Connection, add_tcp_connection, save_connection, add_player_session,
  get_player_session_by_session_id, allocate_session, set_conn, new_session, on_recv_packet,
}
use white_board_server.Board.Account.Safe.{on_recv_packet_safe}
use white_board_server.Board.Account.History.{initial, Reach, Step, Reach-Inv}
use white_board_server.Board.Tests.Wire.{wire}

abbrev ann_connection : Connection
ann_connection = record { pointer = 50; session_id = 1 ∷ [] }

abbrev connected : World
connected = record initial {
  sessions = λ s.
      if 0 == s
      then some (record (new_session (1 ∷ [])) { conn = some 50 })
      else if 0 == s
      then some (new_session (1 ∷ []))
      else none;
  next_session = 1;
  player_sessions = (1 ∷ [], 0) ∷ [];
  tcp_connection_list = (1 ∷ [], 50) ∷ [];
}

connects_step : add_tcp_connection ann_connection initial ≡ some (tt, connected)
unfolding add_tcp_connection save_connection add_player_session get_player_session_by_session_id
    allocate_session set_conn load_session store_session find put
connects_step = refl

connected-Reach : Reach connected
connected-Reach = Reach.next Reach.start (Step.connects ann_connection connects_step)

-- She asks for a room.
created :
    Ends
      (on_recv_packet ann_connection proto_buff_room_operate (2 ∷ 9 ∷ []) 10)
      connected
      (λ _ w'. Inv w')
created =
    on_recv_packet_safe ann_connection proto_buff_room_operate 10 (2 ∷ 9 ∷ []) connected
      (Reach-Inv connected-Reach) (λ e (five, _). ground (arith, five))

Reach-Inv_example : Inv created.1
Reach-Inv_example = Reach-Inv (
    Reach.next connected-Reach
      (Step.receives ann_connection proto_buff_room_operate 10 (2 ∷ 9 ∷ []) created.2))
