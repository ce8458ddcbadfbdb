-- ===== src/Board/Tests/Runs.antt =====
-- Two players, one of them in a room with a shape: the theorems at concrete stores.
use white_board_server.Prelude.{
  ℕ, ◌+◌, ◌≡◌, refl, false, none, some, List, [], ◌∷◌, ◌++◌, arith, if◌then◌else◌, ltb,
}
use white_board_server.Containers.Ord.{Bytes, bytes_eq, bytes_lt, nat_ord, bytes_ord}
use white_board_server.Containers.Map.{find, put, insert}
use white_board_server.Containers.Set.{contains, add, discard}
use white_board_server.Board.Message.{WhiteBoardMessage, proto_buff_room_operate}
use white_board_server.Board.World.{Room, Session, World, Ends, ◌>>◌, write_room}
use white_board_server.Board.Room.{
  enter_room, leave_room, add_all, can_delete, empty_room_seconds, player_add_shape, shapes_packet,
}
use white_board_server.Board.Room.Traffic.{say, list_for, deliveries}
use white_board_server.Board.Room.Shapes.{IdsBelow, announced, add_all-IdsBelow}
use white_board_server.Board.Room.Announcing.{player_add_shape-announces}
use white_board_server.Board.Room.Entering.{entered, entered-Inv, joined, shapes_for}
use white_board_server.Board.Room.Leaving.{left, timer}
use white_board_server.Board.Room.Membership.{enter_room-joins, leave_room-leaves}
use white_board_server.Board.Room.Safe.{Good}
use white_board_server.Board.Invariant.{Inv}
use white_board_server.Board.Invariant.Updates.{opened, opened-Inv}
use white_board_server.Board.Invariant.Players.{arrived, arrived-Inv}
use white_board_server.Board.Manager.{update_manager}
use white_board_server.Board.Manager.Timer.{update_manager-exact, leave_room-expires}
use white_board_server.Board.Session.{handle_request}
use white_board_server.Board.Session.Safe.{handle_request_safe, handle_request_faults}
use white_board_server.Board.Account.{Connection, on_conn_closed}
use white_board_server.Board.Account.Closing.{is_member, recorded-Inv, on_conn_closed-removes}
use white_board_server.Board.Account.History.{initial, initial-Inv}
use white_board_server.Board.Tests.Wire.{wire, write_shape}

abbrev line : WhiteBoardMessage
line = record {
  shape_id = some 1;
  shape_type = none;
  shape_data = some (8 ∷ []);
  shape_property = none;
}

abbrev ann : Session
ann = record { conn = some 50; session_id = 1 ∷ []; room = none; usr_name = [] }

abbrev bob : Session
bob = record { conn = some 60; session_id = 2 ∷ []; room = none; usr_name = [] }

abbrev board : Room
board = record {
  room_key = 9 ∷ [];
  sessions = [];
  shape_object = (1, write_shape line) ∷ [];
  shape_max_id = 2;
  can_delete_time = 0;
}

-- Both have come, and nobody is in the room.
abbrev lobby : World
lobby = opened (arrived (arrived initial ann) bob) (9 ∷ []) board

abbrev meeting : World
meeting = entered lobby 0 0 board ann

lobby-Inv : Inv lobby
unfolding find put insert bytes_eq bytes_lt
lobby-Inv =
    opened-Inv (arrived (arrived initial ann) bob)
      (arrived-Inv (arrived initial ann) (arrived-Inv initial initial-Inv ann refl refl) bob refl
        refl)
      (9 ∷ []) board refl refl refl

meeting-Inv : Inv meeting
meeting-Inv = entered-Inv lobby 0 0 board ann lobby-Inv refl refl refl

ann-Good : Good 0 meeting
ann-Good = record { inv = meeting-Inv; live = (record ann { room = some 0 }, refl) }

bob-Good : Good 1 meeting
bob-Good = record { inv = meeting-Inv; live = (bob, refl) }

-- Bob asks for a new room under another key.
handle_request_safe_example :
    Ends (handle_request 1 proto_buff_room_operate (2 ∷ 4 ∷ []) 100) meeting (λ _ w'. Good 1 w')
handle_request_safe_example =
    handle_request_safe 1 proto_buff_room_operate 100 (2 ∷ 4 ∷ []) meeting bob-Good
      (λ e (five, _). ground (arith, five))

-- Bob asks to delete the room that Ann is in.
handle_request_faults_example :
    handle_request 1 proto_buff_room_operate (5 ∷ 9 ∷ []) 100 meeting ≡ none
unfolding find put insert bytes_eq bytes_lt add
handle_request_faults_example =
    handle_request_faults 1 100 (5 ∷ 9 ∷ []) meeting bob-Good
      (refl, (0, joined board 0, refl, refl, λ e. absurd (ground (arith, e))))

-- Ann's connection closes.
abbrev listed : World
listed = record meeting { tcp_connection_list = (1 ∷ [], 50) ∷ [] }

listed-Inv : Inv listed
listed-Inv =
    recorded-Inv {w = meeting} (λ w. record w { tcp_connection_list = (1 ∷ [], 50) ∷ [] })
      meeting-Inv refl refl refl refl refl refl

abbrev ann_connection : Connection
ann_connection = record { pointer = 50; session_id = 1 ∷ [] }

on_conn_closed-removes_example :
    Ends
      (on_conn_closed ann_connection 100)
      listed
      (λ _ w'. Inv w' × (find (1 ∷ []) w'.player_sessions ≡ none) × (is_member w' 0 0 ≡ false))
unfolding find put bytes_eq bytes_lt
on_conn_closed-removes_example =
    on_conn_closed-removes ann_connection 100 50 0 0 listed listed-Inv refl refl

update_manager-exact_example : Ends (update_manager 100) meeting (λ _ w'.
    Inv w'
    × (w'.rooms 0 ≡ (if can_delete (joined board 0) 100 then none else some (joined board 0))))
update_manager-exact_example = update_manager-exact 100 0 meeting (joined board 0) meeting-Inv refl

leave_room-expires_example : Ends (leave_room 0 0 100 >> update_manager 4000) meeting (λ _ w'.
    Inv w'
    × (w'.rooms 0 ≡ (
        if ltb (100 + empty_room_seconds) 4000
        then none
        else some (record board { sessions = []; can_delete_time = 100 + empty_room_seconds }))))
unfolding add
leave_room-expires_example =
    leave_room-expires 0 0 100 4000 meeting (joined board 0) (record ann { room = some 0 })
      meeting-Inv refl refl refl

enter_room-joins_example :
    let w' = entered meeting 0 1 (joined board 0) bob in
    let out =
      shapes_for (some 60) board.shape_object
      ++ list_for w'.sessions (add 1 (joined board 0).sessions) in
    (enter_room 0 1 meeting ≡ some (tt, say out w')) × Inv (say out w')
enter_room-joins_example =
    enter_room-joins 0 1 meeting (joined board 0) bob meeting-Inv refl refl refl

leave_room-leaves_example :
    let x = record ann { room = some 0 } in
    let w' = left meeting 0 0 (joined board 0) x (timer (joined board 0) 0 100) in
    let out = list_for w'.sessions (discard 0 (joined board 0).sessions) in
    (leave_room 0 0 100 meeting ≡ some (tt, say out w')) × Inv (say out w')
unfolding contains add
leave_room-leaves_example =
    leave_room-leaves 0 0 100 meeting (joined board 0) (record ann { room = some 0 }) meeting-Inv
      refl refl refl

board-IdsBelow : IdsBelow board
unfolding find
board-IdsBelow id text h = ground (arith, h)

-- The stored line is sent again, with a new shape after it.
abbrev shapes : List WhiteBoardMessage
shapes = line ∷ record line { shape_id = none } ∷ []

-- A new shape, drawn by the player who is in the room.
abbrev drawn : Bytes
drawn = write_shape (record line { shape_id = none })

player_add_shape-announces_example :
    (r' : Room) × (done : List WhiteBoardMessage) × (last : ℕ) × (player_add_shape 0 0 drawn meeting
      ≡ some (
        last,
        say
            (deliveries meeting.sessions
              (shapes_packet (record (wire.parse_shapes drawn).1 { shape_object = done }))
              (joined board 0).sessions)
            (write_room 0 r' meeting),
      ))
    × ((id : ℕ)
        → find id r'.shape_object ≡ announced id done (find id (joined board 0).shape_object))
    × (r'.sessions ≡ (joined board 0).sessions)
player_add_shape-announces_example =
    player_add_shape-announces 0 0 drawn meeting (joined board 0) meeting-Inv refl board-IdsBelow
      refl (omega arith)

add_all-IdsBelow_example : IdsBelow (add_all board 0 shapes).0
add_all-IdsBelow_example = add_all-IdsBelow board 0 shapes board-IdsBelow (omega arith)
