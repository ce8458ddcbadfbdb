-- ===== src/Board/Session.antt =====
-- class PlayerSession (game_base/account/source/player_session.cpp).
pub mod Handlers
pub mod Safe
use white_board_server.Prelude.{ℕ, none, some, ◌==◌, if◌then◌else◌}
use white_board_server.Containers.Ord.{Bytes}
use white_board_server.Board.Message.{
  Codec, RoomOperate, ShapeErrorCode, proto_buff_room_operate, proto_buff_add_sharp,
  proto_buff_remove_sharp,
}
use white_board_server.Board.World.{M, pure, ◌>>=◌, ◌>>◌, load_session, store_session}
use white_board_server.Board.Room.{send_error, leave_room, player_add_shape, player_remove_shape}
use white_board_server.Board.Manager.{
  player_ask_room_list, player_create_room, player_enter_room, player_delete_room, player_copy_room,
  player_sync_player_list,
}

-- SessionHandleError of global_error_code.h.
abbrev pub session_handle_error : ℕ
session_handle_error = 0x103

pub set_usr_name : ℕ → Bytes → M (Unit {0})
unfolding load_session store_session
set_usr_name s name = do x ← load_session s; store_session s (record x { usr_name = name })

module _ ⦃c : Codec⦄ where
  pub handle_add_shape : ℕ → Bytes → M ℕ
  unfolding load_session
  handle_add_shape s body = do
    x ← load_session s
    (elim x.room [
      | some p ↦ player_add_shape p s body >>= λ _. pure tt
      | none ↦ send_error s ShapeErrorCode.no_in_room proto_buff_add_sharp "not in any room"
    ])
    pure 1

  pub handle_remove_shape : ℕ → Bytes → M ℕ
  unfolding load_session
  handle_remove_shape s body = do
    x ← load_session s
    (elim x.room [
      | some p ↦ player_remove_shape p s body >>= λ _. pure tt
      | none ↦ send_error s ShapeErrorCode.no_in_room proto_buff_remove_sharp "not in any room"
    ])
    pure 1

  -- PlayerSession::PlayerEnterRoom
  pub session_enter_room : Bytes → ℕ → ℕ → M (Unit {0})
  unfolding load_session
  session_enter_room key s now = do
    x ← load_session s
    (elim x.room [ some p ↦ leave_room p s now | none ↦ pure tt ])
    player_enter_room key s

  -- PlayerSession::PlayerLeaveRoom
  pub session_leave_room : ℕ → ℕ → M (Unit {0})
  unfolding load_session
  session_leave_room s now = do
    x ← load_session s
    elim x.room [
      | some p ↦ (do
        leave_room p s now
        send_error s ShapeErrorCode.room_operation_success proto_buff_room_operate
            "room operation success")
      | none ↦
          send_error s ShapeErrorCode.leave_when_not_in_room proto_buff_room_operate
            "not in any room"
    ]

  -- The switch of HandleRoomOperate.
  pub operate : ℕ → RoomOperate → ℕ → M (Unit {0})
  operate s o now =
      if o.oprate_type == 1
      then player_ask_room_list s
      else if o.oprate_type == 2
      then player_create_room o.room_key_origin s
      else if o.oprate_type == 3
      then session_enter_room o.room_key_origin s now
      else if o.oprate_type == 4
      then session_leave_room s now
      else if o.oprate_type == 5
      then player_delete_room o.room_key_origin s now
      else if o.oprate_type == 6
      then player_copy_room o.room_key_origin o.room_key_destination s
      else if o.oprate_type == 7
      then player_sync_player_list o.room_key_origin s
      else pure tt

  -- A body that does not parse is reported, and what was parsed of it is carried out all the same.
  pub handle_room_operate : ℕ → Bytes → ℕ → M ℕ
  unfolding set_usr_name operate
  handle_room_operate s body now =
      let (good, o) = c.parse_operate body in
      (do
        (if good
            then pure tt
            else send_error s ShapeErrorCode.packet_wrong proto_buff_room_operate
                "the packet you send is wrong")
        set_usr_name s o.use_name
        operate s o now
        pure 1)

  -- The handlers that the constructor puts into req_handler_.
  pub handle_request : ℕ → ℕ → Bytes → ℕ → M ℕ
  handle_request s opcode body now =
      if opcode == proto_buff_room_operate
      then handle_room_operate s body now
      else if opcode == proto_buff_add_sharp
      then handle_add_shape s body
      else if opcode == proto_buff_remove_sharp
      then handle_remove_shape s body
      else pure session_handle_error
