-- ===== src/Board/Manager.antt =====
-- class RoomManager (game_base/account/source/room_manager.cpp).
pub mod Safe
pub mod Expiry
pub mod Timer
use white_board_server.Prelude.{ℕ, ◌+◌, Option, none, some, [], ◌∷◌, if◌then◌else◌}
use white_board_server.Containers.Ord.{Bytes, bytes_ord}
use white_board_server.Containers.Map.{Map, find, insert, erase, keys}
use white_board_server.Board.Message.{
  Codec, Packet, ShapeErrorCode, proto_buff_room_operate, proto_buff_sync_room_list,
  proto_buff_sync_player_list,
}
use white_board_server.Board.World.{Room, M, pure, ◌>>=◌, ◌>>◌, load_room, update}
use white_board_server.Board.Room.{
  new_room, can_delete, send_transcode, broadcast, send_error, sync_player_list, enter_room,
  force_delete_room,
}

-- new Room: an address that no room has had.
allocate_room : Room → M ℕ
allocate_room r w = some (
  w.next_room,
  record w { rooms = update w.rooms w.next_room (some r); next_room = w.next_room + 1 },
)

-- rooms_.insert(std::make_pair(key, p))
list_room : Bytes → ℕ → M (Unit {0})
list_room key p w = some (tt, record w { room_map = insert key p w.room_map })

lookup_room : Bytes → M (Option ℕ)
lookup_room key w = some (find key w.room_map, w)

room_entries : M (Map Bytes ℕ)
room_entries w = some (w.room_map, w)

-- delete it->second; rooms_.erase(it)
delete_room : Bytes → ℕ → M (Unit {0})
delete_room key p w = elim (w.rooms p) [
  | none ↦ none
  | some _ ↦ some (tt, record w { rooms = update w.rooms p none; room_map = erase key w.room_map })
]

pub create_room : Bytes → M ℕ
unfolding allocate_room list_room
create_room key = do p ← allocate_room (new_room key); list_room key p; pure p

pub copy_room : Bytes → ℕ → M ℕ
unfolding allocate_room load_room
copy_room des src = do
  r ← load_room src
  allocate_room
      (record (new_room des) { shape_object = r.shape_object; shape_max_id = r.shape_max_id })

broadcast_rooms : Map Bytes ℕ → Packet → M (Unit {0})
broadcast_rooms [] packet = pure tt
broadcast_rooms ((key, p) ∷ rest) packet = broadcast p packet >>= λ _. broadcast_rooms rest packet

module _ ⦃c : Codec⦄ where
  abbrev pub room_list_packet : Map Bytes ℕ → Packet
  room_list_packet m = record {
    opcode = proto_buff_sync_room_list;
    body = c.serialize_room_list (keys m);
  }

  succeed : ℕ → M (Unit {0})
  succeed s =
      send_error s ShapeErrorCode.room_operation_success proto_buff_room_operate
        "room operation success"

  pub broadcast_room_list : M (Unit {0})
  unfolding room_entries broadcast_rooms
  broadcast_room_list = do m ← room_entries; broadcast_rooms m (room_list_packet m)

  pub player_ask_room_list : ℕ → M (Unit {0})
  unfolding room_entries
  player_ask_room_list s = do
    m ← room_entries
    send_transcode s (room_list_packet m) >>= λ _. pure tt

  pub player_delete_room : Bytes → ℕ → ℕ → M (Unit {0})
  unfolding lookup_room succeed
  player_delete_room key s now = do
    found ← lookup_room key
    elim found [
      | none ↦
          send_error s ShapeErrorCode.delete_room_not_exist proto_buff_room_operate
            "delete room not exist"
      | some p ↦ (do force_delete_room p now; succeed s)
    ]

  pub player_create_room : Bytes → ℕ → M (Unit {0})
  unfolding lookup_room succeed create_room
  player_create_room key s = do
    found ← lookup_room key
    elim found [
      | some p ↦
          send_error s ShapeErrorCode.create_room_when_key_exist proto_buff_room_operate
            "create room when room already exist"
      | none ↦ create_room key >>= λ _. (do broadcast_room_list; succeed s)
    ]

  pub player_sync_player_list : Bytes → ℕ → M (Unit {0})
  unfolding lookup_room
  player_sync_player_list key s = do
    found ← lookup_room key
    elim found [
      | none ↦
          send_error s ShapeErrorCode.sync_player_list_no_room proto_buff_sync_player_list
            "ask player list ,room not exist"
      | some p ↦ sync_player_list p s
    ]

  pub player_enter_room : Bytes → ℕ → M (Unit {0})
  unfolding lookup_room succeed
  player_enter_room key s = do
    found ← lookup_room key
    elim found [
      | none ↦
          send_error s ShapeErrorCode.enter_room_not_exist proto_buff_room_operate
            "enter room when room not exist"
      | some p ↦ (do enter_room p s; succeed s)
    ]

  pub player_copy_room : Bytes → Bytes → ℕ → M (Unit {0})
  unfolding lookup_room succeed copy_room list_room
  player_copy_room src des s = do
    found_src ← lookup_room src
    found_des ← lookup_room des
    elim found_src [
      | none ↦
          send_error s ShapeErrorCode.copy_room_when_src_key_no_exist proto_buff_room_operate
            "copy room src room not exist"
      | some p ↦ elim found_des [
        | some q ↦
            send_error s ShapeErrorCode.copy_room_when_des_key_exist proto_buff_room_operate
              "copy room des room already exist"
        | none ↦ (do q ← copy_room des p; list_room des q; broadcast_room_list; succeed s)
      ]
    ]

  -- The loop of Update over the entries that it has still to visit.
  update_rooms : Map Bytes ℕ → ℕ → M (Unit {0})
  unfolding load_room delete_room
  update_rooms [] now = pure tt
  update_rooms ((key, p) ∷ rest) now =
      let others = update_rooms rest now in
      load_room p >>= λ r.
      if can_delete r now then (do delete_room key p; broadcast_room_list; others) else others

  pub update_manager : ℕ → M (Unit {0})
  unfolding room_entries update_rooms
  update_manager now = do m ← room_entries; update_rooms m now
