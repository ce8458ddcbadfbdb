-- ===== src/Board/Room.antt =====
-- class Room (game_base/account/source/room.cpp). `p` is the room's pointer, `s` a session's, and
-- `now` what `time(nullptr)` returns during the call.
pub mod Traffic
pub mod Entering
pub mod Leaving
pub mod Shapes
pub mod Announcing
pub mod Timer
pub mod Safe
pub mod Membership
pub mod Requests
use Prim.Native.String.{String}
use white_board_server.Prelude.{
  ℕ, ◌+◌, ◌%◌, ◌^◌, Bool, true, false, not, ◌&&◌, Option, none, some, List, [], ◌∷◌, map, ltb, ◌==◌,
  if◌then◌else◌, length,
}
use white_board_server.Containers.Ord.{Bytes, nat_ord}
use white_board_server.Containers.Map.{Map, find, put, insert, erase}
use white_board_server.Containers.Set.{contains, add, discard}
use white_board_server.Board.Message
use white_board_server.Board.Message.{
  Codec, Packet, WhiteBoardMessage, WhiteBoardMessageList, RemoveShape, shapeid, ShapeErrorCode,
  proto_buff_add_sharp, proto_buff_remove_sharp, proto_buff_room_operate, proto_buff_error_info,
  proto_buff_sync_player_list,
}
use white_board_server.Board.World.{
  Room, Session, M, pure, fault, ◌>>=◌, ◌>>◌, load_room, load_session, store_room, store_session,
  write_packet,
}

-- Room::Room
unfoldable pub new_room : Bytes → Room
new_room key = record {
  room_key = key;
  sessions = [];
  shape_object = [];
  shape_max_id = 1;
  can_delete_time = 0;
}

pub get_player_size : Room → ℕ
get_player_size r = length r.sessions

-- An hour, in seconds.
abbrev pub empty_room_seconds : ℕ
empty_room_seconds = 3600

pub can_delete : Room → ℕ → Bool
unfolding get_player_size
can_delete r now =
    (get_player_size r == 0) && not (r.can_delete_time == 0) && ltb r.can_delete_time now

-- PlayerSession::SendTranscode: a session with no connection sends nothing.
pub send_transcode : ℕ → Packet → M Bool
unfolding load_session write_packet
send_transcode s packet = do
  x ← load_session s
  elim x.conn [ none ↦ pure false | some k ↦ write_packet k packet >>= λ _. pure true ]

-- PlayerSession::SetRoom
pub set_room : ℕ → Option ℕ → M (Unit {0})
unfolding load_session store_session
set_room s room = do x ← load_session s; store_session s (record x { room = room })

pub get_usr_name : ℕ → M Bytes
unfolding load_session
get_usr_name s = do x ← load_session s; pure x.usr_name

-- The loop of Room::BroadCast.
pub broadcast_to : List ℕ → Packet → M (Unit {0})
broadcast_to [] packet = pure tt
broadcast_to (s ∷ rest) packet = send_transcode s packet >>= λ _. broadcast_to rest packet

pub broadcast : ℕ → Packet → M (Unit {0})
unfolding load_room
broadcast p packet = do r ← load_room p; broadcast_to r.sessions packet

-- The loop that fills a PlayerListResp.
pub player_names : List ℕ → M (List Bytes)
player_names [] = pure []
player_names (s ∷ rest) =
    get_usr_name s >>= λ name. player_names rest >>= λ names. pure (name ∷ names)

module _ ⦃c : Codec⦄ where
  -- PlayerSession::SendErrorToClient
  pub send_error : ℕ → ShapeErrorCode → ℕ → String → M (Unit {0})
  send_error s code info text = do
    send_transcode s (record {
      opcode = proto_buff_error_info;
      body =
          c.serialize_error
            (record { error_code = code; extra_info = info; error_description = text });
    })
        >>= λ _. pure tt

  abbrev pub player_list_packet : List Bytes → Packet
  player_list_packet names = record {
    opcode = proto_buff_sync_player_list;
    body = c.serialize_player_list names;
  }

  pub sync_player_list : ℕ → ℕ → M (Unit {0})
  unfolding load_room
  sync_player_list p s = do
    r ← load_room p
    names ← player_names r.sessions
    send_transcode s (player_list_packet names) >>= λ _. pure tt

  pub broadcast_player_list : ℕ → M (Unit {0})
  unfolding load_room
  broadcast_player_list p = do
    r ← load_room p
    names ← player_names r.sessions
    broadcast p (player_list_packet names)

  -- The messages that SyncShapeObjectInfo parses back from the stored strings.
  pub parse_stored : Map ℕ Bytes → List WhiteBoardMessage
  parse_stored [] = []
  parse_stored ((id, text) ∷ rest) = (c.parse_shape text).1 ∷ parse_stored rest

  abbrev pub shapes_packet : WhiteBoardMessageList → Packet
  shapes_packet l = record { opcode = proto_buff_add_sharp; body = c.serialize_shapes l }

  sync_shapes : ℕ → Map ℕ Bytes → M (Unit {0})
  sync_shapes s [] = pure tt
  sync_shapes s (e ∷ rest) =
      send_transcode s
        (shapes_packet (record { msgid = none; shape_object = parse_stored (e ∷ rest) }))
      >>= λ _. pure tt

  pub sync_shape_object_info : ℕ → ℕ → M (Unit {0})
  unfolding load_room sync_shapes
  sync_shape_object_info p s = do r ← load_room p; sync_shapes s r.shape_object

  pub enter_room : ℕ → ℕ → M (Unit {0})
  unfolding load_room store_room
  enter_room p s = do
    r ← load_room p
    if contains s r.sessions then pure tt else do
      store_room p (record r { sessions = add s r.sessions; can_delete_time = 0 })
      set_room s (some p)
      sync_shape_object_info p s
      broadcast_player_list p

  -- The loop of LeaveRoom: the members of a set are distinct, so it stops at the one that it erases.
  leave_members : ℕ → ℕ → M (Unit {0})
  unfolding load_room store_room
  leave_members p s = do
    r ← load_room p
    if contains s r.sessions
        then (do
          store_room p (record r { sessions = discard s r.sessions })
          set_room s none
          broadcast_player_list p)
        else pure tt

  start_timer : ℕ → ℕ → M (Unit {0})
  unfolding load_room store_room get_player_size
  start_timer p now = do
    r ← load_room p
    let timed = record r { can_delete_time = now + empty_room_seconds }
    if get_player_size r == 0 then store_room p timed else pure tt

  pub leave_room : ℕ → ℕ → ℕ → M (Unit {0})
  unfolding leave_members start_timer
  leave_room p s now = do leave_members p s; start_timer p now

  -- `*it` is read after LeaveRoom: an iterator into a set is valid while its element is there.
  use_iterator : ℕ → ℕ → M (Unit {0})
  unfolding load_room
  use_iterator p s = do r ← load_room p; if contains s r.sessions then pure tt else fault

  force_members : ℕ → List ℕ → ℕ → M (Unit {0})
  force_members p [] now = pure tt
  force_members p (s ∷ rest) now = leave_room p s now >>= λ _. use_iterator p s >>= λ _.
      send_error s ShapeErrorCode.room_delete_you_out proto_buff_room_operate
        "the room you in has been delete,you quit"
      >>= λ _. force_members p rest now

  pub force_delete_room : ℕ → ℕ → M (Unit {0})
  unfolding load_room store_room force_members use_iterator
  force_delete_room p now = do
    r ← load_room p
    force_members p r.sessions now
    r' ← load_room p
    store_room p (record r' { can_delete_time = now })

  -- One round of the loop of PlayerAddShape: a shape whose id is stored replaces it, another gets
  -- the next id. Ids are uint32_t.
  pub add_one : Room → WhiteBoardMessage → Room × WhiteBoardMessage
  add_one r x = elim (find (shapeid x) r.shape_object) [
    | some _ ↦ (record r { shape_object = put (shapeid x) (c.serialize_shape x) r.shape_object }, x)
    | none ↦
        let x' : WhiteBoardMessage = record x { shape_id = some r.shape_max_id } in
        (
          record r {
            shape_object = insert r.shape_max_id (c.serialize_shape x') r.shape_object;
            shape_max_id = (r.shape_max_id + 1) % 2 ^ 32;
          },
          x',
        )
  ]

  -- The room, the messages with their ids, and the id of the last one.
  pub add_all : Room → ℕ → List WhiteBoardMessage → Room × List WhiteBoardMessage × ℕ
  unfolding add_one
  add_all r id [] = (r, [], id)
  add_all r id (x ∷ rest) =
      let (r', x') = add_one r x in
      let (r'', done, last) = add_all r' (shapeid x') rest in (r'', x' ∷ done, last)

  pub player_add_shape : ℕ → ℕ → Bytes → M ℕ
  unfolding load_room store_room add_all
  player_add_shape p s body =
      let (good, request) = c.parse_shapes body in
      if good
      then (do
        r ← load_room p
        let (r', done, last) = add_all r 0 request.shape_object
        store_room p r'
        broadcast p (shapes_packet (record request { shape_object = done }))
        pure last)
      else (do
        send_error s ShapeErrorCode.packet_wrong proto_buff_add_sharp "the packet you send is wrong"
        pure 0)

  pub player_remove_shape : ℕ → ℕ → Bytes → M ℕ
  unfolding load_room store_room
  player_remove_shape p s body =
      let (good, request) = c.parse_remove body in
      let id = Message.remove_shapeid request in
      if good
      then (do
        r ← load_room p
        (elim (find id r.shape_object) [
          | none ↦ send_error s ShapeErrorCode.id_not_exist id "this shape id is not exist"
          | some _ ↦ (do
            store_room p (record r { shape_object = erase id r.shape_object })
            broadcast p
                (record { opcode = proto_buff_remove_sharp; body = c.serialize_remove request }))
        ])
        pure id)
      else (do
        send_error s ShapeErrorCode.packet_wrong proto_buff_remove_sharp
            "the packet you send is wrong"
        pure 0)
