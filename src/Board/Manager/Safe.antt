-- ===== src/Board/Manager/Safe.antt =====
-- The room manager's operations in a well-formed store.
use white_board_server.Prelude.{
  ℕ, ◌≡◌, ◌≢◌, refl, Option, none, some, List, [], ◌∷◌, ◌++◌, arith, All, Option-cases, inl, inr,
  append_assoc, append-nil,
}
use white_board_server.Containers.Ord.{Bytes, nat_ord, bytes_ord}
use white_board_server.Containers.Map.{Map, find, All-Finds, Finds}
use white_board_server.Board.Message.{
  Codec, Packet, ShapeErrorCode, proto_buff_room_operate, proto_buff_sync_player_list,
}
use white_board_server.Board.World.{Room, Session, World, M, ◌>>◌, Ends}
use white_board_server.Board.Room.{new_room}
use white_board_server.Board.Room.Traffic.{say, deliveries, broadcast_lem}
use white_board_server.Board.Room.Safe.{
  Good, Safe, Safe-bind, Safe-send_transcode, Safe-send_error, say-Good, say-Inv,
}
use white_board_server.Board.Room.Requests.{
  enter_room_safe, sync_player_list_safe, force_delete_room_safe, force_delete_room_faults,
}
use white_board_server.Board.Invariant.{Inv, members-IsLive}
use white_board_server.Board.Invariant.Updates.{opened, opened-Inv}
use white_board_server.Board.Manager.{
  broadcast_rooms, broadcast_room_list, room_list_packet, succeed, create_room, copy_room,
  player_ask_room_list, player_delete_room, player_create_room, player_sync_player_list,
  player_enter_room, player_copy_room,
}

abbrev members_of : Option Room → List ℕ
members_of none = []
members_of (some r) = r.sessions

-- One packet to every connected member of every listed room.
pub room_deliveries : World → Packet → Map Bytes ℕ → List (ℕ × Packet)
room_deliveries w packet [] = []
room_deliveries w packet ((key, p) ∷ rest) =
    deliveries w.sessions packet (members_of (w.rooms p)) ++ room_deliveries w packet rest

room_deliveries-say :
    (w : World) (out : List (ℕ × Packet)) (packet : Packet) (m : Map Bytes ℕ)
    → room_deliveries (say out w) packet m ≡ room_deliveries w packet m
unfolding room_deliveries
room_deliveries-say w out packet [] = refl
room_deliveries-say w out packet ((key, p) ∷ rest) = rw (room_deliveries-say w out packet rest)

broadcast_rooms_lem :
    (packet : Packet) (m : Map Bytes ℕ) (w : World)
    → Inv w
    → All (Finds w.room_map) m
    → broadcast_rooms m packet w ≡ some (tt, say (room_deliveries w packet m) w)
unfolding broadcast_rooms room_deliveries
broadcast_rooms_lem packet [] w i listed = ground (arith, append-nil w.sent)
broadcast_rooms_lem packet ((key, p) ∷ rest) w i listed =
    let (r, h, _) = i.listed key p listed.0 in
    let out = deliveries w.sessions packet r.sessions in
    ground (
      arith,
      h,
      broadcast_lem p packet w r h (members-IsLive i p r h),
      broadcast_rooms_lem packet rest (say out w) (say-Inv out i) listed.1,
      room_deliveries-say w out packet rest,
      append_assoc w.sent out (room_deliveries w packet rest),
    )

module _ ⦃c : Codec⦄ where
  -- BroadCastRoomList sends the list of rooms to each member of each room, and changes nothing.
  pub broadcast_room_list_lem :
      (w : World)
      → Inv w
      → broadcast_room_list w
        ≡ some (tt, say (room_deliveries w (room_list_packet w.room_map) w.room_map) w)
  unfolding broadcast_room_list
  broadcast_room_list_lem w i =
      broadcast_rooms_lem (room_list_packet w.room_map) w.room_map w i
        (All-Finds w.room_map i.sorted)

  Safe-broadcast_room_list : (s : ℕ) → Safe s broadcast_room_list
  Safe-broadcast_room_list s = record {
    at = λ w g.
        let out = room_deliveries w (room_list_packet w.room_map) w.room_map in
        (tt, say out w, broadcast_room_list_lem w g.inv, say-Good out g);
  }

  Safe-succeed : (s : ℕ) → Safe s (succeed s)
  unfolding succeed
  Safe-succeed s =
      Safe-send_error s ShapeErrorCode.room_operation_success proto_buff_room_operate
        "room operation success"

  pub Safe-player_ask_room_list : (s : ℕ) → Safe s (player_ask_room_list s)
  unfolding player_ask_room_list
  Safe-player_ask_room_list s = record {
    at = λ w g.
        let (b, w', e, g') = (Safe-send_transcode s (room_list_packet w.room_map)).at w g in
        (tt, w', ground (arith, e), g');
  }

  -- What follows a room that was just listed.
  announce : ℕ → M (Unit {0})
  unfolding succeed
  announce s = do broadcast_room_list; succeed s

  Safe-announce : (s : ℕ) → Safe s (announce s)
  unfolding announce
  Safe-announce s =
      Safe-bind s broadcast_room_list (λ _. succeed s) (Safe-broadcast_room_list s)
        (λ _. Safe-succeed s)

  opened-Good :
      (s : ℕ) (w : World) (key : Bytes) (r : Room)
      → Good s w
      → find key w.room_map ≡ none
      → r.room_key ≡ key
      → r.sessions ≡ []
      → Good s (opened w key r)
  opened-Good s w key r g free k empty = record {
    inv = opened-Inv w g.inv key r free k empty;
    live = g.live;
  }

  pub Safe-player_create_room : (key : Bytes) (s : ℕ) → Safe s (player_create_room key s)
  unfolding player_create_room create_room announce new_room
  Safe-player_create_room key s = record {
    at = λ w g. elim (Option-cases (find key w.room_map)) [
      | inr (p, e) ↦
          let (_, w', sent, g') =
            (Safe-send_error s ShapeErrorCode.create_room_when_key_exist proto_buff_room_operate
                "create room when room already exist").at
              w g in
          (tt, w', ground (arith, e, sent), g')
      | inl e ↦
          let w1 = opened w key (new_room key) in
          let (_, w', sent, g') =
            (Safe-announce s).at w1 (opened-Good s w key (new_room key) g e refl refl) in
          (tt, w', ground (arith, e, sent), g')
    ];
  }

  pub Safe-player_sync_player_list : (key : Bytes) (s : ℕ) → Safe s (player_sync_player_list key s)
  unfolding player_sync_player_list
  Safe-player_sync_player_list key s = record {
    at = λ w g. elim (Option-cases (find key w.room_map)) [
      | inl e ↦
          let (_, w', sent, g') =
            (Safe-send_error s ShapeErrorCode.sync_player_list_no_room proto_buff_sync_player_list
                "ask player list ,room not exist").at
              w g in
          (tt, w', ground (arith, e, sent), g')
      | inr (p, e) ↦
          let (r, h, _) = g.inv.listed key p e in
          let (_, w', sent, g') = sync_player_list_safe s p w r g h in
          (tt, w', ground (arith, e, sent), g')
    ];
  }

  -- A session in no room may enter any room, one that does not exist included.
  pub player_enter_room_safe :
      (key : Bytes) (s : ℕ) (w : World) (x : Session)
      → Good s w
      → w.sessions s ≡ some x
      → x.room ≡ none
      → Ends (player_enter_room key s) w (λ _ w'. Good s w')
  unfolding player_enter_room
  player_enter_room_safe key s w x g hs outside = elim (Option-cases (find key w.room_map)) [
    | inl e ↦
        let (_, w', sent, g') =
          (Safe-send_error s ShapeErrorCode.enter_room_not_exist proto_buff_room_operate
              "enter room when room not exist").at
            w g in
        (tt, w', ground (arith, e, sent), g')
    | inr (p, e) ↦
        let (r, h, _) = g.inv.listed key p e in
        let (_, w1, in1, g1) = enter_room_safe s p w r x g.inv h hs outside in
        let (_, w', sent, g') = (Safe-succeed s).at w1 g1 in
        (tt, w', ground (arith, e, in1, sent), g')
  ]

  abbrev copied : Bytes → Room → Room
  copied des r = record (new_room des) {
    shape_object = r.shape_object;
    shape_max_id = r.shape_max_id;
  }

  copied_new :
      (src des : Bytes) (s p : ℕ) (w : World) (r : Room)
      → Good s w
      → find src w.room_map ≡ some p
      → w.rooms p ≡ some r
      → find des w.room_map ≡ none
      → Ends (player_copy_room src des s) w (λ _ w'. Good s w')
  unfolding player_copy_room copy_room new_room announce
  copied_new src des s p w r g found hr free =
      let (_, w', sent, g') =
        (Safe-announce s).at (opened w des (copied des r))
          (opened-Good s w des (copied des r) g free refl refl) in
      (tt, w', ground (arith, found, hr, free, sent), g')

  pub Safe-player_copy_room : (src des : Bytes) (s : ℕ) → Safe s (player_copy_room src des s)
  unfolding player_copy_room
  Safe-player_copy_room src des s = record {
    at = λ w g. elim (Option-cases (find src w.room_map)) [
      | inl e ↦
          let (_, w', sent, g') =
            (Safe-send_error s ShapeErrorCode.copy_room_when_src_key_no_exist
                proto_buff_room_operate "copy room src room not exist").at
              w g in
          (tt, w', ground (arith, e, sent), g')
      | inr (p, e) ↦ elim (Option-cases (find des w.room_map)) [
        | inr (q, f) ↦
            let (_, w', sent, g') =
              (Safe-send_error s ShapeErrorCode.copy_room_when_des_key_exist proto_buff_room_operate
                  "copy room des room already exist").at
                w g in
            (tt, w', ground (arith, e, f, sent), g')
        | inl f ↦ let (r, h, _) = g.inv.listed src p e in copied_new src des s p w r g e h f
      ]
    ];
  }

  -- Deleting a room under a key is safe where no room or an empty one has it, and is undefined
  -- behaviour where the room has a member.
  pub player_delete_room_safe :
      (key : Bytes) (s now : ℕ) (w : World)
      → Good s w
      → ((p : ℕ) (r : Room) → find key w.room_map ≡ some p → w.rooms p ≡ some r → r.sessions ≡ [])
      → Ends (player_delete_room key s now) w (λ _ w'. Good s w')
  unfolding player_delete_room
  player_delete_room_safe key s now w g empty = elim (Option-cases (find key w.room_map)) [
    | inl e ↦
        let (_, w', sent, g') =
          (Safe-send_error s ShapeErrorCode.delete_room_not_exist proto_buff_room_operate
              "delete room not exist").at
            w g in
        (tt, w', ground (arith, e, sent), g')
    | inr (p, e) ↦
        let (r, h, _) = g.inv.listed key p e in
        let (_, w1, in1, g1) = force_delete_room_safe s p now w r g h (empty p r e h) in
        let (_, w', sent, g') = (Safe-succeed s).at w1 g1 in
        (tt, w', ground (arith, e, in1, sent), g')
  ]

  pub player_delete_room_faults :
      (key : Bytes) (s now p : ℕ) (w : World) (r : Room)
      → Inv w
      → find key w.room_map ≡ some p
      → w.rooms p ≡ some r
      → r.sessions ≢ []
      → player_delete_room key s now w ≡ none
  unfolding player_delete_room
  player_delete_room_faults key s now p w r i e h occupied =
      ground (arith, e, force_delete_room_faults p now w r i h occupied)
