-- ===== src/Board/Room/Announcing.antt =====
-- What PlayerAddShape broadcasts, and what the room holds after it.
use white_board_server.Prelude.{ℕ, ◌+◌, ◌^◌, ◌<◌, ◌≡◌, true, some, List, arith, length}
use white_board_server.Containers.Ord.{Bytes, nat_ord}
use white_board_server.Containers.Map.{find}
use white_board_server.Board.Message.{Codec, WhiteBoardMessage}
use white_board_server.Board.World.{Room, World, write_room}
use white_board_server.Board.Room.{player_add_shape, add_all, shapes_packet}
use white_board_server.Board.Room.Traffic.{say, deliveries, broadcast_lem}
use white_board_server.Board.Room.Shapes.{IdsBelow, announced, add_all-find}
use white_board_server.Board.Room.Requests.{add_all_keeps}
use white_board_server.Board.Invariant.{Inv, members-IsLive}

module _ ⦃c : Codec⦄ where
  -- In a well-formed store, a request of shapes that parses, and with which the ids of the room do not
  -- run out, sends one packet to every member of the room and nothing else. For each id the room then
  -- holds what the messages of this packet announce, and otherwise what it held; so a client that
  -- applies them has the room's board. The members of the room and the rest of the store stay as they
  -- were.
  pub player_add_shape-announces :
      (p s : ℕ) (body : Bytes) (w : World) (r : Room)
      → Inv w
      → w.rooms p ≡ some r
      → IdsBelow r
      → (c.parse_shapes body).0 ≡ true
      → r.shape_max_id + length (c.parse_shapes body).1.shape_object < 2 ^ 32
      → (r' : Room) × (done : List WhiteBoardMessage) × (last : ℕ) × (player_add_shape p s body w
          ≡ some (
            last,
            say
                (deliveries w.sessions
                  (shapes_packet (record (c.parse_shapes body).1 { shape_object = done }))
                  r.sessions)
                (write_room p r' w),
          ))
        × ((id : ℕ) → find id r'.shape_object ≡ announced id done (find id r.shape_object))
        × (r'.sessions ≡ r.sessions)
  unfolding player_add_shape
  player_add_shape-announces p s body w r i hr below good room =
      let request = (c.parse_shapes body).1 in
      let (r', done, last) = add_all r 0 request.shape_object in
      let (key, members) = add_all_keeps r 0 request.shape_object in
      let packet = shapes_packet (record request { shape_object = done }) in
      (
        r',
        done,
        last,
        ground (
          arith,
          good,
          hr,
          members,
          broadcast_lem p packet (write_room p r' w) r',
          members-IsLive i p r hr,
        ),
        add_all-find r 0 request.shape_object below room,
        members,
      )
