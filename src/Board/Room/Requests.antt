-- ===== src/Board/Room/Requests.antt =====
-- The requests that a room serves, in a well-formed store.
use white_board_server.Prelude.{
  ℕ, ◌≡◌, ◌≢◌, refl, true, false, none, some, List, [], ◌∷◌, ◌++◌, arith, Bool-cases, Option-cases,
  inl, inr,
}
use white_board_server.Containers.Ord.{Bytes, nat_ord, bytes_ord}
use white_board_server.Containers.Map.{find, erase}
use white_board_server.Containers.Set.{contains, add, discard, contains-discard}
use white_board_server.Board.Message.{
  Codec, Packet, WhiteBoardMessage, shapeid, ShapeErrorCode, proto_buff_add_sharp,
  proto_buff_remove_sharp, remove_shapeid, RemoveShape,
}
use white_board_server.Board.World.{Room, Session, World, Ends, write_room}
use white_board_server.Board.Room.{
  broadcast, enter_room, leave_room, sync_player_list, force_delete_room, player_list_packet,
  player_add_shape, player_remove_shape, add_all, add_one, shapes_packet,
}
use white_board_server.Board.Room.Traffic.{
  say, deliveries, delivery, names, broadcast_lem, player_names_lem, send_transcode_lem, list_for,
}
use white_board_server.Board.Room.Entering.{
  entered, enter_room_lem, entered-IsLive, entered-Inv, shapes_for,
}
use white_board_server.Board.Room.Leaving.{left, timer, leave_room_lem, left-IsLive, left-Inv}
use white_board_server.Board.Room.Safe.{Good, Safe-send_error, say-Good}
use white_board_server.Board.Invariant.{Inv, members-IsLive}
use white_board_server.Board.Invariant.Updates.{rewritten-Inv}

-- A broadcast to the members of a room of a well-formed store.
pub broadcast_safe :
    (s p : ℕ) (packet : Packet) (w : World) (r : Room)
    → Good s w
    → w.rooms p ≡ some r
    → Ends (broadcast p packet) w (λ _ w'. Good s w')
broadcast_safe s p packet w r g h =
    let out = deliveries w.sessions packet r.sessions in
    (tt, say out w, broadcast_lem p packet w r h (members-IsLive g.inv p r h), say-Good out g)

module _ ⦃c : Codec⦄ where
  pub sync_player_list_safe :
      (s p : ℕ) (w : World) (r : Room)
      → Good s w
      → w.rooms p ≡ some r
      → Ends (sync_player_list p s) w (λ _ w'. Good s w')
  unfolding sync_player_list
  sync_player_list_safe s p w r g h =
      let (x, e) = g.live in
      let packet = player_list_packet (names w.sessions r.sessions) in
      let (b, sent) = send_transcode_lem s packet w x e in
      (
        tt,
        say (delivery x.conn packet) w,
        ground (arith, sent, player_names_lem r.sessions w (members-IsLive g.inv p r h)),
        say-Good (delivery x.conn packet) g,
      )

  -- A session in no room joins a room.
  pub enter_room_safe :
      (s p : ℕ) (w : World) (r : Room) (x : Session)
      → Inv w
      → w.rooms p ≡ some r
      → w.sessions s ≡ some x
      → x.room ≡ none
      → Ends (enter_room p s) w (λ _ w'. Good s w')
  enter_room_safe s p w r x i hr hs free =
      let w' = entered w p s r x in
      let out = shapes_for x.conn r.shape_object ++ list_for w'.sessions (add s r.sessions) in
      let outside : contains s r.sessions ≡ false = elim (Bool-cases (contains s r.sessions)) [
        | inl m ↦ let (y, e, j) = i.member p s r hr m in absurd (ground (arith, e, j))
        | inr m ↦ m
      ] in
      (
        tt,
        say out w',
        enter_room_lem p s w r x hr hs outside (entered-IsLive w p s r x i hr hs),
        say-Good out (record {
          inv = entered-Inv w p s r x i hr hs free;
          live = (record x { room = some p }, ground arith);
        }),
      )

  -- The store after a member has left, with what was sent.
  pub leave_room_safe :
      (s p now : ℕ) (w : World) (x : Session)
      → Inv w
      → w.sessions s ≡ some x
      → x.room ≡ some p
      → Ends
          (leave_room p s now)
          w
          (λ _ w'. Good s w' × (w'.sessions s ≡ some (record x { room = none })))
  leave_room_safe s p now w x i hs j =
      let (r, hr, m) = i.inside s p x hs j in
      let t = timer r s now in
      let w' = left w p s r x t in
      let out = list_for w'.sessions (discard s r.sessions) in
      (
        tt,
        say out w',
        leave_room_lem p s now w r x hr hs m (left-IsLive w p s r x r.can_delete_time i hr hs),
        (
          say-Good out (record {
            inv = left-Inv w p s r x t i hr hs m;
            live = (record x { room = none }, ground arith);
          }),
          ground arith,
        ),
      )

  add_one_keeps :
      (r : Room) (x : WhiteBoardMessage)
      → ((add_one r x).0.room_key ≡ r.room_key) × ((add_one r x).0.sessions ≡ r.sessions)
  unfolding add_one
  add_one_keeps r x = ground arith

  -- Adding shapes leaves the key and the members of a room alone.
  pub add_all_keeps :
      (r : Room) (last : ℕ) (xs : List WhiteBoardMessage)
      → ((add_all r last xs).0.room_key ≡ r.room_key)
        × ((add_all r last xs).0.sessions ≡ r.sessions)
  unfolding add_all
  add_all_keeps r last [] = (refl, refl)
  add_all_keeps r last (x ∷ rest) =
      let (r', x') = add_one r x in
      ground (arith, add_one_keeps r x, add_all_keeps r' (shapeid x') rest)

  pub player_add_shape_safe :
      (s p : ℕ) (body : Bytes) (w : World) (r : Room)
      → Good s w
      → w.rooms p ≡ some r
      → Ends (player_add_shape p s body) w (λ _ w'. Good s w')
  unfolding player_add_shape
  player_add_shape_safe s p body w r g hr =
      let (good, request) = c.parse_shapes body in
      elim (Bool-cases good) [
        | inl e ↦
            let (r', done, last) = add_all r 0 request.shape_object in
            let (k, m) = add_all_keeps r 0 request.shape_object in
            let g' : Good s (write_room p r' w) = record {
              inv = rewritten-Inv w g.inv p r r' hr k m;
              live = g.live;
            } in
            let packet = shapes_packet (record request { shape_object = done }) in
            let (_, w', sent, g'') =
              broadcast_safe s p packet (write_room p r' w) r' g' (ground arith) in
            (last, w', ground (arith, e, hr, sent), g'')
        | inr e ↦
            let (_, w', sent, g') =
              (Safe-send_error s ShapeErrorCode.packet_wrong proto_buff_add_sharp
                  "the packet you send is wrong").at
                w g in
            (0, w', ground (arith, e, sent), g')
      ]

  -- Deleting a room that still has a member is undefined behaviour: the loop goes on from the
  -- iterator that LeaveRoom has erased.
  pub force_delete_room_faults :
      (p now : ℕ) (w : World) (r : Room)
      → Inv w
      → w.rooms p ≡ some r
      → r.sessions ≢ []
      → force_delete_room p now w ≡ none
  unfolding force_delete_room contains
  force_delete_room_faults p now w r i hr occupied = by_members r.sessions refl
    where
      by_members : (ss : List ℕ) → r.sessions ≡ ss → force_delete_room p now w ≡ none
      by_members [] e = absurd (occupied e)
      by_members (s ∷ rest) e =
          let m : contains s r.sessions ≡ true = rw e (ground arith) in
          let (x, hs, j) = i.member p s r hr m in
          let t = timer r s now in
          let gone =
            leave_room_lem p s now w r x hr hs m
              (left-IsLive w p s r x r.can_delete_time i hr hs) in
          ground (arith, hr, e, gone, contains-discard s s r.sessions)

  pub force_delete_room_safe :
      (s p now : ℕ) (w : World) (r : Room)
      → Good s w
      → w.rooms p ≡ some r
      → r.sessions ≡ []
      → Ends (force_delete_room p now) w (λ _ w'. Good s w')
  unfolding force_delete_room
  force_delete_room_safe s p now w r g hr empty =
      let r' : Room = record r { can_delete_time = now } in
      (
        tt,
        write_room p r' w,
        ground (arith, hr, empty),
        record { inv = rewritten-Inv w g.inv p r r' hr refl refl; live = g.live },
      )

  removed_shape_safe :
      (s p : ℕ) (request : RemoveShape) (w : World) (r : Room) (old : Bytes)
      → Good s w
      → w.rooms p ≡ some r
      → find (remove_shapeid request) r.shape_object ≡ some old
      → (body : Bytes) → c.parse_remove body ≡ (true, request)
      → Ends (player_remove_shape p s body) w (λ _ w'. Good s w')
  unfolding player_remove_shape
  removed_shape_safe s p request w r old g hr found body parsed =
      let id = remove_shapeid request in
      let r' : Room = record r { shape_object = erase id r.shape_object } in
      let g' : Good s (write_room p r' w) = record {
        inv = rewritten-Inv w g.inv p r r' hr refl refl;
        live = g.live;
      } in
      let packet : Packet = record {
        opcode = proto_buff_remove_sharp;
        body = c.serialize_remove request;
      } in
      let (_, w', sent, g'') = broadcast_safe s p packet (write_room p r' w) r' g' (ground arith) in
      (id, w', rw (parsed, player_remove_shape) (ground (arith, found, hr, sent)), g'')

  pub player_remove_shape_safe :
      (s p : ℕ) (body : Bytes) (w : World) (r : Room)
      → Good s w
      → w.rooms p ≡ some r
      → Ends (player_remove_shape p s body) w (λ _ w'. Good s w')
  unfolding player_remove_shape
  player_remove_shape_safe s p body w r g hr =
      let (good, request) = c.parse_remove body in
      let id = remove_shapeid request in
      elim (Bool-cases good) [
        | inl e ↦ elim (Option-cases (find id r.shape_object)) [
          | inr (old, f) ↦ removed_shape_safe s p request w r old g hr f body (ground (arith, e))
          | inl f ↦
              let (_, w', sent, g') =
                (Safe-send_error s ShapeErrorCode.id_not_exist id "this shape id is not exist").at w
                  g in
              (id, w', ground (arith, e, f, hr, sent), g')
        ]
        | inr e ↦
            let (_, w', sent, g') =
              (Safe-send_error s ShapeErrorCode.packet_wrong proto_buff_remove_sharp
                  "the packet you send is wrong").at
                w g in
            (0, w', ground (arith, e, sent), g')
      ]
