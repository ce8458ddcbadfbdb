-- ===== src/Board/Session/Handlers.antt =====
-- The handlers of shapes, of names, and of entering and leaving a room.
use white_board_server.Prelude.{ℕ, ◌≡◌, refl, none, some, arith, Option-cases, inl, inr}
use white_board_server.Containers.Ord.{Bytes, nat_ord, bytes_ord}
use white_board_server.Board.Message.{
  Codec, ShapeErrorCode, proto_buff_room_operate, proto_buff_add_sharp, proto_buff_remove_sharp,
}
use white_board_server.Board.World.{Session, World, Ends, write_session}
use white_board_server.Board.Room.Safe.{Safe, Safe-send_error, say-Inv, send_error_lem}
use white_board_server.Board.Room.Traffic.{say}
use white_board_server.Board.Room.Requests.{
  leave_room_safe, player_add_shape_safe, player_remove_shape_safe,
}
use white_board_server.Board.Invariant.{Inv}
use white_board_server.Board.Invariant.Updates.{renewed-Inv}
use white_board_server.Board.Manager.Safe.{player_enter_room_safe}
use white_board_server.Board.Session.{
  set_usr_name, handle_add_shape, handle_remove_shape, session_enter_room, session_leave_room,
}

pub Safe-set_usr_name : (s : ℕ) (name : Bytes) → Safe s (set_usr_name s name)
unfolding set_usr_name
Safe-set_usr_name s name = record {
  at = λ w g.
      let (x, e) = g.live in
      let x' : Session = record x { usr_name = name } in
      (
        tt,
        write_session s x' w,
        ground (arith, e),
        record { inv = renewed-Inv w g.inv s x x' e refl refl; live = (x', ground arith) },
      );
}

module _ ⦃c : Codec⦄ where
  pub Safe-handle_add_shape : (s : ℕ) (body : Bytes) → Safe s (handle_add_shape s body)
  unfolding handle_add_shape
  Safe-handle_add_shape s body = record {
    at = λ w g.
        let (x, e) = g.live in
        elim (Option-cases x.room) [
          | inl j ↦
              let (_, w', sent, g') =
                (Safe-send_error s ShapeErrorCode.no_in_room proto_buff_add_sharp
                    "not in any room").at
                  w g in
              (1, w', ground (arith, e, j, sent), g')
          | inr (p, j) ↦
              let (r, h, _) = g.inv.inside s p x e j in
              let (_, w', sent, g') = player_add_shape_safe s p body w r g h in
              (1, w', ground (arith, e, j, sent), g')
        ];
  }

  pub Safe-handle_remove_shape : (s : ℕ) (body : Bytes) → Safe s (handle_remove_shape s body)
  unfolding handle_remove_shape
  Safe-handle_remove_shape s body = record {
    at = λ w g.
        let (x, e) = g.live in
        elim (Option-cases x.room) [
          | inl j ↦
              let (_, w', sent, g') =
                (Safe-send_error s ShapeErrorCode.no_in_room proto_buff_remove_sharp
                    "not in any room").at
                  w g in
              (1, w', ground (arith, e, j, sent), g')
          | inr (p, j) ↦
              let (r, h, _) = g.inv.inside s p x e j in
              let (_, w', sent, g') = player_remove_shape_safe s p body w r g h in
              (1, w', ground (arith, e, j, sent), g')
        ];
  }

  pub Safe-session_enter_room : (key : Bytes) (s now : ℕ) → Safe s (session_enter_room key s now)
  unfolding session_enter_room
  Safe-session_enter_room key s now = record {
    at = λ w g.
        let (x, e) = g.live in
        elim (Option-cases x.room) [
          | inl j ↦
              let (_, w', sent, g') = player_enter_room_safe key s w x g e j in
              (tt, w', ground (arith, e, j, sent), g')
          | inr (p, j) ↦
              let (_, w1, away, (g1, e1)) = leave_room_safe s p now w x g.inv e j in
              let (_, w', sent, g') =
                player_enter_room_safe key s w1 (record x { room = none }) g1 e1 refl in
              (tt, w', ground (arith, e, j, away, sent), g')
        ];
  }

  -- A session leaves its room if it is in one; in either case it is then in none.
  pub session_leave_room_lem :
      (s now : ℕ) (w : World) (x : Session)
      → Inv w
      → w.sessions s ≡ some x
      → Ends
          (session_leave_room s now)
          w
          (λ _ w'. Inv w' × (w'.sessions s ≡ some (record x { room = none })))
  unfolding session_leave_room
  session_leave_room_lem s now w x i e = elim (Option-cases x.room) [
    | inl j ↦
        let (out, sent) =
          send_error_lem s ShapeErrorCode.leave_when_not_in_room proto_buff_room_operate
            "not in any room" w x e in
        (tt, say out w, ground (arith, e, j, sent), (say-Inv out i, ground (arith, e, j)))
    | inr (p, j) ↦
        let (_, w1, away, (g1, e1)) = leave_room_safe s p now w x i e j in
        let (out, sent) =
          send_error_lem s ShapeErrorCode.room_operation_success proto_buff_room_operate
            "room operation success" w1 (record x { room = none }) e1 in
        (tt, say out w1, ground (arith, e, j, away, sent), (say-Inv out g1.inv, e1))
  ]

  pub Safe-session_leave_room : (s now : ℕ) → Safe s (session_leave_room s now)
  Safe-session_leave_room s now = record {
    at = λ w g.
        let (x, e) = g.live in
        let (_, w', done, (i, e')) = session_leave_room_lem s now w x g.inv e in
        (tt, w', done, record { inv = i; live = (record x { room = none }, e') });
  }
