-- ===== src/Board/Session/Safe.antt =====
-- The requests of a live session in a well-formed store.
use white_board_server.Prelude.{
  ℕ, ◌≡◌, ◌≢◌, refl, Bool, true, false, none, some, List, [], ◌∷◌, arith, ◌==◌, if◌then◌else◌,
  Bool-cases, inl, inr, append-nil, ◌∙◌, subst,
}
use white_board_server.Containers.Ord.{Bytes, nat_ord, bytes_ord}
use white_board_server.Containers.Map.{find}
use white_board_server.Board.Message.{
  Codec, Packet, RoomOperate, ShapeErrorCode, proto_buff_room_operate, proto_buff_add_sharp,
  proto_buff_remove_sharp,
}
use white_board_server.Board.World.{Room, Session, World, M, pure, ◌>>=◌, Ends, write_session}
use white_board_server.Board.Room.{send_error}
use white_board_server.Board.Room.Safe.{Good, Safe-pure, say-Inv, send_error_lem}
use white_board_server.Board.Room.Traffic.{say}
use white_board_server.Board.Invariant.Updates.{renewed-Inv}
use white_board_server.Board.Manager.{player_delete_room}
use white_board_server.Board.Manager.Safe.{
  Safe-player_ask_room_list, Safe-player_create_room, Safe-player_sync_player_list,
  Safe-player_copy_room, player_delete_room_safe, player_delete_room_faults,
}
use white_board_server.Board.Session.{
  set_usr_name, operate, handle_room_operate, handle_request, session_handle_error,
}
use white_board_server.Board.Session.Handlers.{
  Safe-handle_add_shape, Safe-handle_remove_shape, Safe-session_enter_room, Safe-session_leave_room,
}

module _ ⦃c : Codec⦄ where
  -- A request to delete a room that someone is in.
  abbrev pub DeletesOccupied : World → RoomOperate → Type 0
  DeletesOccupied w o =
      (o.oprate_type ≡ 5)
      × ((p : ℕ) × (r : Room) × (find o.room_key_origin w.room_map ≡ some p)
          × (w.rooms p ≡ some r)
          × (r.sessions ≢ []))

  empty_of_not_ne : (ss : List ℕ) → ¬ (ss ≢ []) → ss ≡ []
  empty_of_not_ne [] h = refl
  empty_of_not_ne (s ∷ rest) h = absurd (h (λ e. cc))

  operate_delete_safe :
      (s now : ℕ) (o : RoomOperate) (w : World)
      → Good s w
      → ¬ DeletesOccupied w o
      → o.oprate_type ≡ 5
      → Ends (player_delete_room o.room_key_origin s now) w (λ _ w'. Good s w')
  operate_delete_safe s now o w g harmless five =
      player_delete_room_safe o.room_key_origin s now w g (λ p r found hr.
        empty_of_not_ne r.sessions (λ occupied. harmless (five, (p, r, found, hr, occupied))))

  operate_safe :
      (s now : ℕ) (o : RoomOperate) (w : World)
      → Good s w
      → ¬ DeletesOccupied w o
      → Ends (operate s o now) w (λ _ w'. Good s w')
  unfolding operate
  operate_safe s now o w g harmless = elim (Bool-cases (o.oprate_type == 1)) [
    | inl e ↦ rw (e, operate) ((Safe-player_ask_room_list s).at w g)
    | inr n1 ↦ elim (Bool-cases (o.oprate_type == 2)) [
      | inl e ↦ rw (n1, e, operate) ((Safe-player_create_room o.room_key_origin s).at w g)
      | inr n2 ↦ elim (Bool-cases (o.oprate_type == 3)) [
        | inl e ↦ rw (n1, n2, e, operate) ((Safe-session_enter_room o.room_key_origin s now).at w g)
        | inr n3 ↦ elim (Bool-cases (o.oprate_type == 4)) [
          | inl e ↦ rw (n1, n2, n3, e, operate) ((Safe-session_leave_room s now).at w g)
          | inr n4 ↦ elim (Bool-cases (o.oprate_type == 5)) [
            | inl e ↦
                rw (n1, n2, n3, n4, e, operate)
                  (operate_delete_safe s now o w g harmless (ground (arith, e)))
            | inr n5 ↦ elim (Bool-cases (o.oprate_type == 6)) [
              | inl e ↦
                  rw (n1, n2, n3, n4, n5, e, operate)
                    ((Safe-player_copy_room o.room_key_origin o.room_key_destination s).at w g)
              | inr n6 ↦ elim (Bool-cases (o.oprate_type == 7)) [
                | inl e ↦
                    rw (n1, n2, n3, n4, n5, n6, e, operate)
                      ((Safe-player_sync_player_list o.room_key_origin s).at w g)
                | inr n7 ↦ rw (n1, n2, n3, n4, n5, n6, n7, operate) ((Safe-pure s tt).at w g)
              ]
            ]
          ]
        ]
      ]
    ]
  ]

  -- What HandleRoomOperate does before the switch: the report of a bad body, and the new name.
  reported : ℕ → Bool → M (Unit {0})
  reported s good =
      if good
      then pure tt
      else send_error s ShapeErrorCode.packet_wrong proto_buff_room_operate
          "the packet you send is wrong"

  reported_lem :
      (s : ℕ) (good : Bool) (w : World) (x : Session)
      → w.sessions s ≡ some x
      → (out : List (ℕ × Packet)) × (reported s good w ≡ some (tt, say out w))
  unfolding reported
  reported_lem s true w x e = ([], ground (arith, append-nil w.sent))
  reported_lem s false w x e =
      send_error_lem s ShapeErrorCode.packet_wrong proto_buff_room_operate
        "the packet you send is wrong" w x e

  -- The store at the switch: the same rooms, under the same keys.
  at_switch :
      (s : ℕ) (body : Bytes) (w : World)
      → Good s w
      → (w1 : World) × Good s w1
        × (w1.rooms ≡ w.rooms)
        × (w1.room_map ≡ w.room_map)
        × ((now : ℕ)
            → handle_room_operate s body now w
              ≡ (operate s (c.parse_operate body).1 now >>= λ _. pure 1) w1)
  unfolding handle_room_operate reported set_usr_name
  at_switch s body w g =
      let (good, o) = c.parse_operate body in
      let (x, e) = g.live in
      let (out, sent) = reported_lem s good w x e in
      let x' : Session = record x { usr_name = o.use_name } in
      (
        write_session s x' (say out w),
        record {
          inv = renewed-Inv (say out w) (say-Inv out g.inv) s x x' e refl refl;
          live = (x', ground arith);
        },
        refl,
        refl,
        λ now. ground (arith, sent, e),
      )

  handle_room_operate_safe :
      (s now : ℕ) (body : Bytes) (w : World)
      → Good s w
      → ¬ DeletesOccupied w (c.parse_operate body).1
      → Ends (handle_room_operate s body now) w (λ _ w'. Good s w')
  handle_room_operate_safe s now body w g harmless =
      let (w1, g1, er, em, step) = at_switch s body w g in
      let (_, w', done, g') =
        operate_safe s now (c.parse_operate body).1 w1 g1 (λ (five, (p, r, found, hr, occupied)).
          harmless (
            five,
            (
              p,
              r,
              subst (λ m. find (c.parse_operate body).1.room_key_origin m ≡ some p) em found,
              subst (λ h. h p ≡ some r) er hr,
              occupied,
            ),
          )) in
      (1, w', step now ∙ rw (done, ◌>>=◌), g')

  -- A request of a live session ends without undefined behaviour in a well-formed store, in which
  -- the session is alive, unless it asks to delete a room that someone is in.
  pub handle_request_safe :
      (s opcode now : ℕ) (body : Bytes) (w : World)
      → Good s w
      → (opcode ≡ proto_buff_room_operate → ¬ DeletesOccupied w (c.parse_operate body).1)
      → Ends (handle_request s opcode body now) w (λ _ w'. Good s w')
  unfolding handle_request
  handle_request_safe s opcode now body w g harmless =
      elim (Bool-cases (opcode == proto_buff_room_operate)) [
        | inl e ↦
            rw (e, handle_request)
              (handle_room_operate_safe s now body w g (harmless (ground (arith, e))))
        | inr n1 ↦ elim (Bool-cases (opcode == proto_buff_add_sharp)) [
          | inl e ↦ rw (n1, e, handle_request) ((Safe-handle_add_shape s body).at w g)
          | inr n2 ↦ elim (Bool-cases (opcode == proto_buff_remove_sharp)) [
            | inl e ↦ rw (n1, n2, e, handle_request) ((Safe-handle_remove_shape s body).at w g)
            | inr n3 ↦ rw (n1, n2, n3, handle_request) ((Safe-pure s session_handle_error).at w g)
          ]
        ]
      ]

  operate_faults :
      (s now : ℕ) (o : RoomOperate) (w : World)
      → Good s w
      → DeletesOccupied w o
      → operate s o now w ≡ none
  unfolding operate
  operate_faults s now o w g (five, (p, r, found, hr, occupied)) =
      ground (
        arith,
        five,
        player_delete_room_faults o.room_key_origin s now p w r g.inv found hr occupied,
      )

  -- A request to delete a room that someone is in always ends in undefined behaviour.
  pub handle_request_faults :
      (s now : ℕ) (body : Bytes) (w : World)
      → Good s w
      → DeletesOccupied w (c.parse_operate body).1
      → handle_request s proto_buff_room_operate body now w ≡ none
  unfolding handle_request
  handle_request_faults s now body w g (five, (p, r, found, hr, occupied)) =
      let (w1, g1, er, em, step) = at_switch s body w g in
      let bad =
        operate_faults s now (c.parse_operate body).1 w1 g1
          (five, (p, r, rw em found, rw er hr, occupied)) in
      step now ∙ rw (bad, ◌>>=◌)
