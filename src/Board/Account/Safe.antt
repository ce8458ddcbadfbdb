-- ===== src/Board/Account/Safe.antt =====
-- Receiving a packet in a well-formed store.
use white_board_server.Prelude.{
  ℕ, ◌≡◌, refl, Bool, true, false, none, some, List, [], ◌∷◌, arith, ◌==◌, Bool-cases, Option-cases,
  inl, inr, subst, ◌⊎◌,
}
use white_board_server.Containers.Ord.{Bytes, nat_ord, bytes_ord}
use white_board_server.Containers.Map.{find}
use white_board_server.Board.Message.{Codec, RoomOperate, proto_buff_room_operate}
use white_board_server.Board.World.{Room, World, Ends}
use white_board_server.Board.Invariant.{Inv}
use white_board_server.Board.Session.Safe.{
  DeletesOccupied, handle_request_safe, handle_request_faults,
}
use white_board_server.Board.Account.{Connection, on_recv_packet}

module _ ⦃c : Codec⦄ where
  -- A packet that may be handled: not a request to delete a room that someone is in.
  abbrev pub IsHarmless : World → ℕ → Bytes → Type 0
  IsHarmless w opcode body =
      opcode ≡ proto_buff_room_operate → ¬ DeletesOccupied w (c.parse_operate body).1

  pub on_recv_packet_safe :
      (k : Connection) (opcode now : ℕ) (body : Bytes) (w : World)
      → Inv w
      → IsHarmless w opcode body
      → Ends (on_recv_packet k opcode body now) w (λ _ w'. Inv w')
  unfolding on_recv_packet
  on_recv_packet_safe k opcode now body w i harmless = elim (Bool-cases w.can_login) [
    | inr shut ↦ (false, w, ground (arith, shut), i)
    | inl here ↦ elim (Option-cases (find k.session_id w.player_sessions)) [
      | inl e ↦ (false, w, ground (arith, here, e), i)
      | inr (s, e) ↦
          let (x, h, _) = i.registered k.session_id s e in
          let (_, w', done, g) =
            handle_request_safe s opcode now body w (record { inv = i; live = (x, h) }) harmless in
          (true, w', ground (arith, here, e, done), g.inv)
    ]
  ]

  pub on_recv_packet_faults :
      (k : Connection) (now s : ℕ) (body : Bytes) (w : World)
      → Inv w
      → w.can_login ≡ true
      → find k.session_id w.player_sessions ≡ some s
      → DeletesOccupied w (c.parse_operate body).1
      → on_recv_packet k proto_buff_room_operate body now w ≡ none
  unfolding on_recv_packet
  on_recv_packet_faults k now s body w i here e bad =
      let (x, h, _) = i.registered k.session_id s e in
      ground
        (arith, here, e, handle_request_faults s now body w (record { inv = i; live = (x, h) }) bad)

  -- Whether a request deletes a room that someone is in.
  DeletesOccupied-cases :
      (w : World) (o : RoomOperate) → Inv w → DeletesOccupied w o ⊎ (¬ DeletesOccupied w o)
  DeletesOccupied-cases w o i = elim (Bool-cases (o.oprate_type == 5)) [
    | inr other ↦ inr (λ d. absurd (ground (arith, other, d.0)))
    | inl five ↦ elim (Option-cases (find o.room_key_origin w.room_map)) [
      | inl e ↦ inr (λ (_, (p, r, found, hr, occupied)). absurd (ground (arith, e, found)))
      | inr (p, e) ↦
          let (r, h, _) = i.listed o.room_key_origin p e in
          by_members p r e h (ground (arith, five)) r.sessions refl
    ]
  ]
    where
      by_members :
          (p : ℕ) (r : Room)
          → find o.room_key_origin w.room_map ≡ some p
          → w.rooms p ≡ some r
          → o.oprate_type ≡ 5
          → (ss : List ℕ) → r.sessions ≡ ss
          → DeletesOccupied w o ⊎ (¬ DeletesOccupied w o)
      by_members p r e h five [] empty =
          inr
            (λ (_, (q, r', found, hr, occupied)). occupied (ground (arith, e, h, found, hr, empty)))
      by_members p r e h five (s ∷ rest) full = inl (five, (p, r, e, h, λ none_in. cc))

  faults_with :
      (k : Connection) (opcode now s : ℕ) (body : Bytes) (w : World)
      → Inv w
      → opcode ≡ proto_buff_room_operate
      → w.can_login ≡ true
      → find k.session_id w.player_sessions ≡ some s
      → DeletesOccupied w (c.parse_operate body).1
      → on_recv_packet k opcode body now w ≡ none
  faults_with k opcode now s body w i e here f bad =
      rw e (on_recv_packet_faults k now s body w i here f bad)

  -- A packet is handled or its handling is undefined behaviour.
  on_recv_packet_cases :
      (k : Connection) (opcode now : ℕ) (body : Bytes) (w : World)
      → Inv w
      → (on_recv_packet k opcode body now w ≡ none)
        ⊎ Ends (on_recv_packet k opcode body now) w (λ _ w'. Inv w')
  unfolding on_recv_packet
  on_recv_packet_cases k opcode now body w i =
      elim (DeletesOccupied-cases w (c.parse_operate body).1 i) [
        | inr fine ↦ inr (on_recv_packet_safe k opcode now body w i (λ _. fine))
        | inl bad ↦ elim (Bool-cases (opcode == proto_buff_room_operate)) [
          | inr other ↦
              inr
                (on_recv_packet_safe k opcode now body w i (λ e. absurd (ground (arith, e, other))))
          | inl e ↦ elim (Bool-cases w.can_login) [
            | inr shut ↦ inr (false, w, ground (arith, shut), i)
            | inl here ↦ elim (Option-cases (find k.session_id w.player_sessions)) [
              | inl f ↦ inr (false, w, ground (arith, here, f), i)
              | inr (s, f) ↦ inl (faults_with k opcode now s body w i (op_eq opcode e) here f bad)
            ]
          ]
        ]
      ]
    where
      op_eq : (n : ℕ) → (n == proto_buff_room_operate) ≡ true → n ≡ proto_buff_room_operate
      op_eq n h = ground (arith, h)

  pub on_recv_packet-Inv :
      (k : Connection) (opcode now : ℕ) (body : Bytes) (w w' : World) (b : Bool)
      → Inv w
      → on_recv_packet k opcode body now w ≡ some (b, w')
      → Inv w'
  on_recv_packet-Inv k opcode now body w w' b i e =
      elim (on_recv_packet_cases k opcode now body w i) [
        | inl fault ↦ absurd (ground (arith, e, fault))
        | inr (a, v, f, j) ↦ subst Inv (ground (arith, e, f)) j
      ]
