-- ===== src/Board/Room/Entering.antt =====
-- Room::EnterRoom in a well-formed store: what it changes and sends.
use white_board_server.Prelude.{
  ℕ, ◌≡◌, true, false, Option, none, some, List, [], ◌∷◌, ◌++◌, append_assoc, append-nil, arith,
  All, ◌==◌, Bool-cases, inl, inr,
}
use white_board_server.Containers.Ord.{Bytes, nat_ord, bytes_ord}
use white_board_server.Containers.Map.{Map, find}
use white_board_server.Containers.Set.{contains, add, contains-add, add-IsAscending}
use white_board_server.Board.Message.{Packet, Codec}
use white_board_server.Board.World.{Room, Session, World, update}
use white_board_server.Board.Room.{
  enter_room, set_room, sync_shape_object_info, sync_shapes, shapes_packet, parse_stored,
}
use white_board_server.Board.Invariant.{Inv, All-IsLive}
use white_board_server.Board.Room.Traffic.{
  IsLive, say, delivery, list_for, send_transcode_lem, broadcast_player_list_lem,
}

-- The store after session `s` (which was `x`) has joined room `p` (which was `r`).
abbrev pub joined : Room → ℕ → Room
joined r s = record r { sessions = add s r.sessions; can_delete_time = 0 }

abbrev pub entered : World → ℕ → ℕ → Room → Session → World
entered w p s r x = record w {
  rooms = update w.rooms p (some (joined r s));
  sessions = update w.sessions s (some (record x { room = some p }));
}

module _ ⦃c : Codec⦄ where
  -- The stored shapes for one connection: nothing if there are none.
  abbrev pub shapes_for : Option ℕ → Map ℕ Bytes → List (ℕ × Packet)
  shapes_for conn [] = []
  shapes_for conn (e ∷ rest) =
      delivery conn
        (shapes_packet (record { msgid = none; shape_object = parse_stored (e ∷ rest) }))

  sync_shapes_lem :
      (s : ℕ) (m : Map ℕ Bytes) (w : World) (x : Session)
      → w.sessions s ≡ some x
      → sync_shapes s m w ≡ some (tt, say (shapes_for x.conn m) w)
  unfolding sync_shapes
  sync_shapes_lem s [] w x h = ground (arith, append-nil w.sent)
  sync_shapes_lem s (e ∷ rest) w x h =
      let packet =
        shapes_packet (record { msgid = none; shape_object = parse_stored (e ∷ rest) }) in
      let (b, sent) = send_transcode_lem s packet w x h in ground (arith, sent)

  pub enter_room_lem :
      (p s : ℕ) (w : World) (r : Room) (x : Session)
      → w.rooms p ≡ some r
      → w.sessions s ≡ some x
      → contains s r.sessions ≡ false
      → All (IsLive (entered w p s r x).sessions) (add s r.sessions)
      → let w' = entered w p s r x in
        enter_room p s w
        ≡ some (
          tt,
          say (shapes_for x.conn r.shape_object ++ list_for w'.sessions (add s r.sessions)) w',
        )
  unfolding enter_room set_room sync_shape_object_info
  enter_room_lem p s w r x hr hs out live =
      let w' = entered w p s r x in
      ground (
        arith,
        sync_shapes_lem s r.shape_object w' (record x { room = some p }),
        broadcast_player_list_lem p (say (shapes_for x.conn r.shape_object) w') (joined r s),
        append_assoc w.sent (shapes_for x.conn r.shape_object)
            (list_for w'.sessions (add s r.sessions)),
      )

module _ (w : World) (p s : ℕ) (r : Room) (x : Session) where
  -- The members of the room that `s` has joined are live.
  pub entered-IsLive :
      Inv w
      → w.rooms p ≡ some r
      → w.sessions s ≡ some x
      → All (IsLive (entered w p s r x).sessions) (add s r.sessions)
  entered-IsLive i hr hs = All-IsLive (entered w p s r x).sessions (add s r.sessions) live
    where
      live : (t : ℕ) → contains t (add s r.sessions) ≡ true → IsLive (entered w p s r x).sessions t
      live t m = elim (Bool-cases (s == t)) [
        | inl same ↦ (record x { room = some p }, ground (arith, same))
        | inr other ↦
            let (y, e, _) =
              i.member p t r hr (ground (arith, m, contains-add s t r.sessions, other)) in
            (y, ground (arith, other, e))
      ]

  module _ (i : Inv w) (hr : w.rooms p ≡ some r) (hs : w.sessions s ≡ some x) where
    entered_inside :
        (t q : ℕ) (y : Session)
        → (entered w p s r x).sessions t ≡ some y
        → y.room ≡ some q
        → (r' : Room) × ((entered w p s r x).rooms q ≡ some r') × (contains t r'.sessions ≡ true)
    entered_inside t q y h j = elim (Bool-cases (s == t)) [
      | inl same ↦
          (joined r s, ground (arith, same), ground (arith, same, contains-add s t r.sessions))
      | inr other ↦
          let (r0, e, m) = i.inside t q y (ground (arith, other)) j in
          elim (Bool-cases (p == q)) [
            | inl here ↦ (
              joined r s,
              ground (arith, here),
              ground (arith, here, e, m, contains-add s t r.sessions),
            )
            | inr there ↦ (r0, ground (arith, there, e), m)
          ]
    ]

    entered_member :
        x.room ≡ none
        → (q t : ℕ) (r' : Room) → (entered w p s r x).rooms q ≡ some r'
        → contains t r'.sessions ≡ true
        → (y : Session) × ((entered w p s r x).sessions t ≡ some y) × (y.room ≡ some q)
    entered_member free q t r' h m = elim (Bool-cases (s == t)) [
      | inl same ↦ elim (Bool-cases (p == q)) [
        | inl here ↦ (record x { room = some p }, ground (arith, same), ground (arith, here))
        | inr there ↦
            let (y, e, k) = i.member q t r' (ground (arith, there)) m in
            absurd (ground (arith, same, there, e, k))
      ]
      | inr other ↦ elim (Bool-cases (p == q)) [
        | inl here ↦
            let (y, e, k) =
              i.member p t r hr (ground (arith, here, other, contains-add s t r.sessions)) in
            (y, ground (arith, other, e), ground (arith, here, k))
        | inr there ↦
            let (y, e, k) = i.member q t r' (ground (arith, there)) m in
            (y, ground (arith, other, e), k)
      ]
    ]

    entered_registered :
        (id : Bytes) (t : ℕ)
        → find id w.player_sessions ≡ some t
        → (y : Session) × ((entered w p s r x).sessions t ≡ some y) × (y.session_id ≡ id)
    entered_registered id t h =
        let (y, e, k) = i.registered id t h in
        elim (Bool-cases (s == t)) [
          | inl same ↦
              (record x { room = some p }, ground (arith, same), ground (arith, same, e, k))
          | inr other ↦ (y, ground (arith, other, e), k)
        ]

    pub entered-Inv : x.room ≡ none → Inv (entered w p s r x)
    entered-Inv free = record {
      listed = λ k q h.
          let (r', e, k') = i.listed k q h in
          elim (Bool-cases (p == q)) [
            | inl same ↦ (joined r s, ground (arith, same), ground (arith, same, e, k'))
            | inr other ↦ (r', ground (arith, other, e), k')
          ];
      owned = λ q r' h. ground (arith, h, i.owned q r', i.owned p r);
      inside = entered_inside;
      member = entered_member free;
      ordered =
          λ q r' h. ground (arith, h, i.ordered q r', i.ordered p r, add-IsAscending s r.sessions);
      fresh_room = λ q r' h. ground (arith, h, i.fresh_room q r', i.fresh_room p r);
      registered = entered_registered;
      known = λ t y h. ground (arith, h, i.known t y, i.known s x);
      sorted = i.sorted;
      fresh_session = λ t y h. ground (arith, h, i.fresh_session t y, i.fresh_session s x);
    }
