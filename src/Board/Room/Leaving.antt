-- ===== src/Board/Room/Leaving.antt =====
-- Room::LeaveRoom in a well-formed store: what it changes and sends.
use white_board_server.Prelude.{
  ℕ, ◌+◌, ◌≡◌, true, Option, none, some, arith, All, ◌==◌, if◌then◌else◌, Bool-cases, inl, inr,
  length, fun_ext,
}
use white_board_server.Containers.Ord.{Bytes, nat_ord, bytes_ord}
use white_board_server.Containers.Map.{find}
use white_board_server.Containers.Set.{contains, discard, contains-discard, discard-IsAscending}
use white_board_server.Board.Message.{Codec}
use white_board_server.Board.World.{Room, Session, World, update}
use white_board_server.Board.Room.{
  leave_room, leave_members, start_timer, set_room, get_player_size, empty_room_seconds,
}
use white_board_server.Board.Invariant.{Inv, All-IsLive}
use white_board_server.Board.Room.Traffic.{IsLive, say, list_for, broadcast_player_list_lem}

-- The store after session `s` (which was `x`) has left room `p` (which was `r`), whose timer is `t`.
abbrev pub without : Room → ℕ → ℕ → Room
without r s t = record r { sessions = discard s r.sessions; can_delete_time = t }

abbrev pub left : World → ℕ → ℕ → Room → Session → ℕ → World
left w p s r x t = record w {
  rooms = update w.rooms p (some (without r s t));
  sessions = update w.sessions s (some (record x { room = none }));
}

-- An empty room may be deleted an hour later; the timer of another is left as it is.
abbrev pub timer : Room → ℕ → ℕ → ℕ
timer r s now =
    if length (discard s r.sessions) == 0 then now + empty_room_seconds else r.can_delete_time

update-update :
    {A : Type 0} (f : ℕ → Option A) (p : ℕ) (v u : Option A)
    → update (update f p v) p u ≡ update f p u
update-update f p v u = fun_ext λ q. ground arith

module _ ⦃c : Codec⦄ where
  leave_members_lem :
      (p s : ℕ) (w : World) (r : Room) (x : Session)
      → w.rooms p ≡ some r
      → w.sessions s ≡ some x
      → contains s r.sessions ≡ true
      → All (IsLive (left w p s r x r.can_delete_time).sessions) (discard s r.sessions)
      → let w' = left w p s r x r.can_delete_time in
        leave_members p s w ≡ some (tt, say (list_for w'.sessions (discard s r.sessions)) w')
  unfolding leave_members set_room
  leave_members_lem p s w r x hr hs here live =
      let w' = left w p s r x r.can_delete_time in
      ground (arith, broadcast_player_list_lem p w' (without r s r.can_delete_time))

  pub leave_room_lem :
      (p s now : ℕ) (w : World) (r : Room) (x : Session)
      → w.rooms p ≡ some r
      → w.sessions s ≡ some x
      → contains s r.sessions ≡ true
      → All (IsLive (left w p s r x r.can_delete_time).sessions) (discard s r.sessions)
      → let w' = left w p s r x (timer r s now) in
        leave_room p s now w ≡ some (tt, say (list_for w'.sessions (discard s r.sessions)) w')
  unfolding leave_room start_timer get_player_size
  leave_room_lem p s now w r x hr hs here live = ground (
    arith,
    leave_members_lem p s w r x hr hs here live,
    update-update w.rooms p (some (without r s r.can_delete_time))
        (some (without r s (now + empty_room_seconds))),
  )

module _ (w : World) (p s : ℕ) (r : Room) (x : Session) (t : ℕ) where
  module _ (i : Inv w) (hr : w.rooms p ≡ some r) (hs : w.sessions s ≡ some x) where
    pub left-IsLive : All (IsLive (left w p s r x t).sessions) (discard s r.sessions)
    left-IsLive = All-IsLive (left w p s r x t).sessions (discard s r.sessions) live
      where
        live :
            (u : ℕ)
            → contains u (discard s r.sessions) ≡ true
            → IsLive (left w p s r x t).sessions u
        live u m = elim (Bool-cases (s == u)) [
          | inl same ↦ (record x { room = none }, ground (arith, same))
          | inr other ↦
              let (y, e, _) =
                i.member p u r hr (ground (arith, m, contains-discard s u r.sessions, other)) in
              (y, ground (arith, other, e))
        ]

    left_inside :
        (u q : ℕ) (y : Session)
        → (left w p s r x t).sessions u ≡ some y
        → y.room ≡ some q
        → (r' : Room) × ((left w p s r x t).rooms q ≡ some r') × (contains u r'.sessions ≡ true)
    left_inside u q y h j = elim (Bool-cases (s == u)) [
      | inl same ↦ absurd (ground (arith, same))
      | inr other ↦
          let (r0, e, m) = i.inside u q y (ground (arith, other)) j in
          elim (Bool-cases (p == q)) [
            | inl here ↦ (
              without r s t,
              ground (arith, here),
              ground (arith, here, other, e, m, contains-discard s u r.sessions),
            )
            | inr there ↦ (r0, ground (arith, there, e), m)
          ]
    ]

    left_member :
        contains s r.sessions ≡ true
        → (q u : ℕ) (r' : Room) → (left w p s r x t).rooms q ≡ some r'
        → contains u r'.sessions ≡ true
        → (y : Session) × ((left w p s r x t).sessions u ≡ some y) × (y.room ≡ some q)
    left_member inn q u r' h m = elim (Bool-cases (p == q)) [
      | inl here ↦
          let (y, e, k) =
            i.member p u r hr (ground (arith, here, contains-discard s u r.sessions)) in
          (y, ground (arith, here, e, contains-discard s u r.sessions), ground (arith, here, k))
      | inr there ↦
          let (y, e, k) = i.member q u r' (ground (arith, there)) m in
          let (z, f, l) = i.member p s r hr inn in (y, ground (arith, there, e, f, k, l), k)
    ]

    left_registered :
        (id : Bytes) (u : ℕ)
        → find id w.player_sessions ≡ some u
        → (y : Session) × ((left w p s r x t).sessions u ≡ some y) × (y.session_id ≡ id)
    left_registered id u h =
        let (y, e, k) = i.registered id u h in
        elim (Bool-cases (s == u)) [
          | inl same ↦ (record x { room = none }, ground (arith, same), ground (arith, same, e, k))
          | inr other ↦ (y, ground (arith, other, e), k)
        ]

    pub left-Inv : contains s r.sessions ≡ true → Inv (left w p s r x t)
    left-Inv inn = record {
      listed = λ k q h.
          let (r', e, k') = i.listed k q h in
          elim (Bool-cases (p == q)) [
            | inl same ↦ (without r s t, ground (arith, same), ground (arith, same, e, k'))
            | inr other ↦ (r', ground (arith, other, e), k')
          ];
      owned = λ q r' h. ground (arith, h, i.owned q r', i.owned p r);
      inside = left_inside;
      member = left_member inn;
      ordered = λ q r' h.
          ground (arith, h, i.ordered q r', i.ordered p r, discard-IsAscending s r.sessions);
      fresh_room = λ q r' h. ground (arith, h, i.fresh_room q r', i.fresh_room p r);
      registered = left_registered;
      known = λ u y h. ground (arith, h, i.known u y, i.known s x);
      sorted = i.sorted;
      fresh_session = λ u y h. ground (arith, h, i.fresh_session u y, i.fresh_session s x);
    }
