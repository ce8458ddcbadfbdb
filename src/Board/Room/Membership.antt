-- ===== src/Board/Room/Membership.antt =====
-- Joining and leaving a room in a well-formed store: the state that follows and all that is sent.
use white_board_server.Prelude.{ℕ, ◌≡◌, true, false, none, some, ◌++◌, arith, Bool-cases, inl, inr}
use white_board_server.Containers.Ord.{nat_ord}
use white_board_server.Containers.Set.{contains, add, discard}
use white_board_server.Board.Message.{Codec}
use white_board_server.Board.World.{Room, Session, World}
use white_board_server.Board.Room.{enter_room, leave_room}
use white_board_server.Board.Room.Traffic.{say, list_for}
use white_board_server.Board.Room.Entering.{
  entered, shapes_for, enter_room_lem, entered-IsLive, entered-Inv,
}
use white_board_server.Board.Room.Leaving.{left, timer, leave_room_lem, left-IsLive, left-Inv}
use white_board_server.Board.Room.Safe.{say-Inv}
use white_board_server.Board.Invariant.{Inv}

not_member_of_free :
    (p s : ℕ) (w : World) (r : Room) (x : Session)
    → Inv w
    → w.rooms p ≡ some r
    → w.sessions s ≡ some x
    → x.room ≡ none
    → contains s r.sessions ≡ false
not_member_of_free p s w r x i hr hs free = elim (Bool-cases (contains s r.sessions)) [
  | inl here ↦
      let (y, e, at_p) = i.member p s r hr here in absurd (ground (arith, e, hs, free, at_p))
  | inr out ↦ out
]

module _ ⦃c : Codec⦄ where
  -- In a well-formed store, a session that is in no room enters a room: it is sent the shapes of
  -- the room, then every member, itself included, is sent the list of players; the session is a
  -- member, the room's timer is off, nothing else changes, and the store is well formed.
  pub enter_room-joins :
      (p s : ℕ) (w : World) (r : Room) (x : Session)
      → Inv w
      → w.rooms p ≡ some r
      → w.sessions s ≡ some x
      → x.room ≡ none
      → let w' = entered w p s r x in
        let out = shapes_for x.conn r.shape_object ++ list_for w'.sessions (add s r.sessions) in
        (enter_room p s w ≡ some (tt, say out w')) × Inv (say out w')
  enter_room-joins p s w r x i hr hs free =
      let w' = entered w p s r x in
      let out = shapes_for x.conn r.shape_object ++ list_for w'.sessions (add s r.sessions) in
      (
        enter_room_lem p s w r x hr hs (not_member_of_free p s w r x i hr hs free)
            (entered-IsLive w p s r x i hr hs),
        say-Inv out (entered-Inv w p s r x i hr hs free),
      )

  -- In a well-formed store, a member leaves its room: the members that stay are sent the list of
  -- players without it; the session is in no room, the timer is set to an hour from now if nobody
  -- stays and left as it is otherwise, nothing else changes, and the store is well formed.
  pub leave_room-leaves :
      (p s now : ℕ) (w : World) (r : Room) (x : Session)
      → Inv w
      → w.rooms p ≡ some r
      → w.sessions s ≡ some x
      → contains s r.sessions ≡ true
      → let w' = left w p s r x (timer r s now) in
        let out = list_for w'.sessions (discard s r.sessions) in
        (leave_room p s now w ≡ some (tt, say out w')) × Inv (say out w')
  leave_room-leaves p s now w r x i hr hs here =
      let w' = left w p s r x (timer r s now) in
      (
        leave_room_lem p s now w r x hr hs here (left-IsLive w p s r x r.can_delete_time i hr hs),
        say-Inv (list_for w'.sessions (discard s r.sessions))
            (left-Inv w p s r x (timer r s now) i hr hs here),
      )
