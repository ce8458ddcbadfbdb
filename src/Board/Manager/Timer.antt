-- ===== src/Board/Manager/Timer.antt =====
-- What RoomManager::Update does to one room, and when a room that was left is deleted.
use white_board_server.Prelude.{
  ℕ, ◌+◌, ◌≡◌, true, none, some, [], ◌∷◌, arith, Bool-cases, inl, inr, ltb, if◌then◌else◌,
}
use white_board_server.Containers.Ord.{nat_ord, bytes_ord}
use white_board_server.Containers.Set.{contains, discard, contains-one, discard-one}
use white_board_server.Board.Message.{Codec}
use white_board_server.Board.World.{Room, Session, World, ◌>>◌, Ends}
use white_board_server.Board.Room.{can_delete, leave_room, empty_room_seconds}
use white_board_server.Board.Room.Timer.{can_delete-no_timer, can_delete-empty}
use white_board_server.Board.Room.Traffic.{say, list_for}
use white_board_server.Board.Room.Leaving.{
  left, timer, without, leave_room_lem, left-IsLive, left-Inv,
}
use white_board_server.Board.Room.Safe.{say-Inv}
use white_board_server.Board.Invariant.{Inv}
use white_board_server.Board.Manager.{update_manager}
use white_board_server.Board.Manager.Expiry.{update_manager_lem}

module _ ⦃c : Codec⦄ where
  -- In a well-formed store a sweep ends without undefined behaviour in a well-formed store. A room
  -- that may be deleted at that time is gone, and every other room is as it was.
  pub update_manager-exact :
      (now p : ℕ) (w : World) (r : Room)
      → Inv w
      → w.rooms p ≡ some r
      → Ends
          (update_manager now)
          w
          (λ _ w'. Inv w' × (w'.rooms p ≡ (if can_delete r now then none else some r)))
  update_manager-exact now p w r i h =
      let (a, w', done, swept) = update_manager_lem now w i in
      (
        a,
        w',
        done,
        (
          swept.inv,
          elim (Bool-cases (can_delete r now)) [
            | inl goes ↦ ground (arith, goes, swept.gone p r h goes (i.owned p r h))
            | inr stays ↦ ground (arith, stays, swept.kept p r h stays)
          ],
        ),
      )

  -- In a well-formed store, a room whose timer was never started survives every sweep, whether or
  -- not anyone is in it.
  pub update_manager-no_timer :
      (now p : ℕ) (w : World) (r : Room)
      → Inv w
      → w.rooms p ≡ some r
      → r.can_delete_time ≡ 0
      → Ends (update_manager now) w (λ _ w'. w'.rooms p ≡ some r)
  update_manager-no_timer now p w r i h never =
      let (a, w', done, swept) = update_manager_lem now w i in
      (a, w', done, swept.kept p r h (can_delete-no_timer r now never))

  -- In a well-formed store, when the only member of a room leaves it at time `now`, a sweep at time
  -- `later` deletes the room if more than an hour has passed, and leaves it empty otherwise.
  pub leave_room-expires :
      (p s now later : ℕ) (w : World) (r : Room) (x : Session)
      → Inv w
      → w.rooms p ≡ some r
      → w.sessions s ≡ some x
      → r.sessions ≡ s ∷ []
      → Ends (leave_room p s now >> update_manager later) w (λ _ w'.
        Inv w'
        × (w'.rooms p ≡ (
            if ltb (now + empty_room_seconds) later
            then none
            else some (record r { sessions = []; can_delete_time = now + empty_room_seconds }))))
  leave_room-expires p s now later w r x i hr hs only =
      let here : contains s r.sessions ≡ true = ground (arith, only, contains-one s) in
      let empty : discard s r.sessions ≡ [] = ground (arith, only, discard-one s) in
      let t = now + empty_room_seconds in
      let timed : timer r s now ≡ t = ground (arith, empty) in
      let i1 = left-Inv w p s r x t i hr hs here in
      let out = list_for (left w p s r x t).sessions (discard s r.sessions) in
      let w1 = say out (left w p s r x t) in
      let (a, w', done, (i', rooms')) =
        update_manager-exact later p w1 (without r s t) (say-Inv out i1) (ground arith) in
      (
        a,
        w',
        ground (
          arith,
          timed,
          leave_room_lem p s now w r x hr hs here (left-IsLive w p s r x r.can_delete_time i hr hs),
          done,
        ),
        (
          i',
          ground
              (arith, empty, rooms', can_delete-empty (without r s t) later empty (ground arith)),
        ),
      )
