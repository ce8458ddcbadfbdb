-- ===== src/Board/Manager/Expiry.antt =====
-- The loop of RoomManager::Update over the rooms.
use white_board_server.Prelude.{
  ℕ, ◌≡◌, refl, true, false, none, some, List, [], ◌∷◌, arith, All, ◌==◌, Bool-cases, inl, inr,
}
use white_board_server.Containers.Ord.{Bytes, nat_ord, bytes_ord}
use white_board_server.Containers.Map.{Map, find, erase, keys, All-Finds, Finds, find-erase}
use white_board_server.Containers.Set.{IsAscending}
use white_board_server.Board.Message.{Codec, Packet}
use white_board_server.Board.World.{Ends, Room, World}
use white_board_server.Board.Room.{can_delete}
use white_board_server.Board.Room.Timer.{empty_of_can_delete}
use white_board_server.Board.Room.Traffic.{say}
use white_board_server.Board.Room.Safe.{say-Inv}
use white_board_server.Board.Invariant.{Inv}
use white_board_server.Board.Invariant.Updates.{closed, closed-Inv}
use white_board_server.Board.Manager.{update_rooms, update_manager, room_list_packet}
use white_board_server.Board.Manager.Safe.{broadcast_room_list_lem, room_deliveries}

-- The loop's outcome over the entries that it visits: of the rooms among them those that may be
-- deleted are gone, and no other room has changed.
pub record Swept (w : World) (now : ℕ) (visited : Map Bytes ℕ) (w' : World) : Type 0 where
  pub inv : Inv w'
  pub gone :
      (p : ℕ) (r : Room)
      → w.rooms p ≡ some r
      → can_delete r now ≡ true
      → find r.room_key visited ≡ some p
      → w'.rooms p ≡ none
  pub kept :
      (p : ℕ) (r : Room) → w.rooms p ≡ some r → can_delete r now ≡ false → w'.rooms p ≡ some r
  pub unvisited :
      (p : ℕ) (r : Room) → w.rooms p ≡ some r → find r.room_key visited ≡ none → w'.rooms p ≡ some r
  pub no_new : (p : ℕ) → w.rooms p ≡ none → w'.rooms p ≡ none
  pub sessions : w'.sessions ≡ w.sessions

Finds-erase :
    (key : Bytes) (m rest : Map Bytes ℕ)
    → All (λ k. bytes_ord.lt key k ≡ true) (keys rest)
    → All (Finds m) rest
    → All (Finds (erase key m)) rest
Finds-erase key m [] above a = tt
Finds-erase key m ((k, p) ∷ rest) above a = (
  ground (arith, above.0, a.0, find-erase key k m, bytes_ord.eq_iff key k, bytes_ord.lt_irrefl key),
  Finds-erase key m rest above.1 a.1,
)

module _ ⦃c : Codec⦄ (now : ℕ) where
  module _ (w : World) (i : Inv w) (key : Bytes) (p : ℕ) (r : Room) (rest : Map Bytes ℕ)
      (listed : find key w.room_map ≡ some p) (hr : w.rooms p ≡ some r) (k : r.room_key ≡ key) where
    Swept-kept :
        (w' : World)
        → can_delete r now ≡ false
        → Swept w now rest w'
        → Swept w now ((key, p) ∷ rest) w'
    unfolding find
    Swept-kept w' stays h = record {
      inv = h.inv;
      gone = λ q r0 e d f. h.gone q r0 e d (ground (arith, e, d, f, stays, hr, i.owned q r0));
      kept = h.kept;
      unvisited = λ q r0 e f. h.unvisited q r0 e (ground (arith, f));
      no_new = h.no_new;
      sessions = h.sessions;
    }

    Swept-gone :
        (out : List (ℕ × Packet)) (w' : World)
        → can_delete r now ≡ true
        → Swept (say out (closed w key p)) now rest w'
        → Swept w now ((key, p) ∷ rest) w'
    unfolding find
    Swept-gone out w' goes h = record {
      inv = h.inv;
      gone = λ q r0 e d f. elim (Bool-cases (p == q)) [
        | inl same ↦ ground (arith, same, h.no_new q)
        | inr other ↦ h.gone q r0 (ground (arith, other, e)) d (ground (arith, other, f))
      ];
      kept = λ q r0 e d. h.kept q r0 (ground (arith, e, d, goes, hr)) d;
      unvisited = λ q r0 e f.
          h.unvisited q r0 (ground (arith, e, f, hr, k, bytes_ord.eq_iff key r0.room_key))
            (ground (arith, f));
      no_new = λ q e. h.no_new q (ground (arith, e));
      sessions = h.sessions;
    }

  update_rooms_lem :
      (m : Map Bytes ℕ) (w : World)
      → Inv w
      → All (Finds w.room_map) m
      → IsAscending (keys m)
      → Ends (update_rooms m now) w (λ _ w'. Swept w now m w')
  unfolding update_rooms find
  update_rooms_lem [] w i finds above = (
    tt,
    w,
    refl,
    record {
      inv = i;
      gone = λ p r e d f. absurd (ground (arith, f));
      kept = λ p r e d. e;
      unvisited = λ p r e f. e;
      no_new = λ p e. e;
      sessions = refl;
    },
  )
  update_rooms_lem ((key, p) ∷ rest) w i finds above =
      let (r, hr, k) = i.listed key p finds.0 in
      elim (Bool-cases (can_delete r now)) [
        | inl goes ↦
            let w1 = closed w key p in
            let i1 = closed-Inv w i key p r hr finds.0 (empty_of_can_delete r now goes) in
            let out = room_deliveries w1 (room_list_packet w1.room_map) w1.room_map in
            let (_, w', done, h) =
              update_rooms_lem rest (say out w1) (say-Inv out i1)
                (Finds-erase key w.room_map rest above.0 finds.1) above.1 in
            (
              tt,
              w',
              ground (arith, hr, goes, broadcast_room_list_lem w1 i1, done),
              Swept-gone w i key p r rest finds.0 hr k out w' goes h,
            )
        | inr stays ↦
            let (_, w', done, h) = update_rooms_lem rest w i finds.1 above.1 in
            (
              tt,
              w',
              ground (arith, hr, stays, done),
              Swept-kept w i key p r rest finds.0 hr k w' stays h,
            )
      ]

  -- A sweep ends without a fault in a well-formed store.
  pub update_manager_lem :
      (w : World) → Inv w → Ends (update_manager now) w (λ _ w'. Swept w now w.room_map w')
  unfolding update_manager
  update_manager_lem w i =
      let (_, w', done, h) =
        update_rooms_lem w.room_map w i (All-Finds w.room_map i.sorted) i.sorted in
      (tt, w', ground (arith, done), h)
