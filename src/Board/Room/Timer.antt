-- ===== src/Board/Room/Timer.antt =====
-- Room::CanDelete.
use white_board_server.Prelude.{ℕ, ◌≡◌, refl, true, false, List, [], ◌∷◌, arith, ltb, ◌==◌}
use white_board_server.Board.World.{Room}
use white_board_server.Board.Room.{can_delete, get_player_size}

pub empty_of_can_delete : (r : Room) (now : ℕ) → can_delete r now ≡ true → r.sessions ≡ []
unfolding can_delete get_player_size
empty_of_can_delete r now h = by_members r.sessions refl
  where
    by_members : (ss : List ℕ) → r.sessions ≡ ss → r.sessions ≡ []
    by_members [] e = e
    by_members (s ∷ rest) e = absurd (ground (arith, e, h))

-- A room whose timer was never started may not be deleted at any time.
pub can_delete-no_timer : (r : Room) (now : ℕ) → r.can_delete_time ≡ 0 → can_delete r now ≡ false
unfolding can_delete
can_delete-no_timer r now h = ground arith

-- An empty room whose timer was started may be deleted once it has run out.
pub can_delete-empty :
    (r : Room) (now : ℕ)
    → r.sessions ≡ []
    → (r.can_delete_time == 0) ≡ false
    → can_delete r now ≡ ltb r.can_delete_time now
unfolding can_delete get_player_size
can_delete-empty r now e f = ground (arith, e, f)
