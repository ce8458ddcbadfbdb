-- ===== src/Board/Invariant.antt =====
-- Well-formedness of the store that rooms, sessions and their maps share.
pub mod Updates
pub mod Players
use white_board_server.Prelude.{ℕ, ◌<◌, ◌≡◌, true, Option, some, List, [], ◌∷◌, arith, All}
use white_board_server.Containers.Ord.{Bytes, nat_ord, bytes_ord}
use white_board_server.Containers.Map.{find, keys}
use white_board_server.Containers.Set.{contains, IsAscending}
use white_board_server.Board.World.{Room, Session, World}
use white_board_server.Board.Room.Traffic.{IsLive}

-- A room is listed under its key and nowhere else; a session is a member of a room exactly when it
-- points to it; members and rooms are in order, each once; new objects get unused addresses.
pub record Inv (w : World) : Type 0 where
  pub listed :
      (k : Bytes) (p : ℕ)
      → find k w.room_map ≡ some p
      → (r : Room) × (w.rooms p ≡ some r) × (r.room_key ≡ k)
  pub owned : (p : ℕ) (r : Room) → w.rooms p ≡ some r → find r.room_key w.room_map ≡ some p
  pub inside :
      (s p : ℕ) (x : Session)
      → w.sessions s ≡ some x
      → x.room ≡ some p
      → (r : Room) × (w.rooms p ≡ some r) × (contains s r.sessions ≡ true)
  pub member :
      (p s : ℕ) (r : Room)
      → w.rooms p ≡ some r
      → contains s r.sessions ≡ true
      → (x : Session) × (w.sessions s ≡ some x) × (x.room ≡ some p)
  pub ordered : (p : ℕ) (r : Room) → w.rooms p ≡ some r → IsAscending r.sessions
  pub fresh_room : (p : ℕ) (r : Room) → w.rooms p ≡ some r → p < w.next_room
  pub registered :
      (id : Bytes) (s : ℕ)
      → find id w.player_sessions ≡ some s
      → (x : Session) × (w.sessions s ≡ some x) × (x.session_id ≡ id)
  pub known :
      (s : ℕ) (x : Session) → w.sessions s ≡ some x → find x.session_id w.player_sessions ≡ some s
  pub sorted : IsAscending (keys w.room_map)
  pub fresh_session : (s : ℕ) (x : Session) → w.sessions s ≡ some x → s < w.next_session

pub All-IsLive :
    (heap : ℕ → Option Session) (ss : List ℕ)
    → ((s : ℕ) → contains s ss ≡ true → IsLive heap s)
    → All (IsLive heap) ss
unfolding contains
All-IsLive heap [] h = tt
All-IsLive heap (s ∷ rest) h =
    (h s (ground arith), All-IsLive heap rest (λ t m. h t (ground (arith, m))))

pub members-IsLive :
    {w : World} (i : Inv w) (p : ℕ) (r : Room)
    → w.rooms p ≡ some r
    → All (IsLive w.sessions) r.sessions
members-IsLive {w} i p r h =
    All-IsLive w.sessions r.sessions (λ s m. let (x, e, _) = i.member p s r h m in (x, e))
