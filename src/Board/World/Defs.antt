-- ===== src/Board/World/Defs.antt =====
-- The records of room.h, player_session.h and the maps of room_manager.h and player_manager.h.
use white_board_server.Prelude.{
  ℕ, Bool, Option, none, some, List, [], ◌∷◌, ◌++◌, ◌==◌, if◌then◌else◌,
}
use white_board_server.Containers.Ord.{Bytes}
use white_board_server.Containers.Map.{Map}
use white_board_server.Board.Message.{Packet}

-- class Room. `sessions` holds pointers, in the order of their addresses.
pub record Room : Type 0 where
  pub room_key : Bytes
  pub sessions : List ℕ
  pub shape_object : Map ℕ Bytes
  pub shape_max_id : ℕ
  pub can_delete_time : ℕ

-- class PlayerSession. `none` is nullptr.
pub record Session : Type 0 where
  pub conn : Option ℕ
  pub session_id : Bytes
  pub room : Option ℕ
  pub usr_name : Bytes

pub record World : Type 0 where
  pub rooms : ℕ → Option Room
  pub sessions : ℕ → Option Session
  pub next_room : ℕ
  pub next_session : ℕ
  pub room_map : Map Bytes ℕ
  pub player_sessions : Map Bytes ℕ
  pub tcp_connection_list : Map Bytes ℕ
  pub can_login : Bool
  pub sent : List (ℕ × Packet)

abbrev pub M : Type 0 → Type 0
M A = World → Option (A × World)

abbrev pub pure : {A : Type 0} → A → M A
pure a w = some (a, w)

abbrev pub fault : {A : Type 0} → M A
fault w = none

infixl 5 ◌>>=◌ ◌>>◌
abbrev pub ◌>>=◌ : {A B : Type 0} → M A → (A → M B) → M B
◌>>=◌ m f w = elim (m w) [ none ↦ none | some (a, w') ↦ f a w' ]

abbrev pub ◌>>◌ : {B : Type 0} → M (Unit {0}) → M B → M B
m >> k = m >>= λ _. k

abbrev pub update : {A : Type 0} → (ℕ → Option A) → ℕ → Option A → ℕ → Option A
update f p v q = if p == q then v else f q

-- Dereferencing a pointer: a fault if the object is gone.
unfoldable pub load_room : ℕ → M Room
load_room p w = elim (w.rooms p) [ none ↦ none | some r ↦ some (r, w) ]

unfoldable pub load_session : ℕ → M Session
load_session s w = elim (w.sessions s) [ none ↦ none | some x ↦ some (x, w) ]

abbrev pub write_room : ℕ → Room → World → World
write_room p r w = record w { rooms = update w.rooms p (some r) }

abbrev pub write_session : ℕ → Session → World → World
write_session s x w = record w { sessions = update w.sessions s (some x) }

unfoldable pub store_room : ℕ → Room → M (Unit {0})
store_room p r w = elim (w.rooms p) [ none ↦ none | some _ ↦ some (tt, write_room p r w) ]

unfoldable pub store_session : ℕ → Session → M (Unit {0})
store_session s x w = elim (w.sessions s) [ none ↦ none | some _ ↦ some (tt, write_session s x w) ]

-- TcpConnection::Write
unfoldable pub write_packet : ℕ → Packet → M (Unit {0})
write_packet k p w = some (tt, record w { sent = w.sent ++ (k, p) ∷ [] })
