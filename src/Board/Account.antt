-- ===== src/Board/Account.antt =====
-- PlayerManager and AccountServicePimpl (game_base/account/source): the sessions of connections.
-- A connection is its pointer and the session id that it reports.
pub mod Closing
pub mod Safe
pub mod History
pub mod Examples
use white_board_server.Prelude.{ℕ, ◌+◌, Bool, true, false, Option, none, some, if◌then◌else◌, []}
use white_board_server.Containers.Ord.{Bytes, bytes_ord}
use white_board_server.Containers.Map.{find, put, erase}
use white_board_server.Board.Message.{Codec}
use white_board_server.Board.World.{
  Session, M, pure, ◌>>=◌, ◌>>◌, load_session, store_session, update,
}
use white_board_server.Board.Session.{handle_request, session_leave_room}

-- TcpConnection: what the account service reads of it.
pub record Connection : Type 0 where
  pub pointer : ℕ
  pub session_id : Bytes

-- PlayerSession::PlayerSession, with the session id that AddPlayerSession sets at once.
abbrev pub new_session : Bytes → Session
new_session id = record { conn = none; session_id = id; room = none; usr_name = [] }

pub get_player_session_by_session_id : Bytes → M (Option ℕ)
get_player_session_by_session_id id w = some (find id w.player_sessions, w)

allocate_session : Bytes → M ℕ
allocate_session id w = some (
  w.next_session,
  record w {
    sessions = update w.sessions w.next_session (some (new_session id));
    next_session = w.next_session + 1;
    player_sessions = put id w.next_session w.player_sessions;
  },
)

pub add_player_session : Bytes → M ℕ
unfolding get_player_session_by_session_id allocate_session
add_player_session id = do
  found ← get_player_session_by_session_id id
  elim found [ some s ↦ pure s | none ↦ allocate_session id ]

set_conn : ℕ → ℕ → M (Unit {0})
unfolding load_session store_session
set_conn s k = do x ← load_session s; store_session s (record x { conn = some k })

save_connection : Connection → M (Unit {0})
save_connection k w =
    some (tt, record w { tcp_connection_list = put k.session_id k.pointer w.tcp_connection_list })

pub add_tcp_connection : Connection → M (Unit {0})
unfolding save_connection add_player_session set_conn
add_tcp_connection k = do
  save_connection k
  s ← add_player_session k.session_id
  set_conn s k.pointer

pub get_tcp_connection_by_session_id : Bytes → M (Option ℕ)
get_tcp_connection_by_session_id id w = some (find id w.tcp_connection_list, w)

drop_connection : Bytes → M (Unit {0})
drop_connection id w = some (tt, record w { tcp_connection_list = erase id w.tcp_connection_list })

-- The memory of a session, and its entry in the map.
free_session : Bytes → ℕ → M (Unit {0})
free_session id s w = elim (w.sessions s) [
  | none ↦ none
  | some _ ↦ some (
    tt,
    record w { sessions = update w.sessions s none; player_sessions = erase id w.player_sessions },
  )
]

login_open : M Bool
login_open w = some (w.can_login, w)

module _ ⦃c : Codec⦄ where
  -- The deletor runs ~PlayerSession, which leaves the room.
  pub remove_player_session : Bytes → ℕ → M Bool
  unfolding get_player_session_by_session_id free_session
  remove_player_session id now = do
    found ← get_player_session_by_session_id id
    elim found [
      | none ↦ pure false
      | some s ↦ (do session_leave_room s now; free_session id s; pure true)
    ]

  pub remove_tcp_connection : Bytes → ℕ → M Bool
  unfolding get_tcp_connection_by_session_id drop_connection
  remove_tcp_connection id now = do
    found ← get_tcp_connection_by_session_id id
    elim found [
      | none ↦ pure false
      | some k ↦ (do drop_connection id; remove_player_session id now >>= λ _. pure true)
    ]

  pub on_conn_closed : Connection → ℕ → M Bool
  on_conn_closed k now = remove_tcp_connection k.session_id now >>= λ _. pure true

  pub on_recv_packet : Connection → ℕ → Bytes → ℕ → M Bool
  unfolding login_open get_player_session_by_session_id
  on_recv_packet k opcode body now = do
    open_now ← login_open
    if open_now
        then (do
          found ← get_player_session_by_session_id k.session_id
          elim found [
            | none ↦ pure false
            | some s ↦ handle_request s opcode body now >>= λ _. pure true
          ])
        else pure false
