-- ===== src/Board/Room/Traffic.antt =====
-- What the loops of Room::BroadCast and of the player lists send and read.
use white_board_server.Prelude.{
  ℕ, ◌≡◌, refl, Bool, true, false, Option, none, some, List, [], ◌∷◌, ◌++◌, append_assoc,
  append-nil, arith, All,
}
use white_board_server.Containers.Ord.{Bytes}
use white_board_server.Board.Message.{Packet, Codec}
use white_board_server.Board.World.{Room, Session, World}
use white_board_server.Board.Room.{
  send_transcode, broadcast_to, broadcast, player_names, get_usr_name, broadcast_player_list,
  player_list_packet,
}

abbrev pub IsLive : (ℕ → Option Session) → ℕ → Type 0
IsLive heap s = (x : Session) × (heap s ≡ some x)

-- The store with more written to connections, and nothing else changed.
abbrev pub say : List (ℕ × Packet) → World → World
say out w = record w { sent = w.sent ++ out }

abbrev pub delivery : Option ℕ → Packet → List (ℕ × Packet)
delivery none packet = []
delivery (some k) packet = (k, packet) ∷ []

abbrev pub conn_of : Option Session → Option ℕ
conn_of none = none
conn_of (some x) = x.conn

abbrev pub name_of : Option Session → Bytes
name_of none = []
name_of (some x) = x.usr_name

-- One packet to each connected session of a list.
unfoldable pub deliveries : (ℕ → Option Session) → Packet → List ℕ → List (ℕ × Packet)
deliveries heap packet [] = []
deliveries heap packet (s ∷ rest) =
    delivery (conn_of (heap s)) packet ++ deliveries heap packet rest

unfoldable pub names : (ℕ → Option Session) → List ℕ → List Bytes
names heap [] = []
names heap (s ∷ rest) = name_of (heap s) ∷ names heap rest

pub send_transcode_lem :
    (s : ℕ) (packet : Packet) (w : World) (x : Session)
    → w.sessions s ≡ some x
    → (b : Bool) × (send_transcode s packet w ≡ some (b, say (delivery x.conn packet) w))
unfolding send_transcode
send_transcode_lem s packet w x h = by_conn x.conn refl
  where
    by_conn :
        (k : Option ℕ)
        → x.conn ≡ k
        → (b : Bool) × (send_transcode s packet w ≡ some (b, say (delivery x.conn packet) w))
    by_conn none e = (false, ground (arith, append-nil w.sent))
    by_conn (some k) e = (true, ground arith)

pub broadcast_to_lem :
    (ss : List ℕ) (packet : Packet) (w : World)
    → All (IsLive w.sessions) ss
    → broadcast_to ss packet w ≡ some (tt, say (deliveries w.sessions packet ss) w)
unfolding broadcast_to deliveries
broadcast_to_lem [] packet w live = ground (arith, append-nil w.sent)
broadcast_to_lem (s ∷ rest) packet w live =
    let (b, e) = send_transcode_lem s packet w live.0.0 live.0.1 in
    ground (
      arith,
      e,
      broadcast_to_lem rest packet (say (delivery live.0.0.conn packet) w) live.1,
      append_assoc w.sent (delivery live.0.0.conn packet) (deliveries w.sessions packet rest),
    )

pub player_names_lem :
    (ss : List ℕ) (w : World)
    → All (IsLive w.sessions) ss
    → player_names ss w ≡ some (names w.sessions ss, w)
unfolding player_names names get_usr_name
player_names_lem [] w live = refl
player_names_lem (s ∷ rest) w live = ground (arith, player_names_lem rest w live.1)

pub broadcast_lem :
    (p : ℕ) (packet : Packet) (w : World) (r : Room)
    → w.rooms p ≡ some r
    → All (IsLive w.sessions) r.sessions
    → broadcast p packet w ≡ some (tt, say (deliveries w.sessions packet r.sessions) w)
unfolding broadcast
broadcast_lem p packet w r h live = ground (arith, broadcast_to_lem r.sessions packet w live)

module _ ⦃c : Codec⦄ where
  -- The list of a room's players, to each of them.
  unfoldable pub list_for : (ℕ → Option Session) → List ℕ → List (ℕ × Packet)
  list_for heap ss = deliveries heap (player_list_packet (names heap ss)) ss

  pub broadcast_player_list_lem :
      (p : ℕ) (w : World) (r : Room)
      → w.rooms p ≡ some r
      → All (IsLive w.sessions) r.sessions
      → broadcast_player_list p w ≡ some (tt, say (list_for w.sessions r.sessions) w)
  unfolding broadcast_player_list list_for
  broadcast_player_list_lem p w r h live = ground (
    arith,
    player_names_lem r.sessions w live,
    broadcast_lem p (player_list_packet (names w.sessions r.sessions)) w r h live,
  )
