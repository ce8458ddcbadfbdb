-- ===== src/Board/Room/Safe.antt =====
-- What it is that a handler of a session is safe, and the rules by which handlers are shown to be.
use white_board_server.Prelude.{ℕ, ◌≡◌, refl, some, List, arith}
use Prim.Native.String.{String}
use white_board_server.Containers.Ord.{nat_ord}
use white_board_server.Board.Message.{Codec, Packet, ShapeErrorCode, proto_buff_error_info}
use white_board_server.Board.World.{Session, World, M, pure, ◌>>=◌, Ends, Ends-bind}
use white_board_server.Board.Room.{send_transcode, send_error}
use white_board_server.Board.Room.Traffic.{IsLive, say, send_transcode_lem, delivery}
use white_board_server.Board.Invariant.{Inv}

-- The store is well formed and the session is alive.
pub record Good (s : ℕ) (w : World) : Type 0 where
  pub inv : Inv w
  pub live : IsLive w.sessions s

pub record Safe {A : Type 0} (s : ℕ) (m : M A) : Type 0 where
  pub at : (w : World) → Good s w → Ends m w (λ _ w'. Good s w')

pub say-Inv : {w : World} (out : List (ℕ × Packet)) → Inv w → Inv (say out w)
say-Inv out i = record {
  listed = i.listed;
  owned = i.owned;
  inside = i.inside;
  member = i.member;
  ordered = i.ordered;
  fresh_room = i.fresh_room;
  registered = i.registered;
  known = i.known;
  sorted = i.sorted;
  fresh_session = i.fresh_session;
}

pub say-Good : {s : ℕ} {w : World} (out : List (ℕ × Packet)) → Good s w → Good s (say out w)
say-Good out g = record { inv = say-Inv out g.inv; live = g.live }

module _ {A : Type 0} (s : ℕ) where
  pub Safe-pure : (a : A) → Safe s (pure a)
  Safe-pure a = record { at = λ w g. (a, w, refl, g) }

module _ {A B : Type 0} (s : ℕ) where
  pub Safe-bind : (m : M A) (f : A → M B) → Safe s m → ((a : A) → Safe s (f a)) → Safe s (m >>= f)
  Safe-bind m f sm sf = record {
    at = λ w g.
        let (a, w', e, g') = sm.at w g in
        Ends-bind m f w (λ _ v. Good s v) (a, w', e, (sf a).at w' g');
  }

pub Safe-send_transcode : (s : ℕ) (packet : Packet) → Safe s (send_transcode s packet)
Safe-send_transcode s packet = record {
  at = λ w g.
      let (x, e) = g.live in
      let (b, sent) = send_transcode_lem s packet w x e in
      (b, say (delivery x.conn packet) w, sent, say-Good (delivery x.conn packet) g);
}

module _ ⦃c : Codec⦄ where
  pub send_error_lem :
      (s : ℕ) (code : ShapeErrorCode) (info : ℕ) (text : String) (w : World) (x : Session)
      → w.sessions s ≡ some x
      → (out : List (ℕ × Packet)) × (send_error s code info text w ≡ some (tt, say out w))
  unfolding send_error
  send_error_lem s code info text w x h =
      let packet : Packet = record {
        opcode = proto_buff_error_info;
        body =
            c.serialize_error
              (record { error_code = code; extra_info = info; error_description = text });
      } in
      let (b, sent) = send_transcode_lem s packet w x h in
      (delivery x.conn packet, ground (arith, sent))

  pub Safe-send_error :
      (s : ℕ) (code : ShapeErrorCode) (info : ℕ) (text : String)
      → Safe s (send_error s code info text)
  unfolding send_error
  Safe-send_error s code info text =
      Safe-bind s (send_transcode s _) (λ _. pure tt) (Safe-send_transcode s _)
        (λ _. Safe-pure s tt)
