-- ===== src/Board/Invariant/Players.antt =====
-- Sessions come and go: what this changes of the store.
use white_board_server.Prelude.{ℕ, ◌+◌, ◌≡◌, false, none, some, arith, ◌==◌, Bool-cases, inl, inr}
use white_board_server.Containers.Ord.{Bytes, nat_ord, bytes_ord, eq_refl}
use white_board_server.Containers.Map.{find, put, erase, find-put, find-erase}
use white_board_server.Board.World.{Session, World, update}
use white_board_server.Board.Invariant.{Inv}

-- A new session in no room, under a session id that was free.
abbrev pub arrived : World → Session → World
arrived w x = record w {
  sessions = update w.sessions w.next_session (some x);
  next_session = w.next_session + 1;
  player_sessions = put x.session_id w.next_session w.player_sessions;
}

module _ (w : World) (i : Inv w) (x : Session) where
  module _ (free : find x.session_id w.player_sessions ≡ none) (outside : x.room ≡ none) where
    old_session : (t : ℕ) (y : Session) → w.sessions t ≡ some y → (w.next_session == t) ≡ false
    old_session t y h = ground (arith, i.fresh_session t y h)

    pub arrived-Inv : Inv (arrived w x)
    arrived-Inv = record {
      listed = i.listed;
      owned = i.owned;
      inside = λ t q y h j. ground (arith, h, j, outside, i.inside t q y);
      member = λ q t r h m.
          let (y, e, j) = i.member q t r h m in (y, ground (arith, e, old_session t y e), j);
      ordered = i.ordered;
      fresh_room = i.fresh_room;
      registered = λ id t h. elim (Bool-cases (bytes_ord.eq x.session_id id)) [
        | inl same ↦ (
          x,
          ground (arith, h, same, find-put x.session_id id w.next_session w.player_sessions),
          ground (arith, same, bytes_ord.eq_iff x.session_id id),
        )
        | inr other ↦
            let (y, e, k) = i.registered id t (
              ground
                (arith, h, other, find-put x.session_id id w.next_session w.player_sessions)) in
            (y, ground (arith, e, old_session t y e), k)
      ];
      known = λ t y h. ground (
        arith,
        h,
        free,
        eq_refl x.session_id,
        find-put x.session_id y.session_id w.next_session w.player_sessions,
        bytes_ord.eq_iff x.session_id y.session_id,
        i.known t y,
      );
      sorted = i.sorted;
      fresh_session = λ t y h. ground (arith, h, i.fresh_session t y);
    }

-- A session in no room is deleted and taken off the list.
abbrev pub departed : World → Bytes → ℕ → World
departed w id s = record w {
  sessions = update w.sessions s none;
  player_sessions = erase id w.player_sessions;
}

module _ (w : World) (i : Inv w) (id : Bytes) (s : ℕ) (x : Session) where
  module _ (hs : w.sessions s ≡ some x) (at_id : find id w.player_sessions ≡ some s) where
    pub departed-Inv : x.room ≡ none → Inv (departed w id s)
    departed-Inv outside = record {
      listed = i.listed;
      owned = i.owned;
      inside = λ t q y h j. ground (arith, h, j, i.inside t q y);
      member = λ q t r h m.
          let (y, e, j) = i.member q t r h m in (y, ground (arith, e, j, hs, outside), j);
      ordered = i.ordered;
      fresh_room = i.fresh_room;
      registered = λ id' t h.
          let old : find id' w.player_sessions ≡ some t =
            ground (arith, h, find-erase id id' w.player_sessions) in
          let (y, e, k) = i.registered id' t old in
          let (z, f, l) = i.registered id s at_id in
          (
            y,
            ground (
              arith,
              h,
              e,
              k,
              f,
              l,
              find-erase id id' w.player_sessions,
              bytes_ord.eq_iff id id',
            ),
            k,
          );
      known = λ t y h. ground (
        arith,
        h,
        i.known t y,
        at_id,
        find-erase id y.session_id w.player_sessions,
        bytes_ord.eq_iff id y.session_id,
      );
      sorted = i.sorted;
      fresh_session = λ t y h. ground (arith, h, i.fresh_session t y);
    }
