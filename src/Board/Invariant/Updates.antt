-- ===== src/Board/Invariant/Updates.antt =====
-- The changes of a well-formed store, apart from joining and leaving a room.
use white_board_server.Prelude.{
  ℕ, ◌+◌, ◌≡◌, false, none, some, [], arith, ◌==◌, Bool-cases, inl, inr, subst, sym,
}
use white_board_server.Containers.Ord.{Bytes, nat_ord, bytes_ord, eq_refl}
use white_board_server.Containers.Map.{
  find, insert, erase, keys, find-insert_fresh, find-erase, keys-put, keys-erase,
}
use white_board_server.Containers.Set.{
  contains, add, IsAscending, add-IsAscending, discard-IsAscending,
}
use white_board_server.Board.World.{Room, Session, World, update, write_room, write_session}
use white_board_server.Board.Invariant.{Inv}

-- A room with other shapes or another timer.
module _ (w : World) (i : Inv w) (p : ℕ) (r r' : Room) (hr : w.rooms p ≡ some r) where
  module _ (k : r'.room_key ≡ r.room_key) (m : r'.sessions ≡ r.sessions) where
    pub rewritten-Inv : Inv (write_room p r' w)
    rewritten-Inv = record {
      listed = λ key q h.
          let (r0, e, k') = i.listed key q h in
          elim (Bool-cases (p == q)) [
            | inl same ↦ (r', ground (arith, same), ground (arith, same, e, k'))
            | inr other ↦ (r0, ground (arith, other, e), k')
          ];
      owned = λ q r0 h. ground (arith, h, i.owned q r0, i.owned p r);
      inside = λ t q y h j.
          let (r0, e, n) = i.inside t q y h j in
          elim (Bool-cases (p == q)) [
            | inl same ↦ (r', ground (arith, same), ground (arith, same, e, n))
            | inr other ↦ (r0, ground (arith, other, e), n)
          ];
      member = λ q t r0 h n. elim (Bool-cases (p == q)) [
        | inl same ↦
            let (y, e, j) = i.member p t r hr (ground (arith, h, same, n)) in
            (y, e, ground (arith, same, j))
        | inr other ↦ i.member q t r0 (ground (arith, h, other)) n
      ];
      ordered = λ q r0 h. ground (arith, h, i.ordered q r0, i.ordered p r);
      fresh_room = λ q r0 h. ground (arith, h, i.fresh_room q r0, i.fresh_room p r);
      registered = i.registered;
      known = i.known;
      sorted = i.sorted;
      fresh_session = i.fresh_session;
    }

-- A session with another name or connection.
module _ (w : World) (i : Inv w) (s : ℕ) (x x' : Session) (hs : w.sessions s ≡ some x) where
  module _ (j : x'.room ≡ x.room) (k : x'.session_id ≡ x.session_id) where
    pub renewed-Inv : Inv (write_session s x' w)
    renewed-Inv = record {
      listed = i.listed;
      owned = i.owned;
      inside = λ t q y h l. ground (arith, h, l, i.inside t q y, i.inside s q x);
      member = λ q t r n m.
          let (y, e, l) = i.member q t r n m in
          elim (Bool-cases (s == t)) [
            | inl same ↦ (x', ground (arith, same), ground (arith, same, e, l))
            | inr other ↦ (y, ground (arith, other, e), l)
          ];
      ordered = i.ordered;
      fresh_room = i.fresh_room;
      registered = λ id t h.
          let (y, e, l) = i.registered id t h in
          elim (Bool-cases (s == t)) [
            | inl same ↦ (x', ground (arith, same), ground (arith, same, e, l))
            | inr other ↦ (y, ground (arith, other, e), l)
          ];
      known = λ t y h. ground (arith, h, i.known t y, i.known s x);
      sorted = i.sorted;
      fresh_session = λ t y h. ground (arith, h, i.fresh_session t y, i.fresh_session s x);
    }

-- A new room, empty and listed under a key that was free.
abbrev pub opened : World → Bytes → Room → World
opened w key r = record w {
  rooms = update w.rooms w.next_room (some r);
  next_room = w.next_room + 1;
  room_map = insert key w.next_room w.room_map;
}

module _ (w : World) (i : Inv w) (key : Bytes) (r : Room) where
  module _ (free : find key w.room_map ≡ none) (k : r.room_key ≡ key)
      (none_in : r.sessions ≡ []) where
    -- The address of the new room is of no old room.
    old_room : (q : ℕ) (r' : Room) → w.rooms q ≡ some r' → (w.next_room == q) ≡ false
    old_room q r' h = ground (arith, i.fresh_room q r' h)

    keys-insert : keys (insert key w.next_room w.room_map) ≡ add key (keys w.room_map)
    unfolding insert
    keys-insert = rw (free, insert) (keys-put key w.next_room w.room_map)

    pub opened-Inv : Inv (opened w key r)
    unfolding contains
    opened-Inv = record {
      listed = λ key' q h. elim (Bool-cases (bytes_ord.eq key key')) [
        | inl same ↦ (
          r,
          ground (arith, h, same, find-insert_fresh key key' w.next_room w.room_map free),
          ground (arith, same, k, bytes_ord.eq_iff key key'),
        )
        | inr other ↦
            let (r', e, k') =
              i.listed key' q (
                ground (arith, h, other, find-insert_fresh key key' w.next_room w.room_map free)) in
            (r', ground (arith, e, old_room q r' e), k')
      ];
      owned = λ q r' h. ground (
        arith,
        h,
        k,
        eq_refl key,
        free,
        find-insert_fresh key r'.room_key w.next_room w.room_map free,
        bytes_ord.eq_iff key r'.room_key,
        i.owned q r',
      );
      inside = λ s q x h j.
          let (r', e, m) = i.inside s q x h j in (r', ground (arith, e, old_room q r' e), m);
      member = λ q s r' h m. ground (arith, h, m, none_in, i.member q s r');
      ordered = λ q r' h. ground (arith, h, none_in, i.ordered q r');
      fresh_room = λ q r' h. ground (arith, h, i.fresh_room q r');
      registered = i.registered;
      known = i.known;
      sorted = subst IsAscending (sym keys-insert) (add-IsAscending key (keys w.room_map) i.sorted);
      fresh_session = i.fresh_session;
    }

-- A room with no members is deleted and taken off the list.
abbrev pub closed : World → Bytes → ℕ → World
closed w key p = record w { rooms = update w.rooms p none; room_map = erase key w.room_map }

module _ (w : World) (i : Inv w) (key : Bytes) (p : ℕ) (r : Room) where
  module _ (hr : w.rooms p ≡ some r) (at_key : find key w.room_map ≡ some p)
      (none_in : r.sessions ≡ []) where
    pub closed-Inv : Inv (closed w key p)
    unfolding contains
    closed-Inv =
        let (r1, e1, k1) = i.listed key p at_key in
        record {
          listed = λ key' q h.
              let old : find key' w.room_map ≡ some q =
                ground (arith, h, find-erase key key' w.room_map) in
              let (r', e, k') = i.listed key' q old in
              (
                r',
                ground (
                  arith,
                  h,
                  e,
                  k',
                  e1,
                  k1,
                  hr,
                  find-erase key key' w.room_map,
                  bytes_ord.eq_iff key key',
                ),
                k',
              );
          owned = λ q r' h. ground (
            arith,
            h,
            find-erase key r'.room_key w.room_map,
            i.owned q r',
            at_key,
            bytes_ord.eq_iff key r'.room_key,
          );
          inside = λ s q x h j.
              let (r', e, m) = i.inside s q x h j in (r', ground (arith, e, m, hr, none_in), m);
          member = λ q s r' h m. ground (arith, h, m, i.member q s r');
          ordered = λ q r' h. ground (arith, h, i.ordered q r');
          fresh_room = λ q r' h. ground (arith, h, i.fresh_room q r');
          registered = i.registered;
          known = i.known;
          sorted =
              subst IsAscending (sym (keys-erase key w.room_map))
                (discard-IsAscending key (keys w.room_map) i.sorted);
          fresh_session = i.fresh_session;
        }
