-- ===== src/Board/Account/Closing.antt =====
-- Connecting and disconnecting in a well-formed store.
use white_board_server.Prelude.{
  ℕ, ◌≡◌, refl, Bool, true, false, none, some, arith, Bool-cases, Option-cases, inl, inr,
}
use white_board_server.Containers.Ord.{Bytes, nat_ord, bytes_ord, eq_refl}
use white_board_server.Containers.Set.{contains}
use white_board_server.Containers.Map.{find, put, erase, find-put_self, find-erase}
use white_board_server.Board.Message.{Codec}
use white_board_server.Board.World.{Room, Session, World, Ends, write_session}
use white_board_server.Board.Invariant.{Inv}
use white_board_server.Board.Invariant.Updates.{renewed-Inv}
use white_board_server.Board.Invariant.Players.{arrived, arrived-Inv, departed, departed-Inv}
use white_board_server.Board.Session.Handlers.{session_leave_room_lem}
use white_board_server.Board.Account.{
  Connection, new_session, add_tcp_connection, remove_player_session, remove_tcp_connection,
  on_conn_closed,
}

-- Fields that the invariant does not speak of.
pub recorded-Inv :
    {w : World} (k : World → World)
    → Inv w
    → (k w).rooms ≡ w.rooms
    → (k w).sessions ≡ w.sessions
    → (k w).room_map ≡ w.room_map
    → (k w).player_sessions ≡ w.player_sessions
    → (k w).next_room ≡ w.next_room
    → (k w).next_session ≡ w.next_session
    → Inv (k w)
recorded-Inv {w} k i a b d e f g = record {
  listed = rw (a, d) i.listed;
  owned = rw (a, d) i.owned;
  inside = rw (a, b) i.inside;
  member = rw (a, b) i.member;
  ordered = rw a i.ordered;
  fresh_room = rw (a, f) i.fresh_room;
  registered = rw (b, e) i.registered;
  known = rw (b, e) i.known;
  sorted = rw d i.sorted;
  fresh_session = rw (b, g) i.fresh_session;
}

-- After a connection is added its session is registered and writes to it.
pub add_tcp_connection_lem :
    (k : Connection) (w : World)
    → Inv w
    → Ends (add_tcp_connection k) w (λ _ w'.
      Inv w'
      × ((s : ℕ) × (x : Session) × (find k.session_id w'.player_sessions ≡ some s)
          × (w'.sessions s ≡ some x)
          × (x.conn ≡ some k.pointer))
      × (find k.session_id w'.tcp_connection_list ≡ some k.pointer))
unfolding add_tcp_connection
add_tcp_connection_lem k w i =
    let w0 : World = record w {
      tcp_connection_list = put k.session_id k.pointer w.tcp_connection_list;
    } in
    let i0 : Inv w0 =
      recorded-Inv {w = w}
        (λ v. record v { tcp_connection_list = put k.session_id k.pointer w.tcp_connection_list }) i
        refl refl refl refl refl refl in
    let there = find-put_self k.session_id k.pointer w.tcp_connection_list in
    elim (Option-cases (find k.session_id w.player_sessions)) [
      | inr (s, e) ↦
          let (x, h, same) = i.registered k.session_id s e in
          let x' : Session = record x { conn = some k.pointer } in
          (
            tt,
            write_session s x' w0,
            ground (arith, e, h),
            (renewed-Inv w0 i0 s x x' h refl refl, (s, x', e, ground arith, refl), there),
          )
      | inl e ↦
          let x = new_session k.session_id in
          let w1 = arrived w0 x in
          let x' : Session = record x { conn = some k.pointer } in
          (
            tt,
            write_session w.next_session x' w1,
            ground (arith, e),
            (
              renewed-Inv w1 (arrived-Inv w0 i0 x e refl) w.next_session x x' (ground arith) refl
                  refl,
              (
                w.next_session,
                x',
                find-put_self k.session_id w.next_session w.player_sessions,
                ground arith,
                refl,
              ),
              there,
            ),
          )
    ]

-- Whether the room at an address, if there is one, has a session as a member.
abbrev pub is_member : World → ℕ → ℕ → Bool
is_member w p s = elim (w.rooms p) [ none ↦ false | some r ↦ contains s r.sessions ]

module _ ⦃c : Codec⦄ where
  -- The session is deleted, with its entry.
  pub remove_player_session_lem :
      (id : Bytes) (now : ℕ) (w : World)
      → Inv w
      → Ends (remove_player_session id now) w (λ _ w'.
        Inv w'
        × (find id w'.player_sessions ≡ none)
        × ((s : ℕ) → find id w.player_sessions ≡ some s → w'.sessions s ≡ none))
  unfolding remove_player_session
  remove_player_session_lem id now w i = elim (Option-cases (find id w.player_sessions)) [
    | inl e ↦ (false, w, ground (arith, e), (i, e, λ s f. absurd (ground (arith, e, f))))
    | inr (s, e) ↦
        let (x, hs, same) = i.registered id s e in
        let (_, w1, away, (i1, hs1)) = session_leave_room_lem s now w x i hs in
        let x1 : Session = record x { room = none } in
        let at_id : find id w1.player_sessions ≡ some s = ground (arith, same, i1.known s x1 hs1) in
        (
          true,
          departed w1 id s,
          ground (arith, e, away, hs1),
          (
            departed-Inv w1 i1 id s x1 hs1 at_id refl,
            ground (arith, find-erase id id w1.player_sessions, eq_refl id),
            λ t f. ground (arith, e, f),
          ),
        )
  ]

  -- Closing a connection that is listed deletes its session, which then is a member of no room.
  pub on_conn_closed_lem :
      (k : Connection) (now : ℕ) (w : World)
      → Inv w
      → Ends (on_conn_closed k now) w (λ _ w'.
        Inv w'
        × ((q : ℕ)
            → find k.session_id w.tcp_connection_list ≡ some q
            → (find k.session_id w'.player_sessions ≡ none)
              × ((s p : ℕ) (r : Room)
                  → find k.session_id w.player_sessions ≡ some s
                  → w'.rooms p ≡ some r
                  → contains s r.sessions ≡ false)))
  unfolding on_conn_closed remove_tcp_connection
  on_conn_closed_lem k now w i = elim (Option-cases (find k.session_id w.tcp_connection_list)) [
    | inl e ↦ (true, w, ground (arith, e), (i, λ q f. absurd (ground (arith, e, f))))
    | inr (q, e) ↦
        let w0 : World = record w {
          tcp_connection_list = erase k.session_id w.tcp_connection_list;
        } in
        let i0 : Inv w0 =
          recorded-Inv {w = w}
            (λ v. record v { tcp_connection_list = erase k.session_id w.tcp_connection_list }) i
            refl refl refl refl refl refl in
        let (_, w', done, (i', off, dead)) = remove_player_session_lem k.session_id now w0 i0 in
        (
          true,
          w',
          ground (arith, e, done),
          (i', λ _ _. (off, λ s p r f h. not_member i' s p r h (dead s f))),
        )
  ]
    where
      not_member :
          {w' : World} (i' : Inv w') (s p : ℕ) (r : Room)
          → w'.rooms p ≡ some r
          → w'.sessions s ≡ none
          → contains s r.sessions ≡ false
      not_member i' s p r h dead = elim (Bool-cases (contains s r.sessions)) [
        | inl m ↦ let (x, e, _) = i'.member p s r h m in absurd (ground (arith, e, dead))
        | inr m ↦ m
      ]

  -- In a well-formed store, closing a connection that is listed and whose session is registered ends
  -- without undefined behaviour in a well-formed store, in which the session id is not registered
  -- and no room has that session as a member.
  pub on_conn_closed-removes :
      (k : Connection) (now q s p : ℕ) (w : World)
      → Inv w
      → find k.session_id w.tcp_connection_list ≡ some q
      → find k.session_id w.player_sessions ≡ some s
      → Ends (on_conn_closed k now) w (λ _ w'.
        Inv w' × (find k.session_id w'.player_sessions ≡ none) × (is_member w' p s ≡ false))
  on_conn_closed-removes k now q s p w i listed known =
      let (a, w', done, (i', after)) = on_conn_closed_lem k now w i in
      let (off, nowhere) = after q listed in
      (
        a,
        w',
        done,
        (
          i',
          off,
          elim (Option-cases (w'.rooms p)) [
            | inl e ↦ ground (arith, e)
            | inr (r, e) ↦ ground (arith, e, nowhere s p r known e)
          ],
        ),
      )
