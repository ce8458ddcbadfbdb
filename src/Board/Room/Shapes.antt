-- ===== src/Board/Room/Shapes.antt =====
-- The shapes of a room: ids, what a request stores, and what a player who joins is sent.
use white_board_server.Prelude.{
  ℕ, ◌+◌, ◌^◌, ◌<◌, ◌≡◌, refl, Option, none, some, List, [], ◌∷◌, arith, subst, ◌≤◌, Option-cases,
  inl, inr, All, ◌==◌, if◌then◌else◌, length, map,
}
use white_board_server.Containers.Ord.{Bytes, nat_ord}
use white_board_server.Containers.Map.{
  Map, find, keys, find-put, find-insert_fresh, All-put, All-insert,
}
use white_board_server.Board.Message.{Codec, WhiteBoardMessage, shapeid}
use white_board_server.Board.World.{Room}
use white_board_server.Board.Room.{add_one, add_all, parse_stored}

-- Every id in use is below the next id that the room gives.
abbrev pub IdsBelow : Room → Type 0
IdsBelow r = (id : ℕ) (text : Bytes) → find id r.shape_object ≡ some text → id < r.shape_max_id

module _ ⦃c : Codec⦄ where
  -- Each stored text is the serialised message with its id.
  abbrev pub IsStored : ℕ × Bytes → Type 0
  IsStored (id, text) = (x : WhiteBoardMessage) × (text ≡ c.serialize_shape x) × (shapeid x ≡ id)

  -- A client's board: the text last announced for an id, or the one that it had.
  abbrev pub announced : ℕ → List WhiteBoardMessage → Option Bytes → Option Bytes
  announced id [] old = old
  announced id (x ∷ rest) old =
      announced id rest (if shapeid x == id then some (c.serialize_shape x) else old)

  -- A shape with an unknown id gets the next one, which no shape has.
  add_one_fresh :
      (r : Room) (x : WhiteBoardMessage) → IdsBelow r → find r.shape_max_id r.shape_object ≡ none
  add_one_fresh r x below = by_cases (find r.shape_max_id r.shape_object) refl
    where
      by_cases :
          (o : Option Bytes)
          → find r.shape_max_id r.shape_object ≡ o
          → find r.shape_max_id r.shape_object ≡ none
      by_cases none e = e
      by_cases (some text) e = absurd (omega (arith, below r.shape_max_id text e))

  add_one-find :
      (r : Room) (x : WhiteBoardMessage) (id : ℕ)
      → IdsBelow r
      → let (r', x') = add_one r x in
        find id r'.shape_object
        ≡ (if shapeid x' == id then some (c.serialize_shape x') else find id r.shape_object)
  unfolding add_one
  add_one-find r x id below =
      let x' : WhiteBoardMessage = record x { shape_id = some r.shape_max_id } in
      ground (
        arith,
        find-put (shapeid x) id (c.serialize_shape x) r.shape_object,
        find-insert_fresh r.shape_max_id id (c.serialize_shape x') r.shape_object
            (add_one_fresh r x below),
      )

  add_one-IdsBelow :
      (r : Room) (x : WhiteBoardMessage)
      → r.shape_max_id + 1 < 2 ^ 32
      → IdsBelow r
      → IdsBelow (add_one r x).0
  unfolding add_one
  add_one-IdsBelow r x room below id text h =
      elim (Option-cases (find (shapeid x) r.shape_object)) [
        | inl new ↦ ground (arith, h, new, add_one-find r x id below, below id text)
        | inr (old, e) ↦
            ground (arith, h, e, add_one-find r x id below, below id text, below (shapeid x) old e)
      ]

  add_one-max :
      (r : Room) (x : WhiteBoardMessage)
      → r.shape_max_id + 1 < 2 ^ 32
      → (add_one r x).0.shape_max_id ≤ r.shape_max_id + 1
  unfolding add_one
  add_one-max r x room = ground arith

  -- The room then holds for each id what the messages with their ids say, and otherwise what it held.
  pub add_all-find :
      (r : Room) (last : ℕ) (xs : List WhiteBoardMessage)
      → IdsBelow r
      → r.shape_max_id + length xs < 2 ^ 32
      → (id : ℕ)
      → find id (add_all r last xs).0.shape_object
        ≡ announced id (add_all r last xs).1 (find id r.shape_object)
  unfolding add_all
  add_all-find r last [] below room id = refl
  add_all-find r last (x ∷ rest) below room id =
      let (r', x') = add_one r x in
      let ih =
        add_all-find r' (shapeid x') rest (add_one-IdsBelow r x (omega arith) below)
          (omega (arith, add_one-max r x)) id in
      subst
        (λ (old : Option Bytes).
          find id (add_all r' (shapeid x') rest).0.shape_object
          ≡ announced id (add_all r' (shapeid x') rest).1 old)
        (add_one-find r x id below) ih

  -- The ids stay below the next id.
  pub add_all-IdsBelow :
      (r : Room) (last : ℕ) (xs : List WhiteBoardMessage)
      → IdsBelow r
      → r.shape_max_id + length xs < 2 ^ 32
      → IdsBelow (add_all r last xs).0
  unfolding add_all
  add_all-IdsBelow r last [] below room = below
  add_all-IdsBelow r last (x ∷ rest) below room =
      let (r', x') = add_one r x in
      add_all-IdsBelow r' (shapeid x') rest (add_one-IdsBelow r x (omega arith) below)
        (omega (arith, add_one-max r x))

  add_one-IsStored :
      (r : Room) (x : WhiteBoardMessage)
      → All IsStored r.shape_object
      → All IsStored (add_one r x).0.shape_object
  unfolding add_one
  add_one-IsStored r x stored = by_cases (find (shapeid x) r.shape_object) refl
    where
      by_cases :
          (o : Option Bytes)
          → find (shapeid x) r.shape_object ≡ o
          → All IsStored (add_one r x).0.shape_object
      by_cases (some text) e =
          rw (e, add_one)
            (All-put IsStored (shapeid x) (c.serialize_shape x) r.shape_object (x, refl, refl)
              stored)
      by_cases none e =
          let x' : WhiteBoardMessage = record x { shape_id = some r.shape_max_id } in
          rw (e, add_one)
            (All-insert IsStored r.shape_max_id (c.serialize_shape x') r.shape_object
              (x', refl, refl) stored)

  -- What a room stores stays the serialised messages, each under its id, whatever is added.
  pub add_all-IsStored :
      (r : Room) (last : ℕ) (xs : List WhiteBoardMessage)
      → All IsStored r.shape_object
      → All IsStored (add_all r last xs).0.shape_object
  unfolding add_all
  add_all-IsStored r last [] stored = stored
  add_all-IsStored r last (x ∷ rest) stored =
      let (r', x') = add_one r x in
      add_all-IsStored r' (shapeid x') rest (add_one-IsStored r x stored)

  -- A player who joins is sent the messages under the ids by which the room knows them.
  pub shapeid-parse_stored :
      (m : Map ℕ Bytes) → All IsStored m → map shapeid (parse_stored m) ≡ keys m
  unfolding parse_stored
  shapeid-parse_stored [] stored = refl
  shapeid-parse_stored ((id, text) ∷ m) stored =
      let (x, e, k) = stored.0 in
      ground (arith, e, k, c.parse-serialize_shape x, shapeid-parse_stored m stored.1)
