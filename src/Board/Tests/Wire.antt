-- ===== src/Board/Tests/Wire.antt =====
-- A concrete codec: a field is a mark and its value, a text is its bytes, each after a mark.
use white_board_server.Prelude.{
  ℕ, ◌≡◌, refl, Bool, true, false, Option, none, some, [], ◌∷◌, ◌++◌, arith, ◌==◌, if◌then◌else◌,
}
use white_board_server.Containers.Ord.{Bytes}
use white_board_server.Board.Message.{WhiteBoardMessage, RoomOperate, Codec}

unfoldable pub text : Bytes → Bytes
text [] = 0 ∷ []
text (b ∷ rest) = 1 ∷ b ∷ text rest

unfoldable pub field : Option ℕ → Bytes
field none = 0 ∷ []
field (some n) = 1 ∷ n ∷ []

unfoldable pub text_field : Option Bytes → Bytes
text_field none = 0 ∷ []
text_field (some t) = 1 ∷ text t

-- What is read, and what is left to read.
unfoldable pub read_text : Bytes → Bytes × Bytes
read_text [] = ([], [])
read_text (m ∷ []) = ([], [])
read_text (m ∷ b ∷ rest) =
    let (t, left) = read_text rest in if m == 0 then ([], b ∷ rest) else (b ∷ t, left)

unfoldable pub read_field : Bytes → Option ℕ × Bytes
read_field [] = (none, [])
read_field (m ∷ []) = (none, [])
read_field (m ∷ n ∷ rest) = if m == 0 then (none, n ∷ rest) else (some n, rest)

unfoldable pub read_text_field : Bytes → Option Bytes × Bytes
read_text_field [] = (none, [])
read_text_field (m ∷ rest) =
    let (t, left) = read_text rest in if m == 0 then (none, rest) else (some t, left)

read-text : (t rest : Bytes) → read_text (text t ++ rest) ≡ (t, rest)
unfolding read_text text
read-text [] [] = refl
read-text [] (n ∷ rest) = refl
read-text (b ∷ t) rest = ground (arith, read-text t rest)

read-field : (f : Option ℕ) (rest : Bytes) → read_field (field f ++ rest) ≡ (f, rest)
unfolding read_field field
read-field none [] = refl
read-field none (n ∷ rest) = refl
read-field (some k) rest = refl

read-text_field :
    (f : Option Bytes) (rest : Bytes) → read_text_field (text_field f ++ rest) ≡ (f, rest)
unfolding read_text_field text_field
read-text_field none rest = refl
read-text_field (some t) rest = ground (arith, read-text t rest)

unfoldable pub write_shape : WhiteBoardMessage → Bytes
write_shape x =
    field x.shape_id
    ++ (text_field x.shape_type ++ (text_field x.shape_data ++ (text_field x.shape_property ++ [])))

unfoldable pub read_shape : Bytes → Bool × WhiteBoardMessage
read_shape b =
    let (id, b1) = read_field b in
    let (kind, b2) = read_text_field b1 in
    let (data_text, b3) = read_text_field b2 in
    let (property, b4) = read_text_field b3 in
    (
      true,
      record {
        shape_id = id;
        shape_type = kind;
        shape_data = data_text;
        shape_property = property;
      },
    )

pub read-write_shape : (x : WhiteBoardMessage) → read_shape (write_shape x) ≡ (true, x)
unfolding read_shape write_shape
read-write_shape x = ground (
  arith,
  read-field x.shape_id
      (text_field x.shape_type ++ (text_field x.shape_data ++ (text_field x.shape_property ++ []))),
  read-text_field x.shape_type (text_field x.shape_data ++ (text_field x.shape_property ++ [])),
  read-text_field x.shape_data (text_field x.shape_property ++ []),
  read-text_field x.shape_property [],
)

-- A request of shapes is one shape; a request on rooms is its type and the key of a room.
instance abbrev pub wire : Codec
wire = record {
  parse_shape = read_shape;
  serialize_shape = write_shape;
  parse_shapes = λ b. (true, record { msgid = none; shape_object = (read_shape b).1 ∷ [] });
  serialize_shapes = λ l. [];
  parse_remove = λ b. (true, record { msgid = none; shape_id = (read_field b).0 });
  serialize_remove = λ x. field x.shape_id;
  parse_operate = read_operate;
  serialize_player_list = λ l. 0 ∷ [];
  serialize_room_list = λ l. 1 ∷ [];
  serialize_error = λ e. e.extra_info ∷ [];
  parse-serialize_shape = read-write_shape;
}
  where
    read_operate : Bytes → Bool × RoomOperate
    read_operate [] = (
      false,
      record { oprate_type = 0; use_name = []; room_key_origin = []; room_key_destination = [] },
    )
    read_operate (n ∷ key) = (
      true,
      record {
        oprate_type = n;
        use_name = 7 ∷ [];
        room_key_origin = key;
        room_key_destination = [];
      },
    )
