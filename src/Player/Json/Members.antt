-- ===== src/Player/Json/Members.antt =====
-- Objects as lists of members, and what the readers of the sources find in them.
use white_board_server.Prelude.{
  ℕ, ◌^◌, ◌<◌, ◌≤◌, ◌≡◌, ◌∙◌, ap, true, Option, none, some, List, [], ◌∷◌, arith, if◌then◌else◌,
}
use white_board_server.Prelude.Int.{ℤ, pos}
use white_board_server.Containers.Ord.{Bytes, bytes_eq}
use white_board_server.Wire.Stream.{twos}
use white_board_server.Player.Json.{Rapidjson, fits}

module _ ⦃json : Rapidjson⦄ where
  -- AddMember for each of some members in turn.
  unfoldable pub add_members : List (Bytes × json.Value) → json.Value → json.Value
  add_members [] o = o
  add_members ((key, v) ∷ rest) o = add_members rest (json.add_member key v o)

  -- if (o.HasMember(key) && o[key].IsString()) held = o[key].GetString();
  unfoldable pub string_of : Bytes → json.Value → Bytes → Bytes
  string_of key o held = elim (json.member key o) [
    | none ↦ held
    | some v ↦ if json.is_string v then json.get_string v else held
  ]

  -- if (o.HasMember(key) && o[key].IsInt()) held = o[key].GetInt();
  unfoldable pub int_of : Bytes → json.Value → ℤ → ℤ
  int_of key o held = elim (json.member key o) [
    | none ↦ held
    | some v ↦ if json.is_int v then json.get_int v else held
  ]

  -- The same where `held` is a uint32_t.
  unfoldable pub uint32_of : Bytes → json.Value → ℕ → ℕ
  uint32_of key o held = elim (json.member key o) [
    | none ↦ held
    | some v ↦ if json.is_int v then twos 32 (json.get_int v) else held
  ]

  -- The same where `held` is a uint8_t.
  unfoldable pub uint8_of : Bytes → json.Value → ℕ → ℕ
  uint8_of key o held = elim (json.member key o) [
    | none ↦ held
    | some v ↦ if json.is_int v then twos 8 (json.get_int v) else held
  ]

  -- if (o.HasMember(key) && o[key].IsInt64()) held = o[key].GetInt64();
  unfoldable pub int64_of : Bytes → json.Value → ℤ → ℤ
  int64_of key o held = elim (json.member key o) [
    | none ↦ held
    | some v ↦ if json.is_int64 v then json.get_int64 v else held
  ]

  -- The first member of a name in a list.
  abbrev pub listed : Bytes → List (Bytes × json.Value) → Option json.Value
  listed key [] = none
  listed key ((name, v) ∷ rest) = if bytes_eq name key then some v else listed key rest

  or_listed : Option json.Value → Option json.Value → Option json.Value
  or_listed none o = o
  or_listed (some v) o = some v

  member-add_members_lem :
      (key : Bytes) (members : List (Bytes × json.Value)) (o : json.Value)
      → json.is_object o ≡ true
      → json.member key (add_members members o) ≡ or_listed (json.member key o) (listed key members)
  unfolding add_members or_listed
  member-add_members_lem key [] o h = ground (arith)
  member-add_members_lem key ((name, v) ∷ rest) o h = ground (
    arith,
    member-add_members_lem key rest (json.add_member name v o)
        (json.is_object-add_member name v o h),
    json.member-add_member key name v o h,
  )

  pub member-add_members :
      (key : Bytes) (members : List (Bytes × json.Value))
      → json.member key (add_members members json.object) ≡ listed key members
  unfolding or_listed
  member-add_members key members =
      member-add_members_lem key members json.object json.is_object-object
      ∙ ap (λ o. or_listed o (listed key members)) (json.member-object key)

  pub is_object-add_members :
      (members : List (Bytes × json.Value)) (o : json.Value)
      → json.is_object o ≡ true
      → json.is_object (add_members members o) ≡ true
  unfolding add_members
  is_object-add_members [] o h = h
  is_object-add_members ((key, v) ∷ rest) o h =
      is_object-add_members rest (json.add_member key v o) (json.is_object-add_member key v o h)

  module _ (key : Bytes) (members : List (Bytes × json.Value)) where
    pub string_of-listed :
        (s held : Bytes)
        → listed key members ≡ some (json.string s)
        → string_of key (add_members members json.object) held ≡ s
    unfolding string_of
    string_of-listed s held e = ground (
      arith,
      member-add_members key members,
      e,
      json.is_string-string s,
      json.get_string-string s,
    )

    pub string_of-unlisted :
        (held : Bytes)
        → listed key members ≡ none
        → string_of key (add_members members json.object) held ≡ held
    unfolding string_of
    string_of-unlisted held e = ground (arith, member-add_members key members, e)

    pub int_of-listed :
        (z held : ℤ)
        → listed key members ≡ some (json.number z)
        → fits 31 z ≡ true
        → int_of key (add_members members json.object) held ≡ z
    unfolding int_of
    int_of-listed z held e small = ground (
      arith,
      member-add_members key members,
      e,
      json.is_int-number z,
      json.get_int-number z small,
    )

    pub int64_of-listed :
        (z held : ℤ)
        → listed key members ≡ some (json.number z)
        → fits 63 z ≡ true
        → int64_of key (add_members members json.object) held ≡ z
    unfolding int64_of
    int64_of-listed z held e small = ground (
      arith,
      member-add_members key members,
      e,
      json.is_int64-number z,
      json.get_int64-number z small,
    )

    pub uint32_of-listed :
        (n held : ℕ)
        → listed key members ≡ some (json.number (pos n))
        → n < 2 ^ 31
        → uint32_of key (add_members members json.object) held ≡ n
    unfolding uint32_of
    uint32_of-listed n held e small = ground (
      arith,
      member-add_members key members,
      e,
      json.is_int-number (pos n),
      json.get_int-number (pos n) (ground (arith, small)),
      small,
    )

    pub uint8_of-listed :
        (n held : ℕ)
        → listed key members ≡ some (json.number (pos n))
        → n < 2 ^ 8
        → uint8_of key (add_members members json.object) held ≡ n
    unfolding uint8_of
    uint8_of-listed n held e small = ground (
      arith,
      member-add_members key members,
      e,
      json.is_int-number (pos n),
      json.get_int-number (pos n) (ground (arith, small)),
      small,
    )

    -- A number that does not fit in an int is there, but it is not read.
    pub uint32_of-large :
        (n held : ℕ)
        → listed key members ≡ some (json.number (pos n))
        → 2 ^ 31 ≤ n
        → uint32_of key (add_members members json.object) held ≡ held
    unfolding uint32_of
    uint32_of-large n held e large =
        ground (arith, member-add_members key members, e, json.is_int-number (pos n), large)
