-- ===== src/Player/Changes.antt =====
-- Changes of a player's properties: stOnePropertyChange and PlayerPropertyChange
-- (game_base/account/player_def.h and source/player_def.cpp).
pub mod Setting
use white_board_server.Prelude.{
  ℕ, ◌+◌, ◌-◌, ◌%◌, ◌^◌, ◌||◌, Option, none, some, List, [], ◌∷◌, ltb, if◌then◌else◌, length,
}
use white_board_server.Prelude.Int.{ℤ, pos}
use white_board_server.Containers.Ord.{Bytes, int_ord}
use white_board_server.Containers.Map.{Map, find, put, erase, keys}
use white_board_server.Wire.{PacketTranscode}
use white_board_server.Wire.Stream.{
  twos, write_uint32, write_int32, write_uint64, write_int64, write_string,
}

-- stOnePropertyChange
pub record OnePropertyChange : Type 0 where
  pub property_id : ℤ
  pub current_value : ℕ
  pub changed_value : ℤ
  pub other_values : List ℤ

write_others : List ℤ → PacketTranscode → PacketTranscode
write_others [] p = p
write_others (v ∷ rest) p = write_others rest (write_uint32 (twos 32 v) p)

write_others_ex : List ℤ → PacketTranscode → PacketTranscode
write_others_ex [] p = p
write_others_ex (v ∷ rest) p = write_others_ex rest (write_int64 v p)

-- stOnePropertyChange::ToPacket
pub change_to_packet : OnePropertyChange → PacketTranscode → PacketTranscode
unfolding write_others
change_to_packet c p =
    let p1 = write_uint32 (c.current_value % 2 ^ 32) (write_int32 c.property_id p) in
    write_others c.other_values
      (write_int32 (pos (length c.other_values)) (write_int32 c.changed_value p1))

-- stOnePropertyChange::ToPacketEx
pub change_to_packet_ex : OnePropertyChange → PacketTranscode → PacketTranscode
unfolding write_others_ex
change_to_packet_ex c p =
    let p1 = write_uint64 c.current_value (write_int32 c.property_id p) in
    write_others_ex c.other_values
      (write_int32 (pos (length c.other_values)) (write_int64 c.changed_value p1))

pub record PlayerPropertyChange : Type 0 where
  pub player_id : ℕ
  pub title : Bytes
  pub change_reason : ℕ
  pub changed_props : Map ℤ OnePropertyChange

-- PlayerPropertyChange::GetPropertyIds
abbrev pub get_property_ids : PlayerPropertyChange → List ℤ
get_property_ids c = keys c.changed_props

set_changes : List OnePropertyChange → Map ℤ OnePropertyChange → Map ℤ OnePropertyChange
set_changes [] m = m
set_changes (v ∷ rest) m = set_changes rest (put v.property_id v m)

-- PlayerPropertyChange::SetPropertyChanges
pub set_property_changes : List OnePropertyChange → PlayerPropertyChange → PlayerPropertyChange
unfolding set_changes
set_property_changes changes c = record c { changed_props = set_changes changes c.changed_props }

-- PlayerPropertyChange::GetPropertyChange
unfoldable pub get_property_change : ℤ → PlayerPropertyChange → Option OnePropertyChange
get_property_change id c = find id c.changed_props

write_changes :
    (OnePropertyChange → PacketTranscode → PacketTranscode)
    → Map ℤ OnePropertyChange
    → PacketTranscode
    → PacketTranscode
write_changes write_one [] p = p
write_changes write_one ((id, v) ∷ rest) p = write_changes write_one rest (write_one v p)

write_property_change :
    (OnePropertyChange → PacketTranscode → PacketTranscode)
    → PlayerPropertyChange
    → PacketTranscode
    → PacketTranscode
unfolding write_changes
write_property_change write_one c p =
    let p1 = write_string c.title (write_uint32 c.player_id p) in
    write_changes write_one c.changed_props
      (write_int32 (pos (length c.changed_props)) (write_uint32 c.change_reason p1))

-- PlayerPropertyChange::ToPacket
pub property_change_to_packet : PlayerPropertyChange → PacketTranscode → PacketTranscode
unfolding write_property_change change_to_packet
property_change_to_packet c p = write_property_change change_to_packet c p

-- PlayerPropertyChange::ToPacketEx
pub property_change_to_packet_ex : PlayerPropertyChange → PacketTranscode → PacketTranscode
unfolding write_property_change change_to_packet_ex
property_change_to_packet_ex c p = write_property_change change_to_packet_ex c p
