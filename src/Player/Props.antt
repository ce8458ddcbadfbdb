-- ===== src/Player/Props.antt =====
-- The properties of a player: PlayerPropTable (game_base/account/player_def.h and source/player_def.cpp).
pub mod Horns
pub mod Tests
use white_board_server.Prelude.{
  ℕ, ◌+◌, ◌-◌, ◌%◌, ◌^◌, ◌||◌, Option, none, some, List, [], ◌∷◌, ltb, if◌then◌else◌, length,
}
use white_board_server.Prelude.Int.{ℤ, pos}
use white_board_server.Containers.Ord.{Bytes, int_ord}
use white_board_server.Containers.Map.{Map, find, put, erase, keys}
use white_board_server.Player.Property
use white_board_server.Wire.{PacketTranscode}
use white_board_server.Wire.Stream.{
  twos, write_uint32, write_int32, write_uint64, write_int64, write_string,
}

abbrev pub PlayerPropMap : Type 0
PlayerPropMap = Map ℤ ℤ

pub record PlayerPropTable : Type 0 where
  pub account_id : ℕ
  pub prop_map : PlayerPropMap

-- The value of a property, or 0.
abbrev pub prop_or_zero : ℤ → PlayerPropMap → ℤ
prop_or_zero id m = elim (find id m) [ none ↦ pos 0 | some v ↦ v ]

-- GetHorns; the value is converted to uint32_t.
unfoldable pub get_horns : PlayerPropTable → ℕ
get_horns t = twos 32 (prop_or_zero Property.horn t.prop_map)

-- ChangeHorns; `-change` is that of an unsigned number.
pub change_horns : ℕ → PlayerPropTable → PlayerPropTable
unfolding get_horns
change_horns change t =
    let minus = (2 ^ 32 - change) % 2 ^ 32 in
    let ret =
      if ltb 0 change || ltb minus (get_horns t) then (get_horns t + change) % 2 ^ 32 else 0 in
    record t { prop_map = put Property.horn (pos ret) t.prop_map }

-- The entries that a packet carries.
unfoldable pub shown : PlayerPropMap → PlayerPropMap
shown m = erase Property.message_charge_fee (erase Property.caishen_played_times m)

write_props_ex : PlayerPropMap → PacketTranscode → PacketTranscode
write_props_ex [] p = p
write_props_ex ((id, value) ∷ rest) p = write_props_ex rest (write_int64 value (write_int32 id p))

write_props : PlayerPropMap → PacketTranscode → PacketTranscode
write_props [] p = p
write_props ((id, value) ∷ rest) p = write_props rest (write_int32 value (write_int32 id p))

-- PlayerPropTable::ToPacketEx
pub props_to_packet_ex : PlayerPropTable → PacketTranscode → PacketTranscode
unfolding write_props_ex shown
props_to_packet_ex t p =
    let tmp = shown t.prop_map in
    write_props_ex tmp (write_int32 (pos (length tmp)) (write_uint32 t.account_id p))

-- PlayerPropTable::ToPacket
pub props_to_packet : PlayerPropTable → PacketTranscode → PacketTranscode
unfolding write_props shown
props_to_packet t p =
    let tmp = shown t.prop_map in
    write_props tmp (write_int32 (pos (length tmp)) (write_uint32 t.account_id p))
