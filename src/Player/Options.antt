-- ===== src/Player/Options.antt =====
-- The options of a client: CG_Options (game_base/account/player_def.h and source/player_def.cpp).
pub mod Packets
pub mod Tests
use white_board_server.Prelude.{
  ℕ, ◌%◌, ◌^◌, Option, none, some, List, [], ◌∷◌, ltb, if◌then◌else◌, length, zero, suc,
}
use white_board_server.Containers.Ord.{Bytes, bytes_ord}
use white_board_server.Containers.Map.{Map, find, put}
use white_board_server.Wire.{PacketTranscode, read_string}
use white_board_server.Wire.Stream.{write_uint32, write_string, read_uint32}

abbrev pub GameOptions : Type 0
GameOptions = Map Bytes Bytes

-- The loop of CG_Options::ToPacket.
pub write_options : GameOptions → PacketTranscode → PacketTranscode
write_options [] p = p
write_options ((key, value) ∷ rest) p = write_options rest (write_string value (write_string key p))

-- CG_Options::ToPacket
pub options_to_packet : GameOptions → PacketTranscode → PacketTranscode
unfolding write_options
options_to_packet m p = write_options m (write_uint32 (length m % 2 ^ 32) p)

-- GC_OPTION_NUMS
abbrev pub gc_option_nums : ℕ
gc_option_nums = 1000

-- The loop of CG_Options::FromPacket.
pub read_options : ℕ → GameOptions → PacketTranscode → GameOptions × PacketTranscode
read_options zero m p = (m, p)
read_options (suc n) m p =
    let (key, p1) = read_string p [] in
    let (value, p2) = read_string p1 [] in read_options n (put key value m) p2

-- CG_Options::FromPacket, which takes a number beyond the limit for 0.
pub options_from_packet : GameOptions → PacketTranscode → GameOptions × PacketTranscode
unfolding read_options
options_from_packet m p =
    let (size, p1) = read_uint32 p in
    read_options (if ltb gc_option_nums size then 0 else size) m p1

-- CG_Options::GetValue; the default is the text "default".
pub get_value : Bytes → GameOptions → Bytes
get_value key m = elim (find key m) [
  | none ↦ 100 ∷ 101 ∷ 102 ∷ 97 ∷ 117 ∷ 108 ∷ 116 ∷ []
  | some value ↦ value
]
