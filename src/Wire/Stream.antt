-- ===== src/Wire/Stream.antt =====
-- The stream operators of PacketTranscode on numbers and strings (framework/server/transcode_packet.cpp).
pub mod Reading
pub mod Trips
use white_board_server.Prelude.{
  ℕ, ◌+◌, ◌*◌, ◌-◌, ◌/◌, ◌%◌, ◌^◌, Bool, true, false, ◌++◌, length, if◌then◌else◌,
}
use white_board_server.Prelude.Int.{ℤ, pos, negsuc}
use white_board_server.Containers.Ord.{Bytes}
use white_board_server.Wire.{
  BinaryData, PacketTranscode, string_len, bytes_of, number_of, write, read, read_string,
}

-- A signed number of a width as the unsigned one of the same bytes.
abbrev pub twos : ℕ → ℤ → ℕ
twos width (pos n) = n % 2 ^ width
twos width (negsuc n) = 2 ^ width - 1 - n % 2 ^ width

-- The bytes of a uint64_t.
unfoldable pub bytes_of_64 : ℕ → Bytes
unfolding bytes_of
bytes_of_64 n = bytes_of (n % 2 ^ 32) ++ bytes_of (n / 2 ^ 32)

-- PacketTranscode::append
unfoldable pub append : Bytes → PacketTranscode → PacketTranscode
unfolding write
append bytes p = record p { buf = write p.buf bytes }

-- operator<<(uint32_t)
unfoldable pub write_uint32 : ℕ → PacketTranscode → PacketTranscode
unfolding append bytes_of
write_uint32 n p = append (bytes_of n) p

-- operator<<(int32_t)
pub write_int32 : ℤ → PacketTranscode → PacketTranscode
unfolding append bytes_of
write_int32 z p = append (bytes_of (twos 32 z)) p

-- operator<<(uint64_t)
pub write_uint64 : ℕ → PacketTranscode → PacketTranscode
unfolding append bytes_of_64
write_uint64 n p = append (bytes_of_64 n) p

-- operator<<(int64_t)
pub write_int64 : ℤ → PacketTranscode → PacketTranscode
unfolding append bytes_of_64
write_int64 z p = append (bytes_of_64 (twos 64 z)) p

-- operator<<(const std::string&)
unfoldable pub write_string : Bytes → PacketTranscode → PacketTranscode
unfolding append bytes_of
write_string s p = append s (append (bytes_of (length s)) p)

-- operator>>(uint32_t&)
pub read_uint32 : PacketTranscode → ℕ × PacketTranscode
read_uint32 p =
    let (text, offset, good) = read p.buf.written p.offset 4 in
    (number_of text, record p { offset = offset; is_good = if good then p.is_good else false })
