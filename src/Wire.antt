-- ===== src/Wire.antt =====
-- Packets as bytes: framework/server/transcode.cpp, transcode_packet.cpp and transcode_protobuf.cpp.
-- Numbers are little-endian, as on the machines that the server is built for.
pub mod Numbers
pub mod Framing
pub mod Stream
pub mod Tests
use white_board_server.Prelude.{
  ℕ, ◌+◌, ◌*◌, ◌-◌, ◌/◌, ◌%◌, ◌^◌, Bool, true, false, Option, none, some, List, [], ◌∷◌, ◌++◌, ltb,
  leb, ◌==◌, ◌||◌, if◌then◌else◌, length, take, drop, replicate, zero, suc,
}
use white_board_server.Containers.Ord.{Bytes}
use white_board_server.Board.Message.{Packet}

-- stBinaryData: `data` is what was written, so its length is `offset`.
pub record BinaryData : Type 0 where
  pub size : ℕ
  pub written : Bytes

abbrev pub packet_len : ℕ
packet_len = 4

abbrev pub header_len : ℕ
header_len = 8

abbrev pub string_len : ℕ
string_len = 4

-- The bytes of a uint32_t.
unfoldable pub bytes_of : ℕ → Bytes
bytes_of n = n % 256 ∷ n / 256 % 256 ∷ n / 65536 % 256 ∷ n / 16777216 % 256 ∷ []

-- A number that is read into zeroed memory.
unfoldable pub number_of : Bytes → ℕ
number_of [] = 0
number_of (b ∷ rest) = b + 256 * number_of rest

-- The loop of Transcode::Write that doubles the size.
grow : ℕ → ℕ → ℕ → ℕ
grow zero need size = size
grow (suc fuel) need size =
    let more = grow fuel need (size * 2) in if ltb size need then more else size

-- The size after a write for which `need` bytes must fit. realloc is taken to succeed.
pub enlarged : ℕ → ℕ → ℕ
unfolding grow
enlarged size need =
    if ltb size need then grow need need ((if size == 0 then 1 else size) * 2) else size

-- Transcode::Write
pub write : BinaryData → Bytes → BinaryData
unfolding enlarged
write dest src = record {
  size = enlarged dest.size (length src + length dest.written);
  written = dest.written ++ src;
}

-- Transcode::Read: what is read, the offset after it, and whether is_good stays as it was.
unfoldable pub read : Bytes → ℕ → ℕ → Bytes × ℕ × Bool
read src offset len =
    if ltb (length src) (offset + len)
    then (replicate len 0, length src, false)
    else (take len (drop offset src), offset + len, true)

-- Transcode::IsDataEnough, and the size that the message says it has.
pub is_data_enough : Bytes → Bool × ℕ
is_data_enough message =
    if ltb (length message) packet_len
    then (false, 0)
    else let size = number_of (read message 0 packet_len).0 in (leb size (length message), size)

-- ProtobufTranscode::doEndpointEncode
pub protobuf_encode : Packet → BinaryData
unfolding write
protobuf_encode p =
    let total = header_len + length p.body + string_len in
    let empty : BinaryData = record { size = total; written = [] } in
    write
      (write (write (write empty (bytes_of total)) (bytes_of p.opcode)) (bytes_of (length p.body)))
      p.body

-- PacketTranscode: its buffer, the reading position and is_good.
pub record PacketTranscode : Type 0 where
  pub buf : BinaryData
  pub offset : ℕ
  pub is_good : Bool

-- PacketTranscode::PacketTranscode
pub new_packet : PacketTranscode
new_packet = record {
  buf = record { size = header_len; written = replicate header_len 0 };
  offset = 0;
  is_good = true;
}

-- PacketTranscode::doEndpointDecode
pub packet_decode : PacketTranscode → Bytes → PacketTranscode
unfolding write
packet_decode p message =
    let (text, offset, good) = read message 0 packet_len in
    let size = number_of text in
    let is_good = if good then p.is_good else false in
    if ltb (length message) size then record p { offset = offset; is_good = is_good } else record {
      buf = write (record { size = size; written = [] }) (take size message);
      offset = header_len;
      is_good = is_good;
    }

-- PacketTranscode::GetOpcode
pub get_opcode : PacketTranscode → ℕ
get_opcode p =
    if leb header_len p.buf.size then number_of (take 4 (drop packet_len p.buf.written)) else 0

-- operator>>(std::string&), appended to what the string held.
unfoldable pub read_string : PacketTranscode → Bytes → Bytes × PacketTranscode
read_string p held =
    let (text, offset, good) = read p.buf.written p.offset string_len in
    let (body, offset', good') = read p.buf.written offset (number_of text) in
    (
      held ++ body,
      record p {
        offset = offset';
        is_good = if good then (if good' then p.is_good else false) else false;
      },
    )

-- ProtobufTranscode::FromPacketTranscode on a fresh message.
pub from_packet_transcode : PacketTranscode → Packet × PacketTranscode
unfolding get_opcode read_string
from_packet_transcode p =
    let (body, p') = read_string p [] in (record { opcode = get_opcode p; body = body }, p')

-- Bytes of a buffer that are copied without a test: `none` is that some of them are not among those
-- that the buffer holds.
unfoldable pub copy_bytes : Bytes → ℕ → ℕ → Option Bytes
copy_bytes src offset len =
    if len == 0 || leb (offset + len) (length src) then some (take len (drop offset src)) else none

-- ProtobufTranscode::doEndpointDecode: `none` is a read beyond what the message holds. The length of
-- the body is an unsigned difference of 32 bits.
pub protobuf_decode : Packet → Bytes → Option Packet
unfolding copy_bytes
protobuf_decode p message =
    let size = number_of (read message 0 packet_len).0 in
    if ltb size header_len || ltb (length message) size
    then some p
    else (let body_start = length message + header_len + string_len in
        let body_len = (size + (2 ^ 32 - header_len - string_len)) % 2 ^ 32 in
        elim (copy_bytes message body_start body_len) [
          | none ↦ none
          | some body ↦
              some (record { opcode = number_of (take 4 (drop packet_len message)); body = body })
        ])
