-- ===== src/Wire/Framing/Decoding.antt =====
-- What PacketTranscode and ProtobufTranscode read of what ProtobufTranscode wrote.
use white_board_server.Prelude.{
  ◌+◌, ◌≡◌, ◌≢◌, refl, true, some, none, [], ◌∷◌, arith, length, take, take-length_append,
  append-nil, subst,
}
use white_board_server.Containers.Ord.{Bytes}
use white_board_server.Board.Message.{Packet}
use white_board_server.Wire.{
  PacketTranscode, header_len, string_len, packet_len, copy_bytes, bytes_of, enlarged, write, read,
  protobuf_encode, new_packet, packet_decode, get_opcode, read_string, from_packet_transcode,
  protobuf_decode,
}
use white_board_server.Wire.Numbers.{number_of-bytes_of}
use white_board_server.Wire.Framing.{
  Fits, total_len, frame, encode-frame, length-frame, read-total, read-length, read-body,
}

read-total_alone : (p : Packet) → read (frame p) 0 packet_len ≡ (bytes_of (total_len p), 4, true)
read-total_alone p =
    subst (λ (text : Bytes). read text 0 packet_len ≡ (bytes_of (total_len p), 4, true))
      (append-nil (frame p)) (read-total p [])

take-frame : (p : Packet) → take (total_len p) (frame p) ≡ frame p
take-frame p = ground (arith, length-frame p, take-length_append (frame p) [], append-nil (frame p))

-- The buffer that holds exactly a packet's bytes.
received : Packet → PacketTranscode
received p = record {
  buf = record { size = total_len p; written = frame p };
  offset = header_len;
  is_good = true;
}

decode-received :
    (p : Packet) → Fits p → packet_decode new_packet (protobuf_encode p).written ≡ received p
unfolding packet_decode new_packet received write enlarged
decode-received p fits = ground (
  arith,
  encode-frame p,
  read-total_alone p,
  number_of-bytes_of (total_len p) fits.1,
  length-frame p,
  take-frame p,
)

opcode-received : (p : Packet) → Fits p → get_opcode (received p) ≡ p.opcode
unfolding get_opcode received frame bytes_of
opcode-received p fits = ground (arith, number_of-bytes_of p.opcode fits.0)

read_string-received :
    (p : Packet)
    → Fits p
    → read_string (received p) [] ≡ (p.body, record (received p) { offset = 12 + length p.body })
unfolding read_string received
read_string-received p fits =
    ground (
      arith,
      read-length p,
      number_of-bytes_of (length p.body) (omega (arith, fits.1)),
      read-body p,
    )

-- A packet whose opcode and total length fit into 32 bits, encoded by ProtobufTranscode, decoded by
-- PacketTranscode and turned back by FromPacketTranscode, is the same packet, and no read failed.
pub from_packet_transcode-encode :
    (p : Packet)
    → Fits p
    → let (p', end) =
        from_packet_transcode (packet_decode new_packet (protobuf_encode p).written) in
      (p' ≡ p) × (end.is_good ≡ true)
unfolding from_packet_transcode received
from_packet_transcode-encode p fits = (
  ground (arith, decode-received p fits, opcode-received p fits, read_string-received p fits),
  ground (arith, decode-received p fits, read_string-received p fits),
)

-- The body of an encoded packet stands after the header and its own length.
copy_bytes-body :
    (p : Packet)
    → copy_bytes (protobuf_encode p).written (header_len + string_len) (length p.body) ≡ some p.body
unfolding copy_bytes frame bytes_of
copy_bytes-body p =
    ground (arith, encode-frame p, length-frame p, take-length_append p.body [], append-nil p.body)

-- If a packet's opcode and total length fit into 32 bits and its body is not empty, the bytes that
-- ProtobufTranscode encodes hold the body after the header and the body's length, but decoding them by
-- ProtobufTranscode reads beyond the message.
pub protobuf_decode-encode :
    (p q : Packet)
    → Fits p
    → p.body ≢ []
    → (copy_bytes (protobuf_encode p).written (header_len + string_len) (length p.body)
        ≡ some p.body)
      × (protobuf_decode q (protobuf_encode p).written ≡ none)
unfolding protobuf_decode copy_bytes
protobuf_decode-encode p q fits full = (copy_bytes-body p, by_body p.body refl)
  where
    by_body : (body : Bytes) → p.body ≡ body → protobuf_decode q (protobuf_encode p).written ≡ none
    by_body [] e = absurd (full e)
    by_body (b ∷ rest) e = ground (
      arith,
      e,
      encode-frame p,
      read-total_alone p,
      number_of-bytes_of (total_len p) fits.1,
      length-frame p,
    )
