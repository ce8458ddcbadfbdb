-- ===== src/Wire/Tests.antt =====
-- A packet of three bytes, and the theorems applied to it.
use white_board_server.Prelude.{◌+◌, ◌≡◌, true, some, none, [], ◌∷◌, ◌++◌, arith}
use white_board_server.Board.Message.{Packet}
use white_board_server.Wire.{
  is_data_enough, protobuf_encode, new_packet, packet_decode, from_packet_transcode,
  protobuf_decode, copy_bytes, header_len, string_len,
}
use white_board_server.Wire.Framing.{Fits, total_len, is_data_enough-frame}
use white_board_server.Wire.Framing.Decoding.{from_packet_transcode-encode, protobuf_decode-encode}

abbrev shape_packet : Packet
shape_packet = record { opcode = 104; body = 7 ∷ 8 ∷ 9 ∷ [] }

shape_packet-Fits : Fits shape_packet
shape_packet-Fits = (omega arith, omega arith)

is_data_enough-frame_example :
    is_data_enough ((protobuf_encode shape_packet).written ++ 1 ∷ 2 ∷ [])
    ≡ (true, total_len shape_packet)
is_data_enough-frame_example = is_data_enough-frame shape_packet (1 ∷ 2 ∷ []) shape_packet-Fits

from_packet_transcode-encode_example :
    let (p', end) =
      from_packet_transcode (packet_decode new_packet (protobuf_encode shape_packet).written) in
    (p' ≡ shape_packet) × (end.is_good ≡ true)
from_packet_transcode-encode_example = from_packet_transcode-encode shape_packet shape_packet-Fits

protobuf_decode-encode_example :
    (copy_bytes (protobuf_encode shape_packet).written (header_len + string_len) 3
      ≡ some shape_packet.body)
    × (protobuf_decode shape_packet (protobuf_encode shape_packet).written ≡ none)
protobuf_decode-encode_example =
    protobuf_decode-encode shape_packet shape_packet shape_packet-Fits
      (λ e. absurd (ground (arith, e)))
