-- ===== src/Player/Options/Tests.antt =====
-- Two options in a packet.
use white_board_server.Prelude.{refl, [], ◌∷◌, arith}
use white_board_server.Containers.Ord.{bytes_lt}
use white_board_server.Wire.Stream.Trips.{Trip}
use white_board_server.Player.Options.{GameOptions, options_to_packet, options_from_packet}
use white_board_server.Player.Options.Packets.{options_from_packet-to_packet}

-- The device and the language, by their keys "did" and "lang".
abbrev device : GameOptions
device = (100 ∷ 105 ∷ 100 ∷ [], 55 ∷ []) ∷ (108 ∷ 97 ∷ 110 ∷ 103 ∷ [], 101 ∷ 110 ∷ []) ∷ []

options_from_packet-to_packet_example :
    Trip (options_to_packet device) (options_from_packet []) device
unfolding bytes_lt
options_from_packet-to_packet_example =
    options_from_packet-to_packet device ((refl, tt), (tt, tt))
      ((omega arith, omega arith), ((omega arith, omega arith), tt)) (omega arith)
