-- ===== src/Player/Options/Packets.antt =====
-- Options, written into a packet and read back.
use white_board_server.Prelude.{
  ◌%◌, ◌^◌, ◌≡◌, ◌≤◌, ◌<◌, [], ◌∷◌, ◌++◌, ltb, if◌then◌else◌, length, arith, All, subst, sym,
}
use white_board_server.Containers.Ord.{Bytes, bytes_ord}
use white_board_server.Containers.Set.{IsAscending}
use white_board_server.Containers.Map.{put, keys}
use white_board_server.Containers.Build.{put_all, put_all-rebuilds}
use white_board_server.Wire.{PacketTranscode, bytes_of, read_string}
use white_board_server.Wire.Stream.Reading.{Ahead, read_uint32_lem}
use white_board_server.Wire.Stream.Trips.{Trip, bind-Trip, done-Trip, uint32-Trip, string-Trip}
use white_board_server.Player.Account.Packets.{IsShort}
use white_board_server.Player.Options.{
  GameOptions, write_options, options_to_packet, read_options, options_from_packet, gc_option_nums,
}

-- The key and the value of an option are no longer than a length can say.
abbrev pub HoldsEach : GameOptions → Type 0
HoldsEach m = All (λ e. IsShort e.0 × IsShort e.1) m

options-Trip :
    (m done : GameOptions)
    → HoldsEach m
    → Trip (write_options m) (read_options (length m) done) (put_all done m)
unfolding write_options read_options
options-Trip [] done h = done-Trip done
options-Trip ((key, value) ∷ rest) done h =
    bind-Trip
      (λ k q. let (v, q') = read_string q [] in read_options (length rest) (put k v done) q')
      (string-Trip key h.0.0)
      (bind-Trip (λ v. read_options (length rest) (put key v done)) (string-Trip value h.0.1)
        (options-Trip rest (put key value done) h.1))

-- Up to a thousand options, in the order of their keys and no longer than a length can say, are
-- read back by a CG_Options that has none, and no more of the packet is read.
pub options_from_packet-to_packet :
    (m : GameOptions)
    → IsAscending (keys m)
    → HoldsEach m
    → length m ≤ gc_option_nums
    → Trip (options_to_packet m) (options_from_packet []) m
unfolding options_to_packet options_from_packet
options_from_packet-to_packet m ordered held few =
    let size = length m % 2 ^ 32 in
    let count : (if ltb gc_option_nums size then 0 else size) ≡ length m = ground (arith, few) in
    bind-Trip (λ n. read_options (if ltb gc_option_nums n then 0 else n) [])
      (uint32-Trip size (omega arith))
      (subst (λ n. Trip (write_options m) (read_options n []) m) (sym count)
        (subst (Trip (write_options m) (read_options (length m) [])) (put_all-rebuilds m ordered)
          (options-Trip m [] held)))

-- More options than that are not read at all: only their number is.
pub options_from_packet-many :
    (m held : GameOptions) (q : PacketTranscode) (rest : Bytes)
    → gc_option_nums < length m
    → length m < 2 ^ 32
    → Ahead q (bytes_of (length m) ++ rest)
    → ((options_from_packet held q).0 ≡ held) × Ahead (options_from_packet held q).1 rest
unfolding options_from_packet read_options
options_from_packet-many m held q rest many fits h =
    let (e, ahead) = read_uint32_lem (length m) q rest fits h in
    (ground (arith, e, many), ground (arith, e, many, ahead))
