-- ===== src/Wire/Framing.antt =====
-- The bytes of a packet, and where a stream of them is cut.
pub mod Decoding
use white_board_server.Prelude.{
  ℕ, ◌+◌, ◌*◌, ◌^◌, ◌≡◌, ◌≤◌, ◌<◌, refl, Bool, true, false, Option, none, some, List, [], ◌∷◌, ◌++◌,
  ltb, leb, ◌==◌, arith, if◌then◌else◌, length, length-append, take, drop, take-length_append,
  drop-length_append, append_assoc, append-nil, ap, sym, ◌∙◌, subst, Bool-cases, inl, inr, ◌≢◌,
  zero, suc,
}
use white_board_server.Containers.Ord.{Bytes}
use white_board_server.Board.Message.{Packet}
use white_board_server.Wire.{
  BinaryData, PacketTranscode, header_len, string_len, packet_len, bytes_of, number_of, enlarged,
  write, read, is_data_enough, protobuf_encode, new_packet, packet_decode, get_opcode, read_string,
  from_packet_transcode, protobuf_decode,
}
use white_board_server.Wire.Numbers.{number_of-bytes_of}

-- The length of a packet's bytes.
abbrev pub total_len : Packet → ℕ
total_len p = header_len + length p.body + string_len

-- Where a packet's lengths fit into 32 bits.
abbrev pub Fits : Packet → Type 0
Fits p = (p.opcode < 2 ^ 32) × (total_len p < 2 ^ 32)

pub frame : Packet → Bytes
frame p = bytes_of (total_len p) ++ (bytes_of p.opcode ++ (bytes_of (length p.body) ++ p.body))

pub encode-frame : (p : Packet) → (protobuf_encode p).written ≡ frame p
unfolding protobuf_encode write frame bytes_of
encode-frame p = refl

pub length-frame : (p : Packet) → length (frame p) ≡ total_len p
unfolding frame bytes_of
length-frame p = omega arith

-- What stands in the middle of a message is read from its place.
pub read-middle :
    (pre mid post : Bytes)
    → read (pre ++ (mid ++ post)) (length pre) (length mid) ≡ (mid, length pre + length mid, true)
unfolding read
read-middle pre mid post = ground (
  arith,
  length-append pre (mid ++ post),
  length-append mid post,
  drop-length_append pre (mid ++ post),
  take-length_append mid post,
)

pub read-total :
    (p : Packet) (rest : Bytes)
    → read (frame p ++ rest) 0 packet_len ≡ (bytes_of (total_len p), 4, true)
unfolding frame bytes_of
read-total p rest =
    read-middle [] (bytes_of (total_len p))
      ((bytes_of p.opcode ++ (bytes_of (length p.body) ++ p.body)) ++ rest)

pub read-length : (p : Packet) → read (frame p) 8 string_len ≡ (bytes_of (length p.body), 12, true)
unfolding frame bytes_of
read-length p =
    read-middle (bytes_of (total_len p) ++ bytes_of p.opcode) (bytes_of (length p.body)) p.body

pub read-body :
    (p : Packet) → read (frame p) 12 (length p.body) ≡ (p.body, 12 + length p.body, true)
unfolding frame bytes_of
read-body p =
    subst
      (λ (tail : Bytes).
        read (bytes_of (total_len p) ++ (bytes_of p.opcode ++ (bytes_of (length p.body) ++ tail)))
          12 (length p.body)
        ≡ (p.body, 12 + length p.body, true))
      (append-nil p.body)
      (read-middle (bytes_of (total_len p) ++ bytes_of p.opcode ++ bytes_of (length p.body)) p.body
        [])

-- The length is read from any part that is long enough to hold it.
read-part :
    (p : Packet) (m : ℕ)
    → read (take (suc (suc (suc (suc m)))) (frame p)) 0 packet_len
      ≡ (bytes_of (total_len p), 4, true)
unfolding frame bytes_of
read-part p m =
    read-middle [] (bytes_of (total_len p))
      (take m (bytes_of p.opcode ++ (bytes_of (length p.body) ++ p.body)))

length-take : (n : ℕ) (xs : Bytes) → n ≤ length xs → length (take n xs) ≡ n
length-take zero xs h = refl
length-take (suc n) [] h = ground (arith, h)
length-take (suc n) (x ∷ xs) h = ground (arith, length-take n xs (omega (arith, h)))

-- A stream that begins with the bytes of a packet whose length fits into 32 bits is found to hold a
-- whole packet of that length.
pub is_data_enough-frame :
    (p : Packet) (rest : Bytes)
    → Fits p
    → is_data_enough ((protobuf_encode p).written ++ rest) ≡ (true, total_len p)
unfolding is_data_enough
is_data_enough-frame p rest fits = ground (
  arith,
  encode-frame p,
  read-total p rest,
  number_of-bytes_of (total_len p) fits.1,
  length-append (frame p) rest,
  length-frame p,
)

-- A proper part of the bytes of a packet whose length fits into 32 bits, from the beginning, is
-- found not to hold a whole packet.
pub is_data_enough-part :
    (p : Packet) (n : ℕ)
    → Fits p
    → n < total_len p
    → (is_data_enough (take n (protobuf_encode p).written)).0 ≡ false
unfolding is_data_enough
is_data_enough-part p n fits part = by_length n part
  where
    length-part : (n : ℕ) → n < total_len p → length (take n (protobuf_encode p).written) ≡ n
    length-part n h =
        ground (arith, encode-frame p, length-take n (frame p) (omega (arith, h, length-frame p)))

    short :
        (n : ℕ)
        → n < total_len p
        → n < 4
        → (is_data_enough (take n (protobuf_encode p).written)).0 ≡ false
    short n h k = ground (arith, k, length-part n h)

    by_length :
        (n : ℕ) → n < total_len p → (is_data_enough (take n (protobuf_encode p).written)).0 ≡ false
    by_length (suc (suc (suc (suc m)))) h = ground (
      arith,
      h,
      length-part (suc (suc (suc (suc m)))) h,
      encode-frame p,
      read-part p m,
      number_of-bytes_of (total_len p) fits.1,
    )
    by_length n h = short n h (omega arith)
