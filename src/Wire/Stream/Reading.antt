-- ===== src/Wire/Stream/Reading.antt =====
-- What the operators read from a packet whose unread bytes are known.
use white_board_server.Prelude.{
  ℕ, ◌+◌, ◌-◌, ◌^◌, ◌≡◌, ◌≤◌, ◌<◌, refl, true, List, [], ◌∷◌, ◌++◌, length, drop,
  take-length_append, drop-length_append, length-append, arith, zero, suc, sym, ap, ◌∙◌,
}
use white_board_server.Containers.Ord.{Bytes}
use white_board_server.Wire.{PacketTranscode, bytes_of, read, read_string}
use white_board_server.Wire.Numbers.{number_of-bytes_of}
use white_board_server.Wire.Stream.{read_uint32}

-- A packet that was read well so far, and the bytes that are not read yet.
unfoldable pub Ahead : PacketTranscode → Bytes → Type 0
Ahead p bytes =
    (p.is_good ≡ true) × (p.offset ≤ length p.buf.written) × (drop p.offset p.buf.written ≡ bytes)

length-drop {ℓ} : {A : Type ℓ} (n : ℕ) (l : List A) → length (drop n l) ≡ length l - n
length-drop zero l = omega arith
length-drop (suc n) [] = omega arith
length-drop (suc n) (a ∷ l) = omega (arith, length-drop n l)

drop-nil {ℓ} : {A : Type ℓ} (n : ℕ) → drop {A = A} n [] ≡ []
drop-nil zero = refl
drop-nil (suc n) = refl

suc_add : (n m : ℕ) → suc (n + m) ≡ suc n + m
suc_add n m = omega arith

drop-drop {ℓ} : {A : Type ℓ} (m n : ℕ) (l : List A) → drop m (drop n l) ≡ drop (n + m) l
drop-drop m zero l = ap (λ k. drop k l) (omega arith)
drop-drop m (suc n) [] = drop-nil m ∙ sym (drop-nil (suc n + m))
drop-drop m (suc n) (a ∷ l) = drop-drop m n l ∙ ap (λ k. drop k (a ∷ l)) (suc_add n m)

read_lem :
    (src bytes rest : Bytes) (offset : ℕ)
    → offset ≤ length src
    → drop offset src ≡ bytes ++ rest
    → (read src offset (length bytes) ≡ (bytes, offset + length bytes, true))
      × (offset + length bytes ≤ length src)
      × (drop (offset + length bytes) src ≡ rest)
unfolding read
read_lem src bytes rest offset h e =
    let room : offset + length bytes ≤ length src =
      omega (arith, h, length-drop offset src, ap length e, length-append bytes rest) in
    (
      ground (arith, room, e, take-length_append bytes rest),
      room,
      sym (drop-drop (length bytes) offset src)
          ∙ ap (drop (length bytes)) e
          ∙ drop-length_append bytes rest,
    )

pub read_uint32_lem :
    (n : ℕ) (p : PacketTranscode) (rest : Bytes)
    → n < 2 ^ 32
    → Ahead p (bytes_of n ++ rest)
    → ((read_uint32 p).0 ≡ n) × Ahead (read_uint32 p).1 rest
unfolding read_uint32 Ahead bytes_of
read_uint32_lem n p rest small (good, within, e) =
    let (r, room, next) = read_lem p.buf.written (bytes_of n) rest p.offset within e in
    (
      rw r (number_of-bytes_of n small),
      (ground (arith, r, good), ground (arith, r, room), ground (arith, r, next)),
    )

pub read_string_lem :
    (s held : Bytes) (p : PacketTranscode) (rest : Bytes)
    → length s < 2 ^ 32
    → Ahead p (bytes_of (length s) ++ s ++ rest)
    → ((read_string p held).0 ≡ held ++ s) × Ahead (read_string p held).1 rest
unfolding read_string Ahead bytes_of
read_string_lem s held p rest small (good, within, e) =
    let (r, room, next) =
      read_lem p.buf.written (bytes_of (length s)) (s ++ rest) p.offset within e in
    let (r', room', next') = read_lem p.buf.written s rest (p.offset + 4) room next in
    let n = number_of-bytes_of (length s) small in
    (
      ground (arith, r, n, r'),
      (
        ground (arith, r, n, r', good),
        ground (arith, r, n, r', room'),
        ground (arith, r, n, r', next'),
      ),
    )
