-- ===== src/Wire/Numbers.antt =====
-- Numbers and their bytes, and the size of the buffer of Write.
use white_board_server.Prelude.{
  ℕ, ◌+◌, ◌*◌, ◌^◌, ◌≡◌, ◌≤◌, ◌<◌, refl, ◌++◌, ltb, ◌==◌, arith, if◌then◌else◌, length,
  length-append, zero, suc, Bool-cases, inl, inr,
}
use white_board_server.Containers.Ord.{Bytes}
use white_board_server.Wire.{BinaryData, bytes_of, number_of, grow, enlarged, write}

pub number_of-bytes_of : (n : ℕ) → n < 2 ^ 32 → number_of (bytes_of n) ≡ n
unfolding number_of bytes_of
number_of-bytes_of n h = omega arith

-- The doubling stops with enough room: the fuel is what is needed.
grow-enough : (fuel need size : ℕ) → 0 < size → need ≤ size + fuel → need ≤ grow fuel need size
unfolding grow
grow-enough zero need size h k = omega (arith, k)
grow-enough (suc fuel) need size h k =
    let ih = grow-enough fuel need (size * 2) (omega (arith, h)) (omega (arith, h, k)) in
    elim (Bool-cases (ltb size need)) [ inl e ↦ ground (arith, e, ih) | inr e ↦ ground (arith, e) ]

-- A write appends its bytes to what was written, and when the buffer had room for what was written
-- before, it has room for all of it after.
pub write_lem :
    (dest : BinaryData) (src : Bytes)
    → length dest.written ≤ dest.size
    → ((write dest src).written ≡ dest.written ++ src)
      × (length (write dest src).written ≤ (write dest src).size)
unfolding write enlarged
write_lem dest src h =
    let need = length src + length dest.written in
    let size = (if dest.size == 0 then 1 else dest.size) * 2 in
    (
      refl,
      ground (
        arith,
        h,
        length-append dest.written src,
        grow-enough need need size (ground arith) (omega arith),
      ),
    )
