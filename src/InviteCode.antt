-- ===== src/InviteCode.antt =====
-- Codes with which players invite others: DecodingInviteCode
-- (DN_application/DN_Account/dn_player.cpp).
pub mod Decoding
pub mod Tests
use white_board_server.Prelude.{
  ℕ, ◌+◌, ◌-◌, ◌%◌, ◌^◌, Bool, true, false, ◌&&◌, not, Option, none, some, List, [], ◌∷◌, ◌++◌, leb,
  ltb, ◌==◌, if◌then◌else◌, take, drop, length,
}
use white_board_server.Containers.Ord.{Bytes}
use white_board_server.Decimal.{is_digit, digits_value}

-- The test of the first loop: a byte is a signed char, so one from 128 on is negative.
unfoldable pub all_digits : Bytes → Bool
all_digits [] = true
all_digits (v ∷ rest) = is_digit v && all_digits rest

-- The number of the digits before the last, and the last one.
decode_parts : ℕ → Bytes → Option ℕ
decode_parts a [] = none
decode_parts a (v ∷ rest) =
    if not (v - 48 == a % 7) then some 0 else some ((a + (2 ^ 32 - 32606170)) % 2 ^ 32)

-- DecodingInviteCode for a code that is not empty.
decode_code : Bytes → Option ℕ
unfolding all_digits decode_parts
decode_code code =
    let a = digits_value 0 (take (length code - 1) code) in
    if not (all_digits code)
    then some 0
    else if ltb a (2 ^ 31)
    then decode_parts a (drop (length code - 1) code)
    else none

-- DecodingInviteCode: `none` is the exception of substr on an empty code, or a number that does not
-- fit in an int, for which atoi is undefined.
pub decoding_invite_code : Bytes → Option ℕ
unfolding decode_code
decoding_invite_code [] = none
decoding_invite_code (v ∷ rest) = decode_code (v ∷ rest)
