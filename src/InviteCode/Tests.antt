-- ===== src/InviteCode/Tests.antt =====
-- The code of the account 70001, which is "326761711".
use white_board_server.Prelude.{
  ◌≡◌, some, [], ◌∷◌, ◌++◌, ◌==◌, ◌+◌, ◌-◌, ◌%◌, ◌^◌, if◌then◌else◌, arith,
}
use white_board_server.Decimal.{digits}
use white_board_server.InviteCode.{decoding_invite_code}
use white_board_server.InviteCode.Decoding.{decoding_invite_code-checks}

decoding_invite_code-checks_example :
    decoding_invite_code (digits 32676171 32676171 [] ++ (48 + 1) ∷ [])
    ≡ some (if 1 == 32676171 % 7 then (32676171 + (2 ^ 32 - 32606170)) % 2 ^ 32 else 0)
decoding_invite_code-checks_example =
    decoding_invite_code-checks 32676171 1 (omega arith) (omega arith)
