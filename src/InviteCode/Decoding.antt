-- ===== src/InviteCode/Decoding.antt =====
-- What DecodingInviteCode makes of a code of digits.
use white_board_server.Prelude.{
  ℕ, ◌+◌, ◌-◌, ◌%◌, ◌^◌, ◌≡◌, ◌<◌, refl, ◌∙◌, true, some, [], ◌∷◌, ◌++◌, ◌==◌, if◌then◌else◌,
  length, All, arith, take-length_append, drop-length_append, length-append,
}
use white_board_server.Containers.Ord.{Bytes}
use white_board_server.Decimal.{
  is_digit, digits, digits_value, digits_value-digits, digits-are_digits,
}
use white_board_server.InviteCode.{all_digits, decode_parts, decode_code, decoding_invite_code}

last_value : (n : ℕ) → digits_value n [] ≡ n
unfolding digits_value
last_value n = refl

all_digits-snoc :
    (l : Bytes) (v : ℕ)
    → All (λ b. is_digit b ≡ true) l
    → is_digit v ≡ true
    → all_digits (l ++ v ∷ []) ≡ true
unfolding all_digits
all_digits-snoc [] v h d = ground (arith, d)
all_digits-snoc (b ∷ l) v h d = ground (arith, h.0, all_digits-snoc l v h.1 d)

decoding-decode :
    (l : Bytes) (v : ℕ) → decoding_invite_code (l ++ v ∷ []) ≡ decode_code (l ++ v ∷ [])
unfolding decoding_invite_code
decoding-decode [] v = refl
decoding-decode (b ∷ l) v = refl

-- A code of digits and a last one is decoded by the number of the digits and the last one.
decode_code-snoc :
    (l : Bytes) (v : ℕ)
    → All (λ b. is_digit b ≡ true) l
    → is_digit v ≡ true
    → digits_value 0 l < 2 ^ 31
    → decode_code (l ++ v ∷ []) ≡ decode_parts (digits_value 0 l) (v ∷ [])
unfolding decode_code
decode_code-snoc l v h d fits =
    let len : length (l ++ v ∷ []) - 1 ≡ length l = omega (arith, length-append l (v ∷ [])) in
    rw (all_digits-snoc l v h d, len, take-length_append l (v ∷ []), drop-length_append l (v ∷ []))
      (ground (arith, fits))

-- A code that consists of the decimal digits of a number that fits in an int and one more digit is
-- decoded to the number less 32606170, modulo 2^32, if that digit is the number's remainder by 7, and
-- to 0 otherwise.
pub decoding_invite_code-checks :
    (number check : ℕ)
    → number < 2 ^ 31
    → check < 10
    → decoding_invite_code (digits number number [] ++ (48 + check) ∷ [])
      ≡ some (if check == number % 7 then (number + (2 ^ 32 - 32606170)) % 2 ^ 32 else 0)
unfolding decode_parts
decoding_invite_code-checks number check small one_digit =
    let value : digits_value 0 (digits number number []) ≡ number =
      digits_value-digits number number [] (omega arith) ∙ last_value number in
    decoding-decode (digits number number []) (48 + check)
    ∙ decode_code-snoc (digits number number []) (48 + check)
        (digits-are_digits number number [] tt) (ground (arith, one_digit))
        (omega (arith, value, small))
    ∙ ground (arith, value, small, one_digit)
