-- ===== src/Decimal.antt =====
-- Numbers as texts: what printf makes of %d and %ld, and atoi.
use white_board_server.Prelude.{
  ℕ, ◌+◌, ◌*◌, ◌-◌, ◌/◌, ◌%◌, ◌≡◌, ◌≤◌, ◌<◌, ◌∙◌, ap, Bool, true, ◌&&◌, ◌||◌, [], ◌∷◌, ltb, leb,
  ◌==◌, if◌then◌else◌, zero, suc, All, arith, Bool-cases, inl, inr,
}
use white_board_server.Prelude.Int.{ℤ, pos, negsuc}
use white_board_server.Containers.Ord.{Bytes}

-- The digits of a number before some bytes; there are no more digits than the number says.
unfoldable pub digits : ℕ → ℕ → Bytes → Bytes
digits zero n rest = (48 + n % 10) ∷ rest
digits (suc fuel) n rest =
    let more = digits fuel (n / 10) ((48 + n % 10) ∷ rest) in
    if ltb n 10 then (48 + n) ∷ rest else more

-- What printf makes of %d and %ld.
unfoldable pub print_int : ℤ → Bytes
unfolding digits
print_int (pos n) = digits n n []
print_int (negsuc n) = 45 ∷ digits (n + 1) (n + 1) []

abbrev pub is_digit : ℕ → Bool
is_digit b = leb 48 b && leb b 57

-- The number of the digits at the beginning of a text.
unfoldable pub digits_value : ℕ → Bytes → ℕ
digits_value n [] = n
digits_value n (b ∷ s) =
    let more = digits_value (n * 10 + (b - 48)) s in if is_digit b then more else n

minus : ℕ → ℤ
minus n = if n == 0 then pos 0 else negsuc (n - 1)

signed_value : Bytes → ℤ
unfolding digits_value minus
signed_value [] = pos 0
signed_value (b ∷ s) =
    if b == 45
    then minus (digits_value 0 s)
    else if b == 43
    then pos (digits_value 0 s)
    else pos (digits_value 0 (b ∷ s))

-- atoi; a number that does not fit in an int, for which it is undefined, is itself here.
pub atoi : Bytes → ℤ
unfolding signed_value
atoi [] = pos 0
atoi (b ∷ s) =
    let later = atoi s in if (b == 32) || leb 9 b && leb b 13 then later else signed_value (b ∷ s)

digit_step :
    (m d : ℕ) (rest : Bytes)
    → d < 10
    → digits_value m ((48 + d) ∷ rest) ≡ digits_value (m * 10 + d) rest
unfolding digits_value
digit_step m d rest h =
    let value : m * 10 + (48 + d - 48) ≡ m * 10 + d = omega arith in
    let here : is_digit (48 + d) ≡ true = ground (arith, h) in
    rw here (ap (λ k. digits_value k rest) value)

digit_joined :
    (m d n : ℕ) (rest : Bytes)
    → d < 10
    → m * 10 + d ≡ n
    → digits_value m ((48 + d) ∷ rest) ≡ digits_value n rest
digit_joined m d n rest h e = digit_step m d rest h ∙ ap (λ k. digits_value k rest) e

-- The digits of a number read back as the number.
pub digits_value-digits :
    (fuel n : ℕ) (rest : Bytes)
    → n ≤ fuel
    → digits_value 0 (digits fuel n rest) ≡ digits_value n rest
unfolding digits digits_value
digits_value-digits zero n rest h = digit_joined 0 (n % 10) n rest (omega arith) (omega (arith, h))
digits_value-digits (suc fuel) n rest h = elim (Bool-cases (ltb n 10)) [
  | inl small ↦ rw small (digit_joined 0 n n rest (ground (arith, small)) (omega arith))
  | inr large ↦ rw large (
      digits_value-digits fuel (n / 10) ((48 + n % 10) ∷ rest) (ground (arith, large, h))
      ∙ digit_joined (n / 10) (n % 10) n rest (omega arith) (omega arith))
]

pub digits-are_digits :
    (fuel n : ℕ) (rest : Bytes)
    → All (λ b. is_digit b ≡ true) rest
    → All (λ b. is_digit b ≡ true) (digits fuel n rest)
unfolding digits
digits-are_digits zero n rest h = (ground arith, h)
digits-are_digits (suc fuel) n rest h =
    ground (arith, digits-are_digits fuel (n / 10) ((48 + n % 10) ∷ rest))
