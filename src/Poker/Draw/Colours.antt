-- ===== src/Poker/Draw/Colours.antt =====
-- The colours of a value that are free in a hand.
use white_board_server.Prelude.{
  ℕ, ◌+◌, ◌*◌, ◌%◌, ◌≡◌, ◌≤◌, ◌<◌, refl, false, some, List, [], ◌∷◌, ◌++◌, ◌==◌, arith,
  if◌then◌else◌, zero, suc, Bool-cases, inl, inr, length, sym, subst,
}
use white_board_server.Poker.Card.{OnePoker}
use white_board_server.Poker.Draw.{clashes, confuse_loop}

-- How many cards have a value.
abbrev pub same_value : ℕ → List OnePoker → ℕ
same_value v [] = 0
same_value v (p ∷ rest) = (if p.poker_value == v then 1 else 0) + same_value v rest

abbrev coloured : ℕ → ℕ → OnePoker
coloured v c = record { poker_value = v; poker_color = c }

abbrev taken : ℕ → ℕ → List OnePoker → ℕ
taken v c cards = if clashes (coloured v c) cards then 1 else 0

taken-le-same_value :
    (v : ℕ) (cards : List OnePoker)
    → taken v 1 cards + taken v 2 cards + taken v 3 cards + taken v 4 cards ≤ same_value v cards
unfolding clashes
taken-le-same_value v [] = omega arith
taken-le-same_value v (q ∷ rest) = ground (arith, taken-le-same_value v rest)

pub free_colour :
    (v : ℕ) (cards : List OnePoker)
    → same_value v cards < 4
    → (c : ℕ) × (c < 4) × (clashes (coloured v (c + 1)) cards ≡ false)
free_colour v cards h = elim (Bool-cases (clashes (coloured v 1) cards)) [
  | inr e ↦ (0, omega arith, e)
  | inl e1 ↦ elim (Bool-cases (clashes (coloured v 2) cards)) [
    | inr e ↦ (1, omega arith, e)
    | inl e2 ↦ elim (Bool-cases (clashes (coloured v 3) cards)) [
      | inr e ↦ (2, omega arith, e)
      | inl e3 ↦ (3, omega arith, ground (arith, e1, e2, e3, h, taken-le-same_value v cards))
    ]
  ]
]

pub same_value-append :
    (v : ℕ) (l l' : List OnePoker) → same_value v (l ++ l') ≡ same_value v l + same_value v l'
same_value-append v [] l' = omega arith
same_value-append v (p ∷ l) l' = ground (arith, same_value-append v l l')

-- Of each four colours one is drawn at least once in any `gap` calls in a row.
unfoldable pub IsFair : ℕ → (ℕ → ℕ) → Type 0
IsFair gap rand = (k c : ℕ) → c < 4 → (j : ℕ) × (j < gap) × (rand (k + j) % 4 ≡ c)

add-zero : (k : ℕ) → k + 0 ≡ k
add-zero k = omega arith

add-suc : (k j : ℕ) → k + suc j ≡ k + 1 + j
add-suc k j = omega arith

-- Moving a card to the cards before it, in another colour, keeps how many have a value.
moved :
    (w : ℕ) (q p : OnePoker) (before rest : List OnePoker)
    → q.poker_value ≡ p.poker_value
    → same_value w before + same_value w (p ∷ rest) ≤ 4
    → same_value w (before ++ q ∷ []) + same_value w rest ≤ 4
moved w q p before rest same h = ground (arith, same, h, same_value-append w before (q ∷ []))

-- The loop advances to the next place when a free colour comes, which is `j` calls away.
advances :
    (rand : ℕ → ℕ) (j k bound fuel : ℕ) (before rest : List OnePoker) (p : OnePoker)
    → clashes (coloured p.poker_value (rand (k + j) % 4 + 1)) before ≡ false
    → ((q : OnePoker) (k' fuel' : ℕ)
        → q.poker_value ≡ p.poker_value
        → bound ≤ fuel'
        → (r : List OnePoker × ℕ) × (confuse_loop rand fuel' k' (before ++ q ∷ []) rest ≡ some r))
    → bound + j < fuel
    → (r : List OnePoker × ℕ) × (confuse_loop rand fuel k before (p ∷ rest) ≡ some r)
unfolding confuse_loop
advances rand j k bound zero before rest p free later h = absurd (omega (arith, h))
advances rand zero k bound (suc fuel) before rest p free later h =
    let card : OnePoker = record p { poker_color = rand k % 4 + 1 } in
    let now : clashes card before ≡ false =
      subst (λ i. clashes (coloured p.poker_value (rand i % 4 + 1)) before ≡ false) (add-zero k)
        free in
    let (r, f) = later card (k + 1) fuel refl (omega (arith, h)) in (r, ground (arith, now, f))
advances rand (suc j) k bound (suc fuel) before rest p free later h =
    let card : OnePoker = record p { poker_color = rand k % 4 + 1 } in
    elim (Bool-cases (clashes card before)) [
      | inr e ↦
          let (r, f) = later card (k + 1) fuel refl (omega (arith, h)) in (r, ground (arith, e, f))
      | inl e ↦
          let (r, f) =
            advances rand j (k + 1) bound fuel before rest card
              (subst (λ i. clashes (coloured p.poker_value (rand i % 4 + 1)) before ≡ false)
                (add-suc k j) free)
              later (omega (arith, h)) in
          (r, ground (arith, e, f))
    ]

-- Draws in which each colour comes in any `gap` calls in a row let the loop end within that many
-- calls for each card, if no value is there more than four times.
pub confuse_loop-ends :
    (rand : ℕ → ℕ) (gap k fuel : ℕ) (before rest : List OnePoker)
    → IsFair gap rand
    → ((v : ℕ) → same_value v before + same_value v rest ≤ 4)
    → length rest * gap ≤ fuel
    → (r : List OnePoker × ℕ) × (confuse_loop rand fuel k before rest ≡ some r)
unfolding confuse_loop IsFair
confuse_loop-ends rand gap k fuel before [] fair few h = ((before, k), refl)
confuse_loop-ends rand gap k fuel before (p ∷ rest) fair few h =
    let v = p.poker_value in
    let (c, small, free) = free_colour v before (ground (arith, few v)) in
    let (j, soon, drawn) = fair k c small in
    advances rand j k (length rest * gap) fuel before rest p
      (subst (λ i. clashes (coloured v (i + 1)) before ≡ false) (sym drawn) free)
      (λ q k' fuel' same enough.
        confuse_loop-ends rand gap k' fuel' (before ++ q ∷ []) rest fair
          (λ w. moved w q p before rest same (few w)) enough)
      (omega (arith, h, soon))
