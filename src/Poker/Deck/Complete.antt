-- ===== src/Poker/Deck/Complete.antt =====
-- The cards of the deck that initPoker lays out.
use native.Mathlib.Nat.{
  mod-lt, mod-eq_of_lt, div-eq_of_lt, div-add-mod', mul-add-div_right, mul-add-mod_self_right,
  mul-le-mul_right,
}
use white_board_server.Prelude.{
  ℕ, ◌+◌, ◌-◌, ◌*◌, ◌/◌, ◌%◌, ◌≡◌, ◌≤◌, ◌<◌, Bool, true, false, ◌&&◌, some, List, [], ◌∷◌, ltb, leb,
  ◌==◌, arith, if◌then◌else◌, zero, suc, Bool-cases, inl, inr, ◌∙◌, ap,
}
use white_board_server.Poker.Card.{OnePoker}
use white_board_server.Poker.Deck.{Deck, card_at, fill, init_poker}

-- How often a card is among others.
abbrev pub occurrences : OnePoker → List OnePoker → ℕ
occurrences p [] = 0
occurrences p (q ∷ rest) =
    (if (q.poker_value == p.poker_value) && (q.poker_color == p.poker_color) then 1 else 0)
    + occurrences p rest

module _ (min count : ℕ) (some_values : 0 < count) (p : OnePoker) where
  -- The round in which a card is laid out.
  place : ℕ
  place = (p.poker_color - 1) * count + (p.poker_value - min)

  in_range : Bool
  in_range = leb 1 p.poker_color && leb min p.poker_value && ltb p.poker_value (min + count)

  place-of_card :
      (i : ℕ)
      → i % count + min ≡ p.poker_value
      → i / count + 1 ≡ p.poker_color
      → (in_range ≡ true) × (place ≡ i)
  unfolding in_range place
  place-of_card i v k =
      let small = mod-lt i some_values in
      let value : p.poker_value - min ≡ i % count = omega (arith, v) in
      let color : p.poker_color - 1 ≡ i / count = omega (arith, k) in
      (ground (arith, v, k, small), rw (value, color) (div-add-mod' i count))

  card-of_place :
      in_range ≡ true → (place % count + min ≡ p.poker_value) × (place / count + 1 ≡ p.poker_color)
  unfolding in_range place
  card-of_place h =
      let low : p.poker_value - min < count = ground (arith, h) in
      let q = p.poker_color - 1 in
      let r = p.poker_value - min in
      let rest : (q * count + r) % count ≡ r =
        mul-add-mod_self_right q count r ∙ mod-eq_of_lt low in
      let quot : (q * count + r) / count ≡ q =
        mul-add-div_right some_values q r ∙ (ap (λ d. q + d) (div-eq_of_lt low) ∙ omega arith) in
      (ground (arith, h, rest), ground (arith, h, quot))

  is_card : ℕ → Bool
  is_card i =
      ((card_at min count i).poker_value == p.poker_value)
      && ((card_at min count i).poker_color == p.poker_color)

  is_card-place : (i : ℕ) → is_card i ≡ (in_range && (i == place))
  unfolding is_card card_at
  is_card-place i = elim (Bool-cases (is_card i)) [
    | inl same ↦
        let (inn, here) = place-of_card i (ground (arith, same)) (ground (arith, same)) in
        ground (arith, same, inn, here)
    | inr other ↦ elim (Bool-cases (in_range && (i == place))) [
      | inr out ↦ ground (arith, other, out)
      | inl at_place ↦ absurd (not_card (ground (arith, at_place)) (ground (arith, at_place)) other)
    ]
  ]
    where
      not_card : in_range ≡ true → i ≡ place → is_card i ≡ false → ⊥
      not_card inn e other =
          let (v, k) = card-of_place inn in
          ground (arith, other, ap (λ j. j % count + min) e ∙ v, ap (λ j. j / count + 1) e ∙ k)

  fill-occurrences :
      (i n : ℕ)
      → occurrences p (fill min count i n)
        ≡ (if in_range && leb i place && ltb place (i + n) then 1 else 0)
  unfolding fill is_card
  fill-occurrences i zero = ground arith
  fill-occurrences i (suc n) = ground (arith, is_card-place i, fill-occurrences (suc i) n)

  -- The places of the four colours are below four times the number of values.
  place-color : in_range ≡ true → ltb place (4 * count) ≡ leb p.poker_color 4
  unfolding in_range place
  place-color h =
      let low : p.poker_value - min < count = ground (arith, h) in
      elim (Bool-cases (leb p.poker_color 4)) [
        | inl small ↦
            let below : (p.poker_color - 1) * count ≤ 3 * count =
              mul-le-mul_right count (ground (arith, small)) in
            ground (arith, small, low, below)
        | inr large ↦
            let above : 4 * count ≤ (p.poker_color - 1) * count =
              mul-le-mul_right count (ground (arith, large)) in
            ground (arith, large, above)
      ]

-- A deck that initPoker lays out has each card of colour 1 to 4 and of a value in its range once,
-- and no other card.
pub init_poker-occurrences :
    (min max : ℕ) (d : Deck) (p : OnePoker)
    → init_poker min max ≡ some d
    → occurrences p d.cards ≡ (
        if leb 1 p.poker_color
          && leb p.poker_color 4
          && leb min p.poker_value
          && leb p.poker_value max
        then 1
        else 0)
unfolding init_poker in_range
init_poker-occurrences min max d p h =
    let count = max + 1 - min in
    let ordered : min ≤ max = ground (arith, h) in
    let positive : 0 < count = omega (arith, ordered) in
    let span : min + count ≡ max + 1 = omega (arith, ordered) in
    let cards : d.cards ≡ fill min count 0 (4 * count) = ground (arith, h) in
    let counted = fill-occurrences min count positive p 0 (4 * count) in
    let four = place-color min count positive p in ground (arith, cards, counted, four, span)
