-- ===== src/Poker/Deck/Shuffling/Reaching.antt =====
-- Which orders of the cards shuffle can make.
use native.Mathlib.Nat.{mod-eq_of_lt}
use mathlib.Core.List.{Permᴰ}
use white_board_server.Prelude.{
  ℕ, ◌+◌, ◌%◌, ◌≡◌, ◌<◌, ◌≤◌, refl, some, List, [], ◌∷◌, length, zero, suc, arith, ◌==◌, ◌&&◌,
  Bool-cases, inl, inr, ap, ◌∙◌,
}
use white_board_server.Poker.Card.{OnePoker}
use white_board_server.Poker.Deck.{Deck, exchange, draw, shuffle_from, shuffle_times, shuffle}
use white_board_server.Poker.Deck.Complete.{occurrences}
use white_board_server.Poker.Deck.Shuffling.{shuffle-Permᴰ}

-- Two lists hold each card equally often.
abbrev pub SameCards : List OnePoker → List OnePoker → Type 0
SameCards xs ys = (p : OnePoker) → occurrences p xs ≡ occurrences p ys

-- A card that is among the others can be put first by an exchange.
exchange-brings :
    (c y : OnePoker) (cards : List OnePoker)
    → 0 < occurrences y cards
    → (i : ℕ) × (cards' : List OnePoker) × (i < length cards)
      × (exchange c cards i ≡ some (y, cards'))
      × SameCards (y ∷ cards') (c ∷ cards)
      × (length cards' ≡ length cards)
unfolding exchange
exchange-brings c y [] h = absurd (omega (arith, h))
exchange-brings c y (q ∷ rest) h =
    elim (Bool-cases ((q.poker_value == y.poker_value) && (q.poker_color == y.poker_color))) [
      | inl this ↦
          let e : q ≡ y = ground (arith, this) in
          (0, c ∷ rest, omega arith, ground (arith, e), λ p. ground (arith, e), refl)
      | inr other ↦
          let (i, rest', inside, e, same, len) =
            exchange-brings c y rest (ground (arith, h, other)) in
          (
            suc i,
            q ∷ rest',
            omega (arith, inside),
            ground (arith, e),
            λ p. omega (arith, same p),
            ground (arith, len),
          )
    ]

draw-brings :
    (c y : OnePoker) (cards : List OnePoker)
    → 0 < occurrences y (c ∷ cards)
    → (i : ℕ) × (cards' : List OnePoker) × (i ≤ length cards)
      × (draw c cards i ≡ some (y, cards'))
      × SameCards (y ∷ cards') (c ∷ cards)
      × (length cards' ≡ length cards)
unfolding draw
draw-brings c y cards h =
    elim (Bool-cases ((c.poker_value == y.poker_value) && (c.poker_color == y.poker_color))) [
      | inl this ↦
          let e : c ≡ y = ground (arith, this) in
          (0, cards, omega arith, ground (arith, e), λ p. ground (arith, e), refl)
      | inr other ↦
          let (i, rest', inside, e, same, len) =
            exchange-brings c y cards (ground (arith, h, other)) in
          (suc i, rest', omega (arith, inside), e, same, len)
    ]

-- The results of rand() in their order, and 0 after them.
abbrev pub results : List ℕ → ℕ → ℕ
results [] k = 0
results (i ∷ is) zero = i
results (i ∷ is) (suc k) = results is k

occurs_first : (p : OnePoker) (rest : List OnePoker) → 0 < occurrences p (p ∷ rest)
occurs_first p rest = ground arith

shuffle_from-reaches :
    (n : ℕ) (cards wanted : List OnePoker)
    → length cards ≡ n
    → SameCards wanted cards
    → (is : List ℕ) × ((rand : ℕ → ℕ) (k : ℕ)
        → ((j : ℕ) → rand (k + j) ≡ results is j)
        → shuffle_from rand k n cards ≡ some wanted)
unfolding shuffle_from
shuffle_from-reaches zero [] [] len same = ([], λ rand k given. refl)
shuffle_from-reaches zero [] (y ∷ wanted) len same =
    absurd (omega (arith, same y, occurs_first y wanted))
shuffle_from-reaches zero (c ∷ rest) wanted len same = absurd (omega (arith, len))
shuffle_from-reaches (suc n) [] wanted len same = absurd (omega (arith, len))
shuffle_from-reaches (suc n) (c ∷ rest) [] len same =
    absurd (omega (arith, same c, occurs_first c rest))
shuffle_from-reaches (suc n) (c ∷ rest) (y ∷ wanted) len same =
    let (i, rest', inside, e, kept, len') =
      draw-brings c y rest (omega (arith, same y, occurs_first y wanted)) in
    let (is, later) =
      shuffle_from-reaches n rest' wanted (omega (arith, len, len'))
        (λ p. omega (arith, same p, kept p)) in
    let below : i % suc n ≡ i = mod-eq_of_lt (omega (arith, inside, len)) in
    (
      i ∷ is,
      λ rand k given.
          let here : k ≡ k + 0 = omega arith in
          let at_k : rand k ≡ i = ap rand here ∙ given 0 in
          let first : rand k % suc n ≡ i = ap (λ m. m % suc n) at_k ∙ below in
          ground (arith, first, e, later rand (suc k) (λ j. ap rand (omega arith) ∙ given (suc j))),
    )

-- However often a deck is shuffled and whatever rand() returns, no card outside the array is
-- touched, the deck holds the same cards, each as often as before, and dealing starts anew; and for
-- each list of these cards, each as often, there are results of rand() with which shuffling the deck
-- once puts them in the order of the list.
pub shuffle-orders :
    (rand : ℕ → ℕ) (times : ℕ) (d : Deck) (wanted : List OnePoker)
    → SameCards wanted d.cards
    → ((cards : List OnePoker) × (shuffle rand times d
          ≡ some (record d { cards = cards; deal_position = 0 }))
        × Permᴰ cards d.cards)
      × ((is : List ℕ) × (shuffle (results is) 1 d
            ≡ some (record d { cards = wanted; deal_position = 0 })))
unfolding shuffle shuffle_times
shuffle-orders rand times d wanted same =
    let (is, reached) = shuffle_from-reaches (length d.cards) d.cards wanted refl same in
    (
      shuffle-Permᴰ rand times d,
      (is, ground (arith, reached (results is) 0 (λ j. ap (results is) (omega arith)))),
    )
