-- ===== src/Poker/Deck/Shuffling.antt =====
-- What shuffle can make of a deck.
pub mod Reaching
use mathlib.Core.List.{Permᴰ}
use mathlib.Core.List.Permᴰ
use white_board_server.Prelude.{
  ℕ, ◌+◌, ◌%◌, ◌≡◌, ◌<◌, ◌≤◌, refl, some, none, List, [], ◌∷◌, length, zero, suc, arith, sym, subst,
}
use white_board_server.Poker.Card.{OnePoker}
use white_board_server.Poker.Deck.{Deck, exchange, draw, shuffle_from, shuffle_times, shuffle}

-- A place inside the array is exchanged.
exchange-Permᴰ :
    (c : OnePoker) (cards : List OnePoker) (i : ℕ)
    → i < length cards
    → (x : OnePoker) × (cards' : List OnePoker) × (exchange c cards i ≡ some (x, cards'))
      × Permᴰ (x ∷ cards') (c ∷ cards)
      × (length cards' ≡ length cards)
unfolding exchange
exchange-Permᴰ c [] i inside = absurd (omega (arith, inside))
exchange-Permᴰ c (q ∷ rest) zero inside = (q, c ∷ rest, refl, Permᴰ.swap refl refl, refl)
exchange-Permᴰ c (q ∷ rest) (suc i) inside =
    let (x, rest', e, same, len) = exchange-Permᴰ c rest i (omega (arith, inside)) in
    (
      x,
      q ∷ rest',
      ground (arith, e),
      Permᴰ.trans (Permᴰ.swap refl refl)
          (Permᴰ.trans (Permᴰ.cons refl same) (Permᴰ.swap refl refl)),
      ground (arith, len),
    )

draw-Permᴰ :
    (c : OnePoker) (cards : List OnePoker) (i : ℕ)
    → i ≤ length cards
    → (x : OnePoker) × (cards' : List OnePoker) × (draw c cards i ≡ some (x, cards'))
      × Permᴰ (x ∷ cards') (c ∷ cards)
      × (length cards' ≡ length cards)
unfolding draw
draw-Permᴰ c cards zero inside = (c, cards, refl, Permᴰ.refl (c ∷ cards), refl)
draw-Permᴰ c cards (suc i) inside = exchange-Permᴰ c cards i (omega (arith, inside))

shuffle_from-Permᴰ :
    (rand : ℕ → ℕ) (k n : ℕ) (cards : List OnePoker)
    → length cards ≡ n
    → (cards' : List OnePoker) × (shuffle_from rand k n cards ≡ some cards')
      × Permᴰ cards' cards
      × (length cards' ≡ n)
unfolding shuffle_from
shuffle_from-Permᴰ rand k zero cards len = (cards, refl, Permᴰ.refl cards, len)
shuffle_from-Permᴰ rand k (suc n) [] len = absurd (omega (arith, len))
shuffle_from-Permᴰ rand k (suc n) (c ∷ rest) len =
    let (x, rest', e, same, len1) = draw-Permᴰ c rest (rand k % suc n) (omega (arith, len)) in
    let (out, f, same', len2) =
      shuffle_from-Permᴰ rand (suc k) n rest' (omega (arith, len, len1)) in
    (x ∷ out, ground (arith, e, f), Permᴰ.trans (Permᴰ.cons refl same') same, ground (arith, len2))

shuffle_times-Permᴰ :
    (rand : ℕ → ℕ) (k times : ℕ) (cards : List OnePoker)
    → (cards' : List OnePoker) × (shuffle_times rand k times cards ≡ some cards')
      × Permᴰ cards' cards
unfolding shuffle_times
shuffle_times-Permᴰ rand k zero cards = (cards, refl, Permᴰ.refl cards)
shuffle_times-Permᴰ rand k (suc times) cards =
    let (once, e, same, len) = shuffle_from-Permᴰ rand k (length cards) cards refl in
    let (out, f, same') = shuffle_times-Permᴰ rand (k + length cards) times once in
    (out, ground (arith, e, f), Permᴰ.trans same' same)

-- Shuffling touches no card outside the array, keeps the cards and starts dealing anew.
pub shuffle-Permᴰ :
    (rand : ℕ → ℕ) (times : ℕ) (d : Deck)
    → (cards : List OnePoker) × (shuffle rand times d
        ≡ some (record d { cards = cards; deal_position = 0 }))
      × Permᴰ cards d.cards
unfolding shuffle
shuffle-Permᴰ rand times d =
    let (cards, e, same) = shuffle_times-Permᴰ rand 0 times d.cards in
    (cards, ground (arith, e), same)
