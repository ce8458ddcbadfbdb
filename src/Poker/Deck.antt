-- ===== src/Poker/Deck.antt =====
-- A deck: DNOneDeckPoker's cards and position (dn_poker.h, dn_poker.cpp). `rand` gives the results
-- of the calls of rand() in their order.
pub mod Filling
pub mod Shuffling
pub mod Dealing
pub mod Complete
use white_board_server.Prelude.{
  ℕ, ◌+◌, ◌-◌, ◌*◌, ◌/◌, ◌%◌, Bool, true, false, not, ◌||◌, ◌&&◌, Option, none, some, List, [], ◌∷◌,
  ltb, leb, ◌==◌, if◌then◌else◌, length, drop, take, ◌++◌, zero, suc,
}
use white_board_server.Poker.Card.{OnePoker, same_poker}

-- `cards` is dn_Poker_ up to poker_num_; nothing reads the array beyond it.
pub record Deck : Type 0 where
  pub cards : List OnePoker
  pub deal_position : ℕ
  pub poker_min_value : ℕ
  pub poker_max_value : ℕ

abbrev pub color_count : ℕ
color_count = 4

-- getPokerNum
abbrev pub get_poker_num : Deck → ℕ
get_poker_num d = length d.cards

-- The card of round `i` of the loops that fill a deck.
unfoldable pub card_at : ℕ → ℕ → ℕ → OnePoker
card_at min count i = record { poker_value = i % count + min; poker_color = i / count + 1 }

-- The rounds from `i` on, of which `n` are left.
unfoldable pub fill : ℕ → ℕ → ℕ → ℕ → List OnePoker
unfolding card_at
fill min count i zero = []
fill min count i (suc n) = card_at min count i ∷ fill min count (suc i) n

-- dn_Poker_ has room for 13 values of 4 colours.
abbrev pub max_values : ℕ
max_values = 13

-- initPoker; `none` where the assertion fails or the cards do not fit into the array.
unfoldable pub init_poker : ℕ → ℕ → Option Deck
unfolding fill
init_poker min max =
    let count = max + 1 - min in
    if leb min max && leb count max_values
    then some (record {
      cards = fill min count 0 (color_count * count);
      deal_position = 0;
      poker_min_value = min;
      poker_max_value = max;
    })
    else none

pub is_in : OnePoker → List OnePoker → Bool
is_in p [] = false
is_in p (q ∷ group) = same_poker p q || is_in p group

-- The loop of initPokerExceptGroup: the position advances past a card that is not in the group.
fill_except : ℕ → ℕ → List OnePoker → ℕ → ℕ → List OnePoker
unfolding card_at is_in
fill_except min count group i zero = []
fill_except min count group i (suc n) =
    let rest = fill_except min count group (suc i) n in
    let p = card_at min count i in if is_in p group then rest else p ∷ rest

pub init_poker_except_group : ℕ → ℕ → List OnePoker → Option Deck
unfolding fill_except
init_poker_except_group min max group =
    let count = max + 1 - min in
    if leb min max && leb count max_values
    then some (record {
      cards = fill_except min count group 0 (color_count * count);
      deal_position = 0;
      poker_min_value = min;
      poker_max_value = max;
    })
    else none

-- The card at a place, and the list with another card there: `none` is a place outside the array.
exchange : OnePoker → List OnePoker → ℕ → Option (OnePoker × List OnePoker)
exchange c [] i = none
exchange c (q ∷ rest) zero = some (q, c ∷ rest)
exchange c (q ∷ rest) (suc i) = elim (exchange c rest i) [
  | none ↦ none
  | some (x, rest') ↦ some (x, q ∷ rest')
]

-- One round swaps the first of the cards that are left with one of them.
draw : OnePoker → List OnePoker → ℕ → Option (OnePoker × List OnePoker)
unfolding exchange
draw c rest zero = some (c, rest)
draw c rest (suc i) = exchange c rest i

-- The inner loop of shuffle over the last `n` cards, from the call `k` of rand() on.
shuffle_from : (ℕ → ℕ) → ℕ → ℕ → List OnePoker → Option (List OnePoker)
unfolding draw
shuffle_from rand k zero cards = some cards
shuffle_from rand k (suc n) [] = none
shuffle_from rand k (suc n) (c ∷ rest) = elim (draw c rest (rand k % suc n)) [
  | none ↦ none
  | some (x, rest') ↦ elim (shuffle_from rand (suc k) n rest') [
    | none ↦ none
    | some shuffled ↦ some (x ∷ shuffled)
  ]
]

shuffle_times : (ℕ → ℕ) → ℕ → ℕ → List OnePoker → Option (List OnePoker)
unfolding shuffle_from
shuffle_times rand k zero cards = some cards
shuffle_times rand k (suc times) cards = elim (shuffle_from rand k (length cards) cards) [
  | none ↦ none
  | some shuffled ↦ shuffle_times rand (k + length cards) times shuffled
]

-- shuffle: `none` is an access outside the array of cards.
pub shuffle : (ℕ → ℕ) → ℕ → Deck → Option Deck
unfolding shuffle_times
shuffle rand times d = elim (shuffle_times rand 0 times d.cards) [
  | none ↦ none
  | some shuffled ↦ some (record d { cards = shuffled; deal_position = 0 })
]

-- dealPoker: the five cards, or `none` and no change where it returns false. The source's
-- difference is signed, so the test is written with a sum.
pub deal_poker : Deck → Option (List OnePoker) × Deck
deal_poker d =
    if leb (d.deal_position + 5) (get_poker_num d)
    then (
      some (take 5 (drop d.deal_position d.cards)),
      record d { deal_position = d.deal_position + 5 },
    )
    else (none, d)

-- dealPokers: it returns true whatever dealPoker returned, and a player who was dealt nothing keeps
-- the cards that he had, here `none`.
pub deal_pokers : ℕ → Deck → List (Option (List OnePoker)) × Deck
unfolding deal_poker
deal_pokers zero d = ([], d)
deal_pokers (suc players) d =
    let (hand, d') = deal_poker d in
    let (hands, d'') = deal_pokers players d' in (hand ∷ hands, d'')
