-- ===== src/Poker/Deck/Filling.antt =====
-- The decks that initPoker and initPokerExceptGroup lay out.
use white_board_server.Prelude.{
  ℕ, ◌+◌, ◌-◌, ◌*◌, ◌≡◌, ◌≤◌, refl, true, false, ◌&&◌, not, some, List, [], ◌∷◌, zero, suc, leb,
  ◌==◌, arith, if◌then◌else◌,
}
use white_board_server.Poker.Card.{OnePoker, same_poker, is_null_poker}
use white_board_server.Poker.Deck.{
  Deck, fill, is_in, fill_except, card_at, init_poker, init_poker_except_group, color_count,
}
use white_board_server.Poker.Deck.Complete.{occurrences, init_poker-occurrences}

-- The cards of a list that do not occur in a group.
abbrev pub outside : List OnePoker → List OnePoker → List OnePoker
outside group [] = []
outside group (p ∷ rest) =
    let kept = outside group rest in if occurrences p group == 0 then p ∷ kept else kept

-- A card that is not null is found in a group exactly if it occurs there.
is_in-occurrences :
    (p : OnePoker) (group : List OnePoker)
    → is_null_poker p ≡ false
    → is_in p group ≡ not (occurrences p group == 0)
unfolding is_in same_poker
is_in-occurrences p [] real = refl
is_in-occurrences p (q ∷ group) real = ground (arith, real, is_in-occurrences p group real)

fill_except-outside :
    (min count : ℕ) (group : List OnePoker) (i n : ℕ)
    → 1 ≤ min
    → fill_except min count group i n ≡ outside group (fill min count i n)
unfolding fill_except fill card_at is_null_poker
fill_except-outside min count group i zero low = refl
fill_except-outside min count group i (suc n) low = ground (
  arith,
  is_in-occurrences (card_at min count i) group (ground (arith, low)),
  fill_except-outside min count group (suc i) n low,
)

same_occurrences :
    (p q : OnePoker) (group : List OnePoker)
    → ((q.poker_value == p.poker_value) && (q.poker_color == p.poker_color)) ≡ true
    → occurrences q group ≡ occurrences p group
same_occurrences p q [] same = refl
same_occurrences p q (r ∷ group) same = ground (arith, same, same_occurrences p q group same)

outside-occurrences :
    (p : OnePoker) (group cards : List OnePoker)
    → occurrences p (outside group cards)
      ≡ (if occurrences p group == 0 then occurrences p cards else 0)
outside-occurrences p group [] = ground arith
outside-occurrences p group (q ∷ cards) =
    ground (arith, same_occurrences p q group, outside-occurrences p group cards)

-- If no card has the value 0, the deck that leaves out a group is the whole deck without the cards
-- that occur in the group, in the same order; so each card of colour
-- 1 to 4 and of a value in the range is in the deck once if it does not occur in the group, and no
-- other card is.
pub init_poker_except_group-outside :
    (min max : ℕ) (group : List OnePoker) (d : Deck) (p : OnePoker)
    → 1 ≤ min
    → init_poker min max ≡ some d
    → (init_poker_except_group min max group ≡ some (record d { cards = outside group d.cards }))
      × (occurrences p (outside group d.cards) ≡ (
          if leb 1 p.poker_color
            && leb p.poker_color 4
            && leb min p.poker_value
            && leb p.poker_value max
            && (occurrences p group == 0)
          then 1
          else 0))
unfolding init_poker_except_group init_poker
init_poker_except_group-outside min max group d p low h =
    let count = max + 1 - min in
    (
      ground (arith, h, fill_except-outside min count group 0 (color_count * count) low),
      ground (arith, outside-occurrences p group d.cards, init_poker-occurrences min max d p h),
    )
