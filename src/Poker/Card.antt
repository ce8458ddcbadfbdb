-- ===== src/Poker/Card.antt =====
-- One card: DNOnePoker and the comparisons of two cards (dn_poker.h, dn_poker.cpp). The fields are
-- int8_t in the source; the game stores values from 0 to 13 and colours from 0 to 4.
pub mod Order
use white_board_server.Prelude.{
  ℕ, ◌+◌, Bool, true, false, not, ◌&&◌, ◌||◌, List, [], ◌∷◌, ltb, ◌==◌, if◌then◌else◌,
}
use white_board_server.Prelude.Int.{ℤ, pos, negsuc}

pub record OnePoker : Type 0 where
  pub poker_value : ℕ
  pub poker_color : ℕ

-- DNOnePoker() and reset()
abbrev pub null_poker : OnePoker
null_poker = record { poker_value = 0; poker_color = 0 }

unfoldable pub is_null_poker : OnePoker → Bool
is_null_poker p = (p.poker_value == 0) || (p.poker_color == 0)

-- operator==
unfoldable pub same_poker : OnePoker → OnePoker → Bool
unfolding is_null_poker
same_poker p q =
    (is_null_poker p && is_null_poker q)
    || ((p.poker_color == q.poker_color) && (p.poker_value == q.poker_value))

-- operator!=
pub differs_from : OnePoker → OnePoker → Bool
differs_from p q = not (same_poker p q)

-- DNPokerValueFirstCmp: the sign of a difference of the values, or of the colours.
pub value_first_cmp : OnePoker → OnePoker → Bool
value_first_cmp one other =
    if one.poker_value == other.poker_value
    then ltb one.poker_color other.poker_color
    else ltb one.poker_value other.poker_value

-- DNPokerColorFirstCmp
pub color_first_cmp : OnePoker → OnePoker → Bool
color_first_cmp one other =
    if one.poker_color == other.poker_color
    then ltb one.poker_value other.poker_value
    else ltb one.poker_color other.poker_color

-- DNOneDeckPoker::compareSinglePoker
pub compare_single_poker : OnePoker → OnePoker → Bool
compare_single_poker a b =
    if a.poker_value == b.poker_value
    then ltb b.poker_color a.poker_color
    else ltb b.poker_value a.poker_value

-- DNOneDeckPoker::DNPokerCompare
pub poker_compare : OnePoker → OnePoker → ℤ
poker_compare a b =
    if a.poker_value == b.poker_value
    then (if a.poker_color == b.poker_color
        then pos 0
        else if ltb b.poker_color a.poker_color
        then pos 1
        else negsuc 0)
    else if ltb b.poker_value a.poker_value
    then pos 1
    else if ltb a.poker_value b.poker_value
    then negsuc 0
    else pos 0

-- DNOneDeckPoker::changeDNPokerJQK: the points of a card.
unfoldable pub change_jqk : ℕ → ℕ
change_jqk value = if ltb 10 value then 10 else value

-- The test in the loop of DNOneDeckPoker::findMaxPoker.
unfoldable pub is_below : OnePoker → OnePoker → Bool
is_below p q =
    ltb p.poker_value q.poker_value
    || ((p.poker_value == q.poker_value) && ltb p.poker_color q.poker_color)

-- DNOneDeckPoker::findMaxPoker: the loop over the cards after the first.
unfoldable pub max_from : OnePoker → List OnePoker → OnePoker
unfolding is_below
max_from best [] = best
max_from best (p ∷ rest) = max_from (if is_below best p then p else best) rest

unfoldable pub find_max_poker : List OnePoker → OnePoker
unfolding max_from
find_max_poker [] = null_poker
find_max_poker (p ∷ rest) = max_from p rest
