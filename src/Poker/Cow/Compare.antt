-- ===== src/Poker/Cow/Compare.antt =====
-- Which of two hands loses: calcCowData and compareGroupPoker of DNOneDeckPoker (dn_poker.cpp).
pub mod Deciding
use white_board_server.Prelude.{
  ℕ, ◌+◌, ◌%◌, Bool, true, false, not, ◌&&◌, ◌||◌, Option, none, some, List, [], ◌∷◌, ltb, leb,
  ◌==◌, if◌then◌else◌, set, zero, suc, ◌≡◌, All, ◌≤◌,
}
use white_board_server.Prelude.Int.{ℤ, pos, negsuc, minus_one}
use white_board_server.Poker.Card.{OnePoker, change_jqk, find_max_poker, compare_single_poker}
use white_board_server.Poker.Group.{
  Five, GroupPoker, five_cards, no_five, no_two, all_five, mei_niu, niu_niu, si_zha, wu_hua_niu,
  wu_xiao_niu, calc_by_no_niu, set_max_poker, set_niu_poker_index,
}
use white_board_server.Poker.Cow.{Sorter, value_at, points_at, niu_type, find_cow}

module _ ⦃s : Sorter⦄ where
  unfoldable pub calc_cow_data : GroupPoker → Bool → GroupPoker
  calc_cow_data g by_poker_type =
      if g.b_calc
      then g
      else if by_poker_type
      then (let (kind, niu, other) = find_cow g.poker g.niu_poker_index g.other_poker_index in
          record g {
            dn_type = kind;
            niu_poker_index = niu;
            other_poker_index = other;
            max_poker = some (find_max_poker (five_cards g.poker));
            b_calc = true;
          })
      else record (calc_by_no_niu g) {
        max_poker = some (find_max_poker (five_cards g.poker));
        b_calc = true;
      }

-- compareNiutype
pub compare_niutype : ℕ → ℕ → ℤ
compare_niutype a b = if ltb a b then negsuc 0 else if a == b then pos 0 else pos 1

-- Two groups of one type: the test on their greatest cards, `none` where a pointer is null.
loses_by_card : Option OnePoker → Option OnePoker → Option Bool
loses_by_card none q = none
loses_by_card (some p) none = none
loses_by_card (some p) (some q) = some (not (compare_single_poker p q))

loses_by_type : ℤ → Bool
loses_by_type (pos n) = false
loses_by_type (negsuc n) = true

is_tie : ℤ → Bool
is_tie (pos zero) = true
is_tie (pos (suc n)) = false
is_tie (negsuc n) = false

module _ ⦃s : Sorter⦄ where
  -- compareGroupPoker: whether the first loses, and the two groups, whose types it calculates.
  pub compare_group_poker :
      GroupPoker → Bool → GroupPoker → Bool → Option (Bool × GroupPoker × GroupPoker)
  unfolding loses_by_card loses_by_type is_tie
  compare_group_poker a by_type_a b by_type_b =
      let a' = calc_cow_data a by_type_a in
      let b' = calc_cow_data b by_type_b in
      let ret = compare_niutype a'.dn_type b'.dn_type in
      elim (if is_tie ret
        then loses_by_card a'.max_poker b'.max_poker
        else some (loses_by_type ret)) [ none ↦ none | some a_lose ↦ some (a_lose, a', b') ]
