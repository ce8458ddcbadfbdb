-- ===== src/Poker/Check.antt =====
-- DNOneDeckPoker::CheckCowWithPokerInfo (dn_poker.cpp): whether a player's claim of a type holds.
-- A type that is claimed is not negative.
pub mod Verdict
use white_board_server.Prelude.{
  ℕ, ◌+◌, ◌%◌, Bool, true, false, not, ◌&&◌, ◌||◌, Option, none, some, List, [], ◌∷◌, ltb, ◌==◌,
  if◌then◌else◌, set, get_or, replicate,
}
use white_board_server.Prelude.Int.{ℤ, pos, negsuc}
use white_board_server.Poker.Card.{OnePoker, find_max_poker}
use white_board_server.Poker.Group.{
  Five, GroupPoker, five_cards, si_zha, wu_hua_niu, wu_xiao_niu, set_max_poker,
}

-- The first loop counts, from the last index on, how often each place is named.
unfoldable pub count_places : List ℤ → List ℕ
count_places [] = replicate 5 0
count_places (negsuc n ∷ rest) = count_places rest
count_places (pos n ∷ rest) =
    let counts = count_places rest in
    if ltb n 5 then set counts n (get_or counts n 0 + 1) else counts

unfoldable pub all_once : List ℕ → Bool
all_once [] = true
all_once (n ∷ rest) = (n == 1) && all_once rest

-- Whether each place is named once.
unfoldable pub names_each_place : Five ℤ → Bool
unfolding count_places all_once
names_each_place index = all_once (count_places (five_cards index))

-- The size of the array poker_value, MAX_DNPOKER_VALUE.
abbrev pub value_count : ℕ
value_count = 13

pub record Sums : Type 0 where
  pub sum_of_poker : ℕ
  pub num_of_xiao_niu_poker : ℕ
  pub num_of_hua_niu_poker : ℕ
  pub poker_value : List ℕ

abbrev no_sums : Sums
no_sums = record {
  sum_of_poker = 0;
  num_of_xiao_niu_poker = 0;
  num_of_hua_niu_poker = 0;
  poker_value = replicate value_count 0;
}

-- One round of the loop over the cards, `none` where it writes outside the array.
add_card : Sums → OnePoker → Option Sums
add_card t p =
    let v = p.poker_value in
    let t' : Sums = record t { poker_value = set t.poker_value v (get_or t.poker_value v 0 + 1) } in
    if not (ltb v value_count)
    then none
    else if ltb 10 v
    then some (record t' {
      sum_of_poker = t.sum_of_poker + 10;
      num_of_hua_niu_poker = t.num_of_hua_niu_poker + 1;
    })
    else if ltb v 5
    then some (record t' {
      sum_of_poker = t.sum_of_poker + v;
      num_of_xiao_niu_poker = t.num_of_xiao_niu_poker + 1;
    })
    else some (record t' { sum_of_poker = t.sum_of_poker + v })

pub add_cards : List OnePoker → Sums → Option Sums
unfolding add_card
add_cards [] t = some t
add_cards (p ∷ rest) t = elim (add_card t p) [ none ↦ none | some t' ↦ add_cards rest t' ]

has_four_of : List OnePoker → Sums → Bool
has_four_of [] t = false
has_four_of (p ∷ rest) t = (get_or t.poker_value p.poker_value 0 == 4) || has_four_of rest t

-- The tests on the claimed type.
pub is_claim_right : ℕ → List OnePoker → Sums → Bool
unfolding has_four_of
is_claim_right niu_type cards t =
    if (niu_type == wu_xiao_niu) && not (t.num_of_xiao_niu_poker == 5)
    then false
    else if (niu_type == wu_hua_niu) && not (t.num_of_hua_niu_poker == 5)
    then false
    else if niu_type == si_zha
    then has_four_of cards t
    else t.sum_of_poker % 10 == niu_type % 10

-- What a claim that holds writes: two places first, then three. The last two entries of
-- niu_poker_index keep what they held.
pub claimed : ℕ → Five ℤ → GroupPoker → GroupPoker
claimed niu_type index g = record (set_max_poker g (find_max_poker (five_cards g.poker))) {
  dn_type = niu_type;
  b_calc = true;
  other_poker_index = index.at0 ∷ index.at1 ∷ [];
  niu_poker_index = set (set (set g.niu_poker_index 0 index.at2) 1 index.at3) 2 index.at4;
}

pub check_cow_with_poker_info : ℕ → Five ℤ → GroupPoker → Option (Bool × GroupPoker)
check_cow_with_poker_info niu_type index g =
    if not (names_each_place index)
    then some (false, g)
    else elim (add_cards (five_cards g.poker) no_sums) [
      | none ↦ none
      | some t ↦ some (
          if is_claim_right niu_type (five_cards g.poker) t
          then (true, claimed niu_type index g)
          else (false, g))
    ]
