-- ===== src/Poker/Cow/Claim.antt =====
-- The type that the places named by a player make: hasCow of DNOneDeckPoker (dn_poker.cpp).
pub mod Sums
pub mod Verifying
use white_board_server.Prelude.{
  ℕ, ◌+◌, ◌%◌, Bool, true, false, not, ◌&&◌, ◌||◌, Option, none, some, List, [], ◌∷◌, ltb, leb,
  ◌==◌, if◌then◌else◌, set, zero, suc, ◌≡◌, All, ◌≤◌,
}
use white_board_server.Prelude.Int.{ℤ, pos, negsuc, minus_one}
use white_board_server.Poker.Card.{OnePoker, change_jqk, find_max_poker, compare_single_poker}
use white_board_server.Poker.Group.{
  Five, GroupPoker, five_cards, no_five, no_two, all_five, mei_niu, niu_niu, si_zha, wu_hua_niu,
  wu_xiao_niu, calc_by_no_niu, set_max_poker, set_niu_poker_index,
}
use white_board_server.Poker.Cow.{Sorter, value_at, points_at, niu_type, find_cow}

-- hasCow: how many indices there are before the first that is not in the hand.
index_count : List ℤ → ℕ
index_count [] = 0
index_count (negsuc n ∷ rest) = 0
index_count (pos n ∷ rest) = let more = index_count rest in if ltb n 5 then more + 1 else 0

pub xiao_loop : List OnePoker → ℕ → ℕ → ℕ × ℕ
xiao_loop [] num sum = (num, sum)
xiao_loop (p ∷ rest) num sum = elim (ltb p.poker_value 5) [
  | true ↦ xiao_loop rest (num + 1) (sum + p.poker_value)
  | false ↦ xiao_loop rest num sum
]

pub hua_loop : List OnePoker → ℕ → ℕ
hua_loop [] num = num
hua_loop (p ∷ rest) num = elim (ltb 10 p.poker_value) [
  | true ↦ hua_loop rest (num + 1)
  | false ↦ hua_loop rest num
]

pub total_loop : List OnePoker → ℕ → ℕ
total_loop [] sum = sum
total_loop (p ∷ rest) sum = total_loop rest (sum + change_jqk p.poker_value)

-- poker[pokerIndex[i]], for an index that the count found to be in the hand.
index_at : List ℤ → ℕ → ℕ
index_at [] i = 0
index_at (z ∷ rest) zero = elim z [ pos n ↦ n | negsuc n ↦ 0 ]
index_at (z ∷ rest) (suc i) = index_at rest i

has_special : Five OnePoker → ℕ
unfolding xiao_loop hua_loop
has_special f =
    let (num, sum) = xiao_loop (five_cards f) 0 0 in
    if (num == 5) && leb sum 10
    then wu_xiao_niu
    else if hua_loop (five_cards f) 0 == 5
    then wu_hua_niu
    else mei_niu

has_four : Five OnePoker → List ℤ → ℕ
unfolding value_at index_at
has_four f index =
    let first = value_at f (index_at index 0) in
    if (value_at f (index_at index 1) == first)
      && (value_at f (index_at index 2) == first)
      && (value_at f (index_at index 3) == first)
    then si_zha
    else mei_niu

has_three : Five OnePoker → List ℤ → ℕ
unfolding points_at index_at total_loop niu_type
has_three f index =
    let sum =
      points_at f (index_at index 0)
      + points_at f (index_at index 1)
      + points_at f (index_at index 2) in
    if sum % 10 == 0 then niu_type (total_loop (five_cards f) 0) else mei_niu

-- hasCow: the type that the named places of a hand make.
pub has_cow : Five OnePoker → List ℤ → ℕ
unfolding index_count has_special has_four has_three
has_cow f index =
    let count = index_count index in
    if count == 5
    then has_special f
    else if count == 4
    then has_four f index
    else if count == 3
    then has_three f index
    else mei_niu

-- hasCow on a group
pub has_cow_group : GroupPoker → List ℤ → List ℤ → GroupPoker
has_cow_group g index other =
    set_max_poker (set_niu_poker_index (record g { dn_type = has_cow g.poker index }) index other)
      (find_max_poker (five_cards g.poker))
