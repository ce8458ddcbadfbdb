-- ===== src/Poker/Cow.antt =====
-- The type of a hand: findCow of DNOneDeckPoker (dn_poker.cpp).
pub mod Finding
pub mod Kinds
pub mod Rules
pub mod Claim
pub mod Compare
use mathlib.Core.List.{Permᴰ}
use white_board_server.Prelude.{
  ℕ, ◌+◌, ◌%◌, Bool, true, false, not, ◌&&◌, ◌||◌, Option, none, some, List, [], ◌∷◌, ltb, leb,
  ◌==◌, if◌then◌else◌, set, zero, suc, ◌≡◌, All, ◌≤◌,
}
use white_board_server.Prelude.Int.{ℤ, pos, negsuc, minus_one}
use white_board_server.Poker.Card.{OnePoker, change_jqk, find_max_poker, compare_single_poker}
use white_board_server.Poker.Group.{
  Five, GroupPoker, five_cards, no_five, no_two, all_five, mei_niu, niu_niu, si_zha, wu_hua_niu,
  wu_xiao_niu, calc_by_no_niu, set_max_poker, set_niu_poker_index,
}

-- Each value is at most those that follow.
abbrev pub IsSorted : List (ℕ × ℕ) → Type 0
IsSorted [] = Unit
IsSorted (p ∷ rest) = All (λ q. p.0 ≤ q.0) rest × IsSorted rest

-- std::sort with pokerValueIndexPairComparator: which of equal values comes first is not said.
pub record Sorter : Type 0 where
  pub sort : List (ℕ × ℕ) → List (ℕ × ℕ)
  pub sort-Permᴰ : (pairs : List (ℕ × ℕ)) → Permᴰ (sort pairs) pairs
  pub sort-IsSorted : (pairs : List (ℕ × ℕ)) → IsSorted (sort pairs)

-- What the first loop of findCow sums up.
pub record Tally : Type 0 where
  pub wuxiao_num : ℕ
  pub wuxiao_sum : ℕ
  pub wuhua_num : ℕ
  pub all_poker_sum : ℕ

abbrev pub no_tally : Tally
no_tally = record { wuxiao_num = 0; wuxiao_sum = 0; wuhua_num = 0; all_poker_sum = 0 }

unfoldable pub tally_card : Tally → OnePoker → Tally
tally_card t p =
    let t' : Tally = record t { all_poker_sum = t.all_poker_sum + change_jqk p.poker_value } in
    if ltb p.poker_value 5
    then record t' { wuxiao_num = t.wuxiao_num + 1; wuxiao_sum = t.wuxiao_sum + p.poker_value }
    else if ltb 10 p.poker_value
    then record t' { wuhua_num = t.wuhua_num + 1 }
    else t'

unfoldable pub tally : List OnePoker → Tally → Tally
unfolding tally_card
tally [] t = t
tally (p ∷ rest) t = tally rest (tally_card t p)

-- poker[i].poker_value; every index that the source uses is below 5.
unfoldable pub value_at : Five OnePoker → ℕ → ℕ
value_at f i =
    if i == 0
    then f.at0.poker_value
    else if i == 1
    then f.at1.poker_value
    else if i == 2
    then f.at2.poker_value
    else if i == 3
    then f.at3.poker_value
    else f.at4.poker_value

abbrev pub value_index_pairs : Five OnePoker → List (ℕ × ℕ)
value_index_pairs f =
    (f.at0.poker_value, 0)
    ∷ (f.at1.poker_value, 1)
    ∷ (f.at2.poker_value, 2)
    ∷ (f.at3.poker_value, 3)
    ∷ (f.at4.poker_value, 4)
    ∷ []

-- The loop that looks for four of a kind: round `i`, with the pair before it, and si_zha_count.
-- Whether it found them, and the two arrays.
si_zha_loop : ℕ × ℕ → List (ℕ × ℕ) → ℕ → ℕ → List ℤ → List ℤ → Bool × List ℤ × List ℤ
si_zha_loop cur [] i count niu other = (false, niu, other)
si_zha_loop (v, a) ((w, b) ∷ rest) i count niu other =
    let niu' = set niu count (pos a) in
    elim (v == w) [
      | true ↦ elim (count + 1 == 3) [
        | true ↦ (true, set niu' (count + 1) (pos b), other)
        | false ↦ si_zha_loop (w, b) rest (i + 1) (count + 1) niu' other
      ]
      | false ↦ elim (leb 2 i) [
        | true ↦ (false, niu, other)
        | false ↦ si_zha_loop (w, b) rest (i + 1) 0 niu (set other 0 (pos a))
      ]
    ]

pub si_zha_start : List (ℕ × ℕ) → List ℤ → List ℤ → Bool × List ℤ × List ℤ
unfolding si_zha_loop
si_zha_start [] niu other = (false, niu, other)
si_zha_start (cur ∷ rest) niu other = si_zha_loop cur rest 1 0 niu other

-- The values of i, j and k in the order of the three loops.
abbrev pub triples : List (ℕ × ℕ × ℕ)
triples =
    (0, 1, 2)
    ∷ (0, 1, 3)
    ∷ (0, 1, 4)
    ∷ (0, 2, 3)
    ∷ (0, 2, 4)
    ∷ (0, 3, 4)
    ∷ (1, 2, 3)
    ∷ (1, 2, 4)
    ∷ (1, 3, 4)
    ∷ (2, 3, 4)
    ∷ []

unfoldable pub points_at : Five OnePoker → ℕ → ℕ
unfolding value_at change_jqk
points_at f i = change_jqk (value_at f i)

-- The first three places whose points add up to a multiple of ten.
unfoldable pub find_triple : Five OnePoker → List (ℕ × ℕ × ℕ) → Option (ℕ × ℕ × ℕ)
unfolding points_at
find_triple f [] = none
find_triple f ((i, j, k) ∷ rest) =
    let later = find_triple f rest in
    if (points_at f i + points_at f j + points_at f k) % 10 == 0 then some (i, j, k) else later

-- The loop over `m` that stores the other two places.
fill_others : ℕ × ℕ × ℕ → List ℕ → ℕ → List ℤ → List ℤ
fill_others t [] n other = other
fill_others (i, j, k) (m ∷ rest) n other =
    let other' = set other n (pos m) in
    elim (m == i || m == j || m == k) [
      | true ↦ fill_others (i, j, k) rest n other
      | false ↦ elim (leb 2 (n + 1)) [
        | true ↦ other'
        | false ↦ fill_others (i, j, k) rest (n + 1) other'
      ]
    ]

-- The type of a hand whose points have this sum and that has three cards of a multiple of ten.
unfoldable pub niu_type : ℕ → ℕ
niu_type sum = if sum % 10 == 0 then niu_niu else sum % 10

niu_result : Option (ℕ × ℕ × ℕ) → ℕ → List ℤ → List ℤ → ℕ × List ℤ × List ℤ
unfolding fill_others niu_type
niu_result none sum niu other = (mei_niu, no_five, other)
niu_result (some (i, j, k)) sum niu other = (
  niu_type sum,
  set (set (set niu 0 (pos i)) 1 (pos j)) 2 (pos k),
  fill_others (i, j, k) (0 ∷ 1 ∷ 2 ∷ 3 ∷ 4 ∷ []) 0 other,
)

-- findCow after the test for four of a kind.
find_niu : Five OnePoker → ℕ → List ℤ → List ℤ → ℕ × List ℤ × List ℤ
unfolding find_triple niu_result
find_niu f sum niu other = niu_result (find_triple f triples) sum niu other

module _ ⦃s : Sorter⦄ where
  find_by_kind : Five OnePoker → ℕ → List ℤ → List ℤ → ℕ × List ℤ × List ℤ
  unfolding si_zha_start find_niu
  find_by_kind f sum niu other =
      let (found, niu', other') = si_zha_start (s.sort (value_index_pairs f)) niu other in
      if found then (si_zha, niu', other') else find_niu f sum niu' other'

  -- findCow: the type, niuPokerIndex and otherPokerIndex.
  pub find_cow : Five OnePoker → List ℤ → List ℤ → ℕ × List ℤ × List ℤ
  unfolding tally find_by_kind
  find_cow f niu other =
      let t = tally (five_cards f) no_tally in
      if (t.wuxiao_num == 5) && leb t.wuxiao_sum 10
      then (wu_xiao_niu, all_five, other)
      else if t.wuhua_num == 5
      then (wu_hua_niu, all_five, other)
      else find_by_kind f t.all_poker_sum niu other

module _ ⦃s : Sorter⦄ where
  -- findCow on a group, with fresh arrays where the caller passes NULL.
  pub find_cow_group : GroupPoker → Option (List ℤ) → Option (List ℤ) → GroupPoker
  find_cow_group g niu other =
      let niu0 : List ℤ = elim niu [ none ↦ no_five | some l ↦ l ] in
      let other0 : List ℤ = elim other [ none ↦ no_two | some l ↦ l ] in
      let (kind, niu', other') = find_cow g.poker niu0 other0 in
      set_max_poker (set_niu_poker_index (record g { dn_type = kind }) niu' other')
        (find_max_poker (five_cards g.poker))
