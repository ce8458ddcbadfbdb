-- ===== src/Poker/Cow/Rules.antt =====
-- The type of a hand by the rules of the game, whatever the order of its cards, and findCow.
use white_board_server.Prelude.{
  ℕ, ◌+◌, ◌≡◌, refl, Bool, true, false, ◌&&◌, Option, none, some, List, [], ◌∷◌, ltb, leb, ◌==◌,
  if◌then◌else◌, arith, Bool-cases, inl, inr, map, sym, ap, ◌∙◌,
}
use white_board_server.Prelude.Int.{ℤ}
use white_board_server.Poker.Card.{OnePoker, change_jqk}
use white_board_server.Poker.Group.{
  Five, five_cards, all_five, mei_niu, si_zha, wu_hua_niu, wu_xiao_niu,
}
use white_board_server.Poker.Cow.{
  Sorter, Tally, no_tally, tally, tally_card, value_index_pairs, si_zha_start, triples, find_triple,
  niu_result, niu_type, find_niu, find_by_kind, find_cow,
}
use white_board_server.Poker.Cow.Kinds.{
  any_four, any_ten, three_sums, points_of, is_some, found-any_four, find_triple-any_ten,
  triples-three_sums, count_value-Permᴰ, length-Permᴰ,
}

abbrev pub total : List ℕ → ℕ
total [] = 0
total (n ∷ rest) = n + total rest

abbrev pub is_small : OnePoker → Bool
is_small p = ltb p.poker_value 5

abbrev pub is_picture : OnePoker → Bool
is_picture p = ltb 10 p.poker_value

-- How many cards pass a test, and the values of those below five.
abbrev pub number : (OnePoker → Bool) → List OnePoker → ℕ
number test [] = 0
number test (p ∷ rest) = (if test p then 1 else 0) + number test rest

abbrev pub small_total : List OnePoker → ℕ
small_total [] = 0
small_total (p ∷ rest) = (if is_small p then p.poker_value else 0) + small_total rest

-- Five small: all below five, of ten at most together. Five pictures. Four of a kind. Three cards
-- whose points make ten, twenty or thirty: then the points of all count. Otherwise nothing.
abbrev pub rule : Five OnePoker → ℕ
rule f =
    if (number is_small (five_cards f) == 5) && leb (small_total (five_cards f)) 10
    then wu_xiao_niu
    else if number is_picture (five_cards f) == 5
    then wu_hua_niu
    else if any_four (value_index_pairs f) (value_index_pairs f)
    then si_zha
    else if any_ten (three_sums (points_of f))
    then niu_type (total (points_of f))
    else mei_niu

tally-sums :
    (hand : List OnePoker) (t : Tally)
    → ((tally hand t).wuxiao_num ≡ t.wuxiao_num + number is_small hand)
      × ((tally hand t).wuxiao_sum ≡ t.wuxiao_sum + small_total hand)
      × ((tally hand t).wuhua_num ≡ t.wuhua_num + number is_picture hand)
      × ((tally hand t).all_poker_sum
          ≡ t.all_poker_sum + total (map (λ p. change_jqk p.poker_value) hand))
unfolding tally tally_card
tally-sums [] t = (omega arith, omega arith, omega arith, omega arith)
tally-sums (p ∷ rest) t =
    let (a, b, d, e) = tally-sums rest (tally_card t p) in
    (ground (arith, a), ground (arith, b), ground (arith, d), ground (arith, e))

tally-no_tally :
    (hand : List OnePoker)
    → ((tally hand no_tally).wuxiao_num ≡ number is_small hand)
      × ((tally hand no_tally).wuxiao_sum ≡ small_total hand)
      × ((tally hand no_tally).wuhua_num ≡ number is_picture hand)
      × ((tally hand no_tally).all_poker_sum ≡ total (map (λ p. change_jqk p.poker_value) hand))
tally-no_tally hand =
    let (a, b, d, e) = tally-sums hand no_tally in
    (omega (arith, a), omega (arith, b), omega (arith, d), omega (arith, e))

niu_result-kind :
    (o : Option (ℕ × ℕ × ℕ)) (sum : ℕ) (niu other : List ℤ)
    → (niu_result o sum niu other).0 ≡ (if is_some o then niu_type sum else mei_niu)
unfolding niu_result
niu_result-kind none sum niu other = refl
niu_result-kind (some t) sum niu other = refl

find_niu-kind :
    (f : Five OnePoker) (sum : ℕ) (niu other : List ℤ)
    → (find_niu f sum niu other).0
      ≡ (if any_ten (three_sums (points_of f)) then niu_type sum else mei_niu)
unfolding find_niu
find_niu-kind f sum niu other =
    niu_result-kind (find_triple f triples) sum niu other
    ∙ ap (λ b. if b then niu_type sum else mei_niu)
        (find_triple-any_ten f triples ∙ ap any_ten (triples-three_sums f))

module _ ⦃s : Sorter⦄ (f : Five OnePoker) where
  found-four :
      (niu other : List ℤ)
      → (si_zha_start (s.sort (value_index_pairs f)) niu other).0
        ≡ any_four (value_index_pairs f) (value_index_pairs f)
  found-four niu other =
      found-any_four (value_index_pairs f) (s.sort (value_index_pairs f)) niu other
        (length-Permᴰ (s.sort-Permᴰ (value_index_pairs f))) (s.sort-IsSorted (value_index_pairs f))
        (λ v. count_value-Permᴰ v (s.sort-Permᴰ (value_index_pairs f)))

  find_by_kind-kind :
      (sum : ℕ) (niu other : List ℤ)
      → (find_by_kind f sum niu other).0 ≡ (
          if any_four (value_index_pairs f) (value_index_pairs f)
          then si_zha
          else if any_ten (three_sums (points_of f))
          then niu_type sum
          else mei_niu)
  unfolding find_by_kind
  find_by_kind-kind sum niu other =
      by_result (si_zha_start (s.sort (value_index_pairs f)) niu other) (found-four niu other)
    where
      by_result :
          (r : Bool × List ℤ × List ℤ)
          → r.0 ≡ any_four (value_index_pairs f) (value_index_pairs f)
          → let (found, niu', other') = r in
            (if found then (si_zha, niu', other') else find_niu f sum niu' other').0 ≡ (
              if any_four (value_index_pairs f) (value_index_pairs f)
              then si_zha
              else if any_ten (three_sums (points_of f))
              then niu_type sum
              else mei_niu)
      by_result (true, niu', other') e = rw (sym e) refl
      by_result (false, niu', other') e = rw (sym e) (find_niu-kind f sum niu' other')

  by_tally : Tally → List ℤ → List ℤ → ℕ × List ℤ × List ℤ
  by_tally t niu other =
      if (t.wuxiao_num == 5) && leb t.wuxiao_sum 10
      then (wu_xiao_niu, all_five, other)
      else if t.wuhua_num == 5
      then (wu_hua_niu, all_five, other)
      else find_by_kind f t.all_poker_sum niu other

  by_tally-kind :
      (t : Tally) (num sum hua all : ℕ) (niu other : List ℤ)
      → t.wuxiao_num ≡ num
      → t.wuxiao_sum ≡ sum
      → t.wuhua_num ≡ hua
      → t.all_poker_sum ≡ all
      → (by_tally t niu other).0 ≡ (
          if (num == 5) && leb sum 10
          then wu_xiao_niu
          else if hua == 5
          then wu_hua_niu
          else if any_four (value_index_pairs f) (value_index_pairs f)
          then si_zha
          else if any_ten (three_sums (points_of f))
          then niu_type all
          else mei_niu)
  unfolding by_tally
  by_tally-kind t num sum hua all niu other a b d e =
      rw (sym a, sym b, sym d, sym e)
        (elim (Bool-cases ((t.wuxiao_num == 5) && leb t.wuxiao_sum 10)) [
          | inl xiao ↦ rw xiao refl
          | inr plain ↦ elim (Bool-cases (t.wuhua_num == 5)) [
            | inl pictures ↦ rw (plain, pictures) refl
            | inr mixed ↦ rw (plain, mixed) (find_by_kind-kind t.all_poker_sum niu other)
          ]
        ])

  -- For every hand, findCow returns the type that the rules give it, whatever the arrays that it
  -- fills held before and however the sort orders equal values.
  pub find_cow-rule : (niu other : List ℤ) → (find_cow f niu other).0 ≡ rule f
  unfolding find_cow by_tally
  find_cow-rule niu other =
      let (a, b, d, e) = tally-no_tally (five_cards f) in
      by_tally-kind (tally (five_cards f) no_tally) (number is_small (five_cards f))
        (small_total (five_cards f)) (number is_picture (five_cards f)) (total (points_of f)) niu
        other a b d e
