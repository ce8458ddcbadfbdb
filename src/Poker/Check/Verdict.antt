-- ===== src/Poker/Check/Verdict.antt =====
-- What CheckCowWithPokerInfo accepts, and where it writes outside its array.
use white_board_server.Prelude.{
  ℕ, ◌+◌, ◌%◌, ◌≡◌, ◌<◌, ◌≤◌, refl, true, false, none, some, List, [], ◌∷◌, ltb, ◌==◌,
  if◌then◌else◌, arith, All, Option-cases, inl, inr, get_elem?, zero, suc,
}
use white_board_server.Prelude.Int.{ℤ}
use white_board_server.Poker.Card.{OnePoker}
use white_board_server.Poker.Group.{Five, GroupPoker, five_cards}
use white_board_server.Poker.Check.{
  Sums, no_sums, add_card, add_cards, names_each_place, is_claim_right, claimed,
  check_cow_with_poker_info,
}

-- The points of the cards, with a picture card counting ten.
abbrev pub points : List OnePoker → ℕ
points [] = 0
points (p ∷ rest) = (if ltb 10 p.poker_value then 10 else p.poker_value) + points rest

add_card-sum :
    (p : OnePoker) (t : Sums)
    → p.poker_value < 13
    → (t' : Sums) × (add_card t p ≡ some t')
      × (t'.sum_of_poker ≡ t.sum_of_poker + (if ltb 10 p.poker_value then 10 else p.poker_value))
unfolding add_card
add_card-sum p t h = elim (Option-cases (add_card t p)) [
  | inl e ↦ absurd (ground (arith, h, e))
  | inr (t', e) ↦ (t', e, ground (arith, h, e))
]

add_cards-sum :
    (cards : List OnePoker) (t : Sums)
    → All (λ p. p.poker_value < 13) cards
    → (t' : Sums) × (add_cards cards t ≡ some t')
      × (t'.sum_of_poker ≡ t.sum_of_poker + points cards)
unfolding add_cards
add_cards-sum [] t h = (t, refl, omega arith)
add_cards-sum (p ∷ rest) t h =
    let (t1, e1, s1) = add_card-sum p t h.0 in
    let (t2, e2, s2) = add_cards-sum rest t1 h.1 in
    (t2, ground (arith, e1, e2), omega (arith, s1, s2))

add_cards-outside :
    (cards : List OnePoker) (t : Sums) (i : ℕ) (p : OnePoker)
    → get_elem? cards i ≡ some p
    → 13 ≤ p.poker_value
    → add_cards cards t ≡ none
unfolding add_cards add_card
add_cards-outside [] t i p h big = ground (arith, h)
add_cards-outside (q ∷ rest) t zero p h big = ground (arith, h, big)
add_cards-outside (q ∷ rest) t (suc i) p h big = elim (Option-cases (add_card t q)) [
  | inl e ↦ ground (arith, e)
  | inr (t', e) ↦ ground (arith, e, add_cards-outside rest t' i p h big)
]

-- If a claim names each of the five places once and the hand has a king, the check writes outside
-- its array of counts, whatever type is claimed.
pub check_cow_with_poker_info-king :
    (niu_type i : ℕ) (index : Five ℤ) (g : GroupPoker) (p : OnePoker)
    → names_each_place index ≡ true
    → get_elem? (five_cards g.poker) i ≡ some p
    → p.poker_value ≡ 13
    → check_cow_with_poker_info niu_type index g ≡ none
unfolding check_cow_with_poker_info
check_cow_with_poker_info-king niu_type i index g p named at_i king =
    ground
      (arith, named, add_cards-outside (five_cards g.poker) no_sums i p at_i (omega (arith, king)))

-- If a claim of a type of at most ten names each of the five places once and the hand has no king,
-- it is accepted exactly if the points of all five cards agree with the type modulo ten, whichever
-- places are named as the three; a claim that is accepted is written into the group, and one that
-- is not changes nothing.
pub check_cow_with_poker_info-sum :
    (niu_type : ℕ) (index : Five ℤ) (g : GroupPoker)
    → names_each_place index ≡ true
    → All (λ p. p.poker_value < 13) (five_cards g.poker)
    → niu_type ≤ 10
    → check_cow_with_poker_info niu_type index g
      ≡ some (
          if points (five_cards g.poker) % 10 == niu_type % 10
          then (true, claimed niu_type index g)
          else (false, g))
unfolding check_cow_with_poker_info is_claim_right
check_cow_with_poker_info-sum niu_type index g named small low =
    let (t, e, sum) = add_cards-sum (five_cards g.poker) no_sums small in
    ground (arith, named, e, right t (points (five_cards g.poker)) sum)
  where
    right :
        (t : Sums) (n : ℕ)
        → t.sum_of_poker ≡ 0 + n
        → is_claim_right niu_type (five_cards g.poker) t ≡ (n % 10 == niu_type % 10)
    right t n sum = ground (arith, low, sum)
