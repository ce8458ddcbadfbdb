-- ===== src/Poker/Card/Order.antt =====
-- The order of the comparisons of cards.
use white_board_server.Prelude.{
  ℕ, ◌≡◌, ◌⊎◌, refl, true, false, not, List, [], ◌∷◌, arith, All, if◌then◌else◌, Bool-cases, inl,
  inr, get_elem?, some, zero, suc, subst,
}
use white_board_server.Prelude.Int.{pos, negsuc}
use white_board_server.Poker.Card.{
  OnePoker, compare_single_poker, value_first_cmp, poker_compare, is_below, max_from,
  find_max_poker,
}

pub compare_single_poker_irrefl : (a : OnePoker) → compare_single_poker a a ≡ false
unfolding compare_single_poker
compare_single_poker_irrefl a = ground arith

pub compare_single_poker_trans :
    (a b d : OnePoker)
    → compare_single_poker a b ≡ true
    → compare_single_poker b d ≡ true
    → compare_single_poker a d ≡ true
unfolding compare_single_poker
compare_single_poker_trans a b d h k = ground (arith, h, k)

-- If the second card does not lose to the first, and the first beats a third, so does the second.
pub compare_single_poker_mono :
    (a b d : OnePoker)
    → compare_single_poker a b ≡ false
    → compare_single_poker a d ≡ true
    → compare_single_poker b d ≡ true
unfolding compare_single_poker
compare_single_poker_mono a b d h k = ground (arith, h, k)

-- Of two cards one beats the other and not the other way round, or they are the same card.
pub compare_single_poker_connex :
    (a b : OnePoker) → (compare_single_poker a b ≡ not (compare_single_poker b a)) ⊎ (a ≡ b)
unfolding compare_single_poker
compare_single_poker_connex a b = elim (Bool-cases (compare_single_poker a b)) [
  | inl h ↦ inl (ground (arith, h))
  | inr h ↦ elim (Bool-cases (compare_single_poker b a)) [
    | inl k ↦ inl (ground (arith, h, k))
    | inr k ↦ inr (ground (arith, h, k))
  ]
]

-- DNPokerValueFirstCmp, the test in findMaxPoker and DNPokerCompare order any two cards as
-- compareSinglePoker does.
pub poker_comparisons_agree :
    (a b : OnePoker)
    → (value_first_cmp a b ≡ compare_single_poker b a)
      × (is_below a b ≡ compare_single_poker b a)
      × (poker_compare a b ≡ (
          if compare_single_poker a b
          then pos 1
          else if compare_single_poker b a
          then negsuc 0
          else pos 0))
unfolding value_first_cmp compare_single_poker is_below poker_compare
poker_comparisons_agree a b = (ground arith, ground arith, ground arith)

max_from-above :
    (best : OnePoker) (hand : List OnePoker)
    → (compare_single_poker best (max_from best hand) ≡ false)
      × All (λ p. compare_single_poker p (max_from best hand) ≡ false) hand
unfolding max_from
max_from-above best [] = (compare_single_poker_irrefl best, tt)
max_from-above best (p ∷ rest) = elim (Bool-cases (is_below best p)) [
  | inl lower ↦
      let (top, others) = max_from-above p rest in
      (
        ground (arith, lower, not_above p best (max_from p rest) (beats lower) top),
        (ground (arith, lower, top), carried (max_from p rest) (ground (arith, lower)) others),
      )
  | inr upper ↦
      let (top, others) = max_from-above best rest in
      (
        ground (arith, upper, top),
        (
          ground (arith, upper, not_below p best (max_from best rest) (stays upper) top),
          carried (max_from best rest) (ground (arith, upper)) others,
        ),
      )
]
  where
    carried :
        (m : OnePoker)
        → m ≡ max_from best (p ∷ rest)
        → All (λ q. compare_single_poker q m ≡ false) rest
        → All (λ q. compare_single_poker q (max_from best (p ∷ rest)) ≡ false) rest
    carried m e h = subst (λ n. All (λ q. compare_single_poker q n ≡ false) rest) e h

    beats : is_below best p ≡ true → compare_single_poker p best ≡ true
    beats h = ground (arith, h, poker_comparisons_agree best p)

    stays : is_below best p ≡ false → compare_single_poker p best ≡ false
    stays h = ground (arith, h, poker_comparisons_agree best p)

    not_above :
        (a b m : OnePoker)
        → compare_single_poker a b ≡ true
        → compare_single_poker a m ≡ false
        → compare_single_poker b m ≡ false
    not_above a b m h k = ground (arith, h, k, compare_single_poker_trans a b m)

    not_below :
        (a b m : OnePoker)
        → compare_single_poker a b ≡ false
        → compare_single_poker b m ≡ false
        → compare_single_poker a m ≡ false
    not_below a b m h k = ground (arith, h, k, compare_single_poker_mono a b m)

max_from-member :
    (best : OnePoker) (hand : List OnePoker)
    → (i : ℕ) × (get_elem? (best ∷ hand) i ≡ some (max_from best hand))
unfolding max_from
max_from-member best [] = (0, refl)
max_from-member best (p ∷ rest) = elim (Bool-cases (is_below best p)) [
  | inl lower ↦ let (i, e) = max_from-member p rest in (suc i, rw (lower) e)
  | inr upper ↦ by_index (max_from-member best rest) upper
]
  where
    by_index :
        ((i : ℕ) × (get_elem? (best ∷ rest) i ≡ some (max_from best rest)))
        → is_below best p ≡ false
        → (i : ℕ) × (get_elem? (best ∷ p ∷ rest) i
            ≡ some (max_from (if is_below best p then p else best) rest))
    by_index (zero, e) upper = (0, rw (upper) e)
    by_index (suc i, e) upper = (suc (suc i), rw (upper) e)

-- findMaxPoker returns a card of the hand that no card of the hand beats.
pub find_max_poker_lem :
    (p : OnePoker) (rest : List OnePoker)
    → ((i : ℕ) × (get_elem? (p ∷ rest) i ≡ some (find_max_poker (p ∷ rest))))
      × All (λ q. compare_single_poker q (find_max_poker (p ∷ rest)) ≡ false) (p ∷ rest)
unfolding find_max_poker
find_max_poker_lem p rest =
    let (top, others) = max_from-above p rest in (max_from-member p rest, (top, others))
