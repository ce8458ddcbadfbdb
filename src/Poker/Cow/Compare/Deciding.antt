-- ===== src/Poker/Cow/Compare/Deciding.antt =====
-- compareGroupPoker on two hands, in either order.
use white_board_server.Prelude.{
  ℕ, ◌≡◌, ◌≢◌, Bool, true, false, not, some, ltb, ◌==◌, arith, if◌then◌else◌, inl, inr,
}
use white_board_server.Poker.Card.{OnePoker, compare_single_poker, find_max_poker}
use white_board_server.Poker.Card.Order.{compare_single_poker_connex}
use white_board_server.Poker.Group.{GroupPoker, five_cards}
use white_board_server.Poker.Cow.{Sorter}
use white_board_server.Poker.Cow.Compare.{
  calc_cow_data, compare_niutype, loses_by_card, loses_by_type, is_tie, compare_group_poker,
}

-- Whether a group of one type and greatest card loses to another.
loses : ℕ → OnePoker → ℕ → OnePoker → Bool
loses m p n q = if m == n then not (compare_single_poker p q) else ltb m n

loses-swap : (m n : ℕ) (p q : OnePoker) → p ≢ q → loses n q m p ≡ not (loses m p n q)
unfolding loses
loses-swap m n p q apart = elim (compare_single_poker_connex p q) [
  | inl e ↦ ground (arith, e)
  | inr same ↦ absurd (apart same)
]

module _ ⦃s : Sorter⦄ where
  calc_cow_data-max :
      (g : GroupPoker) (by_type : Bool)
      → g.b_calc ≡ false
      → (calc_cow_data g by_type).max_poker ≡ some (find_max_poker (five_cards g.poker))
  unfolding calc_cow_data
  calc_cow_data-max g true h = ground (arith, h)
  calc_cow_data-max g false h = ground (arith, h)

  compare_group_poker-loses :
      (a b : GroupPoker) (x y : Bool)
      → a.b_calc ≡ false
      → b.b_calc ≡ false
      → let a' = calc_cow_data a x in
        let b' = calc_cow_data b y in
        compare_group_poker a x b y
        ≡ some (
          loses a'.dn_type
              (find_max_poker (five_cards a.poker))
              b'.dn_type
              (find_max_poker (five_cards b.poker)),
          a',
          b',
        )
  unfolding compare_group_poker loses compare_niutype loses_by_card loses_by_type is_tie
  compare_group_poker-loses a b x y ha hb =
      ground (arith, calc_cow_data-max a x ha, calc_cow_data-max b y hb)

  -- Two hands whose types are not calculated yet and whose greatest cards differ are always
  -- decided: one of them loses and the other does not, whichever is given first and whether or not
  -- either is compared by its type; and both groups come back with their types calculated.
  pub compare_group_poker-decides :
      (a b : GroupPoker) (x y : Bool)
      → a.b_calc ≡ false
      → b.b_calc ≡ false
      → find_max_poker (five_cards a.poker) ≢ find_max_poker (five_cards b.poker)
      → (a_lose : Bool) × (compare_group_poker a x b y
          ≡ some (a_lose, calc_cow_data a x, calc_cow_data b y))
        × (compare_group_poker b y a x ≡ some (not a_lose, calc_cow_data b y, calc_cow_data a x))
  compare_group_poker-decides a b x y ha hb apart =
      let p = find_max_poker (five_cards a.poker) in
      let q = find_max_poker (five_cards b.poker) in
      let m = (calc_cow_data a x).dn_type in
      let n = (calc_cow_data b y).dn_type in
      (
        loses m p n q,
        compare_group_poker-loses a b x y ha hb,
        ground (arith, compare_group_poker-loses b a y x hb ha, loses-swap m n p q apart),
      )
