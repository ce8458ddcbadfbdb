-- ===== src/Poker/Cow/Claim/Sums.antt =====
-- The sums that hasCow makes, beside those of findCow.
use white_board_server.Prelude.{◌≡◌, refl, List, [], ◌∷◌, arith}
use white_board_server.Poker.Card.{OnePoker}
use white_board_server.Poker.Cow.{Tally, tally, tally_card}
use white_board_server.Poker.Cow.Claim.{xiao_loop, hua_loop, total_loop}

pub tally-xiao :
    (hand : List OnePoker) (t : Tally)
    → xiao_loop hand t.wuxiao_num t.wuxiao_sum
      ≡ ((tally hand t).wuxiao_num, (tally hand t).wuxiao_sum)
unfolding tally tally_card xiao_loop
tally-xiao [] t = refl
tally-xiao (p ∷ rest) t = ground (arith, tally-xiao rest (tally_card t p))

pub tally-hua :
    (hand : List OnePoker) (t : Tally) → hua_loop hand t.wuhua_num ≡ (tally hand t).wuhua_num
unfolding tally tally_card hua_loop
tally-hua [] t = refl
tally-hua (p ∷ rest) t = ground (arith, tally-hua rest (tally_card t p))

pub tally-total :
    (hand : List OnePoker) (t : Tally)
    → total_loop hand t.all_poker_sum ≡ (tally hand t).all_poker_sum
unfolding tally tally_card total_loop
tally-total [] t = refl
tally-total (p ∷ rest) t = ground (arith, tally-total rest (tally_card t p))
