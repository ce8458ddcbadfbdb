-- ===== src/Poker/Draw/Tests.antt =====
-- A stock of one hand, a rand() that counts, and the theorems of the draw applied to them.
use white_board_server.Prelude.{ℕ, ◌+◌, ◌-◌, ◌%◌, ◌≡◌, refl, false, some, List, [], ◌∷◌, arith}
use white_board_server.Prelude.Int.{ℤ}
use white_board_server.Containers.Ord.{nat_ord}
use white_board_server.Containers.Map.{find, put}
use white_board_server.Poker.Group.{GroupPoker, reset_group, has_same_poker}
use white_board_server.Poker.Card.{change_jqk}
use white_board_server.Poker.Cow.Kinds.{any_four, any_ten, three_sums, two_sums}
use white_board_server.Poker.Cow.{find_cow, niu_type}
use white_board_server.Poker.Gen.{PokerSet, PokerGen, get_poker_group_count}
use white_board_server.Poker.Tests.{by_insertion}
use white_board_server.Poker.Draw.{confuse, diamonds, get_assign_group_poker, init_gen}
use white_board_server.Poker.Draw.Colours.{IsFair}
use white_board_server.Poker.Draw.Confusing.{Confused, confuse-Confused}
use white_board_server.Poker.Draw.Stock.{Stocked, put-Stocked, init_gen-Stocked}
use white_board_server.Poker.Draw.Drawn.{get_assign_group_poker-drawn}

abbrev count : ℕ → ℕ
count k = k

count-IsFair : IsFair 4 count
unfolding IsFair
count-IsFair k c small = ((c + 4 - k % 4) % 4, omega arith, omega (arith, small))

abbrev tens : GroupPoker
tens = record (diamonds 10 10 11 11 12) { dn_type = 10 }

confuse-Confused_example :
    (g : GroupPoker) × (k : ℕ) × (confuse count 20 7 tens ≡ some (g, k)) × Confused tens g
unfolding reset_group
confuse-Confused_example =
    confuse-Confused count 4 20 7 tens count-IsFair refl
      (omega arith, (omega arith, (omega arith, (omega arith, (omega arith, tt))))) (omega arith)

abbrev bare : PokerGen
bare = record { poker_maps = []; configs = []; use_rand_poker = 0 }

bare-Stocked : Stocked bare
unfolding Stocked find
bare-Stocked kind s e = absurd (ground (arith, e))

abbrev of_tens : PokerSet
of_tens = record { card_type = 10; group_pokers = tens ∷ [] }

abbrev stocked : PokerGen
stocked = record bare { poker_maps = put 10 of_tens bare.poker_maps }

stocked-Stocked : Stocked stocked
unfolding reset_group niu_type any_four any_ten three_sums two_sums change_jqk
stocked-Stocked =
    put-Stocked 10 of_tens bare
      (
        (
          refl,
          (omega arith, (omega arith, (omega arith, (omega arith, (omega arith, tt))))),
          refl,
          refl,
        ),
        tt,
      )
      bare-Stocked

init_gen-Stocked_example : (gen : PokerGen) × (init_gen bare ≡ some gen) × Stocked gen
init_gen-Stocked_example = init_gen-Stocked bare bare-Stocked

get_assign_group_poker-drawn_example :
    (g : GroupPoker) × (gen : PokerGen) × (k : ℕ) × (get_assign_group_poker count 20 7 10 stocked
      ≡ some (some g, gen, k))
    × ((niu other : List ℤ) → (find_cow g.poker niu other).0 ≡ 10)
    × (has_same_poker g ≡ false)
    × Stocked gen
unfolding find put get_poker_group_count
get_assign_group_poker-drawn_example =
    get_assign_group_poker-drawn count 4 20 7 10 count-IsFair (omega arith) stocked of_tens
      stocked-Stocked refl (omega arith)
