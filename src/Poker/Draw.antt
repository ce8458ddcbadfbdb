-- ===== src/Poker/Draw.antt =====
-- Drawing a hand of a type: DNGroupPoker::Confuse, DNPokerSet::GetRandomGroupPoker, DNPokerGen::Init
-- and the draws of DNPokerGen (dn_poker.cpp). `rand` gives the results of the calls of rand() in
-- their order, and `k` is the number of the next call. The loop of Confuse takes fuel, and an outer
-- `none` is that the fuel ran out.
pub mod Colours
pub mod Confusing
pub mod Stock
pub mod Drawn
pub mod Tests
use white_board_server.Prelude.{
  ℕ, ◌+◌, ◌-◌, ◌%◌, Bool, true, false, ◌&&◌, ◌||◌, Option, none, some, List, [], ◌∷◌, ◌++◌, leb,
  ◌==◌, if◌then◌else◌, zero, suc, get_elem?, set,
}
use white_board_server.Containers.Ord.{nat_ord}
use white_board_server.Containers.Map.{Map, find, put}
use white_board_server.Poker.Card.{OnePoker, find_max_poker}
use white_board_server.Poker.Group.{Five, GroupPoker, five_cards, reset_group, set_max_poker}
use white_board_server.Poker.Cow.{Sorter}
use white_board_server.Poker.Cow.Compare.{calc_cow_data}
use white_board_server.Poker.Gen.{
  PokerSet, PokerGen, add_group_poker, set_of_rate, rate_of_range, get_poker_group_count,
}

-- Whether a card before has the colour and the value.
unfoldable pub clashes : OnePoker → List OnePoker → Bool
clashes p [] = false
clashes p (q ∷ rest) =
    ((p.poker_color == q.poker_color) && (p.poker_value == q.poker_value)) || clashes p rest

-- The loop of Confuse: the cards before place i, and those from it on.
unfoldable pub confuse_loop :
    (ℕ → ℕ) → ℕ → ℕ → List OnePoker → List OnePoker → Option (List OnePoker × ℕ)
unfolding clashes
confuse_loop rand fuel k before [] = some (before, k)
confuse_loop rand zero k before (p ∷ rest) = none
confuse_loop rand (suc fuel) k before (p ∷ rest) =
    let card : OnePoker = record p { poker_color = rand k % 4 + 1 } in
    elim (clashes card before) [
      | true ↦ confuse_loop rand fuel (k + 1) before (card ∷ rest)
      | false ↦ confuse_loop rand fuel (k + 1) (before ++ card ∷ []) rest
    ]

unfoldable pub five_of : List OnePoker → Five OnePoker → Five OnePoker
five_of (a ∷ b ∷ c ∷ d ∷ e ∷ []) f = record { at0 = a; at1 = b; at2 = c; at3 = d; at4 = e }
five_of _ f = f

-- DNGroupPoker::Confuse
unfoldable pub confuse : (ℕ → ℕ) → ℕ → ℕ → GroupPoker → Option (GroupPoker × ℕ)
unfolding confuse_loop five_of
confuse rand fuel k g = elim (confuse_loop rand fuel k [] (five_cards g.poker)) [
  | none ↦ none
  | some (cards, k') ↦
      some (set_max_poker (record g { poker = five_of cards g.poker }) (find_max_poker cards), k')
]

-- DNPokerSet::GetRandomGroupPoker: the group that it returns, or an inner `none` for nullptr, and
-- the set.
unfoldable pub random_of_set :
    (ℕ → ℕ) → ℕ → ℕ → PokerSet → Option (Option GroupPoker × PokerSet × ℕ)
unfolding confuse get_poker_group_count
random_of_set rand fuel k s =
    let num = get_poker_group_count s in
    let index = num - 1 - rand k % num in
    if num == 0 then some (none, s, k) else elim (get_elem? s.group_pokers index) [
      | none ↦ some (none, s, k)
      | some g ↦ elim (confuse rand fuel (k + 1) g) [
        | none ↦ none
        | some (g', k') ↦
            some (some g', record s { group_pokers = set s.group_pokers index g' }, k')
      ]
    ]

-- DNPokerGen::GetAssignGroupPoker
unfoldable pub get_assign_group_poker :
    (ℕ → ℕ) → ℕ → ℕ → ℕ → PokerGen → Option (Option GroupPoker × PokerGen × ℕ)
unfolding random_of_set
get_assign_group_poker rand fuel k kind gen = elim (find kind gen.poker_maps) [
  | none ↦ some (none, gen, k)
  | some s ↦ elim (random_of_set rand fuel k s) [
    | none ↦ none
    | some (g, s', k') ↦ some (g, record gen { poker_maps = put kind s' gen.poker_maps }, k')
  ]
]

-- One of the five nested loops of Init over the values of a card.
pub for_values : List ℕ → (ℕ → PokerGen → Option PokerGen) → PokerGen → Option PokerGen
for_values [] body gen = some gen
for_values (v ∷ rest) body gen = elim (body v gen) [
  | none ↦ none
  | some gen' ↦ for_values rest body gen'
]

-- From MIN_DNPOKER_VALUE to MAX_DNPOKER_VALUE
abbrev pub all_values : List ℕ
all_values = 1 ∷ 2 ∷ 3 ∷ 4 ∷ 5 ∷ 6 ∷ 7 ∷ 8 ∷ 9 ∷ 10 ∷ 11 ∷ 12 ∷ 13 ∷ []

-- DN_POKER_COLOR_DIAMONDS
abbrev pub diamond : ℕ → OnePoker
diamond v = record { poker_value = v; poker_color = 1 }

abbrev pub diamonds : ℕ → ℕ → ℕ → ℕ → ℕ → GroupPoker
diamonds i j m n o = record reset_group {
  poker = record {
    at0 = diamond i;
    at1 = diamond j;
    at2 = diamond m;
    at3 = diamond n;
    at4 = diamond o;
  };
}

abbrev pub all_same : ℕ → ℕ → ℕ → ℕ → ℕ → Bool
all_same i j m n o = (i == j) && (i == m) && (i == n) && (i == o)

module _ ⦃s : Sorter⦄ where
  -- The body of the loops of Init.
  pub add_diamonds : ℕ → ℕ → ℕ → ℕ → ℕ → PokerGen → Option PokerGen
  add_diamonds i j m n o gen =
      if all_same i j m n o
      then some gen
      else add_group_poker (calc_cow_data (diamonds i j m n o) true) gen

  -- DNPokerGen::Init: `none` is a failed assertion.
  pub init_gen : PokerGen → Option PokerGen
  unfolding for_values add_diamonds
  init_gen = for_values all_values λ i. for_values all_values λ j.
      for_values all_values
        λ m. for_values all_values λ n. for_values all_values λ o. add_diamonds i j m n o
