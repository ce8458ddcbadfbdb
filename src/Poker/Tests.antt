-- ===== src/Poker/Tests.antt =====
-- Concrete hands and decks, and the theorems applied to them.
use mathlib.Core.List.{Permᴰ}
use mathlib.Core.List.Permᴰ
use white_board_server.Prelude.{
  ◌%◌, ◌==◌, Bool-cases, inl, inr, ◌&&◌, ◌≤◌, ℕ, ◌+◌, ◌≡◌, ◌≢◌, refl, Bool, true, false, not, none,
  some, List, [], ◌∷◌, ◌++◌, leb, arith, if◌then◌else◌, All, drop, take, length, ◌*◌, ap,
}
use white_board_server.Prelude.Int.{ℤ, pos}
use white_board_server.Poker.Card.{OnePoker, is_below, find_max_poker, max_from}
use white_board_server.Poker.Deck.{
  Deck, deal_pokers, shuffle, fill, card_at, init_poker, init_poker_except_group,
}
use white_board_server.Poker.Deck.Complete.{occurrences, init_poker-occurrences}
use white_board_server.Poker.Deck.Shuffling.Reaching.{results, shuffle-orders}
use white_board_server.Poker.Deck.Dealing.{dealt, hand_of, is_five, deal_pokers-dealt}
use white_board_server.Poker.Deck.Filling.{outside, init_poker_except_group-outside}
use white_board_server.Poker.Group.{Five, GroupPoker, five_cards, no_five, no_two}
use white_board_server.Poker.Cow.{IsSorted, Sorter, find_cow}
use white_board_server.Poker.Cow.Claim.{has_cow}
use white_board_server.Poker.Cow.Compare.{calc_cow_data, compare_group_poker}
use white_board_server.Poker.Cow.Rules.{rule, find_cow-rule}
use white_board_server.Poker.Cow.Claim.Verifying.{has_cow-find_cow}
use white_board_server.Poker.Cow.Compare.Deciding.{compare_group_poker-decides}
use white_board_server.Poker.Check.{
  names_each_place, claimed, check_cow_with_poker_info, count_places, all_once,
}
use white_board_server.Poker.Check.Verdict.{
  points, check_cow_with_poker_info-king, check_cow_with_poker_info-sum,
}
use white_board_server.Containers.Ord.{nat_ord}

-- Insertion by the value alone.
put_pair : ℕ × ℕ → List (ℕ × ℕ) → List (ℕ × ℕ)
put_pair p [] = p ∷ []
put_pair p (q ∷ rest) = if leb p.0 q.0 then p ∷ q ∷ rest else q ∷ put_pair p rest

put_pair-Permᴰ : (p : ℕ × ℕ) (l : List (ℕ × ℕ)) → Permᴰ (put_pair p l) (p ∷ l)
unfolding put_pair
put_pair-Permᴰ p [] = Permᴰ.refl (p ∷ [])
put_pair-Permᴰ p (q ∷ rest) = by_test (leb p.0 q.0) (put_pair-Permᴰ p rest)
  where
    by_test :
        (b : Bool)
        → Permᴰ (put_pair p rest) (p ∷ rest)
        → Permᴰ (if b then p ∷ q ∷ rest else q ∷ put_pair p rest) (p ∷ q ∷ rest)
    by_test true d = Permᴰ.refl (p ∷ q ∷ rest)
    by_test false d = Permᴰ.trans (Permᴰ.cons refl d) (Permᴰ.swap refl refl)

insertion_sort : List (ℕ × ℕ) → List (ℕ × ℕ)
unfolding put_pair
insertion_sort [] = []
insertion_sort (p ∷ rest) = put_pair p (insertion_sort rest)

insertion_sort-Permᴰ : (l : List (ℕ × ℕ)) → Permᴰ (insertion_sort l) l
unfolding insertion_sort
insertion_sort-Permᴰ [] = Permᴰ.nil
insertion_sort-Permᴰ (p ∷ rest) =
    Permᴰ.trans (put_pair-Permᴰ p (insertion_sort rest))
      (Permᴰ.cons refl (insertion_sort-Permᴰ rest))

All-put_pair :
    (m : ℕ) (p : ℕ × ℕ) (l : List (ℕ × ℕ))
    → m ≤ p.0
    → All (λ q. m ≤ q.0) l
    → All (λ q. m ≤ q.0) (put_pair p l)
unfolding put_pair
All-put_pair m p [] h a = (h, tt)
All-put_pair m p (q ∷ rest) h a = ground (arith, h, a, All-put_pair m p rest h a.1)

All-mono : (m n : ℕ) (l : List (ℕ × ℕ)) → m ≤ n → All (λ q. n ≤ q.0) l → All (λ q. m ≤ q.0) l
All-mono m n [] h a = tt
All-mono m n (q ∷ rest) h a = (omega (arith, h, a.0), All-mono m n rest h a.1)

put_pair-IsSorted : (p : ℕ × ℕ) (l : List (ℕ × ℕ)) → IsSorted l → IsSorted (put_pair p l)
unfolding put_pair
put_pair-IsSorted p [] s = (tt, tt)
put_pair-IsSorted p (q ∷ rest) s = elim (Bool-cases (leb p.0 q.0)) [
  | inl e ↦
      let low : p.0 ≤ q.0 = ground (arith, e) in rw e ((low, All-mono p.0 q.0 rest low s.0), s)
  | inr e ↦ rw e (All-put_pair q.0 p rest (ground (arith, e)) s.0, put_pair-IsSorted p rest s.1)
]

insertion_sort-IsSorted : (l : List (ℕ × ℕ)) → IsSorted (insertion_sort l)
unfolding insertion_sort
insertion_sort-IsSorted [] = tt
insertion_sort-IsSorted (p ∷ rest) =
    put_pair-IsSorted p (insertion_sort rest) (insertion_sort-IsSorted rest)

instance pub by_insertion : Sorter
by_insertion = record {
  sort = insertion_sort;
  sort-Permᴰ = insertion_sort-Permᴰ;
  sort-IsSorted = insertion_sort-IsSorted;
}

abbrev card : ℕ → ℕ → OnePoker
card value color = record { poker_value = value; poker_color = color }

-- A five, two aces and two twos: eleven points, and no three cards of ten or twenty.
abbrev hand : Five OnePoker
hand = record { at0 = card 5 1; at1 = card 1 1; at2 = card 1 2; at3 = card 2 1; at4 = card 2 2 }

abbrev kings : Five OnePoker
kings = record { at0 = card 13 1; at1 = card 13 2; at2 = card 10 2; at3 = card 2 1; at4 = card 8 2 }

abbrev group_of : Five OnePoker → GroupPoker
group_of cards = record {
  poker = cards;
  dn_type = 0;
  max_poker = none;
  b_calc = false;
  niu_poker_index = no_five;
  other_poker_index = no_two;
}

abbrev in_order : Five ℤ
in_order = record { at0 = pos 0; at1 = pos 1; at2 = pos 2; at3 = pos 3; at4 = pos 4 }

named : names_each_place in_order ≡ true
unfolding names_each_place count_places all_once
named = refl

has_cow-find_cow_example :
    let (kind, niu, other) = find_cow kings no_five no_two in has_cow kings niu ≡ kind
has_cow-find_cow_example = has_cow-find_cow kings no_two

find_cow-rule_example : (find_cow kings no_five no_two).0 ≡ rule kings
find_cow-rule_example = find_cow-rule kings no_five no_two

apart : find_max_poker (five_cards hand) ≢ find_max_poker (five_cards kings)
unfolding find_max_poker max_from is_below
apart e = absurd (ground (arith, ap (λ (p : OnePoker). p.poker_value) e))

compare_group_poker-decides_example :
    let a = group_of hand in
    let b = group_of kings in
    (a_lose : Bool) × (compare_group_poker a true b true
      ≡ some (a_lose, calc_cow_data a true, calc_cow_data b true))
    × (compare_group_poker b true a true
        ≡ some (not a_lose, calc_cow_data b true, calc_cow_data a true))
compare_group_poker-decides_example =
    compare_group_poker-decides (group_of hand) (group_of kings) true true refl refl apart

check_cow_with_poker_info-king_example :
    check_cow_with_poker_info 3 in_order (group_of kings) ≡ none
check_cow_with_poker_info-king_example =
    check_cow_with_poker_info-king 3 0 in_order (group_of kings) (card 13 1) named refl refl

abbrev small_deck : Deck
small_deck = record {
  cards = card 1 1 ∷ card 1 2 ∷ card 2 1 ∷ card 2 2 ∷ card 3 1 ∷ card 3 2 ∷ [];
  deal_position = 0;
  poker_min_value = 1;
  poker_max_value = 3;
}

-- The same cards with the last two first.
abbrev reordered : List OnePoker
reordered = card 3 1 ∷ card 3 2 ∷ card 1 1 ∷ card 1 2 ∷ card 2 1 ∷ card 2 2 ∷ []

shuffle-orders_example :
    ((cards : List OnePoker) × (shuffle (λ k. k + 3) 2 small_deck
        ≡ some (record small_deck { cards = cards; deal_position = 0 }))
      × Permᴰ cards small_deck.cards)
    × ((is : List ℕ) × (shuffle (results is) 1 small_deck
          ≡ some (record small_deck { cards = reordered; deal_position = 0 })))
shuffle-orders_example = shuffle-orders (λ k. k + 3) 2 small_deck reordered (λ p. omega arith)

deal_pokers-dealt_example :
    let (hands, d') = deal_pokers 2 small_deck in
    (hand_of 0 hands ≡ (
      if leb (0 + 5 * 0 + 5) (length small_deck.cards)
      then some (take 5 (drop (0 + 5 * 0) small_deck.cards))
      else none))
    × (dealt hands ++ drop d'.deal_position d'.cards ≡ drop 0 small_deck.cards)
    × All (λ h. is_five h ≡ true) hands
    × (d'.cards ≡ small_deck.cards)
deal_pokers-dealt_example = deal_pokers-dealt 2 small_deck 0 (omega arith)

abbrev aces_and_twos : Deck
aces_and_twos = record {
  cards =
      card 1 1 ∷ card 2 1 ∷ card 1 2 ∷ card 2 2 ∷ card 1 3 ∷ card 2 3 ∷ card 1 4 ∷ card 2 4 ∷ [];
  deal_position = 0;
  poker_min_value = 1;
  poker_max_value = 2;
}

init_poker-occurrences_example :
    occurrences (card 2 3) aces_and_twos.cards
    ≡ (if leb 1 3 && leb 3 4 && leb 1 2 && leb 2 2 then 1 else 0)
unfolding init_poker fill card_at
init_poker-occurrences_example = init_poker-occurrences 1 2 aces_and_twos (card 2 3) refl

init_poker_except_group-outside_example :
    (init_poker_except_group 1 2 (five_cards hand)
      ≡ some (record aces_and_twos { cards = outside (five_cards hand) aces_and_twos.cards }))
    × (occurrences (card 1 1) (outside (five_cards hand) aces_and_twos.cards) ≡ (
        if leb 1 1
          && leb 1 4
          && leb 1 1
          && leb 1 2
          && (occurrences (card 1 1) (five_cards hand) == 0)
        then 1
        else 0))
unfolding init_poker fill card_at
init_poker_except_group-outside_example =
    init_poker_except_group-outside 1 2 (five_cards hand) aces_and_twos (card 1 1) (omega arith)
      refl

check_cow_with_poker_info-sum_example :
    check_cow_with_poker_info 1 in_order (group_of hand)
    ≡ some (
        if points (five_cards hand) % 10 == 1 % 10
        then (true, claimed 1 in_order (group_of hand))
        else (false, group_of hand))
check_cow_with_poker_info-sum_example =
    check_cow_with_poker_info-sum 1 in_order (group_of hand) named (ground arith) (omega arith)
