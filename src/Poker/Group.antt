-- ===== src/Poker/Group.antt =====
-- A hand of five cards: DNGroupPoker (dn_poker.h) and the types of hands, DNCardType.
use white_board_server.Prelude.{
  ℕ, Bool, true, false, not, ◌&&◌, ◌||◌, Option, none, some, List, [], ◌∷◌, ltb,
}
use white_board_server.Prelude.Int.{ℤ, pos, minus_one}
use white_board_server.Poker.Card.{OnePoker, null_poker, is_null_poker, same_poker}

-- DN_TYPE
abbrev pub mei_niu : ℕ
mei_niu = 0

abbrev pub niu_niu : ℕ
niu_niu = 10

abbrev pub si_zha : ℕ
si_zha = 11

abbrev pub wu_hua_niu : ℕ
wu_hua_niu = 12

abbrev pub wu_xiao_niu : ℕ
wu_xiao_niu = 13

-- A sequence of five: the source's array.
pub record Five {ℓ} (A : Type ℓ) : Type ℓ where
  pub at0 : A
  pub at1 : A
  pub at2 : A
  pub at3 : A
  pub at4 : A

-- `max_poker` points to a card of the hand; here it is that card, and `none` is nullptr. So a copy of a
-- group, whose pointer points into the group that was copied, has a card of its own.
pub record GroupPoker : Type 0 where
  pub poker : Five OnePoker
  pub dn_type : ℕ
  pub max_poker : Option OnePoker
  pub b_calc : Bool
  pub niu_poker_index : List ℤ
  pub other_poker_index : List ℤ

abbrev pub five_cards {ℓ} : {A : Type ℓ} → Five A → List A
five_cards f = f.at0 ∷ f.at1 ∷ f.at2 ∷ f.at3 ∷ f.at4 ∷ []

abbrev pub no_five : List ℤ
no_five = minus_one ∷ minus_one ∷ minus_one ∷ minus_one ∷ minus_one ∷ []

abbrev pub no_two : List ℤ
no_two = minus_one ∷ minus_one ∷ []

abbrev pub all_five : List ℤ
all_five = pos 0 ∷ pos 1 ∷ pos 2 ∷ pos 3 ∷ pos 4 ∷ []

-- reset()
unfoldable pub reset_group : GroupPoker
reset_group = record {
  poker = record {
    at0 = null_poker;
    at1 = null_poker;
    at2 = null_poker;
    at3 = null_poker;
    at4 = null_poker;
  };
  dn_type = 0;
  max_poker = none;
  b_calc = false;
  niu_poker_index = no_five;
  other_poker_index = no_two;
}

-- has_deal(): whether a card has a value and a colour.
has_deal_card : List OnePoker → Bool
has_deal_card [] = false
has_deal_card (p ∷ rest) = ltb 0 p.poker_value && ltb 0 p.poker_color || has_deal_card rest

pub has_deal : GroupPoker → Bool
unfolding has_deal_card
has_deal g = has_deal_card (five_cards g.poker)

-- hasPoker(): whether no card is null.
pub has_poker : GroupPoker → Bool
has_poker g = not (
    is_null_poker g.poker.at0
    || is_null_poker g.poker.at1
    || is_null_poker g.poker.at2
    || is_null_poker g.poker.at3
    || is_null_poker g.poker.at4)

-- HasSamePoker(): the loops over pairs of places.
unfoldable pub same_as_one : OnePoker → List OnePoker → Bool
same_as_one p [] = false
same_as_one p (q ∷ rest) = same_poker p q || same_as_one p rest

unfoldable pub has_same : List OnePoker → Bool
unfolding same_as_one
has_same [] = false
has_same (p ∷ rest) = same_as_one p rest || has_same rest

unfoldable pub has_same_poker : GroupPoker → Bool
unfolding has_same
has_same_poker g = has_same (five_cards g.poker)

-- calcByNoNiu()
pub calc_by_no_niu : GroupPoker → GroupPoker
calc_by_no_niu g = record g {
  niu_poker_index = all_five;
  other_poker_index = no_two;
  dn_type = mei_niu;
}

-- setNiuPokerIndex(), setMaxPoker()
abbrev pub set_niu_poker_index : GroupPoker → List ℤ → List ℤ → GroupPoker
set_niu_poker_index g niu other = record g { niu_poker_index = niu; other_poker_index = other }

abbrev pub set_max_poker : GroupPoker → OnePoker → GroupPoker
set_max_poker g p = record g { max_poker = some p }

-- isTypeIdentified()
pub is_type_identified : GroupPoker → Bool
is_type_identified g = elim g.max_poker [ none ↦ false | some p ↦ true ]
