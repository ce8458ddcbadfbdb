-- ===== src/Poker/Gen.antt =====
-- The stock of hands by type and the rates of the types: DNPokerSet, PokerTypeRateConfig and
-- DNPokerGen (dn_poker.h, dn_poker.cpp), up to the choice of a set. `none` is a failed assertion.
pub mod Rates
use white_board_server.Prelude.{
  ℕ, ◌+◌, ◌-◌, ◌%◌, Bool, true, false, ◌&&◌, Option, none, some, List, [], ◌∷◌, ◌++◌, ltb, leb,
  ◌==◌, if◌then◌else◌, length,
}
use white_board_server.Containers.Ord.{nat_ord}
use white_board_server.Containers.Map.{Map, find, put}
use white_board_server.Poker.Group.{GroupPoker, wu_xiao_niu}

pub record PokerTypeRateConfig : Type 0 where
  pub dn_poker_type : ℕ
  pub begin_rate : ℕ
  pub end_rate : ℕ

-- IsInRate
pub is_in_rate : PokerTypeRateConfig → ℕ → Bool
is_in_rate config rand_num = leb config.begin_rate rand_num && ltb rand_num config.end_rate

pub record PokerSet : Type 0 where
  pub card_type : ℕ
  pub group_pokers : List GroupPoker

-- DNPokerSet::DNPokerSet
abbrev pub new_set : ℕ → PokerSet
new_set card_type = record { card_type = card_type; group_pokers = [] }

-- DNPokerSet::AddGroupPoker
unfoldable pub add_to_set : PokerSet → GroupPoker → PokerSet
add_to_set s g = record s { group_pokers = s.group_pokers ++ g ∷ [] }

-- DNPokerSet::GetPokerGroupCount
unfoldable pub get_poker_group_count : PokerSet → ℕ
get_poker_group_count s = length s.group_pokers

pub record PokerGen : Type 0 where
  pub poker_maps : Map ℕ PokerSet
  pub configs : List PokerTypeRateConfig
  pub use_rand_poker : ℕ

abbrev pub dn_type_count : ℕ
dn_type_count = 14

-- DNPokerGen::AddGroupPoker
unfoldable pub add_group_poker : GroupPoker → PokerGen → Option PokerGen
unfolding add_to_set
add_group_poker g gen =
    let kind = g.dn_type in
    let set_now : PokerSet = elim (find kind gen.poker_maps) [ none ↦ new_set kind | some s ↦ s ] in
    if ltb kind dn_type_count
    then some (record gen { poker_maps = put kind (add_to_set set_now g) gen.poker_maps })
    else none

pub add_rate_config : ℕ → ℕ → ℕ → PokerGen → Option PokerGen
add_rate_config kind begin_rate end_rate gen =
    if leb begin_rate end_rate
    then some (record gen {
      configs =
          gen.configs
          ++ record { dn_poker_type = kind; begin_rate = begin_rate; end_rate = end_rate } ∷ [];
    })
    else none

pub clear_config : PokerGen → PokerGen
clear_config gen = record gen { configs = [] }

-- UseRandPoker, and Final, which passes 0.
pub use_rand : ℕ → PokerGen → PokerGen
use_rand use_now gen = record gen { use_rand_poker = use_now }

unfoldable pub get_config : List PokerTypeRateConfig → ℕ → Option PokerTypeRateConfig
get_config [] kind = none
get_config (config ∷ rest) kind =
    let later = get_config rest kind in if config.dn_poker_type == kind then some config else later

unfoldable pub get_config_by_poker_type : PokerGen → ℕ → Option PokerTypeRateConfig
unfolding get_config
get_config_by_poker_type gen kind = get_config gen.configs kind

-- The loop of GetRandomGroupPokerByRate: the type of the first range that has the number, or 0.
pub type_of_rate : List PokerTypeRateConfig → ℕ → ℕ
unfolding is_in_rate
type_of_rate [] rand_num = 0
type_of_rate (config ∷ rest) rand_num =
    let later = type_of_rate rest rand_num in
    if is_in_rate config rand_num then config.dn_poker_type else later

-- The set from which GetRandomGroupPokerByRate draws; `none` is nullptr.
pub set_of_rate : PokerGen → ℕ → Option PokerSet
unfolding type_of_rate
set_of_rate gen rand_num = find (type_of_rate gen.configs rand_num) gen.poker_maps

unfoldable pub rate_between : Option PokerTypeRateConfig → Option PokerTypeRateConfig → ℕ → Option ℕ
rate_between none q r = none
rate_between (some p) none r = none
rate_between (some p) (some q) r =
    if leb q.end_rate p.begin_rate
    then none
    else some (p.begin_rate + r % (q.end_rate - p.begin_rate))

-- GetRandomGroupPoker with a range of types: the number that it draws with a result `r` of rand(),
-- an inner `none` where it returns nullptr.
unfoldable pub rate_of_range : PokerGen → ℕ → ℕ → ℕ → Option (Option ℕ)
unfolding rate_between get_config_by_poker_type
rate_of_range gen begin_type end_type r =
    if ltb begin_type end_type && leb end_type wu_xiao_niu
    then some (
        rate_between (get_config_by_poker_type gen begin_type)
          (get_config_by_poker_type gen end_type) r)
    else none
