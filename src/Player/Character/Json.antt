-- ===== src/Player/Character/Json.antt =====
-- The numbers of a player in JSON: the first members of PlayerCharacterInfo::ToJson, and what
-- FromJson makes of them (game_base/account/source/player_def.cpp).
use white_board_server.Prelude.{◌^◌, ◌<◌, ◌≡◌, refl, List, [], ◌∷◌, ◌++◌, true, text}
use white_board_server.Prelude.Int.{pos}
use white_board_server.Containers.Ord.{Bytes, bytes_eq}
use white_board_server.Player.Json.{Rapidjson, fits}
use white_board_server.Player.Json.Members.{
  add_members, int_of, int64_of, uint32_of, uint8_of, int_of-listed, int64_of-listed,
  uint32_of-listed, uint8_of-listed,
}
use white_board_server.Player.Character.{PlayerCharacterInfo}

module _ ⦃json : Rapidjson⦄ where
  -- The numbers that ToJson adds, in order.
  abbrev pub number_members : PlayerCharacterInfo → List (Bytes × json.Value)
  number_members c =
      (text "played", json.number (pos c.played))
      ∷ (text "wined", json.number (pos c.wined))
      ∷ (text "maxwin", json.number c.max_win)
      ∷ (text "maxlose", json.number c.max_lose)
      ∷ (text "onlineSpree", json.number (pos c.online_spree))
      ∷ (text "online_spree_time", json.number (pos c.online_spree_time))
      ∷ (text "nextSpreeRemaningTime", json.number (pos c.next_spree_remaning_time))
      ∷ (text "online_spree_sum", json.number (pos c.online_spree_sum))
      ∷ (text "rank_time", json.number (pos c.rank_time))
      ∷ (text "allday_maxwin", json.number c.day_maxwin)
      ∷ (text "day_maxwin", json.number c.this_day_max_win)
      ∷ (text "day_caishen", json.number c.this_day_caishen)
      ∷ (text "day_wanren", json.number c.this_day_wan_ren)
      ∷ (text "day_payment", json.number c.this_day_payment)
      ∷ (text "yesterday_payment", json.number c.yesterday_payment)
      ∷ (text "lastTimeOfDayMaxWin", json.number c.last_time_of_day_max_win)
      ∷ (text "lastTimeOfDayCaishen", json.number c.last_time_of_day_caishen)
      ∷ (text "lastTimeOfWanRen", json.number c.last_time_of_day_wan_ren)
      ∷ (text "lastTimeOfDayPayment", json.number c.last_time_of_day_payment)
      ∷ (text "rank", json.number (pos c.rank))
      ∷ (text "current_guarantee_basic_living_times", json.number (pos c.current_guarantee_times))
      ∷ (text "maxGuaranteeBasicLivingTimes", json.number (pos c.max_guarantee_basic_living_times))
      ∷ (
        text "last_time_of_reset_guarantee_basic_living_times",
        json.number c.last_time_of_reset_guarantee_basic_living_times,
      )
      ∷ (text "raffle", json.number (pos c.raffle))
      ∷ (text "raffle_time", json.number (pos c.raffle_time))
      ∷ (text "maxFillCoins", json.number (pos c.max_fill_coins))
      ∷ (text "nextSpreeValue", json.number (pos c.next_spree_value))
      ∷ (text "lastTimeOfMoneyTreeRock", json.number (pos c.last_time_of_money_tree_rock))
      ∷ (text "settings", json.number (pos c.settings))
      ∷ (text "last_match_type", json.number (pos c.last_match_type))
      ∷ (text "continuous_login", json.number (pos c.continuous_login))
      ∷ []

  -- The part of FromJson that reads them.
  unfoldable pub numbers_from_json : json.Value → PlayerCharacterInfo → PlayerCharacterInfo
  unfolding int_of int64_of uint32_of uint8_of
  numbers_from_json o c = record c {
    played = uint32_of (text "played") o c.played;
    wined = uint32_of (text "wined") o c.wined;
    max_win = int64_of (text "maxwin") o c.max_win;
    max_lose = int64_of (text "maxlose") o c.max_lose;
    online_spree = uint32_of (text "onlineSpree") o c.online_spree;
    online_spree_time = uint32_of (text "online_spree_time") o c.online_spree_time;
    next_spree_remaning_time =
        uint32_of (text "nextSpreeRemaningTime") o c.next_spree_remaning_time;
    online_spree_sum = uint32_of (text "online_spree_sum") o c.online_spree_sum;
    rank_time = uint32_of (text "rank_time") o c.rank_time;
    day_maxwin = int64_of (text "allday_maxwin") o c.day_maxwin;
    this_day_max_win = int64_of (text "day_maxwin") o c.this_day_max_win;
    this_day_caishen = int64_of (text "day_caishen") o c.this_day_caishen;
    this_day_wan_ren = int64_of (text "day_wanren") o c.this_day_wan_ren;
    this_day_payment = int64_of (text "day_payment") o c.this_day_payment;
    yesterday_payment = int64_of (text "yesterday_payment") o c.yesterday_payment;
    last_time_of_day_max_win = int_of (text "lastTimeOfDayMaxWin") o c.last_time_of_day_max_win;
    last_time_of_day_caishen = int_of (text "lastTimeOfDayCaishen") o c.last_time_of_day_caishen;
    last_time_of_day_wan_ren = int_of (text "lastTimeOfWanRen") o c.last_time_of_day_wan_ren;
    last_time_of_day_payment = int_of (text "lastTimeOfDayPayment") o c.last_time_of_day_payment;
    rank = uint32_of (text "rank") o c.rank;
    current_guarantee_times =
        uint8_of (text "current_guarantee_basic_living_times") o c.current_guarantee_times;
    max_guarantee_basic_living_times =
        uint8_of (text "maxGuaranteeBasicLivingTimes") o c.max_guarantee_basic_living_times;
    last_time_of_reset_guarantee_basic_living_times =
        int64_of (text "last_time_of_reset_guarantee_basic_living_times") o
          c.last_time_of_reset_guarantee_basic_living_times;
    raffle = uint32_of (text "raffle") o c.raffle;
    raffle_time = uint32_of (text "raffle_time") o c.raffle_time;
    max_fill_coins = uint32_of (text "maxFillCoins") o c.max_fill_coins;
    next_spree_value = uint32_of (text "nextSpreeValue") o c.next_spree_value;
    last_time_of_money_tree_rock =
        uint32_of (text "lastTimeOfMoneyTreeRock") o c.last_time_of_money_tree_rock;
    settings = uint32_of (text "settings") o c.settings;
    last_match_type = uint32_of (text "last_match_type") o c.last_match_type;
    continuous_login = uint32_of (text "continuous_login") o c.continuous_login;
  }

-- The numbers fit in the types as which they are read: an int for those of 32 bits and for the times
-- of the last day of each kind, 64 bits and 8 bits for the others.
abbrev pub NumbersFit : PlayerCharacterInfo → Type 0
NumbersFit c =
    (c.played < 2 ^ 31)
    × (c.wined < 2 ^ 31)
    × (fits 63 c.max_win ≡ true)
    × (fits 63 c.max_lose ≡ true)
    × (c.online_spree < 2 ^ 31)
    × (c.online_spree_time < 2 ^ 31)
    × (c.next_spree_remaning_time < 2 ^ 31)
    × (c.online_spree_sum < 2 ^ 31)
    × (c.rank_time < 2 ^ 31)
    × (fits 63 c.day_maxwin ≡ true)
    × (fits 63 c.this_day_max_win ≡ true)
    × (fits 63 c.this_day_caishen ≡ true)
    × (fits 63 c.this_day_wan_ren ≡ true)
    × (fits 63 c.this_day_payment ≡ true)
    × (fits 63 c.yesterday_payment ≡ true)
    × (fits 31 c.last_time_of_day_max_win ≡ true)
    × (fits 31 c.last_time_of_day_caishen ≡ true)
    × (fits 31 c.last_time_of_day_wan_ren ≡ true)
    × (fits 31 c.last_time_of_day_payment ≡ true)
    × (c.rank < 2 ^ 31)
    × (c.current_guarantee_times < 2 ^ 8)
    × (c.max_guarantee_basic_living_times < 2 ^ 8)
    × (fits 63 c.last_time_of_reset_guarantee_basic_living_times ≡ true)
    × (c.raffle < 2 ^ 31)
    × (c.raffle_time < 2 ^ 31)
    × (c.max_fill_coins < 2 ^ 31)
    × (c.next_spree_value < 2 ^ 31)
    × (c.last_time_of_money_tree_rock < 2 ^ 31)
    × (c.settings < 2 ^ 31)
    × (c.last_match_type < 2 ^ 31)
    × (c.continuous_login < 2 ^ 31)

-- A player with the numbers of another one.
abbrev pub take_numbers : PlayerCharacterInfo → PlayerCharacterInfo → PlayerCharacterInfo
take_numbers c held = record held {
  played = c.played;
  wined = c.wined;
  max_win = c.max_win;
  max_lose = c.max_lose;
  online_spree = c.online_spree;
  online_spree_time = c.online_spree_time;
  next_spree_remaning_time = c.next_spree_remaning_time;
  online_spree_sum = c.online_spree_sum;
  rank_time = c.rank_time;
  day_maxwin = c.day_maxwin;
  this_day_max_win = c.this_day_max_win;
  this_day_caishen = c.this_day_caishen;
  this_day_wan_ren = c.this_day_wan_ren;
  this_day_payment = c.this_day_payment;
  yesterday_payment = c.yesterday_payment;
  last_time_of_day_max_win = c.last_time_of_day_max_win;
  last_time_of_day_caishen = c.last_time_of_day_caishen;
  last_time_of_day_wan_ren = c.last_time_of_day_wan_ren;
  last_time_of_day_payment = c.last_time_of_day_payment;
  rank = c.rank;
  current_guarantee_times = c.current_guarantee_times;
  max_guarantee_basic_living_times = c.max_guarantee_basic_living_times;
  last_time_of_reset_guarantee_basic_living_times =
      c.last_time_of_reset_guarantee_basic_living_times;
  raffle = c.raffle;
  raffle_time = c.raffle_time;
  max_fill_coins = c.max_fill_coins;
  next_spree_value = c.next_spree_value;
  last_time_of_money_tree_rock = c.last_time_of_money_tree_rock;
  settings = c.settings;
  last_match_type = c.last_match_type;
  continuous_login = c.continuous_login;
}

module _ ⦃json : Rapidjson⦄ where
  -- If they fit, the numbers are read back from an object that begins with what ToJson adds for them,
  -- each into the member it comes from, and no other member of the player changes.
  pub numbers_from_json-members :
      (c held : PlayerCharacterInfo) (more : List (Bytes × json.Value))
      → NumbersFit c
      → numbers_from_json (add_members (number_members c ++ more) json.object) held
        ≡ take_numbers c held
  unfolding numbers_from_json bytes_eq
  numbers_from_json-members c held more
        (
          h0, h1, h2, h3, h4, h5, h6, h7, h8, h9, h10, h11, h12, h13, h14, h15, h16, h17, h18, h19,
          h20, h21, h22, h23, h24, h25, h26, h27, h28, h29, h30,
        ) =
      let ms = number_members c ++ more in
      rw
        (
          uint32_of-listed (text "played") ms c.played held.played refl h0,
          uint32_of-listed (text "wined") ms c.wined held.wined refl h1,
          int64_of-listed (text "maxwin") ms c.max_win held.max_win refl h2,
          int64_of-listed (text "maxlose") ms c.max_lose held.max_lose refl h3,
          uint32_of-listed (text "onlineSpree") ms c.online_spree held.online_spree refl h4,
          uint32_of-listed (text "online_spree_time") ms c.online_spree_time held.online_spree_time
              refl h5,
          uint32_of-listed (text "nextSpreeRemaningTime") ms c.next_spree_remaning_time
              held.next_spree_remaning_time refl h6,
          uint32_of-listed (text "online_spree_sum") ms c.online_spree_sum held.online_spree_sum
              refl h7,
          uint32_of-listed (text "rank_time") ms c.rank_time held.rank_time refl h8,
          int64_of-listed (text "allday_maxwin") ms c.day_maxwin held.day_maxwin refl h9,
          int64_of-listed (text "day_maxwin") ms c.this_day_max_win held.this_day_max_win refl h10,
          int64_of-listed (text "day_caishen") ms c.this_day_caishen held.this_day_caishen refl h11,
          int64_of-listed (text "day_wanren") ms c.this_day_wan_ren held.this_day_wan_ren refl h12,
          int64_of-listed (text "day_payment") ms c.this_day_payment held.this_day_payment refl h13,
          int64_of-listed (text "yesterday_payment") ms c.yesterday_payment held.yesterday_payment
              refl h14,
          int_of-listed (text "lastTimeOfDayMaxWin") ms c.last_time_of_day_max_win
              held.last_time_of_day_max_win refl h15,
          int_of-listed (text "lastTimeOfDayCaishen") ms c.last_time_of_day_caishen
              held.last_time_of_day_caishen refl h16,
          int_of-listed (text "lastTimeOfWanRen") ms c.last_time_of_day_wan_ren
              held.last_time_of_day_wan_ren refl h17,
          int_of-listed (text "lastTimeOfDayPayment") ms c.last_time_of_day_payment
              held.last_time_of_day_payment refl h18,
          uint32_of-listed (text "rank") ms c.rank held.rank refl h19,
          uint8_of-listed (text "current_guarantee_basic_living_times") ms c.current_guarantee_times
              held.current_guarantee_times refl h20,
          uint8_of-listed (text "maxGuaranteeBasicLivingTimes") ms
              c.max_guarantee_basic_living_times held.max_guarantee_basic_living_times refl h21,
          int64_of-listed (text "last_time_of_reset_guarantee_basic_living_times") ms
              c.last_time_of_reset_guarantee_basic_living_times
              held.last_time_of_reset_guarantee_basic_living_times refl h22,
          uint32_of-listed (text "raffle") ms c.raffle held.raffle refl h23,
          uint32_of-listed (text "raffle_time") ms c.raffle_time held.raffle_time refl h24,
          uint32_of-listed (text "maxFillCoins") ms c.max_fill_coins held.max_fill_coins refl h25,
          uint32_of-listed (text "nextSpreeValue") ms c.next_spree_value held.next_spree_value refl
              h26,
          uint32_of-listed (text "lastTimeOfMoneyTreeRock") ms c.last_time_of_money_tree_rock
              held.last_time_of_money_tree_rock refl h27,
          uint32_of-listed (text "settings") ms c.settings held.settings refl h28,
          uint32_of-listed (text "last_match_type") ms c.last_match_type held.last_match_type refl
              h29,
          uint32_of-listed (text "continuous_login") ms c.continuous_login held.continuous_login
              refl h30,
        )
        refl
