-- ===== src/Player/Character.antt =====
-- What a server keeps of a player in a game: ActivityInfo, AllActivity and PlayerCharacterInfo
-- (game_base/account/player_def.h and source/player_def.cpp). A pointer to a part that the object owns
-- is that part.
pub mod Text
pub mod Json
pub mod Whole
pub mod Tests
use white_board_server.Prelude.{ℕ, List, [], ◌∷◌}
use white_board_server.Prelude.Int.{ℤ, pos}
use white_board_server.Containers.Ord.{Bytes, int_ord}
use white_board_server.Containers.Map.{Map, put}
use white_board_server.Player.Property
use white_board_server.Player.Account.{PlayerInvite, new_invite}
use white_board_server.Player.Props.{PlayerPropMap, PlayerPropTable, prop_or_zero}
use white_board_server.Wire.{PacketTranscode}
use white_board_server.Wire.Stream.{twos, write_uint32, write_uint64}

-- ActivityInfo: activity_detail
abbrev pub ActivityInfo : Type 0
ActivityInfo = Map Bytes ℤ

-- AllActivity: all_activity
abbrev pub AllActivity : Type 0
AllActivity = Map ℤ ActivityInfo

-- Unsigned numbers are ℕ, signed ones and times ℤ.
pub record PlayerCharacterInfo : Type 0 where
  pub account_id : ℕ
  pub gold_coins : ℕ
  pub diamonds : ℕ
  pub gold_note : ℕ
  pub played : ℕ
  pub wined : ℕ
  pub max_win : ℤ
  pub max_lose : ℤ
  pub online_spree : ℕ
  pub online_spree_time : ℕ
  pub next_spree_remaning_time : ℕ
  pub online_spree_sum : ℕ
  pub rank_time : ℕ
  pub day_maxwin : ℤ
  pub this_day_max_win : ℤ
  pub this_day_caishen : ℤ
  pub this_day_wan_ren : ℤ
  pub this_day_payment : ℤ
  pub yesterday_payment : ℤ
  pub last_time_of_day_max_win : ℤ
  pub last_time_of_day_caishen : ℤ
  pub last_time_of_day_wan_ren : ℤ
  pub last_time_of_day_payment : ℤ
  pub rank : ℕ
  pub current_guarantee_times : ℕ
  pub max_guarantee_basic_living_times : ℕ
  pub last_time_of_reset_guarantee_basic_living_times : ℤ
  pub raffle : ℕ
  pub raffle_time : ℕ
  pub max_fill_coins : ℕ
  pub next_spree_value : ℕ
  pub last_time_of_money_tree_rock : ℕ
  pub settings : ℕ
  pub last_match_type : ℕ
  pub continuous_login : ℕ
  pub invite : PlayerInvite
  pub player_prop_table : PlayerPropTable
  pub player_task_info_map : Bytes
  pub title : Bytes
  pub all_activity_info : AllActivity

-- PlayerCharacterInfo::SyncProPertyToCharacterInfo
unfoldable pub sync_property_to_character_info : PlayerCharacterInfo → PlayerCharacterInfo
sync_property_to_character_info c =
    let m = c.player_prop_table.prop_map in
    record c {
      gold_coins = twos 64 (prop_or_zero Property.gold_coins m);
      gold_note = twos 32 (prop_or_zero Property.gold_notes m);
      raffle = twos 32 (prop_or_zero Property.ticket m);
      diamonds = twos 64 (prop_or_zero Property.diamonds m);
    }

-- The properties that PlayerCharacterInfo::PlayerCharacterInfo sets.
unfoldable pub first_props : PlayerPropMap
first_props = put Property.caishen_played_times (pos 0) (
    put Property.message_charge_fee (pos 0) (
      put Property.vip (pos 0) (
        put Property.ticket (pos 0) (
          put Property.total_charge_fee (pos 0) (
            put Property.horn (pos 5) (
              put Property.diamonds (pos 0)
                (put Property.gold_notes (pos 0) (put Property.gold_coins (pos 20000) []))))))))

-- PlayerCharacterInfo::PlayerCharacterInfo; the title is the bytes of the literal in the source.
unfoldable pub new_character : Bytes → PlayerCharacterInfo
unfolding first_props sync_property_to_character_info
new_character title = sync_property_to_character_info (record {
  account_id = 0;
  gold_coins = 0;
  diamonds = 0;
  gold_note = 0;
  played = 0;
  wined = 0;
  max_win = pos 0;
  max_lose = pos 0;
  online_spree = 0;
  online_spree_time = 0;
  next_spree_remaning_time = 0;
  online_spree_sum = 0;
  rank_time = 0;
  day_maxwin = pos 0;
  this_day_max_win = pos 0;
  this_day_caishen = pos 0;
  this_day_wan_ren = pos 0;
  this_day_payment = pos 0;
  yesterday_payment = pos 0;
  last_time_of_day_max_win = pos 0;
  last_time_of_day_caishen = pos 0;
  last_time_of_day_wan_ren = pos 0;
  last_time_of_day_payment = pos 0;
  rank = 0;
  current_guarantee_times = 0;
  max_guarantee_basic_living_times = 2;
  last_time_of_reset_guarantee_basic_living_times = pos 0;
  raffle = 0;
  raffle_time = 0;
  max_fill_coins = 0;
  next_spree_value = 0;
  last_time_of_money_tree_rock = 0;
  settings = 0;
  last_match_type = 0;
  continuous_login = 1;
  invite = new_invite;
  player_prop_table = record { account_id = 0; prop_map = first_props };
  player_task_info_map = [];
  title = title;
  all_activity_info = [];
})

-- PlayerCharacterInfo::ToSimplePacket
pub to_simple_packet : PlayerCharacterInfo → PacketTranscode → PacketTranscode
to_simple_packet c p =
    let m = c.player_prop_table.prop_map in
    let coins = twos 32 (prop_or_zero Property.gold_coins m) in
    let diamonds = twos 32 (prop_or_zero Property.diamonds m) in
    write_uint32 (twos 32 (prop_or_zero Property.vip m))
      (write_uint32 diamonds (write_uint32 coins p))

-- PlayerCharacterInfo::ToSimplePacketEx
pub to_simple_packet_ex : PlayerCharacterInfo → PacketTranscode → PacketTranscode
to_simple_packet_ex c p =
    let m = c.player_prop_table.prop_map in
    let coins = twos 64 (prop_or_zero Property.gold_coins m) in
    let diamonds = twos 64 (prop_or_zero Property.diamonds m) in
    write_uint32 (twos 32 (prop_or_zero Property.vip m))
      (write_uint64 diamonds (write_uint64 coins p))
