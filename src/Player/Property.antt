-- ===== src/Player/Property.antt =====
-- The numbers of the properties: PropertyType (game_base/account/property_def.h).
use white_board_server.Prelude.Int.{ℤ, pos}

abbrev pub gold_coins : ℤ
gold_coins = pos 1

abbrev pub gold_notes : ℤ
gold_notes = pos 2

abbrev pub diamonds : ℤ
diamonds = pos 3

abbrev pub horn : ℤ
horn = pos 4

abbrev pub total_charge_fee : ℤ
total_charge_fee = pos 5

abbrev pub ticket : ℤ
ticket = pos 6

abbrev pub message_charge_fee : ℤ
message_charge_fee = pos 7

abbrev pub vip : ℤ
vip = pos 1001

abbrev pub caishen_played_times : ℤ
caishen_played_times = pos 1002
