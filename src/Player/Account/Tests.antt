-- ===== src/Player/Account/Tests.antt =====
-- An account, an invitation and a spree in packets.
use white_board_server.Prelude.{◌≡◌, [], ◌∷◌, arith}
use white_board_server.Wire.Stream.Trips.{Trip}
use white_board_server.Player.Account.{
  AccountInfo, new_account, to_packet, from_packet, to_simply_packet, from_simply_packet,
  new_invite, invite_to_packet, invite_from_packet, PlayerGetSpreeLimited, spree_to_packet,
  spree_from_packet,
}
use white_board_server.Player.Json.Examples.{trees}
use white_board_server.Player.Account.Json.{
  account_to_json, account_from_json, account_from_json-to_json,
}
use white_board_server.Player.Account.Packets.{structures-Trip}

abbrev player : AccountInfo
player = record new_account { account_id = 70000; nick = 97 ∷ 98 ∷ []; avatar = 99 ∷ [] }

abbrev spree : PlayerGetSpreeLimited
spree = record {
  error_code = 0;
  next_spree_time = 300;
  next_spree_value = 1000;
  spree_sum_now = 500;
  spree_sum_limit = 5000;
}

structures-Trip_example :
    Trip (to_packet player) (from_packet new_account) player
    × Trip (to_simply_packet player) (from_simply_packet new_account) player
    × Trip (invite_to_packet new_invite) (invite_from_packet new_invite) new_invite
    × Trip (spree_to_packet spree) spree_from_packet spree
structures-Trip_example =
    structures-Trip player new_invite spree
      (
        omega arith,
        omega arith,
        omega arith,
        omega arith,
        omega arith,
        omega arith,
        omega arith,
        omega arith,
        omega arith,
      )
      (omega arith, omega arith, omega arith, omega arith, omega arith, omega arith)
      (omega arith, omega arith, omega arith, omega arith, omega arith)

account_from_json-to_json_example :
    account_from_json (account_to_json (record player { thirdlogin = 119 ∷ 120 ∷ [] })) new_account
    ≡ record player { account_id = 0 }
account_from_json-to_json_example =
    account_from_json-to_json (record player { thirdlogin = 119 ∷ 120 ∷ [] }) new_account
      (omega arith) (omega arith) (omega arith)
