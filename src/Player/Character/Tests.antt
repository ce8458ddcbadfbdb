-- ===== src/Player/Character/Tests.antt =====
-- A new player in JSON, and a player who owes gold coins.
use white_board_server.Prelude.{◌≡◌, [], ◌∷◌, ◌++◌, arith}
use white_board_server.Prelude.Int.{pos, negsuc}
use white_board_server.Containers.Map.{put, find}
use white_board_server.Player.Property
use white_board_server.Wire.Stream.{twos}
use white_board_server.Player.Props.{PlayerPropMap, prop_or_zero}
use white_board_server.Player.Json.Examples.{trees}
use white_board_server.Player.Character.{
  PlayerCharacterInfo, new_character, first_props, sync_property_to_character_info,
}
use white_board_server.Player.Character.Text.{
  print_entry, props_to_json, props_to_json-commas, each_comma,
}
use white_board_server.Player.Character.Json.{NumbersFit, take_numbers}
use white_board_server.Player.Character.Whole.{character_to_json, character_from_json}
use white_board_server.Player.Character.Whole.Restoring.{
  apart_from_props, character_from_json-to_json,
}

abbrev debts : PlayerPropMap
debts = (Property.gold_coins, negsuc 9) ∷ (Property.horn, pos 5) ∷ []

props_to_json-commas_example :
    props_to_json debts ≡ 123 ∷ each_comma (print_entry (Property.horn, pos 5) ∷ []) ++ 125 ∷ []
props_to_json-commas_example =
    props_to_json-commas Property.gold_coins (negsuc 9) ((Property.horn, pos 5) ∷ [])

abbrev winner : PlayerCharacterInfo
winner = record (new_character []) { played = 7; max_win = pos 90000; title = 97 ∷ [] }

winner-NumbersFit : NumbersFit winner
unfolding new_character sync_property_to_character_info first_props put find
winner-NumbersFit = ground arith

character_from_json-to_json_example :
    let held = new_character [] in
    let d = character_from_json (character_to_json winner) held in
    let m = d.player_prop_table.prop_map in
    (apart_from_props winner held d
      ≡ record (apart_from_props winner held (take_numbers winner held)) {
        player_task_info_map = [];
        title = 97 ∷ [];
        invite = record held.invite { my_invite_count = []; invited = [] };
      })
    × (d.gold_coins ≡ twos 64 (prop_or_zero Property.gold_coins m))
    × (d.diamonds ≡ twos 64 (prop_or_zero Property.diamonds m))
    × (d.gold_note ≡ twos 32 (prop_or_zero Property.gold_notes m))
    × (d.raffle ≡ twos 32 (prop_or_zero Property.ticket m))
unfolding new_character sync_property_to_character_info
character_from_json-to_json_example =
    character_from_json-to_json winner (new_character []) winner-NumbersFit
