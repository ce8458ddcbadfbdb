-- ===== src/Player/Character/Whole.antt =====
-- A player in JSON: ActivityInfo, AllActivity, PlayerPropTable and PlayerCharacterInfo
-- (game_base/account/source/player_def.cpp).
pub mod Restoring
use white_board_server.Prelude.{
  ℕ, Bool, ◌+◌, ◌*◌, ◌-◌, ◌≡◌, refl, ◌&&◌, ◌||◌, ◌∙◌, List, [], ◌∷◌, ◌++◌, none, some,
  if◌then◌else◌, true, false, text, leb, ltb, ◌==◌, arith,
}
use white_board_server.Prelude.Int.{ℤ, pos, negsuc}
use white_board_server.Containers.Ord.{Bytes, bytes_eq, bytes_ord, int_ord}
use white_board_server.Containers.Map.{put, insert}
use white_board_server.Player.Json.{Rapidjson, c_str}
use white_board_server.Player.Json.Members.{
  add_members, string_of, listed, member-add_members, is_object-add_members, string_of-listed,
}
use white_board_server.Player.Account.{PlayerInvite}
use white_board_server.Player.Props.{PlayerPropMap, PlayerPropTable}
use white_board_server.Player.Character.{
  ActivityInfo, AllActivity, PlayerCharacterInfo, sync_property_to_character_info,
}
use white_board_server.Decimal.{print_int, atoi}
use white_board_server.Player.Character.Text.{props_to_json}
use white_board_server.Player.Character.Json.{
  number_members, numbers_from_json, NumbersFit, take_numbers, numbers_from_json-members,
}

module _ ⦃json : Rapidjson⦄ where
  abbrev pub detail_members : ActivityInfo → List (Bytes × json.Value)
  detail_members [] = []
  detail_members ((key, n) ∷ m) = (c_str key, json.number n) ∷ detail_members m

  -- ActivityInfo::ToJson into an empty object.
  pub activity_info_to_json : ActivityInfo → json.Value
  unfolding add_members
  activity_info_to_json m = add_members (detail_members m) json.object

  abbrev pub activity_members : AllActivity → List (Bytes × json.Value)
  unfolding activity_info_to_json
  activity_members [] = []
  activity_members ((id, info) ∷ m) =
      (print_int id, activity_info_to_json info) ∷ activity_members m

  -- The object that AllActivity::ToJson adds under the name "activity".
  unfoldable pub all_activity_to_json : AllActivity → json.Value
  unfolding add_members
  all_activity_to_json m = add_members (activity_members m) json.object

  read_details : List (Bytes × json.Value) → ActivityInfo → ActivityInfo
  read_details [] m = m
  read_details ((name, v) ∷ rest) m =
      read_details rest (if json.is_int v then insert (c_str name) (json.get_int v) m else m)

  -- ActivityInfo::FromJson
  pub activity_info_from_json : json.Value → ActivityInfo → ActivityInfo
  unfolding read_details
  activity_info_from_json o m = read_details (json.members o) m

  read_activities : List (Bytes × json.Value) → AllActivity → AllActivity
  unfolding activity_info_from_json
  read_activities [] m = m
  read_activities ((name, v) ∷ rest) m =
      read_activities rest
        (if json.is_object v then insert (atoi name) (activity_info_from_json v []) m else m)

  -- AllActivity::FromJson of an object.
  pub all_activity_from_json : json.Value → AllActivity → AllActivity
  unfolding read_activities
  all_activity_from_json o m = read_activities (json.members o) m

  read_props : List (Bytes × json.Value) → PlayerPropMap → PlayerPropMap
  read_props [] m = m
  read_props ((name, v) ∷ rest) m = read_props rest (put (atoi name) (json.get_int64 v) m)

  -- PlayerPropTable::FromJson
  pub props_from_json : json.Value → PlayerPropMap → PlayerPropMap
  unfolding read_props
  props_from_json v m =
      if json.is_string v
      then (let d = json.parse (json.get_string v) in
          if json.is_object d then read_props (json.members d) m else m)
      else m

  -- What ToJson adds after the numbers.
  abbrev pub text_members : PlayerCharacterInfo → List (Bytes × json.Value)
  text_members c =
      (text "state", json.number (pos 0))
      ∷ (text "Title", json.string (c_str c.title))
      ∷ (text "invite", json.string (c_str c.invite.my_invite_count))
      ∷ (text "invited", json.string (c_str c.invite.invited))
      ∷ (text "activity", all_activity_to_json c.all_activity_info)
      ∷ (text "propertyInfo", json.string (c_str (props_to_json c.player_prop_table.prop_map)))
      ∷ (text "playerTaskInfoMap", json.string (c_str c.player_task_info_map))
      ∷ []

  -- PlayerCharacterInfo::ToJson, with an empty text for that of the properties.
  pub character_to_json : PlayerCharacterInfo → json.Value
  unfolding add_members
  character_to_json c = add_members (number_members c ++ text_members c) json.object

  -- FromJson at the properties.
  unfoldable pub take_props : json.Value → PlayerCharacterInfo → PlayerCharacterInfo
  unfolding props_from_json sync_property_to_character_info
  take_props v c = sync_property_to_character_info (record c {
    player_prop_table = record c.player_prop_table {
      prop_map = props_from_json v c.player_prop_table.prop_map;
    };
  })

  unfoldable pub property_info_from_json : json.Value → PlayerCharacterInfo → PlayerCharacterInfo
  unfolding take_props
  property_info_from_json o c = elim (json.member (text "propertyInfo") o) [
    | none ↦ c
    | some v ↦ take_props v c
  ]

  unfoldable pub activity_of : json.Value → AllActivity → AllActivity
  unfolding all_activity_from_json
  activity_of o held = elim (json.member (text "activity") o) [
    | none ↦ held
    | some v ↦ if json.is_object v then all_activity_from_json v held else held
  ]

  -- FromJson after the properties.
  unfoldable pub texts_from_json : json.Value → PlayerCharacterInfo → PlayerCharacterInfo
  unfolding string_of activity_of
  texts_from_json o c = record c {
    player_task_info_map = string_of (text "playerTaskInfoMap") o c.player_task_info_map;
    title = string_of (text "Title") o c.title;
    invite = record c.invite {
      my_invite_count = string_of (text "invite") o c.invite.my_invite_count;
      invited = string_of (text "invited") o c.invite.invited;
    };
    all_activity_info = activity_of o c.all_activity_info;
  }

  -- PlayerCharacterInfo::FromJson
  pub character_from_json : json.Value → PlayerCharacterInfo → PlayerCharacterInfo
  unfolding numbers_from_json property_info_from_json texts_from_json
  character_from_json o c =
      if json.is_object o
      then texts_from_json o (property_info_from_json o (numbers_from_json o c))
      else c
