-- ===== src/Player/Character/Whole/Restoring.antt =====
-- What a player gets back from the JSON that was made of one.
use white_board_server.Prelude.{
  ◌≡◌, refl, sym, subst, ◌∙◌, ap, Option, List, ◌++◌, none, some, if◌then◌else◌, text,
}
use white_board_server.Containers.Ord.{Bytes, bytes_eq}
use white_board_server.Player.Json.{Rapidjson, c_str}
use white_board_server.Player.Json.Members.{
  add_members, member-add_members, is_object-add_members, string_of-listed,
}
use white_board_server.Wire.Stream.{twos}
use white_board_server.Player.Property
use white_board_server.Player.Props.{prop_or_zero}
use white_board_server.Player.Character.{
  AllActivity, PlayerCharacterInfo, sync_property_to_character_info,
}
use white_board_server.Player.Character.Text.{props_to_json}
use white_board_server.Player.Character.Json.{
  number_members, numbers_from_json, NumbersFit, take_numbers, numbers_from_json-members,
}
use white_board_server.Player.Character.Whole.{
  all_activity_to_json, all_activity_from_json, text_members, character_to_json, take_props,
  property_info_from_json, activity_of, texts_from_json, character_from_json, activity_members,
}

module _ ⦃json : Rapidjson⦄ (c : PlayerCharacterInfo) where
  -- A player with the texts and the activities of the other one.
  abbrev pub take_texts : PlayerCharacterInfo → PlayerCharacterInfo
  take_texts d = record d {
    player_task_info_map = c_str c.player_task_info_map;
    title = c_str c.title;
    invite = record d.invite {
      my_invite_count = c_str c.invite.my_invite_count;
      invited = c_str c.invite.invited;
    };
    all_activity_info =
        all_activity_from_json (all_activity_to_json c.all_activity_info) d.all_activity_info;
  }

  abbrev pub props_value : json.Value
  props_value = json.string (c_str (props_to_json c.player_prop_table.prop_map))

  abbrev all_members : List (Bytes × json.Value)
  all_members = number_members c ++ text_members c

  property_info_from_json-value :
      (d : PlayerCharacterInfo)
      → property_info_from_json (add_members all_members json.object) d ≡ take_props props_value d
  unfolding property_info_from_json bytes_eq
  property_info_from_json-value d =
      ap (λ (o : Option json.Value). elim o [ none ↦ d | some v ↦ take_props v d ])
        (member-add_members (text "propertyInfo") all_members)

  activity_of-value :
      (held : AllActivity)
      → activity_of (add_members all_members json.object) held
        ≡ all_activity_from_json (all_activity_to_json c.all_activity_info) held
  unfolding activity_of all_activity_to_json bytes_eq
  activity_of-value held =
      let v = all_activity_to_json c.all_activity_info in
      ap
        (λ (o : Option json.Value). elim o [
          | none ↦ held
          | some w ↦ if json.is_object w then all_activity_from_json w held else held
        ])
        (member-add_members (text "activity") all_members)
      ∙ ap (λ b. if b then all_activity_from_json v held else held)
          (is_object-add_members (activity_members c.all_activity_info) json.object
            json.is_object-object)

  texts_from_json-take :
      (d : PlayerCharacterInfo)
      → texts_from_json (add_members all_members json.object) d ≡ take_texts d
  unfolding texts_from_json bytes_eq
  texts_from_json-take d =
      rw
        (
          activity_of-value d.all_activity_info,
          string_of-listed (text "playerTaskInfoMap") all_members (c_str c.player_task_info_map)
              d.player_task_info_map refl,
          string_of-listed (text "Title") all_members (c_str c.title) d.title refl,
          string_of-listed (text "invite") all_members (c_str c.invite.my_invite_count)
              d.invite.my_invite_count refl,
          string_of-listed (text "invited") all_members (c_str c.invite.invited) d.invite.invited
              refl,
        )
        refl

  character_from_json-steps :
      (held : PlayerCharacterInfo)
      → NumbersFit c
      → character_from_json (character_to_json c) held
        ≡ take_texts (take_props props_value (take_numbers c held))
  unfolding character_from_json character_to_json
  character_from_json-steps held fit =
      let o = add_members all_members json.object in
      ap
        (λ b.
          if b
          then texts_from_json o (property_info_from_json o (numbers_from_json o held))
          else held)
        (is_object-add_members all_members json.object json.is_object-object)
      ∙ texts_from_json-take (property_info_from_json o (numbers_from_json o held))
      ∙ ap take_texts (
          property_info_from_json-value (numbers_from_json o held)
          ∙ ap (take_props props_value) (numbers_from_json-members c held (text_members c) fit))

  -- The members that neither the properties nor the activities decide, the others being those of a
  -- player that is held.
  abbrev pub apart_from_props : PlayerCharacterInfo → PlayerCharacterInfo → PlayerCharacterInfo
  apart_from_props held d = record d {
    player_prop_table = held.player_prop_table;
    gold_coins = held.gold_coins;
    diamonds = held.diamonds;
    gold_note = held.gold_note;
    raffle = held.raffle;
    all_activity_info = held.all_activity_info;
  }

  -- If the numbers fit in the types as which they are read, then whatever a player held before, what
  -- FromJson reads of what ToJson wrote is each number but that of the raffle tickets, each in its own
  -- member, and each text up to a byte 0; the gold coins, the diamonds, the gold notes and the raffle
  -- tickets are those of the properties that the player then has, or 0; and nothing else changes but
  -- the properties and the activities.
  pub character_from_json-to_json :
      (held : PlayerCharacterInfo)
      → NumbersFit c
      → let d = character_from_json (character_to_json c) held in
        let m = d.player_prop_table.prop_map in
        (apart_from_props held d ≡ record (apart_from_props held (take_numbers c held)) {
          player_task_info_map = c_str c.player_task_info_map;
          title = c_str c.title;
          invite = record held.invite {
            my_invite_count = c_str c.invite.my_invite_count;
            invited = c_str c.invite.invited;
          };
        })
        × (d.gold_coins ≡ twos 64 (prop_or_zero Property.gold_coins m))
        × (d.diamonds ≡ twos 64 (prop_or_zero Property.diamonds m))
        × (d.gold_note ≡ twos 32 (prop_or_zero Property.gold_notes m))
        × (d.raffle ≡ twos 32 (prop_or_zero Property.ticket m))
  unfolding take_props sync_property_to_character_info
  character_from_json-to_json held fit =
      let same = character_from_json-steps held fit in
      (
        ap (apart_from_props held) same,
        by_steps
            (λ d.
              d.gold_coins
              ≡ twos 64 (prop_or_zero Property.gold_coins d.player_prop_table.prop_map))
            same refl,
        by_steps
            (λ d.
              d.diamonds ≡ twos 64 (prop_or_zero Property.diamonds d.player_prop_table.prop_map))
            same refl,
        by_steps
            (λ d.
              d.gold_note ≡ twos 32 (prop_or_zero Property.gold_notes d.player_prop_table.prop_map))
            same refl,
        by_steps
            (λ d. d.raffle ≡ twos 32 (prop_or_zero Property.ticket d.player_prop_table.prop_map))
            same refl,
      )
    where
      by_steps :
          (P : PlayerCharacterInfo → Type 0) → {d e : PlayerCharacterInfo} → d ≡ e → P e → P d
      by_steps P same h = subst P (sym same) h
