-- ===== src/Player/Account/Json.antt =====
-- An account in JSON: AccountInfo::ToJson and FromJson (game_base/account/source/player_def.cpp).
use white_board_server.Prelude.{◌^◌, ◌<◌, ◌≡◌, refl, List, [], ◌∷◌, if◌then◌else◌, text}
use white_board_server.Prelude.Int.{pos}
use white_board_server.Containers.Ord.{Bytes, bytes_eq}
use white_board_server.Player.Json.{Rapidjson, c_str}
use white_board_server.Player.Json.Members.{
  add_members, string_of, uint32_of, is_object-add_members, string_of-listed, string_of-unlisted,
  uint32_of-listed,
}
use white_board_server.Player.Account.{AccountInfo}

module _ ⦃json : Rapidjson⦄ where
  -- The members that ToJson adds, in order; the name of the login by a third party ends in a blank.
  abbrev pub account_members : AccountInfo → List (Bytes × json.Value)
  account_members a =
      (text "nick", json.string (c_str a.nick))
      ∷ (text "icon", json.number (pos a.icon))
      ∷ (text "sex", json.number (pos a.sex))
      ∷ (text "birthday", json.number (pos a.birthday))
      ∷ (text "thirdlogin ", json.string (c_str a.thirdlogin))
      ∷ (text "avatar", json.string (c_str a.avatar))
      ∷ []

  -- AccountInfo::ToJson
  pub account_to_json : AccountInfo → json.Value
  unfolding add_members
  account_to_json a = add_members (account_members a) json.object

  -- AccountInfo::FromJson
  pub account_from_json : json.Value → AccountInfo → AccountInfo
  unfolding string_of uint32_of
  account_from_json o a =
      if json.is_object o
      then record a {
        nick = string_of (text "nick") o a.nick;
        icon = uint32_of (text "icon") o a.icon;
        sex = uint32_of (text "sex") o a.sex;
        birthday = uint32_of (text "birthday") o a.birthday;
        thirdlogin = string_of (text "thirdlogin") o a.thirdlogin;
        avatar = string_of (text "avatar") o a.avatar;
      }
      else a

  -- FromJson takes over from what ToJson wrote the nick and the avatar up to a byte 0, and the icon,
  -- the sex and the birthday, which must fit in an int. It never takes over the login by a third
  -- party, and the rest of the account is as it was.
  pub account_from_json-to_json :
      (a held : AccountInfo)
      → a.icon < 2 ^ 31
      → a.sex < 2 ^ 31
      → a.birthday < 2 ^ 31
      → account_from_json (account_to_json a) held ≡ record held {
        nick = c_str a.nick;
        icon = a.icon;
        sex = a.sex;
        birthday = a.birthday;
        avatar = c_str a.avatar;
      }
  unfolding account_to_json account_from_json bytes_eq
  account_from_json-to_json a held icon sex birthday =
      let ms = account_members a in
      rw
        (
          is_object-add_members ms json.object json.is_object-object,
          string_of-listed (text "nick") ms (c_str a.nick) held.nick refl,
          uint32_of-listed (text "icon") ms a.icon held.icon refl icon,
          uint32_of-listed (text "sex") ms a.sex held.sex refl sex,
          uint32_of-listed (text "birthday") ms a.birthday held.birthday refl birthday,
          string_of-unlisted (text "thirdlogin") ms held.thirdlogin refl,
          string_of-listed (text "avatar") ms (c_str a.avatar) held.avatar refl,
        )
        refl
