-- ===== src/Player/Account.antt =====
-- What a packet says of an account: AccountInfo, stPlayerInvite, and
-- PlayerGetSpreeLimited (game_base/account/player_def.h and source/player_def.cpp).
pub mod Packets
pub mod Json
pub mod Tests
use white_board_server.Prelude.{ℕ, [], ◌∷◌, List, ◌++◌}
use white_board_server.Containers.Ord.{Bytes}
use white_board_server.Wire.{PacketTranscode, read_string}
use white_board_server.Wire.Stream.{write_uint32, write_string, read_uint32}

pub record AccountInfo : Type 0 where
  pub account_id : ℕ
  pub account : Bytes
  pub password : Bytes
  pub nick : Bytes
  pub icon : ℕ
  pub sex : ℕ
  pub birthday : ℕ
  pub thirdlogin : Bytes
  pub avatar : Bytes

-- AccountInfo::AccountInfo; PLAYER_SEX_MALE is 0.
abbrev pub new_account : AccountInfo
new_account = record {
  account_id = 0;
  account = [];
  password = [];
  nick = [];
  icon = 1;
  sex = 0;
  birthday = 0;
  thirdlogin = [];
  avatar = [];
}

-- AccountInfo::ToSimplyPacket
pub to_simply_packet : AccountInfo → PacketTranscode → PacketTranscode
to_simply_packet a p = write_string a.avatar (write_string a.nick (write_uint32 a.account_id p))

-- AccountInfo::FromSimplyPacket; reading a string appends to what it holds.
pub from_simply_packet : AccountInfo → PacketTranscode → AccountInfo × PacketTranscode
from_simply_packet a p =
    let (id, p1) = read_uint32 p in
    let (nick, p2) = read_string p1 a.nick in
    let (avatar, p3) = read_string p2 a.avatar in
    (record a { account_id = id; nick = nick; avatar = avatar }, p3)

-- AccountInfo::ToPacket
pub to_packet : AccountInfo → PacketTranscode → PacketTranscode
to_packet a p =
    let p1 = write_string a.password (write_string a.account (write_uint32 a.account_id p)) in
    let p2 = write_uint32 a.sex (write_uint32 a.icon (write_string a.nick p1)) in
    write_string a.avatar (write_string a.thirdlogin (write_uint32 a.birthday p2))

-- AccountInfo::FromPacket
pub from_packet : AccountInfo → PacketTranscode → AccountInfo × PacketTranscode
from_packet a p =
    let (id, p1) = read_uint32 p in
    let (account, p2) = read_string p1 a.account in
    let (password, p3) = read_string p2 a.password in
    let (nick, p4) = read_string p3 a.nick in
    let (icon, p5) = read_uint32 p4 in
    let (sex, p6) = read_uint32 p5 in
    let (birthday, p7) = read_uint32 p6 in
    let (thirdlogin, p8) = read_string p7 a.thirdlogin in
    let (avatar, p9) = read_string p8 a.avatar in
    (
      record {
        account_id = id;
        account = account;
        password = password;
        nick = nick;
        icon = icon;
        sex = sex;
        birthday = birthday;
        thirdlogin = thirdlogin;
        avatar = avatar;
      },
      p9,
    )

-- AccountInfo::SetThirdLogin; 124 is '|'.
pub set_third_login : Bytes → AccountInfo → AccountInfo
set_third_login third a = elim a.thirdlogin [
  | [] ↦ record a { thirdlogin = third }
  | _ ∷ _ ↦ record a { thirdlogin = a.thirdlogin ++ 124 ∷ [] ++ third }
]

pub record PlayerInvite : Type 0 where
  pub my_invite_count : Bytes
  pub invited : Bytes
  pub type_invite : ℕ
  pub type_invited : ℕ
  pub reward_invite : ℕ
  pub reward_invited : ℕ

-- stPlayerInvite::stPlayerInvite; Invite_Type_Coins is 1.
abbrev pub new_invite : PlayerInvite
new_invite = record {
  my_invite_count = [];
  invited = [];
  type_invite = 1;
  type_invited = 1;
  reward_invite = 2000;
  reward_invited = 10000;
}

-- stPlayerInvite::ToPacket
pub invite_to_packet : PlayerInvite → PacketTranscode → PacketTranscode
invite_to_packet v p =
    let p1 = write_string v.invited (write_string v.my_invite_count p) in
    let p2 = write_uint32 v.type_invited (write_uint32 v.type_invite p1) in
    write_uint32 v.reward_invited (write_uint32 v.reward_invite p2)

-- stPlayerInvite::FromPacket
pub invite_from_packet : PlayerInvite → PacketTranscode → PlayerInvite × PacketTranscode
invite_from_packet v p =
    let (my_invite_count, p1) = read_string p v.my_invite_count in
    let (invited, p2) = read_string p1 v.invited in
    let (type_invite, p3) = read_uint32 p2 in
    let (type_invited, p4) = read_uint32 p3 in
    let (reward_invite, p5) = read_uint32 p4 in
    let (reward_invited, p6) = read_uint32 p5 in
    (
      record {
        my_invite_count = my_invite_count;
        invited = invited;
        type_invite = type_invite;
        type_invited = type_invited;
        reward_invite = reward_invite;
        reward_invited = reward_invited;
      },
      p6,
    )

pub record PlayerGetSpreeLimited : Type 0 where
  pub error_code : ℕ
  pub next_spree_time : ℕ
  pub next_spree_value : ℕ
  pub spree_sum_now : ℕ
  pub spree_sum_limit : ℕ

-- PlayerGetSpreeLimited::ToPacket
pub spree_to_packet : PlayerGetSpreeLimited → PacketTranscode → PacketTranscode
spree_to_packet g p =
    let p1 = write_uint32 g.next_spree_time (write_uint32 g.error_code p) in
    write_uint32 g.spree_sum_limit
      (write_uint32 g.spree_sum_now (write_uint32 g.next_spree_value p1))

-- PlayerGetSpreeLimited::FromPacket
pub spree_from_packet : PacketTranscode → PlayerGetSpreeLimited × PacketTranscode
spree_from_packet p =
    let (error_code, p1) = read_uint32 p in
    let (next_spree_time, p2) = read_uint32 p1 in
    let (next_spree_value, p3) = read_uint32 p2 in
    let (spree_sum_now, p4) = read_uint32 p3 in
    let (spree_sum_limit, p5) = read_uint32 p4 in
    (
      record {
        error_code = error_code;
        next_spree_time = next_spree_time;
        next_spree_value = next_spree_value;
        spree_sum_now = spree_sum_now;
        spree_sum_limit = spree_sum_limit;
      },
      p5,
    )
