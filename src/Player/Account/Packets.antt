-- ===== src/Player/Account/Packets.antt =====
-- An account, an invitation and a spree, written into a packet and read back.
use white_board_server.Prelude.{ℕ, ◌^◌, ◌<◌, length}
use white_board_server.Containers.Ord.{Bytes}
use white_board_server.Wire.Stream.Trips.{Trip, both-Trip, map-Trip, uint32-Trip, string-Trip}
use white_board_server.Player.Account.{
  AccountInfo, new_account, to_packet, from_packet, to_simply_packet, from_simply_packet,
  PlayerInvite, new_invite, invite_to_packet, invite_from_packet, PlayerGetSpreeLimited,
  spree_to_packet, spree_from_packet,
}

abbrev pub IsShort : Bytes → Type 0
IsShort s = length s < 2 ^ 32

abbrev pub IsUint32 : ℕ → Type 0
IsUint32 n = n < 2 ^ 32

-- The members have the ranges of their types, and no string is longer than its length can say.
abbrev pub Holds : AccountInfo → Type 0
Holds a =
    IsUint32 a.account_id
    × IsShort a.account
    × IsShort a.password
    × IsShort a.nick
    × IsUint32 a.icon
    × IsUint32 a.sex
    × IsUint32 a.birthday
    × IsShort a.thirdlogin
    × IsShort a.avatar

from_packet-to_packet : (a : AccountInfo) → Holds a → Trip (to_packet a) (from_packet new_account) a
unfolding to_packet from_packet
from_packet-to_packet a (id, account, password, nick, icon, sex, birthday, third, avatar) =
    map-Trip
      (λ ((((((((i, c), w), n), o), s), b), t), v). record {
        account_id = i;
        account = c;
        password = w;
        nick = n;
        icon = o;
        sex = s;
        birthday = b;
        thirdlogin = t;
        avatar = v;
      })
      (both-Trip
        (both-Trip
          (both-Trip
            (both-Trip
              (both-Trip
                (both-Trip
                  (both-Trip
                    (both-Trip (uint32-Trip a.account_id id) (string-Trip a.account account))
                    (string-Trip a.password password))
                  (string-Trip a.nick nick))
                (uint32-Trip a.icon icon))
              (uint32-Trip a.sex sex))
            (uint32-Trip a.birthday birthday))
          (string-Trip a.thirdlogin third))
        (string-Trip a.avatar avatar))

simply-Trip :
    (a : AccountInfo)
    → Holds a
    → Trip
        (to_simply_packet a)
        (from_simply_packet new_account)
        (record new_account { account_id = a.account_id; nick = a.nick; avatar = a.avatar })
unfolding to_simply_packet from_simply_packet
simply-Trip a (id, account, password, nick, icon, sex, birthday, third, avatar) =
    map-Trip (λ ((i, n), v). record new_account { account_id = i; nick = n; avatar = v })
      (both-Trip (both-Trip (uint32-Trip a.account_id id) (string-Trip a.nick nick))
        (string-Trip a.avatar avatar))

abbrev pub HoldsInvite : PlayerInvite → Type 0
HoldsInvite v =
    IsShort v.my_invite_count
    × IsShort v.invited
    × IsUint32 v.type_invite
    × IsUint32 v.type_invited
    × IsUint32 v.reward_invite
    × IsUint32 v.reward_invited

invite-Trip :
    (v : PlayerInvite) → HoldsInvite v → Trip (invite_to_packet v) (invite_from_packet new_invite) v
unfolding invite_to_packet invite_from_packet
invite-Trip v (count, invited, type, type', reward, reward') =
    map-Trip
      (λ (((((c, n), t), u), r), s). record {
        my_invite_count = c;
        invited = n;
        type_invite = t;
        type_invited = u;
        reward_invite = r;
        reward_invited = s;
      })
      (both-Trip
        (both-Trip
          (both-Trip
            (both-Trip
              (both-Trip (string-Trip v.my_invite_count count) (string-Trip v.invited invited))
              (uint32-Trip v.type_invite type))
            (uint32-Trip v.type_invited type'))
          (uint32-Trip v.reward_invite reward))
        (uint32-Trip v.reward_invited reward'))

abbrev pub HoldsSpree : PlayerGetSpreeLimited → Type 0
HoldsSpree g =
    IsUint32 g.error_code
    × IsUint32 g.next_spree_time
    × IsUint32 g.next_spree_value
    × IsUint32 g.spree_sum_now
    × IsUint32 g.spree_sum_limit

spree-Trip :
    (g : PlayerGetSpreeLimited) → HoldsSpree g → Trip (spree_to_packet g) spree_from_packet g
unfolding spree_to_packet spree_from_packet
spree-Trip g (error, time, value, sum, limit) =
    map-Trip
      (λ ((((e, t), v), s), l). record {
        error_code = e;
        next_spree_time = t;
        next_spree_value = v;
        spree_sum_now = s;
        spree_sum_limit = l;
      })
      (both-Trip
        (both-Trip
          (both-Trip
            (both-Trip (uint32-Trip g.error_code error) (uint32-Trip g.next_spree_time time))
            (uint32-Trip g.next_spree_value value))
          (uint32-Trip g.spree_sum_now sum))
        (uint32-Trip g.spree_sum_limit limit))

-- If its numbers have the ranges of their types and the lengths of its strings fit in 32 bits, a
-- fresh AccountInfo, stPlayerInvite or PlayerGetSpreeLimited takes over from a packet exactly what
-- was written into it, and reads no further: from the short form of an account the id, the nick and
-- the avatar, from the others all members.
pub structures-Trip :
    (a : AccountInfo) (v : PlayerInvite) (g : PlayerGetSpreeLimited)
    → Holds a
    → HoldsInvite v
    → HoldsSpree g
    → Trip (to_packet a) (from_packet new_account) a
      × Trip
          (to_simply_packet a)
          (from_simply_packet new_account)
          (record new_account { account_id = a.account_id; nick = a.nick; avatar = a.avatar })
      × Trip (invite_to_packet v) (invite_from_packet new_invite) v
      × Trip (spree_to_packet g) spree_from_packet g
structures-Trip a v g held held' held'' =
    (from_packet-to_packet a held, simply-Trip a held, invite-Trip v held', spree-Trip g held'')
