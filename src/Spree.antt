-- ===== src/Spree.antt =====
-- Gifts for being online: DNPlayer::InitSpreeRelateData, CalculateNextSpreeRemainTime and
-- CalculateNextSpreeValue (DN_application/DN_Account/dn_player.cpp). The rate of the gifts belongs to
-- the player manager, whose class is not part of the repository; it is a parameter, of 32 bits.
pub mod Schedule
use white_board_server.Prelude.{
  ℕ, ◌+◌, ◌*◌, ◌-◌, ◌/◌, ◌%◌, ◌^◌, ◌||◌, Bool, true, not, ltb, ◌==◌, if◌then◌else◌,
}
use white_board_server.LoginReward.{is_same_day}
use white_board_server.Player.Character.{PlayerCharacterInfo}

-- CalculateNextSpreeRemainTime; the difference is taken in 64 bits and then kept in a uint32_t.
unfoldable pub calculate_next_spree_remain_time : Bool → ℕ → PlayerCharacterInfo → ℕ
calculate_next_spree_remain_time can_get_spree current_time c =
    if can_get_spree
    then if ltb 5 c.online_spree then 5 * 5 * 60 else c.online_spree * c.online_spree * 60
    else (let due = (c.online_spree_time + c.next_spree_remaning_time) % 2 ^ 32 in
        let remain_time = (due + (2 ^ 32 - current_time % 2 ^ 32)) % 2 ^ 32 in
        if ltb 0 remain_time then remain_time else 0)

-- CalculateNextSpreeValue, in which 1 may be taken from 0.
unfoldable pub calculate_next_spree_value : ℕ → PlayerCharacterInfo → ℕ
calculate_next_spree_value spree_rate c =
    if ltb 5 c.online_spree
    then (200 + (5 - 1) * 800) * spree_rate % 2 ^ 32
    else (let before = (c.online_spree + (2 ^ 32 - 1)) % 2 ^ 32 in
        (200 + before * 800) % 2 ^ 32 * spree_rate % 2 ^ 32)

-- InitSpreeRelateData; the clock is read three times.
unfoldable pub init_spree_relate_data :
    ℕ → ℕ → ℕ → ℕ → ℕ → ℕ → PlayerCharacterInfo → PlayerCharacterInfo
unfolding calculate_next_spree_remain_time calculate_next_spree_value
init_spree_relate_data zone spree_rate last_logout_time time1 time2 time3 c =
    let other_day = not (is_same_day zone c.online_spree_time time1) in
    let c1 : PlayerCharacterInfo =
      if c.online_spree_time == 0 || other_day then record c { online_spree_sum = 0 } else c in
    let c2 : PlayerCharacterInfo = record c1 { online_spree_time = time2 % 2 ^ 32 } in
    if c2.online_spree == 0 || ltb 10 ((time3 - last_logout_time) / 60)
    then (let c3 : PlayerCharacterInfo = record c2 { online_spree = 1 } in
        let c4 : PlayerCharacterInfo = record c3 {
          next_spree_remaning_time = calculate_next_spree_remain_time true 0 c3;
        } in
        record c4 { next_spree_value = calculate_next_spree_value spree_rate c4 })
    else c2
