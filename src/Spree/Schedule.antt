-- ===== src/Spree/Schedule.antt =====
-- When the next gift is due and what it is worth.
use white_board_server.Prelude.{
  ℕ, ◌+◌, ◌*◌, ◌-◌, ◌%◌, ◌^◌, ◌<◌, ◌≤◌, ◌≡◌, true, false, leb, if◌then◌else◌, arith,
}
use white_board_server.Player.Character.{PlayerCharacterInfo}
use white_board_server.Spree.{
  calculate_next_spree_remain_time, calculate_next_spree_value, init_spree_relate_data,
}

-- The lesser one of a number and 5.
abbrev pub up_to_five : ℕ → ℕ
up_to_five n = if leb 5 n then 5 else n

-- The waiting time after a gift is the square of its number, or of 5 from the fifth on, in minutes,
-- and so it is never more than 25 minutes.
pub remain_time-square :
    (now : ℕ) (c : PlayerCharacterInfo)
    → calculate_next_spree_remain_time true now c
      ≡ up_to_five c.online_spree * up_to_five c.online_spree * 60
unfolding calculate_next_spree_remain_time
remain_time-square now c = ground arith

-- Until the gift is due the remaining time is the difference; from then on it is not 0 but the
-- difference modulo 2^32, which is more than the whole time that has passed.
pub remain_time-wraps :
    (now : ℕ) (c : PlayerCharacterInfo)
    → c.online_spree_time + c.next_spree_remaning_time < 2 ^ 32
    → now < 2 ^ 32
    → calculate_next_spree_remain_time false now c ≡ (
        if leb now (c.online_spree_time + c.next_spree_remaning_time)
        then c.online_spree_time + c.next_spree_remaning_time - now
        else 2 ^ 32 - (now - (c.online_spree_time + c.next_spree_remaning_time)))
unfolding calculate_next_spree_remain_time
remain_time-wraps now c small small' = ground (arith, small, small')

-- The value grows by 800 from 200 with the number of the gift up to the fifth one, times the rate.
pub spree_value-linear :
    (rate : ℕ) (c : PlayerCharacterInfo)
    → 1 ≤ c.online_spree
    → calculate_next_spree_value rate c
      ≡ (200 + (up_to_five c.online_spree - 1) * 800) * rate % 2 ^ 32
unfolding calculate_next_spree_value
spree_value-linear rate c some_gift = ground (arith, some_gift)

-- After a login the number of the gift is not 0, whatever it was, and the time of the last gift is that
-- of the login. If the number was 0, the first gift is due a minute later and is worth 200 times the
-- rate.
pub init_spree_relate_data-started :
    (zone rate last_logout time1 time2 time3 : ℕ) (c : PlayerCharacterInfo)
    → let d = init_spree_relate_data zone rate last_logout time1 time2 time3 c in
      (1 ≤ d.online_spree)
      × (d.online_spree_time ≡ time2 % 2 ^ 32)
      × (c.online_spree ≡ 0
          → (d.next_spree_remaning_time ≡ 60) × (d.next_spree_value ≡ 200 * rate % 2 ^ 32))
unfolding init_spree_relate_data calculate_next_spree_remain_time calculate_next_spree_value
init_spree_relate_data-started zone rate last_logout time1 time2 time3 c =
    (ground arith, ground arith, λ none_yet. (ground (arith, none_yet), ground (arith, none_yet)))
