-- ===== src/Winning.antt =====
-- What a game changes in the player: DNPlayer::OnPlayed and OnWined
-- (DN_application/DN_Account/dn_player.cpp). The services of tasks and of charts and OnChanged are not
-- part of the repository: their calls are recorded, each service being there or not. The sum of a day
-- is taken to stay within its 64 bits.
pub mod Records
use white_board_server.Prelude.{
  ℕ, ◌+◌, ◌*◌, ◌-◌, ◌/◌, ◌%◌, ◌^◌, ◌&&◌, Bool, List, [], ◌∷◌, ◌++◌, ltb, leb, ◌==◌, if◌then◌else◌,
}
use white_board_server.Prelude.Int.{ℤ, pos, negsuc, int_lt}
use white_board_server.LoginReward.{is_same_day}
use white_board_server.Player.Character.{PlayerCharacterInfo}

pub data GameEvent : Type 0 where
  game_times : GameEvent
  daily_game_times : GameEvent
  daily_win : GameEvent
  game_win : GameEvent
  chart_wined : ℕ → GameEvent
  chart_day_max_win : ℤ → GameEvent
  on_changed : GameEvent

unfoldable pub int_add : ℤ → ℤ → ℤ
int_add (pos a) (pos b) = pos (a + b)
int_add (pos a) (negsuc b) = if ltb b a then pos (a - b - 1) else negsuc (b - a)
int_add (negsuc a) (pos b) = if ltb a b then pos (b - a - 1) else negsuc (a - b)
int_add (negsuc a) (negsuc b) = negsuc (a + b + 1)

-- The greater one of two numbers, the second one if they are equal.
abbrev pub greater : ℤ → ℤ → ℤ
greater a b = if int_lt b a then a else b

-- IsSameDay where the first time may be before the epoch; the quotients are rounded to 0.
unfoldable pub same_day : ℕ → ℤ → ℕ → Bool
same_day zone (pos t) now = is_same_day zone t now
same_day zone (negsuc n) now =
    let day = (now + 3600 * zone) / 86400 in
    if leb (n + 1) (3600 * zone)
    then (3600 * zone - (n + 1)) / 86400 == day
    else ((n + 1 - 3600 * zone) / 86400 == 0 && day == 0)

-- OnPlayed
unfoldable pub on_played : Bool → PlayerCharacterInfo → PlayerCharacterInfo × List GameEvent
on_played has_tasks c =
    let events = if has_tasks then game_times ∷ daily_game_times ∷ [] else [] in
    (record c { played = (c.played + 1) % 2 ^ 32 }, events ++ on_changed ∷ [])

-- The members that OnWined changes.
unfoldable pub wined_info : ℕ → ℕ → ℤ → PlayerCharacterInfo → PlayerCharacterInfo
unfolding same_day int_add
wined_info zone now result c =
    let c1 : PlayerCharacterInfo = record c {
      wined = (c.wined + 1) % 2 ^ 32;
      max_win = greater result c.max_win;
    } in
    let c2 : PlayerCharacterInfo =
      if same_day zone c1.last_time_of_day_max_win now
      then record c1 { this_day_max_win = int_add c1.this_day_max_win result }
      else record c1 { last_time_of_day_max_win = pos now; this_day_max_win = result } in
    record c2 { day_maxwin = greater c2.this_day_max_win c2.day_maxwin }

-- OnWined
unfoldable pub on_wined :
    Bool → Bool → ℕ → ℕ → ℤ → PlayerCharacterInfo → PlayerCharacterInfo × List GameEvent
unfolding wined_info
on_wined has_tasks has_charts zone now result c =
    let tasks = if has_tasks then daily_win ∷ game_win ∷ [] else [] in
    let charts =
      if has_charts then chart_wined c.wined ∷ chart_day_max_win c.this_day_max_win ∷ [] else [] in
    (wined_info zone now result c, tasks ++ charts ++ on_changed ∷ [])
