-- ===== src/LoginReward/Tests.antt =====
-- Three rewards, of which a player asks for the first two.
use white_board_server.Prelude.{
  ℕ, ◌+◌, ◌≡◌, refl, Option, none, some, List, [], ◌∷◌, ◌==◌, if◌then◌else◌, length, arith,
}
use white_board_server.LoginReward.{LoginState, RewardConfig}
use white_board_server.LoginReward.Granting.{
  Event, login, request, run, marked, calendar, InOrder, run-InOrder,
}

abbrev on_day : ℕ → Option RewardConfig
on_day i =
    if i == 1
    then some (record { continue_login_day = 1; reward_count = 100 })
    else if i == 2
    then some (record { continue_login_day = 3; reward_count = 200 })
    else none

abbrev newcomer : LoginState
newcomer = record {
  new_continue_login_tm = 0;
  new_continue_login_times = 0;
  last_get_login_reward_index = 0;
}

-- He logs in on three days; the second reward is asked for too early once, and refused by the
-- script once.
abbrev visits : List Event
visits =
    login 100000
    ∷ request 1 0
    ∷ request 2 0
    ∷ login 200000
    ∷ login 300000
    ∷ request 2 5
    ∷ request 2 0
    ∷ []

run-InOrder_example :
    (st : LoginState) × (g : List (ℕ × ℕ)) × (run 8 on_day visits
        (calendar 8 on_day newcomer)
        newcomer
      ≡ some (st, g))
    × InOrder 8 on_day 1 g
    × (st.last_get_login_reward_index ≡ 0 + length g)
    × (st.new_continue_login_times ≡ (marked 8 on_day visits (calendar 8 on_day newcomer)).days)
run-InOrder_example = run-InOrder 8 on_day refl visits newcomer (omega arith)
