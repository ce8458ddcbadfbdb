-- ===== src/LoginReward.antt =====
-- Rewards for logging in on several days: DNPlayer::OnLogin, CanGetLoginReward, OnGetLoginReward and
-- IsNeedShowLoginReward (DN_application/DN_Account/dn_player.cpp), and IsSameDay
-- (framework/base/cb_time.cpp). The configuration of the rewards and the script that hands them out are
-- not part of the repository: the first is a parameter, and a request carries the script's answer.
pub mod Granting
pub mod Tests
use white_board_server.Prelude.{
  ℕ, ◌+◌, ◌*◌, ◌/◌, ◌%◌, ◌^◌, Bool, true, false, not, Option, none, some, List, [], ◌∷◌, ltb, ◌==◌,
  if◌then◌else◌,
}

-- IsSameDay, for times after the epoch and a zone that is not west of Greenwich.
pub is_same_day : ℕ → ℕ → ℕ → Bool
is_same_day zone tm1 tm2 = (tm1 + 3600 * zone) / 86400 == (tm2 + 3600 * zone) / 86400

-- What a player's DNPlayerCharacterInfo holds of the rewards. The counters are taken to be 32 bits
-- wide, as which they are read.
pub record LoginState : Type 0 where
  pub new_continue_login_tm : ℕ
  pub new_continue_login_times : ℕ
  pub last_get_login_reward_index : ℕ

pub record RewardConfig : Type 0 where
  pub continue_login_day : ℕ
  pub reward_count : ℕ

pub data RewardError : Type 0 where
  no_error : RewardError
  invalid_reward_id : RewardError
  get_finish : RewardError
  can_not_get : RewardError

abbrev pub is_no_error : RewardError → Bool
is_no_error no_error = true
is_no_error _ = false

-- The messages and calls that a request causes.
pub data Answer : Type 0 where
  send_get_login_reward_rsp : RewardError → ℕ → Answer
  get_login_reward : ℕ → ℕ → Answer

module _ (get_config_data_by_id : ℕ → Option RewardConfig) where
  -- CanGetLoginReward
  pub can_get_login_reward : ℕ → LoginState → RewardError
  can_get_login_reward reward_index st =
      let next_get_reward_index = (st.last_get_login_reward_index + 1) % 2 ^ 32 in
      elim (get_config_data_by_id reward_index) [
        | none ↦ invalid_reward_id
        | some p_data ↦ elim (get_config_data_by_id next_get_reward_index) [
          | none ↦ get_finish
          | some p_next_data ↦
              if ltb st.new_continue_login_times p_next_data.continue_login_day
              then can_not_get
              else if not (reward_index == next_get_reward_index)
              then can_not_get
              else no_error
        ]
      ]

  -- IsNeedShowLoginReward
  pub is_need_show_login_reward : LoginState → Bool
  unfolding can_get_login_reward
  is_need_show_login_reward st =
      is_no_error (can_get_login_reward ((st.last_get_login_reward_index + 1) % 2 ^ 32) st)

  -- OnLogin: the state, and whether the list of rewards is sent.
  pub on_login : ℕ → ℕ → LoginState → LoginState × Bool
  unfolding is_same_day is_need_show_login_reward
  on_login zone cur_tm st =
      let st' : LoginState =
        if not (is_same_day zone st.new_continue_login_tm cur_tm)
        then record st {
          new_continue_login_times = (st.new_continue_login_times + 1) % 2 ^ 32;
          new_continue_login_tm = cur_tm;
        }
        else st in
      (st', is_need_show_login_reward st')

  -- OnGetLoginReward, where the script answers with an error code: `none` is a failed assertion.
  pub on_get_login_reward : ℕ → ℕ → LoginState → Option (LoginState × Answer)
  unfolding can_get_login_reward
  on_get_login_reward reward_index script_code st = elim (can_get_login_reward reward_index st) [
    | no_error ↦ elim (get_config_data_by_id reward_index) [
      | none ↦ none
      | some found ↦ some (
        (if script_code == 0 then record st { last_get_login_reward_index = reward_index } else st),
        get_login_reward reward_index found.reward_count,
      )
    ]
    | invalid_reward_id ↦ some (st, send_get_login_reward_rsp invalid_reward_id reward_index)
    | get_finish ↦ some (st, send_get_login_reward_rsp get_finish reward_index)
    | can_not_get ↦ some (st, send_get_login_reward_rsp can_not_get reward_index)
  ]
