-- ===== src/LoginReward/Granting.antt =====
-- The rewards that a sequence of logins and requests grants.
use white_board_server.Prelude.{
  ℕ, ◌+◌, ◌*◌, ◌/◌, ◌%◌, ◌^◌, ◌≡◌, ◌≤◌, ◌<◌, refl, Option, none, some, List, [], ◌∷◌, ltb, ◌==◌,
  if◌then◌else◌, length, arith, Bool-cases, Option-cases, inl, inr, subst, ◌++◌, length-append,
}
use white_board_server.LoginReward.{
  LoginState, RewardConfig, Answer, get_login_reward, send_get_login_reward_rsp,
  can_get_login_reward, is_same_day, on_login, on_get_login_reward,
}

-- A login at a time, or a request for a reward with the script's answer.
pub data Event : Type 0 where
  login : ℕ → Event
  request : ℕ → ℕ → Event

-- The request that an answer shows the script to have granted, with the number of days at that time.
abbrev pub granted : ℕ → ℕ → Answer → List (ℕ × ℕ)
granted code times (get_login_reward i n) = if code == 0 then (i, times) ∷ [] else []
granted code times (send_get_login_reward_rsp e i) = []

-- The days on which a player was there, counted from the times alone: the day of the last login, and
-- how many days there were.
pub record Calendar : Type 0 where
  pub day : ℕ
  pub days : ℕ

module _ (zone : ℕ) (config : ℕ → Option RewardConfig) where
  -- The number of the day of a time in a zone.
  abbrev pub day_of : ℕ → ℕ
  day_of tm = (tm + 3600 * zone) / 86400

  -- A login on another day than the one before counts; the count is a number of 32 bits.
  abbrev pub mark : Event → Calendar → Calendar
  mark (login tm) k =
      if day_of tm == k.day then k else record { day = day_of tm; days = (k.days + 1) % 2 ^ 32 }
  mark (request i code) k = k

  -- The calendar that a player's state agrees with.
  abbrev pub calendar : LoginState → Calendar
  calendar st = record { day = day_of st.new_continue_login_tm; days = st.new_continue_login_times }

  abbrev pub handle : Event → ℕ → LoginState → Option (LoginState × List (ℕ × ℕ))
  handle (login tm) days st = some ((on_login config zone tm st).0, [])
  handle (request i code) days st = elim (on_get_login_reward config i code st) [
    | none ↦ none
    | some (st', answer) ↦ some (st', granted code days answer)
  ]

  -- The state after some events, and the rewards granted by them, each with the days that the
  -- calendar counts at that time.
  abbrev pub run : List Event → Calendar → LoginState → Option (LoginState × List (ℕ × ℕ))
  run [] k st = some (st, [])
  run (e ∷ es) k st = elim (handle e k.days st) [
    | none ↦ none
    | some (st', g) ↦ elim (run es (mark e k) st') [
      | none ↦ none
      | some (st'', more) ↦ some (st'', g ++ more)
    ]
  ]

  abbrev pub marked : List Event → Calendar → Calendar
  marked [] k = k
  marked (e ∷ es) k = marked es (mark e k)

  -- Each reward is the one after that before it, and was granted on its day or later.
  abbrev pub InOrder : ℕ → List (ℕ × ℕ) → Type 0
  InOrder k [] = Unit
  InOrder k ((i, times) ∷ rest) =
      (i ≡ k)
      × ((c : RewardConfig) × (config i ≡ some c) × (c.continue_login_day ≤ times))
      × InOrder (k + 1) rest

  InOrder-append :
      (k : ℕ) (g more : List (ℕ × ℕ))
      → InOrder k g
      → InOrder (k + length g) more
      → InOrder k (g ++ more)
  InOrder-append k [] more h h' = subst (λ n. InOrder n more) (omega arith) h'
  InOrder-append k ((i, times) ∷ g) more (e, day, h) h' =
      (e, day, InOrder-append (k + 1) g more h (subst (λ n. InOrder n more) (omega arith) h'))

  -- What an event keeps: the last reward is that before the next one.
  Handled : ℕ → Calendar → Option (LoginState × List (ℕ × ℕ)) → Type 0
  Handled last k r =
      (st' : LoginState) × (g : List (ℕ × ℕ)) × (r ≡ some (st', g))
      × InOrder (last + 1) g
      × (st'.last_get_login_reward_index ≡ last + length g)
      × (st'.last_get_login_reward_index < 2 ^ 32)
      × (calendar st' ≡ k)

  unchanged :
      (last : ℕ) (st : LoginState) (r : Option (LoginState × List (ℕ × ℕ)))
      → st.last_get_login_reward_index ≡ last
      → last < 2 ^ 32
      → r ≡ some (st, [])
      → Handled last (calendar st) r
  unfolding Handled
  unchanged last st r e small h = (st, [], h, tt, omega (arith, e), omega (arith, e, small), refl)

  module _ (none_at_zero : config 0 ≡ none) where
    -- The next index does not wrap around to 0.
    next_is :
        (i last : ℕ) (c : RewardConfig)
        → last < 2 ^ 32
        → i ≡ (last + 1) % 2 ^ 32
        → config ((last + 1) % 2 ^ 32) ≡ some c
        → i ≡ last + 1
    next_is i last c small e f = elim (Bool-cases ((last + 1) % 2 ^ 32 == 0)) [
      | inl wraps ↦ absurd (ground (arith, wraps, f, none_at_zero))
      | inr stays ↦ ground (arith, stays, e, small)
    ]

    request-Handled :
        (i code : ℕ) (st : LoginState)
        → st.last_get_login_reward_index < 2 ^ 32
        → Handled st.last_get_login_reward_index
            (calendar st)
            (handle (request i code) st.new_continue_login_times st)
    unfolding on_get_login_reward can_get_login_reward Handled
    request-Handled i code st small =
        let last = st.last_get_login_reward_index in
        let next = (last + 1) % 2 ^ 32 in
        let same =
          unchanged last st (handle (request i code) st.new_continue_login_times st) refl small in
        elim (Option-cases (config i)) [
          | inl e ↦ same (ground (arith, e))
          | inr (c, e) ↦ elim (Option-cases (config next)) [
            | inl f ↦ same (ground (arith, e, f))
            | inr (c', f) ↦
                elim (Bool-cases (ltb st.new_continue_login_times c'.continue_login_day)) [
                  | inl early ↦ same (ground (arith, e, f, early))
                  | inr due ↦ elim (Bool-cases (i == next)) [
                    | inr other ↦ same (ground (arith, e, f, due, other))
                    | inl this ↦ elim (Bool-cases (code == 0)) [
                      | inr refused ↦ same (ground (arith, e, f, due, this, refused))
                      | inl ok ↦
                          let here : i ≡ last + 1 =
                            next_is (i) (last) c' small (ground (arith, this)) f in
                          (
                            record st { last_get_login_reward_index = i },
                            (i, st.new_continue_login_times) ∷ [],
                            ground (arith, e, f, due, this, ok),
                            (here, (c', ground (arith, this, f), ground (arith, due)), tt),
                            here,
                            ground (arith, this),
                            refl,
                          )
                    ]
                  ]
                ]
          ]
        ]

    on_login-last :
        (tm : ℕ) (st : LoginState)
        → (on_login config zone tm st).0.last_get_login_reward_index
          ≡ st.last_get_login_reward_index
    unfolding on_login
    on_login-last tm st = elim (Bool-cases (is_same_day zone st.new_continue_login_tm tm)) [
      | inl e ↦ rw e refl
      | inr e ↦ rw e refl
    ]

    -- OnLogin counts as the calendar does.
    on_login-calendar :
        (tm : ℕ) (st : LoginState)
        → calendar (on_login config zone tm st).0 ≡ mark (login tm) (calendar st)
    unfolding on_login is_same_day
    on_login-calendar tm st = elim (Bool-cases (is_same_day zone st.new_continue_login_tm tm)) [
      | inl e ↦ ground (arith, e)
      | inr e ↦ ground (arith, e)
    ]

    handle-Handled :
        (e : Event) (st : LoginState)
        → st.last_get_login_reward_index < 2 ^ 32
        → Handled st.last_get_login_reward_index
            (mark e (calendar st))
            (handle e st.new_continue_login_times st)
    unfolding Handled
    handle-Handled (login tm) st small =
        let kept = on_login-last tm st in
        (
          (on_login config zone tm st).0,
          [],
          refl,
          tt,
          omega (arith, kept),
          omega (arith, kept, small),
          on_login-calendar tm st,
        )
    handle-Handled (request i code) st small = request-Handled i code st small

    -- If no reward has the number 0, any sequence of logins and requests is handled without a failed
    -- assertion, whatever the script answers. The rewards that it grants have the numbers from the
    -- player's next one on, without a gap and each once, and the player's last reward is the last one
    -- granted. Each was granted when the calendar had counted as many days as it asks for: the
    -- calendar begins with the player's day and number of days and counts, modulo 2^32, the logins
    -- whose day in the time zone is not that of the login before. In the end the player's number of
    -- days is that of the calendar.
    pub run-InOrder :
        (es : List Event) (st : LoginState)
        → st.last_get_login_reward_index < 2 ^ 32
        → (st' : LoginState) × (g : List (ℕ × ℕ)) × (run es (calendar st) st ≡ some (st', g))
          × InOrder (st.last_get_login_reward_index + 1) g
          × (st'.last_get_login_reward_index ≡ st.last_get_login_reward_index + length g)
          × (st'.new_continue_login_times ≡ (marked es (calendar st)).days)
    unfolding Handled
    run-InOrder [] st small = (st, [], refl, tt, omega arith, refl)
    run-InOrder (e ∷ es) st small =
        let (st', g, first, ordered, last, small', agree) = handle-Handled e st small in
        let (st'', more, rest, ordered', last', days) = run-InOrder es st' small' in
        let rest' : run es (mark e (calendar st)) st' ≡ some (st'', more) =
          subst (λ k. run es k st' ≡ some (st'', more)) agree rest in
        (
          st'',
          g ++ more,
          ground (arith, first, rest'),
          InOrder-append (st.last_get_login_reward_index + 1) g more ordered
              (subst (λ n. InOrder n more) (omega (arith, last)) ordered'),
          omega (arith, last, last', length-append g more),
          subst (λ k. st''.new_continue_login_times ≡ (marked es k).days) agree days,
        )
