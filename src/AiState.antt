-- ===== src/AiState.antt =====
-- State machines of objects with behaviour: CbStateMachine (framework/base/CbStateMachine.h) and
-- CbAIObj (framework/base/CbAIObj.h and CbAIObj.cpp). A state is an object with virtual methods that
-- get the owner, so a method may change all of the owner, its machine as well. `none` is a call
-- through a null pointer.
pub mod Changing
pub mod Tests
use white_board_server.Prelude.{ℕ, Bool, true, false, Option, none, some, List, [], ◌∷◌}
use white_board_server.Prelude.Int.{ℤ, pos, minus_one}
use white_board_server.Containers.Ord.{Bytes, int_ord}
use white_board_server.Containers.Map.{Map, find}

-- CbStateMachine; a state is an address, and `none` is NULL.
pub record StateMachine : Type 0 where
  pub current_state : Option ℕ
  pub previous_state : Option ℕ
  pub global_state : Option ℕ

-- CbStateMachine::CbStateMachine
abbrev pub new_machine : StateMachine
new_machine = record { current_state = none; previous_state = none; global_state = none }

-- CbAIObj, with the members `rest` of a class derived from it.
pub record AiObj {ℓ} (D : Type ℓ) : Type ℓ where
  pub state_machine : Option StateMachine
  pub state_map : Map ℤ ℕ
  pub rest : D

-- CbAIObj::CbAIObj
abbrev pub new_obj {ℓ} : {D : Type ℓ} → D → AiObj D
new_obj rest = record { state_machine = none; state_map = []; rest = rest }

-- The virtual methods of CbAIState.
pub record States {ℓ} (D : Type ℓ) : Type ℓ where
  pub enter : ℕ → AiObj D → AiObj D
  pub execute : ℕ → AiObj D → AiObj D
  pub exit : ℕ → AiObj D → AiObj D
  pub on_message : ℕ → Bytes → AiObj D → Bool × AiObj D

module _ {ℓ} {D : Type ℓ} where
  -- CbAIObj::findAIState
  abbrev pub find_ai_state : ℤ → AiObj D → Option ℕ
  find_ai_state n_type obj = find n_type obj.state_map

  module _ (states : States D) where
    -- changeState after the exit of the state before: the machine is that which the exit left.
    unfoldable pub enter_state : Option ℕ → AiObj D → Option (AiObj D)
    enter_state none obj = none
    enter_state (some t) obj = elim obj.state_machine [
      | none ↦ none
      | some m ↦ some (
          states.enter t
            (record obj { state_machine = some (record m { current_state = some t }) }))
    ]

    -- CbStateMachine::changeState
    pub change_state : Option ℕ → AiObj D → Option (AiObj D)
    unfolding enter_state
    change_state new obj = elim obj.state_machine [
      | none ↦ none
      | some m ↦ elim m.current_state [
        | none ↦ none
        | some s ↦ enter_state new (
            states.exit s
              (record obj { state_machine = some (record m { previous_state = m.current_state }) }))
      ]
    ]

    -- CbStateMachine::revertToPreviousState
    pub revert_to_previous_state : AiObj D → Option (AiObj D)
    unfolding change_state
    revert_to_previous_state obj = elim obj.state_machine [
      | none ↦ none
      | some m ↦ change_state m.previous_state obj
    ]

    -- CbAIObj::changeAIState
    pub change_ai_state : ℤ → AiObj D → Option (ℤ × AiObj D)
    unfolding change_state
    change_ai_state n_state_type obj = elim (find_ai_state n_state_type obj) [
      | none ↦ some (minus_one, obj)
      | some s ↦ elim (change_state (some s) obj) [ none ↦ none | some obj' ↦ some (pos 0, obj') ]
    ]

    execute_state : Option ℕ → AiObj D → AiObj D
    execute_state none obj = obj
    execute_state (some s) obj = states.execute s obj

    -- CbStateMachine::update and CbAIObj::updateAIState: the current state is that after the global
    -- state was executed. The machine is still there.
    pub update_ai_state : AiObj D → Option (AiObj D)
    unfolding execute_state
    update_ai_state obj = elim obj.state_machine [
      | none ↦ none
      | some m ↦
          let obj' = execute_state m.global_state obj in
          elim obj'.state_machine [
            | none ↦ none
            | some m' ↦ some (execute_state m'.current_state obj')
          ]
    ]

    message_to : Option ℕ → Bytes → AiObj D → Bool × AiObj D
    message_to none packet obj = (false, obj)
    message_to (some s) packet obj = states.on_message s packet obj

    -- CbStateMachine::handleMessage
    pub handle_message : Bytes → AiObj D → Option (Bool × AiObj D)
    unfolding message_to
    handle_message packet obj = elim obj.state_machine [
      | none ↦ none
      | some m ↦
          let (handled, obj') = message_to m.current_state packet obj in
          elim handled [
            | true ↦ some (true, obj')
            | false ↦ elim obj'.state_machine [
              | none ↦ none
              | some m' ↦ some (message_to m'.global_state packet obj')
            ]
          ]
    ]
