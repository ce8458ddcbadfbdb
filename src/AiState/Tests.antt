-- ===== src/AiState/Tests.antt =====
-- An object that records the calls of its states, taken through three of them.
use white_board_server.Prelude.{◌≡◌, true, none, some, List, [], ◌∷◌}
use white_board_server.AiState.Changing.{
  Call, exit_call, enter_call, change_states, in_state, change_states-calls,
}

abbrev note : Call → List Call → List Call
note c done = c ∷ done

change_states-calls_example :
    change_states note
      (λ s obj. obj)
      (λ s packet obj. (true, obj))
      (2 ∷ 3 ∷ 2 ∷ [])
      (in_state note (λ s obj. obj) (λ s packet obj. (true, obj)) none [] 1 none [])
    ≡ some (
        in_state note
          (λ s obj. obj)
          (λ s packet obj. (true, obj))
          none
          []
          2
          (some 3)
          (enter_call 2
            ∷ exit_call 3
            ∷ enter_call 3
            ∷ exit_call 2
            ∷ enter_call 2
            ∷ exit_call 1
            ∷ []))
change_states-calls_example =
    change_states-calls note (λ s obj. obj) (λ s packet obj. (true, obj)) none [] 1 none
      (2 ∷ 3 ∷ 2 ∷ []) []
