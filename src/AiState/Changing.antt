-- ===== src/AiState/Changing.antt =====
-- What changes of state call, and what the machine remembers of them.
use white_board_server.Prelude.{ℕ, ◌≡◌, refl, Bool, Option, none, some, List, [], ◌∷◌}
use white_board_server.Prelude.Int.{ℤ}
use white_board_server.Containers.Ord.{Bytes}
use white_board_server.Containers.Map.{Map}
use white_board_server.AiState.{AiObj, States, enter_state, change_state, revert_to_previous_state}

-- What the machine calls.
pub data Call : Type 0 where
  exit_call : ℕ → Call
  enter_call : ℕ → Call

module _ {ℓ} {D : Type ℓ} (on_call : Call → D → D) (step : ℕ → AiObj D → AiObj D)
    (asked : ℕ → Bytes → AiObj D → Bool × AiObj D) where
  -- States whose enter and exit change the derived class's members only.
  abbrev pub quiet : States D
  quiet = record {
    enter = λ s obj. record obj { rest = on_call (enter_call s) obj.rest };
    execute = step;
    exit = λ s obj. record obj { rest = on_call (exit_call s) obj.rest };
    on_message = asked;
  }

  abbrev pub perform : List Call → D → D
  perform [] d = d
  perform (c ∷ calls) d = perform calls (on_call c d)

  abbrev pub change_states : List ℕ → AiObj D → Option (AiObj D)
  change_states [] obj = some obj
  change_states (t ∷ ts) obj = elim (change_state quiet (some t) obj) [
    | none ↦ none
    | some obj' ↦ change_states ts obj'
  ]

-- The calls of a sequence of changes from a state.
abbrev pub calls_from : ℕ → List ℕ → List Call
calls_from s [] = []
calls_from s (t ∷ ts) = exit_call s ∷ enter_call t ∷ calls_from t ts

-- The state before the last one of a sequence of changes, if there was a change or one before it.
abbrev pub before_last : Option ℕ → ℕ → List ℕ → Option ℕ
before_last previous s [] = previous
before_last previous s (t ∷ ts) = before_last (some s) t ts

abbrev pub last_of : ℕ → List ℕ → ℕ
last_of s [] = s
last_of s (t ∷ ts) = last_of t ts

module _ {ℓ} {D : Type ℓ} (on_call : Call → D → D) (step : ℕ → AiObj D → AiObj D)
    (asked : ℕ → Bytes → AiObj D → Bool × AiObj D) (global_state : Option ℕ)
    (state_map : Map ℤ ℕ) where
  -- An object whose machine is in a state.
  abbrev pub in_state : ℕ → Option ℕ → D → AiObj D
  in_state s previous rest = record {
    state_machine =
        some (record {
          current_state = some s;
          previous_state = previous;
          global_state = global_state;
        });
    state_map = state_map;
    rest = rest;
  }

  -- From a machine that is in a state, any sequence of changes by states whose enter and exit leave
  -- the machine alone succeeds: each change exits the state that the change before entered and then
  -- enters its own; at the end the machine is in the last state and remembers the one before it, and
  -- the global state and the map of states are as they were.
  pub change_states-calls :
      (s : ℕ) (previous : Option ℕ) (ts : List ℕ) (d : D)
      → change_states on_call step asked ts (in_state s previous d)
        ≡ some (
            in_state
              (last_of s ts)
              (before_last previous s ts)
              (perform on_call step asked (calls_from s ts) d))
  unfolding change_state enter_state
  change_states-calls s previous [] d = refl
  change_states-calls s previous (t ∷ ts) d =
      change_states-calls t (some s) ts (on_call (enter_call t) (on_call (exit_call s) d))

  abbrev pub revert_twice : AiObj D → Option (AiObj D)
  revert_twice obj = elim (revert_to_previous_state (quiet on_call step asked) obj) [
    | none ↦ none
    | some obj' ↦ revert_to_previous_state (quiet on_call step asked) obj'
  ]

  -- Two reverts in a row lead back, through the calls of two changes.
  pub revert_twice-returns :
      (s t : ℕ) (d : D)
      → revert_twice (in_state s (some t) d)
        ≡ change_states on_call step asked (t ∷ s ∷ []) (in_state s (some t) d)
  unfolding revert_to_previous_state change_state enter_state
  revert_twice-returns s t d = refl

  -- A machine that was never in another state has none to revert to.
  pub revert-faults :
      (s : ℕ) (d : D)
      → revert_to_previous_state (quiet on_call step asked) (in_state s none d) ≡ none
  unfolding revert_to_previous_state change_state enter_state
  revert-faults s d = refl
