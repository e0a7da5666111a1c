-- ===== src/Pipeline.antt =====
-- pipeline/state.go and pipeline/state_machine.go: the state machine of a step. A state object has no
-- fields, so it is the name that `getState` returns.
pub mod Reach
use aline_engine.Base.{ℕ, zero, suc}

pub data State : Type 0 where
  not_run running done fail : State

pub record StepMachine : Type 0 where
  pub step_state : State

pub initial_step_state_machine : StepMachine
initial_step_state_machine = record { step_state = State.not_run }

-- The method `execute` of the four states.
pub execute_state : State → StepMachine → StepMachine
execute_state not_run m = record { step_state = State.running }
execute_state running m = record { step_state = State.done }
execute_state done m = m
execute_state fail m = m

-- `Run`, and `n` calls of it.
unfoldable pub run : StepMachine → StepMachine
unfolding execute_state
run m = execute_state m.step_state m

pub runs : ℕ → StepMachine → StepMachine
unfolding run
runs zero m = m
runs (suc n) m = runs n (run m)
