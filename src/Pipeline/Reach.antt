-- ===== src/Pipeline/Reach.antt =====
-- Which states a step reaches.
use aline_engine.Base.{ℕ, zero, suc, ◌≡◌, ◌≢◌, refl, ap}
use aline_engine.Pipeline.{State, not_run, running, done, fail, initial_step_state_machine, runs}

abbrev pub state_after : ℕ → State
state_after zero = not_run
state_after (suc zero) = running
state_after (suc (suc n)) = done

runs_done : (n : ℕ) → runs n (record { step_state = done }) ≡ record { step_state = done }
unfolding runs
runs_done zero = refl
runs_done (suc n) = runs_done n

runs_state : (n : ℕ) → (runs n initial_step_state_machine).step_state ≡ state_after n
unfolding runs initial_step_state_machine
runs_state zero = refl
runs_state (suc zero) = refl
runs_state (suc (suc n)) = ap (λ m. m.step_state) (runs_done n)

state_after-ne_fail : (n : ℕ) → state_after n ≢ fail
state_after-ne_fail zero e = cc
state_after-ne_fail (suc zero) e = cc
state_after-ne_fail (suc (suc n)) e = cc

-- A new step is not run, running after one call of `Run`, and done after two or more; it never
-- fails.
pub runs-initial :
    (n : ℕ)
    → ((runs n initial_step_state_machine).step_state ≡ state_after n)
      × ((runs n initial_step_state_machine).step_state ≢ fail)
runs-initial n = (runs_state n, λ e. state_after-ne_fail n (cc (runs_state n)))
