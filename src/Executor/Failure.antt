-- ===== src/Executor/Failure.antt =====
-- What a failing action does to the job.
use aline_engine.Base.{
  ℕ, ◌+◌, ◌≡◌, ◌≢◌, refl, ap, ◌∙◌, ◌⊎◌, false, Option, none, List, [], ◌∷◌, Bool-cases, inl, inr,
}
use aline_engine.Base.Int.{int_eq}
use aline_engine.Base.Text.{Text, text_eq}
use aline_engine.Model.Job.{Step, StageDetail}
use aline_engine.Model.Status.{status_running}
use aline_engine.Executor.Run.{Handler, HandlerId, World, Run, save, execute_action}
use aline_engine.Executor.Loop.{
  begin_step, end_step, run_step, start_env, run_steps, begin_stage, end_stage, run_stages,
  unless_failed, after_steps,
}
use aline_engine.Executor.Cleanup.{pop_all-status}

-- Once the job's status is not "running", handlers are passed over without an error.
execute_action_over :
    (ah : Option (HandlerId × Handler)) (r : Run)
    → int_eq r.status status_running ≡ false
    → execute_action ah r ≡ (none, r)
unfolding execute_action
execute_action_over ah r h = rw h

module _ (w : World) where
  pub begin_step-status : (i j : ℕ) (r : Run) → (begin_step w i j r).status ≡ r.status
  unfolding begin_step save
  begin_step-status i j r = refl

  pub end_step-status :
      (i j : ℕ) (err : Option Text) (r : Run) → (end_step w i j err r).status ≡ r.status
  unfolding end_step save
  end_step-status i j err r = pop_all-status _ _

  pub begin_stage-status : (i : ℕ) (r : Run) → (begin_stage w i r).status ≡ r.status
  unfolding begin_stage save
  begin_stage-status i r = refl

  pub end_stage-status :
      (i : ℕ) (err : Option Text) (r : Run) → (end_stage w i err r).status ≡ r.status
  unfolding end_stage save
  end_stage-status i err r = refl

  run_step_over :
      (i j : ℕ) (step : Step) (r : Run)
      → int_eq r.status status_running ≡ false
      → ((run_step w i j step r).0 ≡ none) × ((run_step w i j step r).1.status ≡ r.status)
  unfolding run_step
  run_step_over i j step r h =
      rw (execute_action_over _ (begin_step w i j r) (rw (begin_step-status i j r) h))
        (refl, end_step-status i j none (begin_step w i j r) ∙ begin_step-status i j r)

  start_env_over :
      (i j : ℕ) (step : Step) (r : Run)
      → int_eq r.status status_running ≡ false
      → start_env w i j step r ≡ (none, r)
  unfolding start_env
  start_env_over i j step r h = elim (Bool-cases (text_eq step.runs_on [])) [
    | inl e ↦ rw e
    | inr e ↦ rw e (execute_action_over _ r h)
  ]

  pub run_steps_plain :
      (i j : ℕ) (step : Step) (steps : List Step) (err : Option Text) (r : Run)
      → start_env w i j step r ≡ (none, r)
      → let (step_err, r') = run_step w i j step r in
        run_steps w i j (step ∷ steps) err r ≡ run_steps w i (j + 1) steps step_err r'
  unfolding run_steps
  run_steps_plain i j step steps err r e =
      ap
        (λ p. unless_failed w p (λ r1.
          let (step_err, r2) = run_step w i j step r1 in run_steps w i (j + 1) steps step_err r2))
        e

  -- Once the status is not "running", the last of the steps decides: an error so far is forgotten.
  pub run_steps_over :
      (i j : ℕ) (steps : List Step) (err : Option Text) (r : Run)
      → int_eq r.status status_running ≡ false
      → (steps ≢ []) ⊎ (err ≡ none)
      → ((run_steps w i j steps err r).0 ≡ none)
        × ((run_steps w i j steps err r).1.status ≡ r.status)
  run_steps_over i j [] err r h (inl some_step) = absurd (some_step refl)
  run_steps_over i j [] err r h (inr e) = unfold run_steps in (e, refl)
  run_steps_over i j (step ∷ steps) err r h some_step =
      let (step_err, r') = run_step w i j step r in
      let (no_err, same) = run_step_over i j step r h in
      let (rest_err, rest_same) =
        run_steps_over i (j + 1) steps (run_step w i j step r).0 (run_step w i j step r).1
          (rw same h) (inr no_err) in
      rw (run_steps_plain i j step steps err r (start_env_over i j step r h))
        (rest_err, rest_same ∙ same)

  pub run_stages_over :
      (i : ℕ) (ds : List StageDetail) (r : Run)
      → int_eq r.status status_running ≡ false
      → (run_stages w i ds none r).0 ≡ none
  unfolding run_stages
  run_stages_over i [] r h = refl
  run_stages_over i (d ∷ ds) r h =
      let begun = begin_stage w i r in
      let steps =
        run_steps_over i 0 d.stage.steps none begun (rw (begin_stage-status i r) h) (inr refl) in
      let ended = end_stage w i none (run_steps w i 0 d.stage.steps none begun).1 in
      let same : ended.status ≡ r.status =
        end_stage-status i none _ ∙ steps.1 ∙ begin_stage-status i r in
      ap
        (λ e.
          (after_steps w i (e, (run_steps w i 0 d.stage.steps none begun).1)
            (run_stages w (i + 1) ds none)).0)
        steps.0
      ∙ run_stages_over (i + 1) ds ended (rw same h)

  -- A step whose action fails and that is not the last of its stage.
  module _ (i j : ℕ) (step next : Step) (steps : List Step) (err : Option Text) (r : Run)
      (plain : start_env w i j step r ≡ (none, r))
      (failed : int_eq (run_step w i j step r).1.status status_running ≡ false) where
    pub run_steps_masked :
        ((run_steps w i j (step ∷ next ∷ steps) err r).0 ≡ none)
        × ((run_steps w i j (step ∷ next ∷ steps) err r).1.status
            ≡ (run_step w i j step r).1.status)
    run_steps_masked =
        let (step_err, r') = run_step w i j step r in
        rw (run_steps_plain i j step (next ∷ steps) err r plain) (
          run_steps_over i (j + 1) (next ∷ steps) (run_step w i j step r).0
            (run_step w i j step r).1 failed (inl (λ e. cc)))
