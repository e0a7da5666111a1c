-- ===== src/Engine/Launch.antt =====
-- `ExecuteJob`, and `TerminalJob` behind it.
use aline_engine.Base.{ℕ, ◌≡◌, refl, ◌∙◌, ap, Option, none, some, [], ◌∷◌, ◌++◌, subst}
use aline_engine.Base.Int.{ℤ}
use aline_engine.Base.Map.{Map}
use aline_engine.Base.Text.{Text}
use aline_engine.Dispatcher.{job_message, cancel_job_with_node}
use aline_engine.Engine.{
  Engine, Role, role_master, answer, load, execute_job, terminal_job, execute_created, only_master,
  dispatch_on, dispatched, with_master, of_reply,
}
use aline_engine.Master.Engine.{Master, Reply, reply, dispatch_job, cancel_job}
use aline_engine.Master.Retry.{dispatch_job-cancel_job}
use aline_engine.Model.Detail.{JobDetail}
use aline_engine.Model.Job.{Job, Stage}
use aline_engine.Model.Message.{Node, MessageType}
use aline_engine.Model.StageSort.{
  SortResult, sorted_stages, cannot_resolve, out_of_fuel, stage_sort,
}
use aline_engine.Model.Status.{status_notrun}
use aline_engine.Storage.Details.{create_job_detail, with_job, with_dir, save_new}
use aline_engine.Storage.Files.{create_dir_if_not_exist, get_job_detail_file_dir}
use aline_engine.Storage.Jobs.{get_job_object}
use aline_engine.Storage.Os.{Os, Codec, Fallible, ok, failed}
use aline_engine.Utils.Paths.{FilePath}

module _ (os : Os) (codec : Codec) (config : FilePath) where
  -- A run that is created has the given id and has not run.
  abbrev IsNew : ℤ → Fallible (JobDetail × Option Text) → Type 0
  IsNew id (ok (d, x)) = (d.id ≡ id) × (d.status ≡ status_notrun)
  IsNew id (failed x) = Unit {0}

  save_new-IsNew :
      (now : ℕ) (name : Text) (id : ℤ) (job : Job) (r : SortResult) (s : os.Files)
      → IsNew id (save_new os codec config now name id job r s).0
  save_new-IsNew now name id job (sorted_stages stages) s = (refl, refl)
  save_new-IsNew now name id job (cannot_resolve left) s = tt
  save_new-IsNew now name id job out_of_fuel s = tt

  with_dir-IsNew :
      (order : ℕ → Map Stage → Map Stage) (now : ℕ) (name : Text) (id : ℤ) (job : Job)
      (r : Option Text × os.Files)
      → IsNew id (with_dir os codec config order now name id job r).0
  with_dir-IsNew order now name id job (none, s) =
      save_new-IsNew now name id job (stage_sort order job) s
  with_dir-IsNew order now name id job (some e, s) = tt

  with_job-IsNew :
      (order : ℕ → Map Stage → Map Stage) (now : ℕ) (name : Text) (id : ℤ) (r : Fallible Job)
      (s : os.Files)
      → IsNew id (with_job os codec config order now name id r s).0
  with_job-IsNew order now name id (ok job) s =
      with_dir-IsNew order now name id job
        (create_dir_if_not_exist os (get_job_detail_file_dir config name) s)
  with_job-IsNew order now name id (failed e) s = tt

  create_job_detail-IsNew :
      (order : ℕ → Map Stage → Map Stage) (now : ℕ) (name : Text) (id : ℤ) (s : os.Files)
      → IsNew id (create_job_detail os codec config order now name id s).0
  unfolding create_job_detail
  create_job_detail-IsNew order now name id s =
      with_job-IsNew order now name id (get_job_object os codec config name s) s

  created_id :
      (order : ℕ → Map Stage → Map Stage) (now : ℕ) (name : Text) (id : ℤ) (d : JobDetail)
      (s s' : os.Files)
      → create_job_detail os codec config order now name id s ≡ (ok (d, none), s')
      → (d.id ≡ id) × (d.status ≡ status_notrun)
  created_id order now name id d s s' h =
      subst (λ (r : Fallible (JobDetail × Option Text) × os.Files). IsNew id r.0) h
        (create_job_detail-IsNew order now name id s)

  -- A call of the master that answers.
  called :
      (call : Master → Reply (Unit {0}) × Master) (m : Master) (e : Engine os)
      → (call m).0 ≡ reply tt
      → with_master os call (some m) e ≡ (answer tt, record e { master = some (call m).1 })
  called call m e h =
      ap (λ (r : Reply (Unit {0})). (of_reply r, record e { master = some (call m).1 })) h

  executed :
      (order : ℕ → Map Stage → Map Stage) (now : ℕ) (name : Text) (id : ℤ) (d : JobDetail)
      (s : os.Files) (e : Engine os)
      → e.role ≡ role_master
      → create_job_detail os codec config order now name id e.files ≡ (ok (d, none), s)
      → execute_job os codec config order now name id e
        ≡ dispatched os codec config d
            (dispatch_on os codec config name d.id (record e { files = s }))
  unfolding execute_job
  executed order now name id d s e role created =
      ap
        (λ (r : Role). only_master os r e (λ (x : Engine os).
          execute_created os codec config name
            (create_job_detail os codec config order now name id x.files) x))
        role
      ∙ ap
          (λ (c : Fallible (JobDetail × Option Text) × os.Files).
            execute_created os codec config name c e)
          created

  -- Where `ExecuteJob` of a master has created the run and found a node, the run has the given id and
  -- has not run, the job's file is sent to that node under this id, and `TerminalJob` sends the
  -- cancellation to the same node behind it.
  pub execute_job-terminal_job :
      (order : ℕ → Map Stage → Map Stage) (now : ℕ) (name : Text) (id : ℤ) (d : JobDetail)
      (s : os.Files) (m : Master) (e : Engine os)
      → e.role ≡ role_master
      → e.master ≡ some m
      → create_job_detail os codec config order now name id e.files ≡ (ok (d, none), s)
      → (dispatch_job (load os codec config s) name id m).0 ≡ reply tt
      → (e1 : Engine os) × (e2 : Engine os) × (m1 : Master) × (m2 : Master) × (node : Node)
        × (yaml : Text) × (d.id ≡ id)
        × (d.status ≡ status_notrun)
        × (execute_job os codec config order now name id e ≡ (answer (d, answer tt), e1))
        × (terminal_job os codec config name id e1 ≡ (answer tt, e2))
        × (e1.master ≡ some m1)
        × (e2.master ≡ some m2)
        × (load os codec config s name ≡ some yaml)
        × (m1.server.send_chan
            ≡ m.server.send_chan ++ job_message MessageType.execute name yaml id node ∷ [])
        × (m2.server.send_chan ≡ m1.server.send_chan ++ cancel_job_with_node name id node ∷ [])
  unfolding execute_job terminal_job
  execute_job-terminal_job order now name id d s m e role master created sent =
      let (same, fresh) = created_id order now name id d e.files s created in
      let (node, yaml, stored, first, told, second) =
        dispatch_job-cancel_job (load os codec config s) name id m sent in
      let m1 = (dispatch_job (load os codec config s) name id m).1 in
      let m2 = (cancel_job name id m1).1 in
      let e0 : Engine os = record e { files = s } in
      let e1 : Engine os = record e0 { master = some m1 } in
      let e2 : Engine os = record e1 { master = some m2 } in
      let call = dispatch_job (load os codec config s) name id in
      (
        e1,
        e2,
        m1,
        m2,
        node,
        yaml,
        same,
        fresh,
        executed order now name id d s e role created
            ∙ ap (λ (i : ℤ). dispatched os codec config d (dispatch_on os codec config name i e0))
                same
            ∙ ap (λ (o : Option Master). dispatched os codec config d (with_master os call o e0))
                master
            ∙ ap (dispatched os codec config d) (called call m e0 sent),
        ap
              (λ (r : Role).
                only_master os r e1
                  (λ (x : Engine os). with_master os (cancel_job name id) x.master x))
              role
            ∙ called (cancel_job name id) m1 e1 told,
        refl,
        refl,
        stored,
        first,
        second,
      )
