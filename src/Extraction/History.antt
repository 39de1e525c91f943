-- ===== src/Extraction/History.antt =====
-- extraction/job_store.go: sequences of its operations, each of which may fail.
use narou_viewer.Extraction.Controls.{
  JobAction, control_job, finalize_pausing_job, has_active_status, preflight_jobs,
  save_job_if_current_status, save_job_if_no_active,
}
use narou_viewer.Extraction.Files.{JobError, Store}
use narou_viewer.Extraction.Jobs.{Job, JobStatus, JobWithNovel, JobsIndexDocument}
use narou_viewer.Extraction.Keeps.{
  control_job-keeps, finalize_pausing_job-keeps, recover_running_jobs-keeps,
  save_job_if_current_status-keeps, save_job_if_no_active-keeps,
}
use narou_viewer.Extraction.OneActive.{OneActive, save_job-OneActive}
use narou_viewer.Extraction.Reading.{
  is_active_of, is_newer, jobs_of, load_job_records, load_jobs, read_records, sort_job_records,
}
use narou_viewer.Extraction.Records.{count-active}
use narou_viewer.Extraction.Recovery.{
  rebuild_checked, rebuild_job_index, rebuilt_index, recover_running_jobs,
}
use narou_viewer.Extraction.Saving.{save_job}
use narou_viewer.Prelude.{
  Bool, Bool-cases, List, Result, Result-cases, String, [], arith, count, count-sort_stable, err,
  inl, inr, ok, refl, str_eq, trim_space, ◌∷◌, ◌≡◌, ◌≤◌,
}

pub data JobOp : Type 0 where
  saves_job : String → Job → JobOp
  saves_expected : String → Job → List JobStatus → JobOp
  enqueues_job : String → Job → JobOp
  controls_job : String → String → JobAction → String → JobOp
  finalizes_job : String → String → JobOp
  recovers_jobs : JobOp
  rebuilds_index : String → JobOp

rebuild-jobs : (name : String) (s : Store) → (rebuild_job_index name s).0.jobs ≡ s.jobs
unfolding rebuild_job_index
rebuild-jobs name s = elim (Bool-cases (str_eq (trim_space name) "")) [
  | inl t ↦ rw t refl
  | inr f ↦ rw f (checked (preflight_jobs (trim_space name) s.jobs))
]
  where
    rebuilt :
        (t : Store) (r : Result JobError JobsIndexDocument)
        → (rebuilt_index (trim_space name) t r).0.jobs ≡ t.jobs
    rebuilt t (ok d) = refl
    rebuilt t (err e) = refl

    checked :
        (r : Result JobError (Unit {0})) → (rebuild_checked (trim_space name) s r).0.jobs ≡ s.jobs
    checked (ok u) = rebuilt _ _
    checked (err e) = refl

rebuild-OneActive :
    (name : String) (s : Store) → OneActive s → OneActive (rebuild_job_index name s).0
unfolding OneActive
rebuild-OneActive name s h m = rw (rebuild-jobs name s) (h m)

count-jobs_of :
    (novel : String) (rs : List JobWithNovel)
    → count has_active_status (jobs_of novel rs) ≡ count (is_active_of novel) rs
unfolding count jobs_of
count-jobs_of novel [] = refl
count-jobs_of novel (r ∷ rest) =
    let ih = count-jobs_of novel rest in
    elim (Bool-cases (str_eq r.novel_id novel)) [
      | inl t ↦ rw t (omega arith)
      | inr f ↦ rw f (omega arith)
    ]

module _ (checkpoint_name : String → String → String) (moves : String → Bool) where
  -- The store that an operation leaves, its answer left out.
  unfoldable pub perform_job_op : JobOp → Store → Store
  perform_job_op (saves_job novel job) s = (save_job novel job s).0
  perform_job_op (saves_expected novel job expected) s =
      (save_job_if_current_status novel job expected s).0
  perform_job_op (enqueues_job novel job) s = (save_job_if_no_active novel job s).0
  perform_job_op (controls_job novel id action now) s = (control_job novel id action now s).0
  perform_job_op (finalizes_job novel id) s = (finalize_pausing_job novel id s).0
  perform_job_op recovers_jobs s = (recover_running_jobs checkpoint_name moves s).0
  perform_job_op (rebuilds_index name) s = (rebuild_job_index name s).0

  unfoldable pub run_job_ops : List JobOp → Store → Store
  unfolding perform_job_op
  run_job_ops [] s = s
  run_job_ops (op ∷ ops) s = run_job_ops ops (perform_job_op op s)

  perform-OneActive : (op : JobOp) (s : Store) → OneActive s → OneActive (perform_job_op op s)
  unfolding perform_job_op
  perform-OneActive (saves_job novel job) s h = save_job-OneActive novel job s h
  perform-OneActive (saves_expected novel job expected) s h =
      save_job_if_current_status-keeps OneActive save_job-OneActive novel job expected s h
  perform-OneActive (enqueues_job novel job) s h =
      save_job_if_no_active-keeps OneActive save_job-OneActive novel job s h
  perform-OneActive (controls_job novel id action now) s h =
      control_job-keeps OneActive save_job-OneActive novel id action now s h
  perform-OneActive (finalizes_job novel id) s h =
      finalize_pausing_job-keeps OneActive save_job-OneActive novel id s h
  perform-OneActive recovers_jobs s h =
      recover_running_jobs-keeps OneActive save_job-OneActive (λ name t k. unfold OneActive in k)
        checkpoint_name moves s h
  perform-OneActive (rebuilds_index name) s h = rebuild-OneActive name s h

  pub run_job_ops-OneActive :
      (ops : List JobOp) (s : Store) → OneActive s → OneActive (run_job_ops ops s)
  unfolding run_job_ops
  run_job_ops-OneActive [] s h = h
  run_job_ops-OneActive (op ∷ ops) s h =
      run_job_ops-OneActive ops (perform_job_op op s) (perform-OneActive op s h)

  -- However the jobs are saved, enqueued, controlled, finalized and recovered: from a directory in
  -- which every novel has at most one active job, as an empty one, no history of operations, failed
  -- ones included, leads to one where LoadJobs lists two active jobs of one novel.
  pub load_jobs-OneActive :
      (ops : List JobOp) (s : Store) (novel : String) (jobs : List Job)
      → OneActive s
      → load_jobs novel (run_job_ops ops s) ≡ ok jobs
      → count has_active_status jobs ≤ 1
  unfolding load_jobs load_job_records sort_job_records OneActive
  load_jobs-OneActive ops s novel jobs h e =
      let t = run_job_ops ops s in
      elim (Result-cases (read_records t.jobs)) [
        | inl (rs, e') ↦
            let listed : jobs ≡ jobs_of novel (sort_job_records rs) = ground arith in
            let one = run_job_ops-OneActive ops s h novel in
            let read = count-active novel t.jobs rs e' in
            let kept = count-sort_stable is_newer (is_active_of novel) rs in
            let listed_count = count-jobs_of novel (sort_job_records rs) in rw listed (omega arith)
        | inr (why, e') ↦ absurd (ground arith)
      ]
