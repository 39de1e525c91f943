-- ===== src/Extraction/Keeps.antt =====
-- extraction/job_store.go: the operations as saves of jobs, for the properties that a save keeps.
use narou_viewer.Extraction.Controls.{
  JobAction, answer_with, control_found, control_job, controlled_job, finalize_found,
  finalize_pausing_job, has_active_status, has_id, is_expected, is_pausing_job, preflight_jobs,
  save_controlled, save_if_expected, save_job_if_current_status, save_job_if_no_active, save_unless,
  set_paused_job, with_jobs,
}
use narou_viewer.Extraction.Files.{JobError, Store, remove_file}
use narou_viewer.Extraction.Jobs.{Job, JobStatus, JobWithNovel}
use narou_viewer.Extraction.Reading.{load_for_execution, load_jobs}
use narou_viewer.Extraction.Recovery.{
  CheckpointRead, checkpoint_of, fail_stop_job, good_checkpoint, incompatible_checkpoint,
  interrupted_job, no_checkpoint, quarantine, recover_all, recover_loaded, recover_one,
  recover_read, recover_running_jobs, then_with, unread_checkpoint, was_running,
}
use narou_viewer.Extraction.Saving.{Stored, save_job}
use narou_viewer.Prelude.{
  Bool, Bool-cases, List, Option, Result, String, [], err, find, inl, inr, none, ok, some, true,
  ◌>>◌, ◌∷◌,
}

-- The shapes that the operations share, for a property of the store that they leave.
module _ {κ} (P : Store → Type κ) where
  pub answer_with-keeps :
      {A : Type 0} (a : A) (o : Stored (Unit {0})) → P o.0 → P (answer_with a o).0
  answer_with-keeps a (s, ok u) h = h
  answer_with-keeps a (s, err e) h = h

  with_jobs-keeps :
      {A : Type 0} (s : Store) (r : Result JobError (List Job)) (next : List Job → Stored A)
      → P s
      → ((jobs : List Job) → P (next jobs).0)
      → P (with_jobs s r next).0
  with_jobs-keeps s (ok jobs) next h k = k jobs
  with_jobs-keeps s (err e) next h k = h

  pub then_with-keeps :
      {A B : Type 0} (o : Stored A) (next : A → Store → Stored B)
      → P o.0
      → ((a : A) (s : Store) → P s → P (next a s).0)
      → P (then_with o next).0
  then_with-keeps (s, ok a) next h k = k a s h
  then_with-keeps (s, err e) next h k = h

  -- Every operation saves jobs, or touches what `P` does not read.
  module _
      (saves : (novel : String) (job : Job) (s : Store) → P s → P (save_job novel job s).0) where
    answered :
        {A : Type 0} (a : A) (novel : String) (job : Job) (s : Store)
        → P s
        → P (answer_with a (save_job novel job s)).0
    answered a novel job s h = answer_with-keeps a (save_job novel job s) (saves novel job s h)

    pub save_job_if_current_status-keeps :
        (novel : String) (job : Job) (expected : List JobStatus) (s : Store)
        → P s
        → P (save_job_if_current_status novel job expected s).0
    unfolding save_job_if_current_status
    save_job_if_current_status-keeps novel job expected s h =
        with_jobs-keeps s (load_jobs novel s) _ h λ jobs. go (find (has_id job.job_id) jobs)
      where
        go : (o : Option Job) → P (save_if_expected novel job expected s o).0
        go none = h
        go (some found) = elim (Bool-cases (is_expected found.status expected)) [
          | inl t ↦ rw t (answered true novel job s h)
          | inr f ↦ rw f h
        ]

    pub save_job_if_no_active-keeps :
        (novel : String) (job : Job) (s : Store) → P s → P (save_job_if_no_active novel job s).0
    unfolding save_job_if_no_active
    save_job_if_no_active-keeps novel job s h =
        with_jobs-keeps s (preflight_jobs novel s.jobs >> load_jobs novel s) _ h
          λ jobs. go (find has_active_status jobs)
      where
        go : (o : Option Job) → P (save_unless novel job s o).0
        go none = answered (job, true) novel job s h
        go (some existing) = h

    pub control_job-keeps :
        (novel id : String) (action : JobAction) (now : String) (s : Store)
        → P s
        → P (control_job novel id action now s).0
    unfolding control_job
    control_job-keeps novel id action now s h =
        with_jobs-keeps s (load_jobs novel s) _ h λ jobs. go (find (has_id id) jobs)
      where
        saved : (o : Option Job) → P (save_controlled novel s o).0
        saved none = h
        saved (some job) = answered job novel job s h

        go : (o : Option Job) → P (control_found novel action now s o).0
        go none = h
        go (some job) = saved (controlled_job action now job)

    pub finalize_pausing_job-keeps :
        (novel id : String) (s : Store) → P s → P (finalize_pausing_job novel id s).0
    unfolding finalize_pausing_job
    finalize_pausing_job-keeps novel id s h =
        with_jobs-keeps s (load_jobs novel s) _ h λ jobs. go (find (is_pausing_job id) jobs)
      where
        go : (o : Option Job) → P (finalize_found novel s o).0
        go none = h
        go (some job) = saves novel (set_paused_job job) s h

    module _
        (drops : (name : String) (s : Store)
          → P s
          → P (record s { checkpoints = remove_file name s.checkpoints }))
        (checkpoint_name : String → String → String) (moves : String → Bool) where
      quarantine-keeps :
          (name : String) (s : Store) → P s → P (quarantine checkpoint_name moves name s).0
      quarantine-keeps name s h = elim (Bool-cases (moves name)) [
        | inl t ↦ rw t (drops name s h)
        | inr f ↦ rw f h
      ]

      recover_read-keeps :
          (novel : String) (job : Job) (s : Store) (c : CheckpointRead)
          → P s
          → P (recover_read checkpoint_name moves novel job s c).0
      recover_read-keeps novel job s no_checkpoint h = answered 1 novel (interrupted_job job) s h
      recover_read-keeps novel job s good_checkpoint h = answered 1 novel (interrupted_job job) s h
      recover_read-keeps novel job s unread_checkpoint h = h
      recover_read-keeps novel job s incompatible_checkpoint h =
          then_with-keeps (save_job novel (fail_stop_job job) s) _
            (saves novel (fail_stop_job job) s h)
            λ u s' h'.
              answer_with-keeps 0
                (quarantine checkpoint_name moves (checkpoint_of checkpoint_name moves novel job)
                  s')
                (quarantine-keeps (checkpoint_of checkpoint_name moves novel job) s' h')

      recover_one-keeps :
          (r : JobWithNovel) (s : Store) → P s → P (recover_one checkpoint_name moves r s).0
      unfolding recover_one
      recover_one-keeps r s h = elim (Bool-cases (was_running r.job.status)) [
        | inl t ↦ rw t (recover_read-keeps r.novel_id r.job s _ h)
        | inr f ↦ rw f h
      ]

      recover_all-keeps :
          (rs : List JobWithNovel) (s : Store) → P s → P (recover_all checkpoint_name moves rs s).0
      unfolding recover_all
      recover_all-keeps [] s h = h
      recover_all-keeps (r ∷ rest) s h =
          then_with-keeps (recover_one checkpoint_name moves r s) _ (recover_one-keeps r s h)
            λ n s' h'.
              then_with-keeps (recover_all checkpoint_name moves rest s') _
                (recover_all-keeps rest s' h') λ k s'' h''. h''

      pub recover_running_jobs-keeps :
          (s : Store) → P s → P (recover_running_jobs checkpoint_name moves s).0
      unfolding recover_running_jobs
      recover_running_jobs-keeps s h = go (load_for_execution s)
        where
          go :
              (r : Result JobError (List JobWithNovel))
              → P (recover_loaded checkpoint_name moves s r).0
          go (ok rs) = recover_all-keeps rs s h
          go (err e) = h
