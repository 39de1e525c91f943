-- ===== src/Extraction/Transitions.antt =====
-- extraction/job_store.go: ControlJob and FinalizePausingJob as steps of a state machine.
use narou_viewer.Extraction.Controls.{
  JobAction, answer_with, cancel_job, control_found, control_job, controlled_job, finalize_found,
  finalize_pausing_job, has_id, is_halted, is_pausing_job, other_action, pause_from, pause_job,
  resume_job, same_status, save_controlled, set_canceled_job, set_paused_job, set_pausing,
  set_queued_job,
}
use narou_viewer.Extraction.Directory.{Distinct}
use narou_viewer.Extraction.Files.{Store}
use narou_viewer.Extraction.Jobs.{
  Job, JobStatus, canceled, completed, failed, incompatible, interrupted, is_active_job_status,
  other_status, paused, pausing, queued, running,
}
use narou_viewer.Extraction.Reading.{load_jobs}
use narou_viewer.Extraction.Saving.{Stored, may_save, save_job}
use narou_viewer.Extraction.View.{InView, Viewed, load_jobs-InView, view, view-save_job}
use narou_viewer.Prelude.{
  All-find, Bool-cases, Option, Result-cases, String, arith, err, find, find-holds, inl, inr, is_ok,
  none, ok, refl, some, str_eq, str_eq_iff, subst, sym, true, ◌&&◌, ◌≡◌, ◌≢◌,
}

-- The statuses that follow one another when a job is paused, canceled or resumed.
pub data Transition : JobStatus → JobStatus → Type 0 where
  pauses_queued : Transition queued paused
  pauses_running : Transition running pausing
  finishes_pause : Transition pausing paused
  cancels_active : {a : JobStatus} → is_active_job_status a ≡ true → Transition a canceled
  cancels_halted : {a : JobStatus} → is_halted a ≡ true → Transition a canceled
  resumes : {a : JobStatus} → is_halted a ≡ true → Transition a queued

-- What the map may hold for an id later on: the job keeps its novel.
pub data Later (before : Viewed) : Viewed → Type 0 where
  unchanged_yet : Later before before
  moves_on :
      {novel : String} {a b : JobStatus}
      → Transition a b
      → Later before (some (novel, a))
      → Later before (some (novel, b))

pub controlled_job-Transition :
    (action : JobAction) (now : String) (job changed : Job)
    → controlled_job action now job ≡ some changed
    → (changed.job_id ≡ job.job_id) × Transition job.status changed.status
unfolding controlled_job
controlled_job-Transition pause_job now job changed h = go job.status refl
  where
    refused : (st : JobStatus) → job.status ≡ st → ((j : Job) → pause_from st j ≡ none) → ⊥
    refused st e k =
        let r : pause_from st job ≡ some changed =
          subst (λ t. pause_from t job ≡ some changed) e h in
        let n = k job in cc

    go :
        (st : JobStatus)
        → job.status ≡ st
        → (changed.job_id ≡ job.job_id) × Transition job.status changed.status
    go queued e =
        let r : pause_from queued job ≡ some changed =
          subst (λ t. pause_from t job ≡ some changed) e h in
        let same : record job { status = paused; progress_stage = some "paused" } ≡ changed = cc in
        rw (← same, e) (refl, pauses_queued)
    go running e =
        let r : pause_from running job ≡ some changed =
          subst (λ t. pause_from t job ≡ some changed) e h in
        let same : set_pausing job ≡ changed = cc in rw (← same, e) (refl, pauses_running)
    go pausing e = absurd (refused pausing e (λ j. refl))
    go paused e = absurd (refused paused e (λ j. refl))
    go interrupted e = absurd (refused interrupted e (λ j. refl))
    go canceled e = absurd (refused canceled e (λ j. refl))
    go completed e = absurd (refused completed e (λ j. refl))
    go failed e = absurd (refused failed e (λ j. refl))
    go incompatible e = absurd (refused incompatible e (λ j. refl))
    go (other_status x) e = absurd (refused (other_status x) e (λ j. refl))
controlled_job-Transition cancel_job now job changed h =
    elim (Bool-cases (is_active_job_status job.status)) [
      | inl t ↦
          let same : set_canceled_job now job ≡ changed = ground arith in
          rw (← same) (refl, cancels_active t)
      | inr f ↦ elim (Bool-cases (is_halted job.status)) [
        | inl t ↦
            let same : set_canceled_job now job ≡ changed = ground arith in
            rw (← same) (refl, cancels_halted t)
        | inr g ↦ absurd (ground arith)
      ]
    ]
controlled_job-Transition resume_job now job changed h = elim (Bool-cases (is_halted job.status)) [
  | inl t ↦ let same : set_queued_job job ≡ changed = ground arith in rw (← same) (refl, resumes t)
  | inr f ↦ absurd (ground arith)
]
controlled_job-Transition (other_action a) now job changed h = absurd (cc)

Transition-ne-incompatible : {a b : JobStatus} → Transition a b → a ≢ incompatible
Transition-ne-incompatible pauses_queued e = cc
Transition-ne-incompatible pauses_running e = cc
Transition-ne-incompatible finishes_pause e = cc
Transition-ne-incompatible (cancels_active h) e = ground arith
Transition-ne-incompatible (cancels_halted h) e = ground arith
Transition-ne-incompatible (resumes h) e = ground arith

-- A save of a job that is listed, under its id and a status that follows.
listed-Later :
    (novel : String) (job changed : Job) (s : Store) (id : String)
    → InView s novel job
    → changed.job_id ≡ job.job_id
    → Transition job.status changed.status
    → Later (view s id) (view (save_job novel changed s).0 id)
listed-Later novel job changed s id (inl bad) same move =
    absurd (Transition-ne-incompatible move bad)
listed-Later novel job changed s id (inr seen) same move =
    rw (view-save_job novel changed s id)
      (elim (Bool-cases (is_ok (may_save novel changed s) && str_eq changed.job_id id)) [
        | inl t ↦
            let here : str_eq changed.job_id id ≡ true = ground arith in
            let found : view s id ≡ some (novel, job.status) =
              rw (← (str_eq_iff changed.job_id id).0 here, same) seen in
            rw (t, found) (moves_on move unchanged_yet)
        | inr f ↦ rw f unchanged_yet
      ])

answer_with-store : {A : Type 0} (a : A) (o : Stored (Unit {0})) → (answer_with a o).0 ≡ o.0
answer_with-store a (s, ok u) = refl
answer_with-store a (s, err e) = refl

pub control_job-Later :
    (novel job_id : String) (action : JobAction) (now : String) (s : Store) (id : String)
    → Distinct s.jobs
    → Later (view s id) (view (control_job novel job_id action now s).0 id)
unfolding control_job
control_job-Later novel job_id action now s id d = elim (Result-cases (load_jobs novel s)) [
  | inl (jobs, e) ↦ rw e (
      found (find (has_id job_id) jobs) (λ job.
        All-find (InView s novel) (has_id job_id) jobs job (load_jobs-InView s novel jobs d e)))
  | inr (why, e) ↦ rw e unchanged_yet
]
  where
    saved :
        (job : Job) (o : Option Job)
        → InView s novel job
        → controlled_job action now job ≡ o
        → Later (view s id) (view (save_controlled novel s o).0 id)
    saved job none seen e = unchanged_yet
    saved job (some changed) seen e =
        let (same, move) = controlled_job-Transition action now job changed e in
        subst (λ (t : Store). Later (view s id) (view t id))
          (sym (answer_with-store changed (save_job novel changed s)))
          (listed-Later novel job changed s id seen same move)

    found :
        (o : Option Job)
        → ((job : Job) → o ≡ some job → InView s novel job)
        → Later (view s id) (view (control_found novel action now s o).0 id)
    found none seen = unchanged_yet
    found (some job) seen = saved job (controlled_job action now job) (seen job refl) refl

pub finalize-Later :
    (novel job_id : String) (s : Store) (id : String)
    → Distinct s.jobs
    → Later (view s id) (view (finalize_pausing_job novel job_id s).0 id)
unfolding finalize_pausing_job
finalize-Later novel job_id s id d = elim (Result-cases (load_jobs novel s)) [
  | inl (jobs, e) ↦ rw e (
      found (find (is_pausing_job job_id) jobs)
        (λ job.
          All-find (InView s novel) (is_pausing_job job_id) jobs job
            (load_jobs-InView s novel jobs d e))
        (λ job. find-holds (is_pausing_job job_id) jobs job))
  | inr (why, e) ↦ rw e unchanged_yet
]
  where
    pausing_status : (st : JobStatus) → same_status st pausing ≡ true → st ≡ pausing
    pausing_status pausing h = refl
    pausing_status queued h = absurd (cc)
    pausing_status running h = absurd (cc)
    pausing_status paused h = absurd (cc)
    pausing_status interrupted h = absurd (cc)
    pausing_status canceled h = absurd (cc)
    pausing_status completed h = absurd (cc)
    pausing_status failed h = absurd (cc)
    pausing_status incompatible h = absurd (cc)
    pausing_status (other_status x) h = absurd (cc)

    found :
        (o : Option Job)
        → ((job : Job) → o ≡ some job → InView s novel job)
        → ((job : Job) → o ≡ some job → is_pausing_job job_id job ≡ true)
        → Later (view s id) (view (finalize_found novel s o).0 id)
    found none seen passed = unchanged_yet
    found (some job) seen passed =
        let was : same_status job.status pausing ≡ true = ground (arith, passed job refl) in
        listed-Later novel job (set_paused_job job) s id (seen job refl) refl
          (rw (pausing_status job.status was) finishes_pause)
