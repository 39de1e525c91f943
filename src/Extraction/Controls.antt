-- ===== src/Extraction/Controls.antt =====
-- extraction/job_store.go: SaveJobIfCurrentStatus, SaveJobIfNoActive, ControlJob and
-- FinalizePausingJob. `now` is the clock's text.
use narou_viewer.Extraction.Files.{
  JobError, JobFile, JobRead, Store, absent, current_document, guarded, incompatible_document,
  invalid_job_action, job_not_found, read_error, read_job_file,
}
use narou_viewer.Extraction.Jobs.{
  Job, JobStatus, canceled, completed, failed, incompatible, interrupted, is_active_job_status,
  other_status, paused, pausing, queued, running,
}
use narou_viewer.Extraction.Names.{safe_future_job_owner}
use narou_viewer.Extraction.Reading.{load_jobs}
use narou_viewer.Extraction.Saving.{Stored, save_job}
use narou_viewer.Prelude.{
  Bool, List, Option, Result, String, [], any, err, false, find, if◌then◌else◌, none, not, ok, some,
  str_eq, true, ◌&&◌, ◌>>◌, ◌||◌, ◌∷◌,
}

abbrev pub failed_with : {A : Type 0} → Store → JobError → Stored A
failed_with s e = (s, err e)

-- The answer of an operation that saves one job and then returns a value.
abbrev pub answer_with : {A : Type 0} → A → Stored (Unit {0}) → Stored A
answer_with a (s, err e) = (s, err e)
answer_with a (s, ok u) = (s, ok a)

abbrev pub has_id : String → Job → Bool
has_id id job = str_eq job.job_id id

abbrev pub same_status : JobStatus → JobStatus → Bool
same_status queued queued = true
same_status running running = true
same_status pausing pausing = true
same_status paused paused = true
same_status interrupted interrupted = true
same_status canceled canceled = true
same_status completed completed = true
same_status failed failed = true
same_status incompatible incompatible = true
same_status (other_status s) (other_status t) = str_eq s t
same_status _ _ = false

-- slices.Contains(expectedStatuses, status).
unfoldable pub is_expected : JobStatus → List JobStatus → Bool
is_expected status expected = any (same_status status) expected

abbrev pub save_if_expected : String → Job → List JobStatus → Store → Option Job → Stored Bool
save_if_expected novel job expected s none = failed_with s job_not_found
save_if_expected novel job expected s (some found) =
    if is_expected found.status expected
    then answer_with true (save_job novel job s)
    else (s, ok false)

abbrev pub with_jobs :
    {A : Type 0} → Store → Result JobError (List Job) → (List Job → Stored A) → Stored A
with_jobs s (err e) next = failed_with s e
with_jobs s (ok jobs) next = next jobs

-- SaveJobIfCurrentStatus
unfoldable pub save_job_if_current_status : String → Job → List JobStatus → Store → Stored Bool
save_job_if_current_status novel job expected s =
    with_jobs s (load_jobs novel s)
      λ jobs. save_if_expected novel job expected s (find (has_id job.job_id) jobs)

-- preflightJobDocumentsUnlocked, over the files.
abbrev pub preflight_read : String → JobRead → Result JobError (Unit {0})
preflight_read novel absent = ok tt
preflight_read novel (read_error e) = err e
preflight_read novel (current_document d) = ok tt
preflight_read novel (incompatible_document d e) =
    if not (safe_future_job_owner d.novel_id) || str_eq d.novel_id novel
    then err (guarded e)
    else ok tt

unfoldable pub preflight_jobs : String → List (String × JobFile) → Result JobError (Unit {0})
preflight_jobs novel [] = ok tt
preflight_jobs novel ((name, f) ∷ rest) = do
  preflight_read novel (read_job_file name f)
  preflight_jobs novel rest

abbrev pub has_active_status : Job → Bool
has_active_status job = is_active_job_status job.status

-- The job that is stored, and whether it is the new one.
abbrev pub save_unless : String → Job → Store → Option Job → Stored (Job × Bool)
save_unless novel job s (some existing) = (s, ok (existing, false))
save_unless novel job s none = answer_with (job, true) (save_job novel job s)

-- SaveJobIfNoActive
unfoldable pub save_job_if_no_active : String → Job → Store → Stored (Job × Bool)
unfolding preflight_jobs
save_job_if_no_active novel job s =
    with_jobs s (preflight_jobs novel s.jobs >> load_jobs novel s)
      λ jobs. save_unless novel job s (find has_active_status jobs)

-- The texts of an action; any other is not allowed.
pub data JobAction : Type 0 where
  pause_job cancel_job resume_job : JobAction
  other_action : String → JobAction

abbrev pub set_pausing : Job → Job
set_pausing job = record job { status = pausing; progress_stage = some "pausing" }

abbrev pub set_canceled_job : String → Job → Job
set_canceled_job now job = record job {
  status = canceled;
  progress_stage = some "canceled";
  finished_at = some now;
  active_workers = [];
}

abbrev pub set_queued_job : Job → Job
set_queued_job job = record job {
  status = queued;
  progress_stage = some "queued";
  finished_at = none;
  error_message = none;
  active_workers = [];
}

abbrev pub is_halted : JobStatus → Bool
is_halted paused = true
is_halted interrupted = true
is_halted _ = false

abbrev pub pause_from : JobStatus → Job → Option Job
pause_from queued job = some (record job { status = paused; progress_stage = some "paused" })
pause_from running job = some (set_pausing job)
pause_from _ job = none

-- The switch of ControlJob: the job to save, unless the action is not allowed.
unfoldable pub controlled_job : JobAction → String → Job → Option Job
controlled_job pause_job now job = pause_from job.status job
controlled_job cancel_job now job =
    if not (is_active_job_status job.status) && not (is_halted job.status)
    then none
    else some (set_canceled_job now job)
controlled_job resume_job now job = if is_halted job.status then some (set_queued_job job) else none
controlled_job (other_action a) now job = none

abbrev pub save_controlled : String → Store → Option Job → Stored Job
save_controlled novel s none = failed_with s invalid_job_action
save_controlled novel s (some job) = answer_with job (save_job novel job s)

abbrev pub control_found : String → JobAction → String → Store → Option Job → Stored Job
control_found novel action now s none = failed_with s job_not_found
control_found novel action now s (some job) =
    save_controlled novel s (controlled_job action now job)

-- ControlJob
unfoldable pub control_job : String → String → JobAction → String → Store → Stored Job
unfolding controlled_job
control_job novel id action now s =
    with_jobs s (load_jobs novel s) λ jobs. control_found novel action now s (find (has_id id) jobs)

abbrev pub is_pausing_job : String → Job → Bool
is_pausing_job id job = has_id id job && same_status job.status pausing

abbrev pub set_paused_job : Job → Job
set_paused_job job = record job {
  status = paused;
  progress_stage = some "paused";
  active_workers = [];
}

abbrev pub finalize_found : String → Store → Option Job → Stored (Unit {0})
finalize_found novel s none = (s, ok tt)
finalize_found novel s (some job) = save_job novel (set_paused_job job) s

-- FinalizePausingJob
unfoldable pub finalize_pausing_job : String → String → Store → Stored (Unit {0})
finalize_pausing_job novel id s =
    with_jobs s (load_jobs novel s) λ jobs. finalize_found novel s (find (is_pausing_job id) jobs)
