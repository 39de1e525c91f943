-- ===== src/Scenarios/Jobs.antt =====
-- Extraction jobs of two novels.
use narou_viewer.Extraction.Controls.{
  control_job, finalize_pausing_job, has_active_status, pause_job, resume_job,
  save_job_if_no_active,
}
use narou_viewer.Extraction.Coordinator.{
  is_executable, job_still_executable, process_round, processes,
}
use narou_viewer.Extraction.Directory.{Distinct}
use narou_viewer.Extraction.Files.{
  JobFile, Store, document_file, file_at, is_valid_document, read_job_document, read_job_file,
  write_file,
}
use narou_viewer.Extraction.History.{
  JobOp, controls_job, enqueues_job, finalizes_job, load_jobs-OneActive, run_job_ops,
}
use narou_viewer.Extraction.Jobs.{
  Job, JobStatus, JobWithNovel, job_document, paused, queued, running, to_job,
}
use narou_viewer.Extraction.Lives.{ControlOp, controls, finalizes, run_controls, run_controls-Later}
use narou_viewer.Extraction.Names.{
  is_non_negative_integer_string, safe_job_file_name, safe_novel_id,
}
use narou_viewer.Extraction.Oldest.{NoneOlder, process_round-oldest}
use narou_viewer.Extraction.OneActive.{OneActive, saved-active}
use narou_viewer.Extraction.Reading.{load_for_execution, load_job_records, load_jobs}
use narou_viewer.Extraction.Recovered.{Halted, recover_running_jobs-Halted}
use narou_viewer.Extraction.Recovery.{recover_running_jobs, was_running}
use narou_viewer.Extraction.Saving.{index_with, load_or_rebuild_job_index, save_job}
use narou_viewer.Extraction.Transitions.{Later}
use narou_viewer.Extraction.View.{view}
use narou_viewer.Prelude.{
  All, Bool, Bool-cases, List, String, [], any, arith, count, false, find, inl, inr, none, ok, pos,
  refl, some, str_eq, str_eq_iff, subst, text_lt, trim_space, true, ◌∷◌, ◌≡◌, ◌≤◌,
}
use narou_viewer.Schemaguard.{check_header, classify, reads_legacy}

abbrev new_job : String → JobStatus → String → Job
new_job id st at = record {
  job_id = id;
  requested_up_to_episode_index = "12";
  profile_id = none;
  profile_label = none;
  generation_mode = "ai";
  generation_strategy = "serial";
  model_id = none;
  status = st;
  progress = none;
  progress_stage = none;
  current_batch_index = none;
  batch_count = none;
  completed_batch_count = none;
  generated_character_count = none;
  generated_term_count = none;
  active_workers = [];
  created_at = at;
  started_at = none;
  finished_at = none;
  error_message = none;
}

abbrev job_entry : String → Job → String × JobFile
job_entry novel job = (job.job_id, document_file (some (pos 2)) novel (job_document novel job))

-- A job of the first novel runs, and one of the second waits.
abbrev two_jobs : Store
two_jobs = record {
  jobs =
      job_entry "n1" (new_job "j1" running "2024-01-01")
      ∷ job_entry "n2" (new_job "j2" queued "2024-01-02")
      ∷ [];
  indexes = [];
  checkpoints = [];
}

abbrev by_novel : String → String → String
by_novel novel episode = novel

abbrev always : String → Bool
always name = true

-- One more job is refused, the running one is asked to pause, and a third job is enqueued.
abbrev some_ops : List JobOp
some_ops =
    enqueues_job "n2" (new_job "j3" queued "2024-01-03")
    ∷ controls_job "n1" "j1" pause_job "2024-01-04"
    ∷ finalizes_job "n1" "j1"
    ∷ []

first_valid : is_valid_document (job_document "n1" (new_job "j1" running "2024-01-01")) "j1" ≡ true
unfolding is_valid_document safe_job_file_name trim_space job_document str_eq safe_novel_id
    is_non_negative_integer_string
first_valid = refl

second_valid : is_valid_document (job_document "n2" (new_job "j2" queued "2024-01-02")) "j2" ≡ true
unfolding is_valid_document safe_job_file_name trim_space job_document str_eq safe_novel_id
    is_non_negative_integer_string
second_valid = refl

names_differ : str_eq "n2" "n1" ≡ false
unfolding str_eq
names_differ = refl

two_jobs-OneActive : OneActive two_jobs
unfolding OneActive count
two_jobs-OneActive novel =
    let first = saved-active novel "n1" (new_job "j1" running "2024-01-01") first_valid in
    let second = saved-active novel "n2" (new_job "j2" queued "2024-01-02") second_valid in
    rw (first, second)
      (elim (Bool-cases (str_eq "n1" novel)) [
        | inl t ↦
            let other : str_eq "n2" novel ≡ false =
              subst (λ n. str_eq "n2" n ≡ false) ((str_eq_iff "n1" novel).0 t) names_differ in
            ground arith
        | inr f ↦ ground arith
      ])

abbrev paused_j1 : Job
paused_j1 = record (new_job "j1" paused "2024-01-01") { progress_stage = some "paused" }

listed : load_jobs "n1" (run_job_ops by_novel always some_ops two_jobs) ≡ ok (paused_j1 ∷ [])
unfolding load_jobs run_job_ops finalize_pausing_job control_job save_job_if_no_active save_job
    read_job_file check_header classify is_valid_document safe_job_file_name trim_space job_document
    str_eq safe_novel_id is_non_negative_integer_string find text_lt to_job load_job_records
    read_job_document file_at write_file count any load_or_rebuild_job_index reads_legacy index_with
listed = refl

load_jobs-OneActive_example : count has_active_status (paused_j1 ∷ []) ≤ 1
load_jobs-OneActive_example =
    load_jobs-OneActive by_novel always some_ops two_jobs "n1" (paused_j1 ∷ []) two_jobs-OneActive
      listed

two_jobs-Distinct : Distinct two_jobs.jobs
unfolding Distinct file_at str_eq
two_jobs-Distinct = (refl, (refl, tt))

some_controls : List ControlOp
some_controls =
    controls "n1" "j1" pause_job "2024-01-04"
    ∷ finalizes "n1" "j1"
    ∷ controls "n1" "j1" resume_job "2024-01-05"
    ∷ []

run_controls-Later_example :
    Later (view two_jobs "j1") (view (run_controls some_controls two_jobs) "j1")
run_controls-Later_example = run_controls-Later some_controls two_jobs "j1" two_jobs-Distinct

abbrev first_record : JobWithNovel
first_record = record { novel_id = "n1"; job = new_job "j1" running "2024-01-01" }

abbrev second_record : JobWithNovel
second_record = record { novel_id = "n2"; job = new_job "j2" queued "2024-01-02" }

-- The newest record comes first.
for_execution : load_for_execution two_jobs ≡ ok (second_record ∷ first_record ∷ [])
unfolding load_for_execution read_job_file check_header classify is_valid_document
    safe_job_file_name trim_space job_document str_eq safe_novel_id is_non_negative_integer_string
    text_lt to_job count any
for_execution = refl

oldest_first : process_round two_jobs two_jobs ≡ processes first_record
unfolding process_round load_for_execution load_jobs read_job_file check_header classify
    is_valid_document safe_job_file_name trim_space job_document str_eq safe_novel_id
    is_non_negative_integer_string text_lt to_job count any find job_still_executable
oldest_first = refl

process_round-oldest_example :
    (is_executable first_record.job.status ≡ true)
    × All (NoneOlder first_record) (second_record ∷ first_record ∷ [])
process_round-oldest_example =
    process_round-oldest two_jobs two_jobs (second_record ∷ first_record ∷ []) first_record
      for_execution oldest_first

abbrev after_recovery : Store
after_recovery = (recover_running_jobs by_novel always two_jobs).0

recovers_one : recover_running_jobs by_novel always two_jobs ≡ (after_recovery, ok 1)
unfolding recover_running_jobs load_for_execution save_job read_job_file check_header classify
    is_valid_document safe_job_file_name trim_space job_document str_eq safe_novel_id
    is_non_negative_integer_string text_lt to_job count any find read_job_document file_at
    write_file load_job_records load_or_rebuild_job_index reads_legacy index_with
recovers_one = refl

recover_running_jobs-Halted_example :
    All
      (λ r. was_running r.job.status ≡ true → Halted (view after_recovery r.job.job_id))
      (second_record ∷ first_record ∷ [])
recover_running_jobs-Halted_example =
    recover_running_jobs-Halted by_novel always two_jobs after_recovery
      (second_record ∷ first_record ∷ []) 1 for_execution recovers_one
