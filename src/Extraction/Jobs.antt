-- ===== src/Extraction/Jobs.antt =====
-- extraction/job_domain.go and schema.go: jobs, their documents and their index.
use narou_viewer.Prelude.{Bool, List, Option, String, [], false, pos, true, ℤ}
use narou_viewer.Schemaguard.{Contract, missing_reject}

-- The constants for a status; any other text is `other_status`.
pub data JobStatus : Type 0 where
  queued running pausing paused interrupted canceled completed failed incompatible : JobStatus
  other_status : String → JobStatus

abbrev pub is_active_job_status : JobStatus → Bool
is_active_job_status queued = true
is_active_job_status running = true
is_active_job_status pausing = true
is_active_job_status paused = false
is_active_job_status interrupted = false
is_active_job_status canceled = false
is_active_job_status completed = false
is_active_job_status failed = false
is_active_job_status incompatible = false
is_active_job_status (other_status s) = false

pub record ActiveWorker : Type 0 where
  pub worker_index : ℤ
  pub batch_index : ℤ
  pub start_episode_index : String
  pub end_episode_index : String
  pub phase : String

pub record Job : Type 0 where
  pub job_id : String
  pub requested_up_to_episode_index : String
  pub profile_id : Option String
  pub profile_label : Option String
  pub generation_mode : String
  pub generation_strategy : String
  pub model_id : Option String
  pub status : JobStatus
  pub progress : Option ℤ
  pub progress_stage : Option String
  pub current_batch_index : Option ℤ
  pub batch_count : Option ℤ
  pub completed_batch_count : Option ℤ
  pub generated_character_count : Option ℤ
  pub generated_term_count : Option ℤ
  pub active_workers : List ActiveWorker
  pub created_at : String
  pub started_at : Option String
  pub finished_at : Option String
  pub error_message : Option String

pub record JobDocument : Type 0 where
  pub schema_version : ℤ
  pub revision : ℤ
  pub job_id : String
  pub novel_id : String
  pub requested_up_to_episode_index : String
  pub profile_id : Option String
  pub profile_label : Option String
  pub generation_mode : String
  pub generation_strategy : String
  pub model_id : Option String
  pub status : JobStatus
  pub progress : Option ℤ
  pub progress_stage : Option String
  pub current_batch_index : Option ℤ
  pub batch_count : Option ℤ
  pub completed_batch_count : Option ℤ
  pub generated_character_count : Option ℤ
  pub generated_term_count : Option ℤ
  pub active_workers : List ActiveWorker
  pub created_at : String
  pub started_at : Option String
  pub finished_at : Option String
  pub error_message : Option String

pub record JobsIndexDocument : Type 0 where
  pub schema_version : ℤ
  pub revision : ℤ
  pub novel_id : String
  pub active_job_id : Option String
  pub job_ids : List String

pub record JobWithNovel : Type 0 where
  pub novel_id : String
  pub job : Job

abbrev pub job_schema_version : ℤ
job_schema_version = pos 2

abbrev pub job_index_schema_version : ℤ
job_index_schema_version = pos 2

abbrev pub job_schema_contract : Contract
job_schema_contract = record {
  id = "VA-EXTRACTION-JOBS";
  path = "extraction_jobs/*.yaml";
  current_version = job_schema_version;
  readable_legacy = [];
  missing_policy = missing_reject;
  missing_legacy_version = pos 0;
}

abbrev pub job_index_schema_contract : Contract
job_index_schema_contract = record {
  id = "VA-EXTRACTION-INDEX";
  path = "extraction_jobs/index/*.yaml";
  current_version = job_index_schema_version;
  readable_legacy = [];
  missing_policy = missing_reject;
  missing_legacy_version = pos 0;
}

-- toJob
unfoldable pub to_job : JobDocument → Job
to_job d = record {
  job_id = d.job_id;
  requested_up_to_episode_index = d.requested_up_to_episode_index;
  profile_id = d.profile_id;
  profile_label = d.profile_label;
  generation_mode = d.generation_mode;
  generation_strategy = d.generation_strategy;
  model_id = d.model_id;
  status = d.status;
  progress = d.progress;
  progress_stage = d.progress_stage;
  current_batch_index = d.current_batch_index;
  batch_count = d.batch_count;
  completed_batch_count = d.completed_batch_count;
  generated_character_count = d.generated_character_count;
  generated_term_count = d.generated_term_count;
  active_workers = d.active_workers;
  created_at = d.created_at;
  started_at = d.started_at;
  finished_at = d.finished_at;
  error_message = d.error_message;
}

-- The document that saveJobUnlocked builds.
unfoldable pub job_document : String → Job → JobDocument
job_document novel job = record {
  schema_version = job_schema_version;
  revision = pos 1;
  job_id = job.job_id;
  novel_id = novel;
  requested_up_to_episode_index = job.requested_up_to_episode_index;
  profile_id = job.profile_id;
  profile_label = job.profile_label;
  generation_mode = job.generation_mode;
  generation_strategy = job.generation_strategy;
  model_id = job.model_id;
  status = job.status;
  progress = job.progress;
  progress_stage = job.progress_stage;
  current_batch_index = job.current_batch_index;
  batch_count = job.batch_count;
  completed_batch_count = job.completed_batch_count;
  generated_character_count = job.generated_character_count;
  generated_term_count = job.generated_term_count;
  active_workers = job.active_workers;
  created_at = job.created_at;
  started_at = job.started_at;
  finished_at = job.finished_at;
  error_message = job.error_message;
}
