-- ===== src/Taskstate/Model.antt =====
-- taskstate/model.go and the tables of storage/migration/runner.go: statuses, rows and tasks.
-- A time is a number of nanoseconds, and a text column that may be '' for "no time" is an option.
-- A column written by json.Marshal holds the value that it encodes.
use narou_viewer.Prelude.{ℕ, ℤ, String, Bool, true, false, Option, List}

pub data Status : Type 0 where
  queued running paused interrupted failed canceled succeeded : Status

abbrev pub is_queued : Status → Bool
is_queued queued = true
is_queued _ = false

abbrev pub is_running : Status → Bool
is_running running = true
is_running _ = false

-- status IN ('queued', 'running', 'paused', 'interrupted')
abbrev pub is_reserved : Status → Bool
is_reserved queued = true
is_reserved running = true
is_reserved paused = true
is_reserved interrupted = true
is_reserved _ = false

pub data RequestedAction : Type 0 where
  no_request pause cancel : RequestedAction

abbrev pub is_no_request : RequestedAction → Bool
is_no_request no_request = true
is_no_request _ = false

-- taskstate/request.go
pub record RequestOptions : Type 0 where
  pub force : Bool
  pub force_redownload : Bool
  pub skip_unchanged : Bool

pub record Request : Type 0 where
  pub kind : String
  pub target : String
  pub work_id : ℤ
  pub options : RequestOptions

-- The request_json column: what json.Marshal wrote, or a text that does not decode.
pub data RequestJson : Type 0 where
  encoded : Request → RequestJson
  malformed : RequestJson

-- A row of fetch_tasks.
pub record Row : Type 0 where
  pub task_id : String
  pub request_version : ℕ
  pub kind : String
  pub request_json : RequestJson
  pub status : Status
  pub requested_action : RequestedAction
  pub dedupe_key : String
  pub request_fingerprint : String
  pub primary_work_id : ℤ
  pub target_label : String
  pub phase : String
  pub current_step : ℤ
  pub total_steps : ℤ
  pub saved_episode_count : ℤ
  pub failed_episode_id : String
  pub resume_episode_id : String
  pub message : String
  pub warnings : List String
  pub error_message : String
  pub attempt_count : ℕ
  pub execution_committed : Bool
  pub created_at : ℕ
  pub last_enqueued_at : ℕ
  pub started_at : Option ℕ
  pub updated_at : ℕ
  pub paused_at : Option ℕ
  pub interrupted_at : Option ℕ
  pub finished_at : Option ℕ

-- The two tables. `queue` lists the task_id column of fetch_task_queue in the order of seq, which
-- AUTOINCREMENT makes the order of insertion.
pub record Db : Type 0 where
  pub tasks : List Row
  pub queue : List String

-- The struct Task; the zero time of CreatedAt is `none`.
pub record Task : Type 0 where
  pub id : String
  pub kind : String
  pub target : String
  pub work_id : ℤ
  pub force : Bool
  pub force_redownload : Bool
  pub skip_unchanged : Bool
  pub status : Status
  pub requested_action : RequestedAction
  pub attempt_count : ℕ
  pub queue_position : Option ℕ
  pub message : String
  pub warnings : List String
  pub error_message : String
  pub target_label : String
  pub failed_episode_id : String
  pub resume_episode_id : String
  pub saved_episode_count : ℤ
  pub phase : String
  pub current_step : ℤ
  pub total_steps : ℤ
  pub dedupe_key : String
  pub request_fingerprint : String
  pub created_at : Option ℕ
  pub started_at : Option ℕ
  pub paused_at : Option ℕ
  pub interrupted_at : Option ℕ
  pub finished_at : Option ℕ
  pub updated_at : ℕ
  pub execution_committed : Bool

pub record TaskRef : Type 0 where
  pub task_id : String
  pub attempt : ℕ

-- The struct Progress.
pub record TaskProgress : Type 0 where
  pub phase : String
  pub current_step : ℤ
  pub total_steps : ℤ
  pub message : String

-- The struct Outcome; Error is its text, and Status is `none` for "".
pub record Outcome : Type 0 where
  pub status : Option Status
  pub error : Option String
  pub message : String
  pub execution_committed : Bool

pub record ControlResult : Type 0 where
  pub task : Task
  pub changed : Bool

-- The schema's constraints that a write can violate.
pub data Constraint : Type 0 where
  primary_key check_failed one_running reserved_dedupe reserved_work : Constraint
  queue_unique queue_foreign_key : Constraint

pub data RequestError : Type 0 where
  unsupported_options invalid_work_id empty_target not_one_work unsupported_kind : RequestError

-- The error values: the sentinels of sqlite.go first, with the text of fmt.Errorf left out.
pub data Error : Type 0 where
  task_not_found task_state_conflict task_already_active stale_task_attempt : Error
  bad_request : RequestError → Error
  no_rows malformed_row inconsistent_work foreign_work nonpositive_work : Error
  invalid_terminal_status unsupported_version : Error
  constraint : Constraint → Error
