-- ===== src/Extraction/Coordinator.antt =====
-- application/extraction/job_coordinator.go: which job is processed next. The coordinator holds its
-- lock over all rounds; a round ends with FinalizePausingJob.
use narou_viewer.Extraction.Controls.{has_id}
use narou_viewer.Extraction.Files.{JobError, Store}
use narou_viewer.Extraction.Jobs.{Job, JobStatus, JobWithNovel, queued, running}
use narou_viewer.Extraction.Reading.{load_for_execution, load_jobs}
use narou_viewer.Prelude.{
  Bool, List, Option, Result, String, [], err, false, find, if◌then◌else◌, none, ok, some, true,
  ◌∷◌,
}

abbrev pub is_executable : JobStatus → Bool
is_executable queued = true
is_executable running = true
is_executable _ = false

abbrev pub last_or : Option JobWithNovel → JobWithNovel → Option JobWithNovel
last_or none r = if is_executable r.job.status then some r else none
last_or (some later) r = some later

-- The loop over the records keeps the last one that can be executed.
unfoldable pub next_record : List JobWithNovel → Option JobWithNovel
next_record [] = none
next_record (r ∷ rest) = last_or (next_record rest) r

-- jobStillExecutable
abbrev pub executable_found : Option Job → Bool
executable_found none = false
executable_found (some job) = is_executable job.status

unfoldable pub job_still_executable : List Job → String → Bool
job_still_executable jobs id = executable_found (find (has_id id) jobs)

-- What a round of processJobs does: it ends the loop, starts over, or hands a job to the processor.
pub data Round : Type 0 where
  stops : Round
  starts_over : Round
  processes : JobWithNovel → Round

abbrev pub start_if_executable : JobWithNovel → Result JobError (List Job) → Round
start_if_executable r (err e) = starts_over
start_if_executable r (ok jobs) =
    if job_still_executable jobs r.job.job_id then processes r else starts_over

abbrev pub start_next : Option JobWithNovel → Store → Round
start_next none s' = stops
start_next (some r) s' = start_if_executable r (load_jobs r.novel_id s')

-- The store may have changed between the two reads, into `s'`.
abbrev pub round_of : Result JobError (List JobWithNovel) → Store → Round
round_of (err e) s' = stops
round_of (ok records) s' = start_next (next_record records) s'

-- A round of processJobs whose context is not done.
unfoldable pub process_round : Store → Store → Round
unfolding next_record job_still_executable
process_round s s' = round_of (load_for_execution s) s'
