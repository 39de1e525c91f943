-- ===== src/Extraction/Reading.antt =====
-- extraction/job_store.go: the reads of all jobs.
use narou_viewer.Extraction.Files.{
  JobError, JobFile, JobRead, Store, absent, current_document, incompatible_document, read_error,
  read_job_file, unknown_owner,
}
use narou_viewer.Extraction.Jobs.{Job, JobDocument, JobWithNovel, is_active_job_status, to_job}
use narou_viewer.Extraction.Names.{safe_future_job_owner}
use narou_viewer.Prelude.{
  Bool, List, Option, Result, String, [], any, count, err, if◌then◌else◌, ltb, none, not, ok, some,
  sort_stable, str_eq, text_lt, ◌&&◌, ◌++◌, ◌>>=◌, ◌||◌, ◌∷◌,
}

abbrev pub with_novel : JobDocument → JobWithNovel
with_novel d = record { novel_id = d.novel_id; job = to_job d }

-- One round of the loop of loadJobRecords: a record, or none for a file that is gone.
abbrev pub record_of_read : JobRead → Result JobError (Option JobWithNovel)
record_of_read absent = ok none
record_of_read (read_error e) = err e
record_of_read (current_document d) = ok (some (with_novel d))
record_of_read (incompatible_document d e) = ok (some (with_novel d))

abbrev pub cons_some {ℓ} : {A : Type ℓ} → Option A → List A → List A
cons_some none xs = xs
cons_some (some x) xs = x ∷ xs

-- The loop of loadJobRecords, before the sort.
unfoldable pub read_records : List (String × JobFile) → Result JobError (List JobWithNovel)
read_records [] = ok []
read_records ((name, f) ∷ rest) = do
  r ← record_of_read (read_job_file name f)
  records ← read_records rest
  ok (cons_some r records)

-- The newest first.
abbrev pub is_newer : JobWithNovel → JobWithNovel → Bool
is_newer a b = text_lt b.job.created_at a.job.created_at

-- sortJobRecords
unfoldable pub sort_job_records : List JobWithNovel → List JobWithNovel
unfolding sort_stable
sort_job_records records = sort_stable is_newer records

-- loadJobRecords, LoadAllJobs
unfoldable pub load_job_records : Store → Result JobError (List JobWithNovel)
unfolding read_records sort_job_records
load_job_records s = do records ← read_records s.jobs; ok (sort_job_records records)

unfoldable pub jobs_of : String → List JobWithNovel → List Job
jobs_of novel [] = []
jobs_of novel (r ∷ rest) =
    if str_eq r.novel_id novel then r.job ∷ jobs_of novel rest else jobs_of novel rest

-- LoadJobs, without the flag for an empty list.
unfoldable pub load_jobs : String → Store → Result JobError (List Job)
unfolding load_job_records jobs_of
load_jobs novel s = do records ← load_job_records s; ok (jobs_of novel records)

-- What the loop of loadJobRecordsForExecution collects.
pub record Collected : Type 0 where
  pub records : List JobWithNovel
  pub blocked : List String

abbrev pub collect_read : JobRead → Collected → Result JobError Collected
collect_read absent c = ok c
collect_read (read_error e) c = err e
collect_read (current_document d) c = ok (record c { records = with_novel d ∷ c.records })
collect_read (incompatible_document d e) c =
    if safe_future_job_owner d.novel_id
    then ok (record c { blocked = d.novel_id ∷ c.blocked })
    else err unknown_owner

-- Errors come in the order of the files; what is collected does not depend on it.
unfoldable pub collect : List (String × JobFile) → Result JobError Collected
collect [] = ok (record { records = []; blocked = [] })
collect ((name, f) ∷ rest) = do
  first ← collect_read (read_job_file name f) (record { records = []; blocked = [] })
  others ← collect rest
  ok (record {
    records = first.records ++ others.records;
    blocked = first.blocked ++ others.blocked;
  })

abbrev pub is_active_of : String → JobWithNovel → Bool
is_active_of novel r = str_eq r.novel_id novel && is_active_job_status r.job.status

-- A novel is blocked by an incompatible document, or by two active jobs.
unfoldable pub is_blocked : Collected → String → Bool
is_blocked c novel =
    any (λ owner. str_eq owner novel) c.blocked || ltb 1 (count (is_active_of novel) c.records)

unfoldable pub filter_records : (JobWithNovel → Bool) → List JobWithNovel → List JobWithNovel
filter_records keep [] = []
filter_records keep (r ∷ rest) =
    if keep r then r ∷ filter_records keep rest else filter_records keep rest

-- loadJobRecordsForExecution, LoadJobsForExecution
unfoldable pub load_for_execution : Store → Result JobError (List JobWithNovel)
unfolding collect is_blocked filter_records sort_job_records
load_for_execution s = do
  c ← collect s.jobs
  ok (sort_job_records (filter_records (λ r. not (is_blocked c r.novel_id)) c.records))
