-- ===== src/Extraction/Saving.antt =====
-- extraction/job_store.go: saving a job, and the index of a novel's jobs.
use narou_viewer.Extraction.Files.{
  IndexFile, JobError, JobRead, Store, absent, current_document, document_file, file_at, guarded,
  has_active_job, incompatible_document, index_file, invalid_job, is_valid_document,
  malformed_index, read_error, read_failed, read_job_document, unreadable_index, write_file,
}
use narou_viewer.Extraction.Jobs.{
  Job, JobWithNovel, JobsIndexDocument, is_active_job_status, job_document,
  job_index_schema_contract, job_index_schema_version, job_schema_version,
}
use narou_viewer.Extraction.Reading.{load_job_records}
use narou_viewer.Prelude.{
  Bool, List, Option, Result, String, [], err, fail_if, false, find, if◌then◌else◌, is_some, negsuc,
  none, not, ok, pos, some, str_eq, suc, trim_space, true, zero, ℤ, ◌&&◌, ◌++◌, ◌>>=◌, ◌>>◌, ◌||◌,
  ◌∷◌,
}
use narou_viewer.Schemaguard.{Checked, GuardError, check_header, header}

abbrev pub is_other_active : String → String → JobWithNovel → Bool
is_other_active novel id r =
    str_eq r.novel_id novel && (not (str_eq r.job.job_id id) && is_active_job_status r.job.status)

-- The document at the name of the job lets it be replaced.
abbrev pub may_replace : JobRead → Result JobError (Unit {0})
may_replace absent = ok tt
may_replace (read_error e) = err e
may_replace (current_document d) = ok tt
may_replace (incompatible_document d e) = err (guarded e)

abbrev pub no_other_active : String → Job → List JobWithNovel → Result JobError (Unit {0})
no_other_active novel job records = elim (find (is_other_active novel job.job_id) records) [
  | none ↦ ok tt
  | some r ↦ err (has_active_job r.job.job_id)
]

abbrev pub check_active : Bool → String → Job → Store → Result JobError (Unit {0})
check_active false novel job s = ok tt
check_active true novel job s = do records ← load_job_records s; no_other_active novel job records

-- The checks of saveJobUnlocked before it writes.
unfoldable pub may_save : String → Job → Store → Result JobError (Unit {0})
may_save novel job s = do
  fail_if (not (is_valid_document (job_document novel job) job.job_id)) invalid_job
  may_replace (read_job_document job.job_id s)
  check_active (is_active_job_status job.status) novel job s

-- What ReadGuarded makes of the index: it cannot be read, or has to be rebuilt, or is good.
pub data IndexRead : Type 0 where
  index_failed : IndexRead
  index_absent : IndexRead
  index_good : JobsIndexDocument → IndexRead

abbrev pub index_checked : String → JobsIndexDocument → Result GuardError Checked → IndexRead
index_checked novel d (err e) = index_absent
index_checked novel d (ok c) = if str_eq d.novel_id novel then index_good d else index_absent

-- An index that is of another version, malformed or of another novel is moved away.
abbrev pub read_index : String → Option IndexFile → IndexRead
read_index novel none = index_absent
read_index novel (some unreadable_index) = index_failed
read_index novel (some malformed_index) = index_absent
read_index novel (some (index_file version d)) =
    index_checked novel d (check_header (header version) job_index_schema_contract)

-- The loop of loadOrRebuildJobIndex over the records.
unfoldable pub index_records : String → JobsIndexDocument → List JobWithNovel → JobsIndexDocument
index_records novel d [] = d
index_records novel d (r ∷ rest) =
    index_records novel
      (if not (str_eq r.novel_id novel) || str_eq (trim_space r.job.job_id) ""
        then d
        else record d {
          job_ids = d.job_ids ++ r.job.job_id ∷ [];
          active_job_id =
              if not (is_some d.active_job_id) && is_active_job_status r.job.status
              then some r.job.job_id
              else d.active_job_id;
        })
      rest

abbrev pub new_index : String → JobsIndexDocument
new_index novel = record {
  schema_version = job_index_schema_version;
  revision = pos 0;
  novel_id = novel;
  active_job_id = none;
  job_ids = [];
}

abbrev pub load_or_rebuild : String → IndexRead → Store → Result JobError JobsIndexDocument
load_or_rebuild novel index_failed s = err read_failed
load_or_rebuild novel (index_good d) s = ok d
load_or_rebuild novel index_absent s = do
  records ← load_job_records s
  ok (index_records novel (new_index novel) records)

-- loadOrRebuildJobIndex
unfoldable pub load_or_rebuild_job_index : String → Store → Result JobError JobsIndexDocument
unfolding index_records
load_or_rebuild_job_index novel s =
    load_or_rebuild novel (read_index novel (file_at novel s.indexes)) s

-- The ids but one, and but empty ones.
unfoldable pub other_job_ids : String → List String → List String
other_job_ids id [] = []
other_job_ids id (x ∷ xs) =
    if not (str_eq x "") && not (str_eq x id) then x ∷ other_job_ids id xs else other_job_ids id xs

-- prependUniqueJobID
abbrev pub prepend_unique_job_id : List String → String → List String
prepend_unique_job_id ids id = id ∷ other_job_ids id ids

abbrev pub next_int : ℤ → ℤ
next_int (pos n) = pos (suc n)
next_int (negsuc zero) = pos 0
next_int (negsuc (suc n)) = negsuc n

abbrev pub active_after : Job → Option String → Option String
active_after job active =
    if is_active_job_status job.status
    then some job.job_id
    else elim active [ none ↦ none | some id ↦ if str_eq id job.job_id then none else some id ]

-- The index that saveJobIndex writes.
unfoldable pub index_with : String → Job → JobsIndexDocument → JobsIndexDocument
unfolding other_job_ids
index_with novel job d = record {
  schema_version = job_index_schema_version;
  revision = next_int d.revision;
  novel_id = novel;
  active_job_id = active_after job d.active_job_id;
  job_ids = prepend_unique_job_id d.job_ids job.job_id;
}

abbrev pub write_index : String → JobsIndexDocument → Store → Store
write_index novel d s = record s {
  indexes = write_file novel (index_file (some d.schema_version) d) s.indexes;
}

-- An operation leaves a store also where it fails.
abbrev pub Stored : Type 0 → Type 0
Stored A = Store × Result JobError A

-- saveJobIndex. An index that was moved away before an error is absent either way.
abbrev pub save_index_of :
    String → Job → Store → Result JobError JobsIndexDocument → Stored (Unit {0})
save_index_of novel job s (err e) = (s, err e)
save_index_of novel job s (ok d) = (write_index novel (index_with novel job d) s, ok tt)

unfoldable pub save_job_index : String → Job → Store → Stored (Unit {0})
save_job_index novel job s = save_index_of novel job s (load_or_rebuild_job_index novel s)

abbrev pub write_job : String → Job → Store → Store
write_job novel job s = record s {
  jobs =
      write_file job.job_id (document_file (some job_schema_version) novel (job_document novel job))
        s.jobs;
}

abbrev pub save_allowed : String → Job → Store → Result JobError (Unit {0}) → Stored (Unit {0})
save_allowed novel job s (err e) = (s, err e)
save_allowed novel job s (ok u) = save_job_index novel job (write_job novel job s)

-- saveJobUnlocked, SaveJob
unfoldable pub save_job : String → Job → Store → Stored (Unit {0})
unfolding may_save save_job_index
save_job novel job s = save_allowed novel job s (may_save novel job s)
