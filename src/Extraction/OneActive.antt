-- ===== src/Extraction/OneActive.antt =====
-- extraction/job_store.go: how many jobs of a novel are active in the directory.
use narou_viewer.Extraction.Directory.{count-write_file, count-write_file_le, elsewhere}
use narou_viewer.Extraction.Files.{JobError, Store, document_file, is_valid_document}
use narou_viewer.Extraction.Jobs.{
  Job, JobsIndexDocument, is_active_job_status, job_document, job_schema_version,
}
use narou_viewer.Extraction.Reading.{is_newer, load_job_records, read_records, sort_job_records}
use narou_viewer.Extraction.Records.{count-other_active, is_active_file, read-saved}
use narou_viewer.Extraction.Saving.{
  check_active, is_other_active, load_or_rebuild_job_index, may_save, save_index_of, save_job,
  save_job_index, write_job,
}
use narou_viewer.Prelude.{
  Bool-cases, Result, Result-cases, String, arith, count, count-sort_stable, count-zero_of_find,
  err, find, inl, inr, none, ok, refl, some, str_eq, str_eq_iff, subst, true, ◌&&◌, ◌∙◌, ◌≡◌, ◌≤◌,
}

-- Each novel has one active job at most.
unfoldable pub OneActive : Store → Type 0
OneActive s = (novel : String) → count (is_active_file novel) s.jobs ≤ 1

pub saved-active :
    (m novel : String) (job : Job)
    → is_valid_document (job_document novel job) job.job_id ≡ true
    → is_active_file m
        (job.job_id, document_file (some job_schema_version) novel (job_document novel job))
      ≡ (str_eq novel m && is_active_job_status job.status)
unfolding is_active_file job_document
saved-active m novel job h = rw (read-saved job.job_id novel job h) refl

pub may_save-valid :
    (novel : String) (job : Job) (s : Store)
    → may_save novel job s ≡ ok tt
    → is_valid_document (job_document novel job) job.job_id ≡ true
unfolding may_save
may_save-valid novel job s h = ground arith

check_active-none :
    (novel : String) (job : Job) (s : Store)
    → check_active true novel job s ≡ ok tt
    → count (elsewhere job.job_id (is_active_file novel)) s.jobs ≡ 0
unfolding load_job_records sort_job_records
check_active-none novel job s h = elim (Result-cases (read_records s.jobs)) [
  | inl (records, e) ↦
      let sorted = sort_job_records records in
      let missing : find (is_other_active novel job.job_id) sorted ≡ none = ground arith in
      let zero_there = count-zero_of_find (is_other_active novel job.job_id) sorted missing in
      let same = count-sort_stable is_newer (is_other_active novel job.job_id) records in
      let here = count-other_active novel job.job_id s.jobs records e in omega arith
  | inr (why, e) ↦ absurd (ground arith)
]

may_save-checked :
    (novel : String) (job : Job) (s : Store)
    → may_save novel job s ≡ ok tt
    → check_active (is_active_job_status job.status) novel job s ≡ ok tt
unfolding may_save
may_save-checked novel job s h = ground arith

count-saved :
    (m novel : String) (job : Job) (s : Store)
    → may_save novel job s ≡ ok tt
    → count (is_active_file m) s.jobs ≤ 1
    → count (is_active_file m) (write_job novel job s).jobs ≤ 1
count-saved m novel job s allowed one =
    let file = document_file (some job_schema_version) novel (job_document novel job) in
    let here = saved-active m novel job (may_save-valid novel job s allowed) in
    elim (Bool-cases (str_eq novel m && is_active_job_status job.status)) [
      | inl t ↦
          let active : is_active_job_status job.status ≡ true = ground arith in
          let same : novel ≡ m = ground (arith, str_eq_iff novel m) in
          let no_other = check_active-none novel job s (
            subst (λ b. check_active b novel job s ≡ ok tt) active
              (may_save-checked novel job s allowed)) in
          let moved : count (elsewhere job.job_id (is_active_file m)) s.jobs ≡ 0 =
            subst (λ n. count (elsewhere job.job_id (is_active_file n)) s.jobs ≡ 0) same no_other in
          rw (count-write_file (is_active_file m) job.job_id file s.jobs, here, t, moved)
            (omega arith)
      | inr f ↦
          omega (arith, count-write_file_le (is_active_file m) job.job_id file s.jobs (here ∙ f))
    ]

-- The index has no part in the jobs.
pub save_index_of-jobs :
    (novel : String) (job : Job) (s : Store) (r : Result JobError JobsIndexDocument)
    → (save_index_of novel job s r).0.jobs ≡ s.jobs
save_index_of-jobs novel job s (ok d) = refl
save_index_of-jobs novel job s (err e) = refl

pub save_job-OneActive :
    (novel : String) (job : Job) (s : Store) → OneActive s → OneActive (save_job novel job s).0
unfolding save_job save_job_index OneActive
save_job-OneActive novel job s one m = elim (Result-cases (may_save novel job s)) [
  | inl (u, e) ↦
      let written = write_job novel job s in
      rw (e, save_index_of-jobs novel job written (load_or_rebuild_job_index novel written))
        (count-saved m novel job s e (one m))
  | inr (why, e) ↦ rw e (one m)
]
