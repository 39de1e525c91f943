-- ===== src/Extraction/View.antt =====
-- extraction/job_store.go: the directory as a map from ids to novels and statuses.
use narou_viewer.Extraction.Directory.{
  Distinct, Distinct-at, file_at-write_other, file_at-write_self,
}
use narou_viewer.Extraction.Files.{
  JobError, JobFile, JobRead, Store, absent, current_document, document_file, file_at,
  incompatible_document, incompatible_view, is_malformed, is_valid_document, malformed_file,
  read_checked, read_error, read_job_document, read_job_file, unreadable,
}
use narou_viewer.Extraction.Jobs.{
  Job, JobDocument, JobStatus, JobWithNovel, JobsIndexDocument, incompatible, job_document,
  job_schema_contract, job_schema_version, to_job,
}
use narou_viewer.Extraction.OneActive.{may_save-valid}
use narou_viewer.Extraction.Reading.{
  cons_some, is_newer, jobs_of, load_job_records, load_jobs, read_records, record_of_read,
  sort_job_records, with_novel,
}
use narou_viewer.Extraction.Records.{read-saved}
use narou_viewer.Extraction.Saving.{
  load_or_rebuild_job_index, may_save, save_index_of, save_job, save_job_index, write_job,
}
use narou_viewer.Prelude.{
  All, All-sort_stable, Bool-cases, List, Option, Result, Result-cases, String, [], arith, err,
  if◌then◌else◌, inl, inr, is_ok, none, ok, refl, some, str_eq, str_eq_iff, str_eq_refl, subst,
  true, ◌&&◌, ◌∷◌, ◌≡◌, ◌⊎◌,
}
use narou_viewer.Schemaguard.{Checked, GuardError, check_header, header}

abbrev pub Viewed : Type 0
Viewed = Option (String × JobStatus)

abbrev pub viewed : JobRead → Viewed
viewed absent = none
viewed (read_error e) = none
viewed (current_document d) = some (d.novel_id, d.status)
viewed (incompatible_document d e) = none

-- What a file says of the job of its name, if it is current.
unfoldable pub view : Store → String → Viewed
view s id = viewed (read_job_document id s)

view-writes :
    (novel : String) (job : Job) (s : Store) (id : String)
    → is_valid_document (job_document novel job) job.job_id ≡ true
    → view (write_job novel job s) id
      ≡ (if str_eq job.job_id id then some (novel, job.status) else view s id)
unfolding view read_job_document job_document
view-writes novel job s id valid =
    let file = document_file (some job_schema_version) novel (job_document novel job) in
    elim (Bool-cases (str_eq job.job_id id)) [
      | inl t ↦
          rw
            (
              ← (str_eq_iff job.job_id id).0 t,
              file_at-write_self job.job_id file s.jobs,
              read-saved job.job_id novel job valid,
              str_eq_refl job.job_id,
            )
            refl
      | inr f ↦ rw (file_at-write_other job.job_id id file s.jobs f, f) refl
    ]

view-index :
    (novel : String) (job : Job) (s : Store) (r : Result JobError JobsIndexDocument) (id : String)
    → view (save_index_of novel job s r).0 id ≡ view s id
unfolding view read_job_document
view-index novel job s (ok d) id = refl
view-index novel job s (err e) id = refl

-- A save writes one entry of the map, or none.
pub view-save_job :
    (novel : String) (job : Job) (s : Store) (id : String)
    → view (save_job novel job s).0 id ≡ (
        if is_ok (may_save novel job s) && str_eq job.job_id id
        then some (novel, job.status)
        else view s id)
unfolding save_job save_job_index
view-save_job novel job s id = elim (Result-cases (may_save novel job s)) [
  | inl (u, e) ↦
      let after = write_job novel job s in
      rw
        (
          e,
          view-index novel job after (load_or_rebuild_job_index novel after) id,
          view-writes novel job s id (may_save-valid novel job s e),
        )
        refl
  | inr (why, e) ↦ rw e refl
]

-- A record is of an incompatible document, or stands in the map.
abbrev pub InView : Store → String → Job → Type 0
InView s novel job = (job.status ≡ incompatible) ⊎ (view s job.job_id ≡ some (novel, job.status))

module _ (s : Store) where
  abbrev RecordInView : JobWithNovel → Type 0
  RecordInView r = InView s r.novel_id r.job

  checked-InView :
      (name owner : String) (d : JobDocument) (r : Result GuardError Checked)
      (o : Option JobWithNovel)
      → viewed (read_checked name owner d r) ≡ view s name
      → record_of_read (read_checked name owner d r) ≡ ok o
      → All RecordInView (cons_some o [])
  unfolding to_job incompatible_view is_valid_document
  checked-InView name owner d (ok c) o seen h = elim (Bool-cases (is_valid_document d name)) [
    | inl t ↦
        let same : name ≡ d.job_id = ground (arith, str_eq_iff name d.job_id) in
        let there : o ≡ some (with_novel d) = ground arith in
        rw there (inr (rw (← same) (ground arith)), tt)
    | inr f ↦ absurd (ground arith)
  ]
  checked-InView name owner d (err e) o seen h = elim (Bool-cases (is_malformed e.checked.status)) [
    | inl t ↦ absurd (ground arith)
    | inr f ↦
        let there : o ≡ some (with_novel (incompatible_view name owner d)) = ground arith in
        rw there (inl refl, tt)
  ]

  file-InView :
      (name : String) (f : JobFile) (o : Option JobWithNovel)
      → file_at name s.jobs ≡ some f
      → record_of_read (read_job_file name f) ≡ ok o
      → All RecordInView (cons_some o [])
  unfolding read_job_file
  file-InView name unreadable o here h = absurd (cc)
  file-InView name malformed_file o here h = absurd (cc)
  file-InView name (document_file version owner d) o here h =
      checked-InView name owner d (check_header (header version) job_schema_contract) o
        (unfold view read_job_document in rw here refl) h

  records-InView :
      (files : List (String × JobFile)) (rs : List JobWithNovel)
      → All (λ x. file_at x.0 s.jobs ≡ some x.1) files
      → read_records files ≡ ok rs
      → All RecordInView rs
  unfolding read_records
  records-InView [] rs h e = let none_left : rs ≡ [] = ground arith in rw none_left tt
  records-InView ((name, f) ∷ rest) rs h e =
      elim (Result-cases (record_of_read (read_job_file name f))) [
        | inl (o, here) ↦ elim (Result-cases (read_records rest)) [
          | inl (others, there) ↦
              let same : rs ≡ cons_some o others = ground arith in
              rw same (
                joined o others (file-InView name f o h.0 here)
                  (records-InView rest others h.1 there))
          | inr (why, there) ↦ absurd (ground arith)
        ]
        | inr (why, here) ↦ absurd (ground arith)
      ]
    where
      joined :
          (o : Option JobWithNovel) (others : List JobWithNovel)
          → All RecordInView (cons_some o [])
          → All RecordInView others
          → All RecordInView (cons_some o others)
      joined none others h k = k
      joined (some r) others h k = (h.0, k)

  jobs_of-InView :
      (novel : String) (rs : List JobWithNovel)
      → All RecordInView rs
      → All (InView s novel) (jobs_of novel rs)
  unfolding jobs_of
  jobs_of-InView novel [] h = tt
  jobs_of-InView novel (r ∷ rest) h = elim (Bool-cases (str_eq r.novel_id novel)) [
    | inl t ↦ rw t (
      subst (λ n. InView s n r.job) ((str_eq_iff r.novel_id novel).0 t) h.0,
      jobs_of-InView novel rest h.1,
    )
    | inr f ↦ rw f (jobs_of-InView novel rest h.1)
  ]

  -- Every job that LoadJobs lists is of an incompatible document, or stands in the map.
  pub load_jobs-InView :
      (novel : String) (jobs : List Job)
      → Distinct s.jobs
      → load_jobs novel s ≡ ok jobs
      → All (InView s novel) jobs
  unfolding load_jobs load_job_records sort_job_records
  load_jobs-InView novel jobs d e = elim (Result-cases (read_records s.jobs)) [
    | inl (rs, read) ↦
        let same : jobs ≡ jobs_of novel (sort_job_records rs) = ground arith in
        rw same (
          jobs_of-InView novel (sort_job_records rs) (
            unfold sort_job_records in
            All-sort_stable is_newer RecordInView rs
              (records-InView s.jobs rs (Distinct-at s.jobs d) read)))
    | inr (why, read) ↦ absurd (ground arith)
  ]
