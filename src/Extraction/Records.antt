-- ===== src/Extraction/Records.antt =====
-- What the records of extraction/job_store.go say of the files that they were read from.
use narou_viewer.Extraction.Directory.{elsewhere}
use narou_viewer.Extraction.Files.{
  JobError, JobFile, JobRead, absent, current_document, document_file, incompatible_document,
  incompatible_view, is_valid_document, malformed_file, read_checked, read_error, read_job_file,
  unreadable,
}
use narou_viewer.Extraction.Jobs.{
  Job, JobDocument, JobWithNovel, is_active_job_status, job_document, job_schema_contract,
  job_schema_version, to_job,
}
use narou_viewer.Extraction.Reading.{cons_some, is_active_of, read_records, record_of_read}
use narou_viewer.Extraction.Saving.{is_other_active}
use narou_viewer.Prelude.{
  Bool, Bool-cases, List, Option, Result, Result-cases, String, [], arith, count, err, false,
  if◌then◌else◌, inl, inr, none, not, ok, refl, some, str_eq, str_eq_iff, true, ℕ, ◌&&◌, ◌+◌, ◌∷◌,
  ◌≡◌,
}
use narou_viewer.Schemaguard.{Checked, GuardError, check_header, classify, header}

-- A current document of a novel with an active status.
abbrev pub active_read : String → JobRead → Bool
active_read novel absent = false
active_read novel (read_error e) = false
active_read novel (current_document d) = str_eq d.novel_id novel && is_active_job_status d.status
active_read novel (incompatible_document d e) = false

unfoldable pub is_active_file : String → String × JobFile → Bool
is_active_file novel x = active_read novel (read_job_file x.0 x.1)

abbrev pub one_if : Bool → ℕ
one_if b = if b then 1 else 0

-- A test of files that sees what a test of records sees.
abbrev Agree : (JobWithNovel → Bool) → (String × JobFile → Bool) → Type 0
Agree p q =
    (name : String) (f : JobFile) (o : Option JobWithNovel)
    → record_of_read (read_job_file name f) ≡ ok o
    → count p (cons_some o []) ≡ one_if (q (name, f))

count-cons_some :
    (p : JobWithNovel → Bool) (o : Option JobWithNovel) (rs : List JobWithNovel)
    → count p (cons_some o rs) ≡ count p (cons_some o []) + count p rs
unfolding count
count-cons_some p none rs = omega arith
count-cons_some p (some r) rs = omega arith

count-read_records :
    (p : JobWithNovel → Bool) (q : String × JobFile → Bool)
    → Agree p q
    → (files : List (String × JobFile)) (rs : List JobWithNovel) → read_records files ≡ ok rs
    → count p rs ≡ count q files
unfolding read_records count
count-read_records p q agree [] rs h = ground arith
count-read_records p q agree ((name, f) ∷ rest) rs h =
    elim (Result-cases (record_of_read (read_job_file name f))) [
      | inl (o, e) ↦ elim (Result-cases (read_records rest)) [
        | inl (records, e') ↦
            let same : (let r : Result JobError (List JobWithNovel) = ok (cons_some o records) in
                r ≡ ok rs) =
              rw (e, e') at h in
            let here = agree name f o e in
            let there = count-read_records p q agree rest records e' in
            let split = count-cons_some p o records in ground arith
        | inr (why, e') ↦ absurd (ground arith)
      ]
      | inr (why, e) ↦ absurd (ground arith)
    ]

agree-read_checked :
    (novel name owner : String) (d : JobDocument) (r : Result GuardError Checked)
    (o : Option JobWithNovel)
    → record_of_read (read_checked name owner d r) ≡ ok o
    → count (is_active_of novel) (cons_some o [])
      ≡ one_if (active_read novel (read_checked name owner d r))
unfolding count to_job incompatible_view
agree-read_checked novel name owner d (ok c) o h = elim (Bool-cases (is_valid_document d name)) [
  | inl t ↦ ground arith
  | inr f ↦ ground arith
]
agree-read_checked novel name owner d (err e) o h = ground arith

Agree-is_active_of : (novel : String) → Agree (is_active_of novel) (is_active_file novel)
unfolding is_active_file read_job_file
Agree-is_active_of novel name unreadable o h = absurd (cc)
Agree-is_active_of novel name malformed_file o h = absurd (cc)
Agree-is_active_of novel name (document_file version owner d) o h =
    agree-read_checked novel name owner d (check_header (header version) job_schema_contract) o h

pub count-active :
    (novel : String) (files : List (String × JobFile)) (rs : List JobWithNovel)
    → read_records files ≡ ok rs
    → count (is_active_of novel) rs ≡ count (is_active_file novel) files
count-active novel =
    count-read_records (is_active_of novel) (is_active_file novel) (Agree-is_active_of novel)

agree-other_checked :
    (novel id name owner : String) (d : JobDocument) (r : Result GuardError Checked)
    (o : Option JobWithNovel)
    → record_of_read (read_checked name owner d r) ≡ ok o
    → count (is_other_active novel id) (cons_some o [])
      ≡ one_if (not (str_eq name id) && active_read novel (read_checked name owner d r))
unfolding count to_job incompatible_view is_valid_document
agree-other_checked novel id name owner d (ok c) o h = ground (arith, str_eq_iff name d.job_id)
agree-other_checked novel id name owner d (err e) o h = ground arith

Agree-is_other_active :
    (novel id : String) → Agree (is_other_active novel id) (elsewhere id (is_active_file novel))
unfolding is_active_file read_job_file
Agree-is_other_active novel id name unreadable o h = absurd (cc)
Agree-is_other_active novel id name malformed_file o h = absurd (cc)
Agree-is_other_active novel id name (document_file version owner d) o h =
    agree-other_checked novel id name owner d (check_header (header version) job_schema_contract) o
      h

pub count-other_active :
    (novel id : String) (files : List (String × JobFile)) (rs : List JobWithNovel)
    → read_records files ≡ ok rs
    → count (is_other_active novel id) rs ≡ count (elsewhere id (is_active_file novel)) files
count-other_active novel id =
    count-read_records (is_other_active novel id) (elsewhere id (is_active_file novel))
      (Agree-is_other_active novel id)

-- A document that was saved reads back.
pub read-saved :
    (name novel : String) (job : Job)
    → is_valid_document (job_document novel job) name ≡ true
    → read_job_file name (document_file (some job_schema_version) novel (job_document novel job))
      ≡ current_document (job_document novel job)
unfolding read_job_file check_header classify
read-saved name novel job h = rw h refl
