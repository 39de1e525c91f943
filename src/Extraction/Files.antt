-- ===== src/Extraction/Files.antt =====
-- extraction/job_store.go: the directory extraction_jobs, as the decoders read its files.
use narou_viewer.Extraction.Jobs.{
  JobDocument, JobStatus, JobsIndexDocument, canceled, completed, failed, incompatible, interrupted,
  job_schema_contract, other_status, paused, pausing, queued, running,
}
use narou_viewer.Extraction.Names.{
  is_non_negative_integer_string, safe_job_file_name, safe_novel_id,
}
use narou_viewer.Prelude.{
  Bool, List, Option, Result, String, [], err, false, if◌then◌else◌, none, ok, some, str_eq,
  text_lt, trim_space, true, ℤ, ◌&&◌, ◌∷◌,
}
use narou_viewer.Schemaguard.{
  Checked, GuardError, SchemaStatus, check_header, current, future_unknown, header, legacy,
  malformed, unsupported_legacy,
}

-- What a file <name>.yaml holds: it cannot be read, or is no YAML document of the expected shape,
-- or it is a document with the version of its header. `owner` is what probeFutureJobOwner finds.
pub data JobFile : Type 0 where
  unreadable : JobFile
  malformed_file : JobFile
  document_file : Option ℤ → String → JobDocument → JobFile

-- A file index/<novel>.yaml.
pub data IndexFile : Type 0 where
  unreadable_index : IndexFile
  malformed_index : IndexFile
  index_file : Option ℤ → JobsIndexDocument → IndexFile

-- A file of checkpoints/: it cannot be read; the decoder of checkpoints refuses it, and the smaller
-- one of the prune may still find its novel; or it holds a checkpoint of a novel.
pub data CheckpointFile : Type 0 where
  unreadable_checkpoint : CheckpointFile
  malformed_checkpoint : Option String → CheckpointFile
  checkpoint_file : Option ℤ → String → CheckpointFile

-- The directory, each part by the names of its files without their suffixes.
pub record Store : Type 0 where
  pub jobs : List (String × JobFile)
  pub indexes : List (String × IndexFile)
  pub checkpoints : List (String × CheckpointFile)

pub data JobError : Type 0 where
  job_not_found invalid_job_action : JobError
  -- The operating system cannot read a file.
  read_failed : JobError
  -- The document at a name does not decode, or is not valid as a current one.
  malformed_document : JobError
  -- A document is of a version that is not read.
  guarded : GuardError → JobError
  -- A document of such a version does not show a novel that it belongs to.
  unknown_owner : JobError
  -- The job to be saved is not valid.
  invalid_job : JobError
  has_active_job : String → JobError
  -- A checkpoint cannot be quarantined.
  quarantine_failed : JobError

module _ {ℓ} {A : Type ℓ} where
  unfoldable pub remove_file : String → List (String × A) → List (String × A)
  remove_file name [] = []
  remove_file name ((k, f) ∷ rest) =
      if str_eq k name then remove_file name rest else (k, f) ∷ remove_file name rest

  -- Files stand in the order of their names, as filepath.Glob lists them.
  unfoldable pub insert_file : String → A → List (String × A) → List (String × A)
  insert_file name f [] = (name, f) ∷ []
  insert_file name f ((k, g) ∷ rest) =
      if text_lt k name then (k, g) ∷ insert_file name f rest else (name, f) ∷ (k, g) ∷ rest

  -- An atomic write, which replaces the file of the name.
  unfoldable pub write_file : String → A → List (String × A) → List (String × A)
  unfolding remove_file insert_file
  write_file name f files = insert_file name f (remove_file name files)

  unfoldable pub file_at : String → List (String × A) → Option A
  file_at name [] = none
  file_at name ((k, f) ∷ rest) = if str_eq k name then some f else file_at name rest

-- validateCurrentJobDocument, for the file of a name: whether it finds no fault.
abbrev pub is_known_status : JobStatus → Bool
is_known_status queued = true
is_known_status running = true
is_known_status pausing = true
is_known_status paused = true
is_known_status interrupted = true
is_known_status canceled = true
is_known_status completed = true
is_known_status failed = true
is_known_status incompatible = true
is_known_status (other_status s) = false

abbrev pub is_canonical : Option String → String → Bool
is_canonical none job_id = false
is_canonical (some name) job_id = str_eq name job_id

unfoldable pub is_valid_document : JobDocument → String → Bool
is_valid_document d name =
    is_canonical (safe_job_file_name d.job_id) d.job_id
    && (str_eq name d.job_id
        && (safe_novel_id d.novel_id
            && (is_non_negative_integer_string d.requested_up_to_episode_index
                && is_known_status d.status)))

-- The struct jobDocumentRead.
pub data JobRead : Type 0 where
  absent : JobRead
  read_error : JobError → JobRead
  current_document : JobDocument → JobRead
  incompatible_document : JobDocument → GuardError → JobRead

abbrev pub incompatible_message : String
incompatible_message = "この抽出 job は現在の build と互換性がないため、変更せず保持されています。"

-- The document that stands for one of another version.
unfoldable pub incompatible_view : String → String → JobDocument → JobDocument
incompatible_view name owner d = record d {
  novel_id = owner;
  job_id = if str_eq (trim_space d.job_id) "" then name else d.job_id;
  status = incompatible;
  error_message = some incompatible_message;
}

abbrev pub is_malformed : SchemaStatus → Bool
is_malformed malformed = true
is_malformed current = false
is_malformed legacy = false
is_malformed future_unknown = false
is_malformed unsupported_legacy = false

abbrev pub read_checked : String → String → JobDocument → Result GuardError Checked → JobRead
read_checked name owner d (ok c) =
    if is_valid_document d name then current_document d else read_error malformed_document
read_checked name owner d (err e) =
    if is_malformed e.checked.status
    then read_error (guarded e)
    else incompatible_document (incompatible_view name owner d) e

-- readJobDocument, of the file at a name.
unfoldable pub read_job_file : String → JobFile → JobRead
read_job_file name unreadable = read_error read_failed
read_job_file name malformed_file = read_error malformed_document
read_job_file name (document_file version owner d) =
    read_checked name owner d (check_header (header version) job_schema_contract)

abbrev pub read_found : String → Option JobFile → JobRead
read_found name none = absent
read_found name (some f) = read_job_file name f

unfoldable pub read_job_document : String → Store → JobRead
read_job_document name s = read_found name (file_at name s.jobs)
