-- ===== src/Extraction/Recovery.antt =====
-- extraction/job_store.go, RecoverRunningJobs and RebuildJobIndex, and the parts of
-- checkpointstore/file_store.go that they use.
use narou_viewer.Extraction.Controls.{answer_with, failed_with, preflight_jobs}
use narou_viewer.Extraction.Files.{
  CheckpointFile, JobError, Store, checkpoint_file, file_at, malformed_checkpoint,
  quarantine_failed, read_failed, remove_file, unreadable_checkpoint,
}
use narou_viewer.Extraction.Jobs.{
  Job, JobStatus, JobWithNovel, JobsIndexDocument, incompatible, interrupted, pausing, running,
}
use narou_viewer.Extraction.Reading.{load_for_execution}
use narou_viewer.Extraction.Saving.{
  Stored, load_or_rebuild_job_index, next_int, save_job, write_index,
}
use narou_viewer.Prelude.{
  Bool, List, Option, Result, String, [], err, false, if◌then◌else◌, none, ok, pos, some, str_eq,
  trim_space, true, ℕ, ◌+◌, ◌∷◌,
}
use narou_viewer.Schemaguard.{Checked, Contract, GuardError, check_header, header, missing_reject}

abbrev pub checkpoint_contract : Contract
checkpoint_contract = record {
  id = "VA-EXTRACTION-CHECKPOINT";
  path = "extraction_jobs/checkpoints/*.json";
  current_version = pos 5;
  readable_legacy = [];
  missing_policy = missing_reject;
  missing_legacy_version = pos 0;
}

-- What Exists and Load find of the checkpoint of a job.
pub data CheckpointRead : Type 0 where
  no_checkpoint good_checkpoint unread_checkpoint incompatible_checkpoint : CheckpointRead

abbrev pub checkpoint_checked : Result GuardError Checked → CheckpointRead
checkpoint_checked (ok c) = good_checkpoint
checkpoint_checked (err e) = incompatible_checkpoint

unfoldable pub read_checkpoint : Option CheckpointFile → CheckpointRead
read_checkpoint none = no_checkpoint
read_checkpoint (some unreadable_checkpoint) = unread_checkpoint
read_checkpoint (some (malformed_checkpoint novel)) = incompatible_checkpoint
read_checkpoint (some (checkpoint_file version novel)) =
    checkpoint_checked (check_header (header version) checkpoint_contract)

abbrev pub interrupted_message : String
interrupted_message = "viewer-api の再起動により処理が中断されました。明示的に再開できます。"

abbrev pub fail_stop_message : String
fail_stop_message = "抽出チェックポイントが現在の build と互換性がないため自動再開を停止しました。内容を確認してから再実行してください。"

-- failStopCheckpointIncompatibleJob
unfoldable pub fail_stop_job : Job → Job
fail_stop_job job = record job {
  status = incompatible;
  error_message = some fail_stop_message;
  active_workers = [];
}

unfoldable pub interrupted_job : Job → Job
interrupted_job job = record job {
  status = interrupted;
  finished_at = none;
  error_message = some interrupted_message;
  progress_stage = some "interrupted";
  current_batch_index = none;
  batch_count = none;
  completed_batch_count = none;
  generated_character_count = none;
  generated_term_count = none;
  active_workers = [];
}

abbrev pub was_running : JobStatus → Bool
was_running running = true
was_running pausing = true
was_running _ = false

-- The rounds of an operation over several jobs: the number of jobs so far, and the next store.
abbrev pub then_with : {A B : Type 0} → Stored A → (A → Store → Stored B) → Stored B
then_with (s, err e) next = (s, err e)
then_with (s, ok a) next = next a s

-- FileStore.Path: the name of a checkpoint is a digest, and `moves` says whether its file can be
-- moved away.
module _ (checkpoint_name : String → String → String) (moves : String → Bool) where
  abbrev pub checkpoint_of : String → Job → String
  checkpoint_of novel job = checkpoint_name novel job.requested_up_to_episode_index

  -- FileStore.Quarantine: the file is moved away, or the operation fails.
  abbrev pub quarantine : String → Store → Stored (Unit {0})
  quarantine name s =
      if moves name
      then (record s { checkpoints = remove_file name s.checkpoints }, ok tt)
      else failed_with s quarantine_failed

  -- One job that was running or pausing; the answer says whether it counts as recovered.
  abbrev pub recover_read : String → Job → Store → CheckpointRead → Stored ℕ
  recover_read novel job s unread_checkpoint = failed_with s read_failed
  recover_read novel job s incompatible_checkpoint =
      then_with (save_job novel (fail_stop_job job) s)
        λ _ s'. answer_with 0 (quarantine (checkpoint_of novel job) s')
  recover_read novel job s no_checkpoint = answer_with 1 (save_job novel (interrupted_job job) s)
  recover_read novel job s good_checkpoint = answer_with 1 (save_job novel (interrupted_job job) s)

  unfoldable pub recover_one : JobWithNovel → Store → Stored ℕ
  unfolding read_checkpoint fail_stop_job interrupted_job
  recover_one r s =
      if was_running r.job.status
      then recover_read r.novel_id r.job s
          (read_checkpoint (file_at (checkpoint_of r.novel_id r.job) s.checkpoints))
      else (s, ok 0)

  unfoldable pub recover_all : List JobWithNovel → Store → Stored ℕ
  unfolding recover_one
  recover_all [] s = (s, ok 0)
  recover_all (r ∷ rest) s =
      then_with (recover_one r s) λ n s'. then_with (recover_all rest s') λ k s''. (s'', ok (n + k))

  abbrev pub recover_loaded : Store → Result JobError (List JobWithNovel) → Stored ℕ
  recover_loaded s (err e) = failed_with s e
  recover_loaded s (ok records) = recover_all records s

  -- RecoverRunningJobs; the count of a recovery that fails is left out.
  unfoldable pub recover_running_jobs : Store → Stored ℕ
  unfolding recover_all
  recover_running_jobs s = recover_loaded s (load_for_execution s)

-- An index that was rebuilt, under its next revision.
abbrev pub rebuilt_index : String → Store → Result JobError JobsIndexDocument → Stored (Unit {0})
rebuilt_index novel s (err e) = (s, err e)
rebuilt_index novel s (ok d) =
    (write_index novel (record d { revision = next_int d.revision }) s, ok tt)

abbrev pub rebuild_checked : String → Store → Result JobError (Unit {0}) → Stored (Unit {0})
rebuild_checked novel s (err e) = failed_with s e
rebuild_checked novel s (ok u) =
    let moved = record s { indexes = remove_file novel s.indexes } in
    rebuilt_index novel moved (load_or_rebuild_job_index novel moved)

-- RebuildJobIndex
unfoldable pub rebuild_job_index : String → Store → Stored (Unit {0})
rebuild_job_index name s =
    let novel = trim_space name in
    if str_eq novel "" then (s, ok tt) else rebuild_checked novel s (preflight_jobs novel s.jobs)
