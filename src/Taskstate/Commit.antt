-- ===== src/Taskstate/Commit.antt =====
-- services/novel-fetcher/internal/storage/store.go, CompleteWorkForTask: the result of a task is
-- committed in the transaction that marks its work complete.
use narou_viewer.Prelude.{
  Bool, List, Result, String, [], count, fail_if, if◌then◌else◌, int_eq, not, ok, true, ℕ, ℤ, ◌&&◌,
  ◌==◌, ◌>>=◌, ◌>>◌, ◌∷◌,
}
use narou_viewer.Taskstate.Model.{
  Db, Error, Row, TaskRef, is_no_request, is_running, stale_task_attempt,
}
use narou_viewer.Taskstate.Schema.{by_id, update_tasks}

-- The columns of works that the fetch status occupies.
pub record WorkStatus : Type 0 where
  pub id : ℤ
  pub fetch_status : String
  pub last_fetch_error : String
  pub last_failed_episode_id : String
  pub resume_episode_id : String
  pub updated_at : ℕ

-- UPDATE works SET fetch_status = 'complete', … WHERE id = ?
unfoldable pub complete_status : ℕ → ℤ → List WorkStatus → List WorkStatus
complete_status now work [] = []
complete_status now work (w ∷ works) =
    (if int_eq w.id work
      then record w {
        fetch_status = "complete";
        last_fetch_error = "";
        last_failed_episode_id = "";
        resume_episode_id = "";
        updated_at = now;
      }
      else w)
    ∷ complete_status now work works

unfoldable pub set_committed : ℕ → Row → Row
set_committed now r = record r { execution_committed = true; updated_at = now }

-- WHERE task_id = ? AND status = 'running' AND attempt_count = ? AND requested_action = ''
abbrev pub by_commit : TaskRef → Row → Bool
by_commit ref r =
    by_id ref.task_id r
    && (is_running r.status && (r.attempt_count == ref.attempt && is_no_request r.requested_action))

-- The statement on fetch_tasks, and requireTaskAttemptUpdate.
unfoldable pub commit_execution : ℕ → TaskRef → Db → Result Error Db
commit_execution now ref db = do
  db' ← update_tasks (by_commit ref) (set_committed now) db
  fail_if (not (count (by_commit ref) db.tasks == 1)) stale_task_attempt
  ok db'

-- CompleteWorkForTask
unfoldable pub complete_work_for_task :
    ℕ → TaskRef → ℤ → Db × List WorkStatus → Result Error (Db × List WorkStatus)
complete_work_for_task now ref work (db, works) = do
  db' ← commit_execution now ref db
  ok (db', complete_status now work works)
