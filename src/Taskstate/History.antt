-- ===== src/Taskstate/History.antt =====
-- Sequences of transactions and single statements on the tables, each of which commits or leaves them
-- alone.
use narou_viewer.Prelude.{Ensures, List, Result, String, [], done, err, ok, raised, ℕ, ℤ, ◌∷◌}
use narou_viewer.Taskstate.Claim.{claim_next}
use narou_viewer.Taskstate.Commit.{commit_execution}
use narou_viewer.Taskstate.Control.{request_action, request_resume}
use narou_viewer.Taskstate.Enqueue.{enqueue}
use narou_viewer.Taskstate.Finalize.{finalize}
use narou_viewer.Taskstate.Invariant.{Inv, empty-Inv, empty_db}
use narou_viewer.Taskstate.Keeps.Control.{request_action-Inv, request_resume-Inv}
use narou_viewer.Taskstate.Keeps.Endings.{
  commit_execution-Inv, finalize-Inv, recover_on_startup-Inv,
}
use narou_viewer.Taskstate.Keeps.Enqueue.{claim_next-Inv, enqueue-Inv}
use narou_viewer.Taskstate.Keeps.Writes.{
  write_warnings-Inv, record_checkpoint-Inv, set_failure_episode-Inv, set_saved_episode_count-Inv,
  set_target-Inv, set_work_id-Inv, update_message-Inv, update_progress-Inv,
}
use narou_viewer.Taskstate.Model.{Db, Error, Outcome, RequestedAction, Task, TaskProgress, TaskRef}
use narou_viewer.Taskstate.Progress.{
  record_checkpoint, write_warnings, set_failure_episode, set_saved_episode_count, set_target,
  set_work_id, update_message, update_progress,
}
use narou_viewer.Taskstate.Recover.{recover_on_startup}
use narou_viewer.Taskstate.Target.{Env}

pub data Op : Type 0 where
  enqueues : ℕ → List (Task × String) → Op
  claims : ℕ → Op
  controls : ℕ → RequestedAction → String → Op
  resumes : ℕ → String → Op
  progresses : ℕ → TaskRef → TaskProgress → Op
  messages : ℕ → TaskRef → String → Op
  -- The UPDATE of AddWarning, with texts that it composed from an earlier read.
  warns : ℕ → TaskRef → List String → Op
  checkpoints : ℕ → TaskRef → ℤ → String → Op
  targets : ℕ → TaskRef → String → Op
  binds : ℕ → TaskRef → ℤ → Op
  saves : ℕ → TaskRef → ℤ → Op
  fails_at : ℕ → TaskRef → String → String → Op
  commits : ℕ → TaskRef → Op
  finalizes : ℕ → TaskRef → Outcome → Op
  recovers : ℕ → Op

-- The tables that an operation leaves, its answer left out.
abbrev pub db_of : {A : Type 0} → Result Error (Db × A) → Result Error Db
db_of (ok (db, a)) = ok db
db_of (err e) = err e

unfoldable pub perform : Env → Op → Db → Result Error Db
perform env (enqueues now ts) db = db_of (enqueue env now ts db)
perform env (claims now) db = db_of (claim_next env now db)
perform env (controls now a id) db = db_of (request_action env id a now db)
perform env (resumes now id) db = db_of (request_resume env id now db)
perform env (progresses now ref p) db = update_progress now ref p db
perform env (messages now ref text) db = update_message now ref text db
perform env (warns now ref texts) db = write_warnings now ref texts db
perform env (checkpoints now ref n next) db = record_checkpoint now ref n next db
perform env (targets now ref text) db = set_target now ref text db
perform env (binds now ref work) db = set_work_id env now ref work db
perform env (saves now ref n) db = set_saved_episode_count now ref n db
perform env (fails_at now ref a b) db = set_failure_episode now ref a b db
perform env (commits now ref) db = commit_execution now ref db
perform env (finalizes now ref o) db = finalize env now ref o db
perform env (recovers now) db = recover_on_startup env now db

abbrev pub after : Db → Result Error Db → Db
after db (ok db') = db'
after db (err e) = db

-- An operation that fails is rolled back.
unfoldable pub step : Env → Op → Db → Db
step env op db = after db (perform env op db)

unfoldable pub run : Env → List Op → Db → Db
run env [] db = db
run env (op ∷ ops) db = run env ops (step env op db)

pub db_of-Ensures :
    {A : Type 0} (P : Db → Type 0) (r : Result Error (Db × A))
    → Ensures (λ x. P x.0) r
    → Ensures P (db_of r)
db_of-Ensures P (ok (db, a)) (done p) = done p
db_of-Ensures P (err e) raised = raised

module _ (env : Env) where
  pub perform-Inv : (op : Op) (db : Db) → Inv env db → Ensures (Inv env) (perform env op db)
  unfolding perform
  perform-Inv (enqueues now ts) db i = db_of-Ensures (Inv env) _ (enqueue-Inv env now ts db i)
  perform-Inv (claims now) db i = db_of-Ensures (Inv env) _ (claim_next-Inv env now db i)
  perform-Inv (controls now a id) db i =
      db_of-Ensures (Inv env) _ (request_action-Inv env id a now db i)
  perform-Inv (resumes now id) db i = db_of-Ensures (Inv env) _ (request_resume-Inv env id now db i)
  perform-Inv (progresses now ref p) db i = update_progress-Inv env now ref p db i
  perform-Inv (messages now ref text) db i = update_message-Inv env now ref text db i
  perform-Inv (warns now ref texts) db i = write_warnings-Inv env now ref texts db i
  perform-Inv (checkpoints now ref n next) db i = record_checkpoint-Inv env now ref n next db i
  perform-Inv (targets now ref text) db i = set_target-Inv env now ref text db i
  perform-Inv (binds now ref work) db i = set_work_id-Inv env now ref work db i
  perform-Inv (saves now ref n) db i = set_saved_episode_count-Inv env now ref n db i
  perform-Inv (fails_at now ref a b) db i = set_failure_episode-Inv env now ref a b db i
  perform-Inv (commits now ref) db i = commit_execution-Inv env now ref db i
  perform-Inv (finalizes now ref o) db i = finalize-Inv env now ref o db i
  perform-Inv (recovers now) db i = recover_on_startup-Inv env now db i

  pub after-Ensures :
      (P : Db → Type 0) (db : Db) (r : Result Error Db) → P db → Ensures P r → P (after db r)
  after-Ensures P db (ok db') p (done q) = q
  after-Ensures P db (err e) p raised = p

  -- Every transaction keeps the invariant.
  pub step-Inv : (op : Op) (db : Db) → Inv env db → Inv env (step env op db)
  unfolding step
  step-Inv op db i = after-Ensures (Inv env) db _ i (perform-Inv op db i)

  pub run-Inv : (ops : List Op) (db : Db) → Inv env db → Inv env (run env ops db)
  unfolding run
  run-Inv [] db i = i
  run-Inv (op ∷ ops) db i = run-Inv ops (step env op db) (step-Inv op db i)

  -- After any history of transactions from an empty database: the unique indexes and checks hold,
  -- the queue holds exactly the queued tasks, each once, and every row reads back as a task.
  pub run-empty-Inv : (ops : List Op) → Inv env (run env ops empty_db)
  run-empty-Inv ops = run-Inv ops empty_db (empty-Inv env)
