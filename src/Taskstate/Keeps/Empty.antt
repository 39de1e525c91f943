-- ===== src/Taskstate/Keeps/Empty.antt =====
-- taskstate/sqlite.go, the operations on an empty queue.
use narou_viewer.Prelude.{
  Bool, Ensures, Ensures-bind, Ensures-guard, Ensures-if, Ensures-mono, Ensures-then, List, Option,
  Result, String, [], count, done, err, false, find, int_eq, is_pos, is_some, ltb, none, not, ok,
  pos, raised, refl, some, sym, true, ℕ, ℤ, ◌==◌, ◌>>=◌, ◌∙◌, ◌∷◌, ◌≡◌, ◌≢◌,
}
use narou_viewer.Taskstate.Claim.{claim, claim_head, claim_next}
use narou_viewer.Taskstate.Commit.{by_commit, commit_execution, set_committed}
use narou_viewer.Taskstate.Control.{
  Decision, apply_decision, by_open_control, cancel_idle, cancel_queued, changed_result,
  decide_action, pause_queued, refuse, request_action, request_running, required, set_action,
  set_canceled, set_paused, unchanged,
}
use narou_viewer.Taskstate.Finalize.{finalize, is_final, set_outcome, settle, write_outcome}
use narou_viewer.Taskstate.History.{
  checkpoints, Op, binds, claims, commits, controls, db_of-Ensures, enqueues, fails_at, finalizes,
  messages, perform, progresses, recovers, resumes, saves, targets, warns,
}
use narou_viewer.Taskstate.Model.{
  Db, Error, Outcome, RequestedAction, Row, Status, Task, TaskRef, is_running,
}
use narou_viewer.Taskstate.Progress.{
  record_checkpoint, write_warnings, bind_work, current_attempt, is_running_row,
  set_failure_episode, set_saved_episode_count, set_target, set_work, set_work_id, update_attempt,
  update_message, update_progress,
}
use narou_viewer.Taskstate.Recover.{
  by_running_id, check_requests, queue_gap, queue_stray, recover_on_startup, recover_row,
  recover_rows, set_recovered,
}
use narou_viewer.Taskstate.Request.{request_for_task}
use narou_viewer.Taskstate.Schema.{
  and_other, by_attempt, by_id, delete_queue, reserves_work, update_tasks, without,
}
use narou_viewer.Taskstate.Tables.{update_tasks_lem}
use narou_viewer.Taskstate.Target.{Env}

abbrev pub Quiet : Db → Db → Type 0
Quiet db db' = db.queue ≡ [] → db'.queue ≡ []

without-empty : (id : String) (xs : List String) → xs ≡ [] → without id xs ≡ []
unfolding without
without-empty id xs e = rw e refl

update_tasks-Quiet :
    (p : Row → Bool) (f : Row → Row) (db : Db) → Ensures (Quiet db) (update_tasks p f db)
update_tasks-Quiet p f db = Ensures-mono (λ db' (e, v). rw e (λ h. h)) (update_tasks_lem p f db)

update_attempt-Quiet :
    (ref : TaskRef) (f : Row → Row) (db : Db) → Ensures (Quiet db) (update_attempt ref f db)
unfolding update_attempt
update_attempt-Quiet ref f db =
    Ensures-then (update_tasks (by_attempt ref) f db) _ (update_tasks-Quiet (by_attempt ref) f db)
      λ db' h. Ensures-guard (not (count (by_attempt ref) db.tasks == 1)) _ _ λ one. done h

commit_execution-Quiet :
    (now : ℕ) (ref : TaskRef) (db : Db) → Ensures (Quiet db) (commit_execution now ref db)
unfolding commit_execution
commit_execution-Quiet now ref db =
    Ensures-then (update_tasks (by_commit ref) (set_committed now) db) _
      (update_tasks-Quiet (by_commit ref) (set_committed now) db)
      λ db' h. Ensures-guard (not (count (by_commit ref) db.tasks == 1)) _ _ λ one. done h

recover_rows-Quiet :
    (now : ℕ) (rows : List Row) (db : Db) → Ensures (Quiet db) (recover_rows now rows db)
unfolding recover_rows recover_row
recover_rows-Quiet now [] db = done (λ h. h)
recover_rows-Quiet now (r ∷ rows) db =
    Ensures-then (recover_row now r db) _
      (Ensures-if (is_running r.status) _ _
        (λ _. update_tasks-Quiet (by_running_id r.task_id) (set_recovered now) db)
        (λ _. done (λ h. h)))
      λ db' h. Ensures-mono (λ db'' k e. k (h e)) (recover_rows-Quiet now rows db')

not_empty : (id : String) (rest : List String) → (id ∷ rest) ≢ []
not_empty id rest e = cc

Ensures-all : {A : Type 0} {P : A → Type 0} (r : Result Error A) → ((x : A) → P x) → Ensures P r
Ensures-all (ok x) h = done (h x)
Ensures-all (err e) h = raised

module _ (env : Env) where
  changed_result-Quiet :
      (id : String) (db db' : Db)
      → Quiet db db'
      → Ensures (λ x. Quiet db x.0) (changed_result env id db')
  unfolding changed_result
  changed_result-Quiet id db db' h = Ensures-bind (required env id db') _ λ t e. done h

  update-Quiet :
      (p : Row → Bool) (f : Row → Row) (id : String) (db from : Db)
      → Quiet db from
      → Ensures (λ x. Quiet db x.0) (update_tasks p f from >>= changed_result env id)
  update-Quiet p f id db from h =
      Ensures-then (update_tasks p f from) _ (update_tasks-Quiet p f from)
        λ db' k. changed_result-Quiet id db db' (λ e. k (h e))

  apply_decision-Quiet :
      (d : Decision) (id : String) (a : RequestedAction) (now : ℕ) (t : Task) (db : Db)
      → Ensures (λ x. Quiet db x.0) (apply_decision env d id a now t db)
  unfolding apply_decision delete_queue
  apply_decision-Quiet refuse id a now t db = raised
  apply_decision-Quiet unchanged id a now t db = done (λ h. h)
  apply_decision-Quiet pause_queued id a now t db =
      update-Quiet (by_id id) (set_paused now) id db (delete_queue id db)
        (λ h. without-empty id db.queue h)
  apply_decision-Quiet cancel_queued id a now t db =
      update-Quiet (by_id id) (set_canceled now) id db (delete_queue id db)
        (λ h. without-empty id db.queue h)
  apply_decision-Quiet cancel_idle id a now t db =
      update-Quiet (by_id id) (set_canceled now) id db db (λ h. h)
  apply_decision-Quiet request_running id a now t db =
      Ensures-then (update_tasks (by_open_control id) (set_action a now) db) _
        (update_tasks-Quiet (by_open_control id) (set_action a now) db)
        λ db' h.
          Ensures-guard (not (count (by_open_control id) db.tasks == 1)) _ _
            λ one. changed_result-Quiet id db db' h

  pub request_action-Quiet :
      (id : String) (a : RequestedAction) (now : ℕ) (db : Db)
      → Ensures (λ x. Quiet db x.0) (request_action env id a now db)
  unfolding request_action
  request_action-Quiet id a now db = Ensures-bind (required env id db) _ λ t e.
      apply_decision-Quiet (decide_action t.status t.execution_committed t.requested_action a) id a
        now t db

  pub set_work_id-Quiet :
      (now : ℕ) (ref : TaskRef) (work : ℤ) (db : Db)
      → Ensures (Quiet db) (set_work_id env now ref work db)
  unfolding set_work_id bind_work
  set_work_id-Quiet now ref work db = Ensures-guard (not (is_pos work)) _ _ λ positive.
      Ensures-bind (current_attempt env ref db) _ λ t e.
        Ensures-if (int_eq t.work_id work) _ _ (λ _. done (λ h. h))
          (λ _. Ensures-guard (not (int_eq t.work_id (pos 0))) _ _ λ unbound.
            Ensures-guard (is_some (find (and_other ref.task_id (reserves_work work)) db.tasks)) _ _
              λ free.
                Ensures-bind (request_for_task env (record t { work_id = work })) _
                  λ x valid. update_attempt-Quiet ref (set_work now work x.0 x.1 x.2) db)

  write_outcome-Quiet :
      (now : ℕ) (ref : TaskRef) (o : Outcome) (s : Option Status) (db : Db)
      → Ensures (Quiet db) (write_outcome now ref o s db)
  unfolding write_outcome
  write_outcome-Quiet now ref o none db = raised
  write_outcome-Quiet now ref o (some s) db = update_attempt-Quiet ref (set_outcome now s o) db

  pub finalize-Quiet :
      (now : ℕ) (ref : TaskRef) (o : Outcome) (db : Db)
      → Ensures (Quiet db) (finalize env now ref o db)
  unfolding finalize
  finalize-Quiet now ref o db = Ensures-guard (not (is_final o.status)) _ _ λ final.
      Ensures-bind (current_attempt env ref db) _
        λ t e. write_outcome-Quiet now ref (settle t o) (settle t o).status db

  claim_next-Quiet : (now : ℕ) (db : Db) → Ensures (λ x. Quiet db x.0) (claim_next env now db)
  unfolding claim_next claim_head
  claim_next-Quiet now db = go db.queue refl
    where
      go :
          (xs : List String)
          → db.queue ≡ xs
          → Ensures (λ x. Quiet db x.0) (claim_head env xs now db)
      go [] e = done (λ h. h)
      go (id ∷ rest) e =
          Ensures-all (claim env id now db) (λ x h. absurd (not_empty id rest (sym e ∙ h)))

  recover_on_startup-Quiet :
      (now : ℕ) (db : Db) → Ensures (Quiet db) (recover_on_startup env now db)
  unfolding recover_on_startup
  recover_on_startup-Quiet now db = Ensures-bind (check_requests env db.tasks) _ λ u checked.
      Ensures-guard (ltb 0 (count (queue_gap db) db.tasks)) _ _ λ no_gap.
        Ensures-guard (ltb 0 (count (queue_stray db) db.tasks)) _ _ λ no_stray.
          Ensures-guard (ltb 1 (count is_running_row db.tasks)) _ _
            λ one. recover_rows-Quiet now db.tasks db

-- The operations that put no task into the queue.
abbrev pub is_quiet : Op → Bool
is_quiet (enqueues now ts) = false
is_quiet (resumes now id) = false
is_quiet _ = true

-- A quiet operation leaves an empty queue empty.
pub perform-Quiet :
    (env : Env) (op : Op) (db : Db) → is_quiet op ≡ true → Ensures (Quiet db) (perform env op db)
unfolding perform
perform-Quiet env (enqueues now ts) db h = absurd (cc)
perform-Quiet env (resumes now id) db h = absurd (cc)
perform-Quiet env (claims now) db h = db_of-Ensures (Quiet db) _ (claim_next-Quiet env now db)
perform-Quiet env (controls now a id) db h =
    db_of-Ensures (Quiet db) _ (request_action-Quiet env id a now db)
perform-Quiet env (progresses now ref p) db h =
    unfold update_progress in update_attempt-Quiet ref _ db
perform-Quiet env (messages now ref text) db h =
    unfold update_message in update_attempt-Quiet ref _ db
perform-Quiet env (warns now ref texts) db h =
    unfold write_warnings in update_attempt-Quiet ref _ db
perform-Quiet env (checkpoints now ref n next) db h =
    unfold record_checkpoint in update_attempt-Quiet ref _ db
perform-Quiet env (targets now ref text) db h = unfold set_target in update_attempt-Quiet ref _ db
perform-Quiet env (binds now ref work) db h = set_work_id-Quiet env now ref work db
perform-Quiet env (saves now ref n) db h =
    unfold set_saved_episode_count in update_attempt-Quiet ref _ db
perform-Quiet env (fails_at now ref a b) db h =
    unfold set_failure_episode in update_attempt-Quiet ref _ db
perform-Quiet env (commits now ref) db h = commit_execution-Quiet now ref db
perform-Quiet env (finalizes now ref o) db h = finalize-Quiet env now ref o db
perform-Quiet env (recovers now) db h = recover_on_startup-Quiet env now db
