-- ===== src/Taskstate/Keeps/Control.antt =====
-- taskstate/sqlite.go, RequestPause, RequestCancel and RequestResume: the invariant of the tables.
use narou_viewer.Prelude.{
  Bool, Ensures, Ensures-bind, Ensures-guard, Ensures-then, List, Result, String, [], any, any-find,
  ap, arith, count, done, err, false, find, if◌then◌else◌, is_pos, is_some, none, not, raised, refl,
  str_eq, str_eq_iff, subst, true, ℕ, ◌&&◌, ◌==◌, ◌>>=◌, ◌∙◌, ◌∷◌, ◌≡◌,
}
use narou_viewer.Taskstate.Claim.{by_queued_id}
use narou_viewer.Taskstate.Control.{
  Decision, apply_decision, by_open_control, cancel_idle, cancel_queued, changed_result,
  decide_action, pause_queued, refuse, request_action, request_resume, request_running, requeue,
  required, resume_error, resume_from, set_action, set_canceled, set_paused, set_queued, unchanged,
}
use narou_viewer.Taskstate.Invariant.{Inv, Readable}
use narou_viewer.Taskstate.Model.{
  Db, Error, RequestedAction, Row, Status, Task, canceled, constraint, is_queued, queued,
  reserved_dedupe, running, succeeded,
}
use narou_viewer.Taskstate.Reads.{RowOf-status, count-by_id_and, required_lem}
use narou_viewer.Taskstate.Schema.{
  and_other, by_id, delete_queue, insert_queue, reserves_key, reserves_work, update_tasks,
  update_where, violation, without,
}
use narou_viewer.Taskstate.Tables.{insert_queue_lem, update_tasks_lem, updated}
use narou_viewer.Taskstate.Target.{Env}
use narou_viewer.Taskstate.Updates.{Inv-dequeue, Inv-requeue, Inv-update}

pause-moves :
    (id : String) (now : ℕ) (j : String) (r : Row)
    → by_queued_id j (updated (by_id id) (set_paused now) r) ≡ not (str_eq j id) && by_queued_id j r
unfolding set_paused
pause-moves id now j r =
    ground (arith, str_eq_iff r.task_id id, str_eq_iff r.task_id j, str_eq_iff j id)

cancel-moves :
    (id : String) (now : ℕ) (j : String) (r : Row)
    → by_queued_id j (updated (by_id id) (set_canceled now) r)
      ≡ not (str_eq j id) && by_queued_id j r
unfolding set_canceled
cancel-moves id now j r =
    ground (arith, str_eq_iff r.task_id id, str_eq_iff r.task_id j, str_eq_iff j id)

action-moves :
    (id : String) (a : RequestedAction) (now : ℕ) (j : String) (r : Row)
    → by_queued_id j (updated (by_open_control id) (set_action a now) r) ≡ by_queued_id j r
unfolding set_action
action-moves id a now j r = ground arith

resume-moves :
    (id : String) (now : ℕ) (j : String) (r : Row)
    → by_queued_id j (updated (by_id id) (set_queued now) r)
      ≡ (if str_eq r.task_id id then str_eq r.task_id j else by_queued_id j r)
unfolding set_queued
resume-moves id now j r = ground arith

pub without-absent :
    (id : String) (xs : List String) → count (str_eq id) xs ≡ 0 → without id xs ≡ xs
unfolding count without
without-absent id [] h = refl
without-absent id (x ∷ xs) h = ground (arith, without-absent id xs)

-- An idle task is cancelled in place; it is not queued.
decide-cancel_idle :
    (s : Status) (committed : Bool) (current a : RequestedAction)
    → decide_action s committed current a ≡ cancel_idle
    → is_queued s ≡ false
unfolding decide_action
decide-cancel_idle s committed current a h = ground arith

pub resume_error_lem :
    {P : Db → Type 0} (r : Result Error Db) → Ensures P r → Ensures P (resume_error r)
unfolding resume_error
resume_error_lem r (done p) = done p
resume_error_lem (err (constraint reserved_dedupe)) raised = raised
resume_error_lem (err (constraint _)) raised = raised
resume_error_lem (err _) raised = raised

module _ (env : Env) where
  pub set_paused-Readable : (now : ℕ) (r : Row) → Readable env r → Readable env (set_paused now r)
  unfolding set_paused
  set_paused-Readable now r h = h

  pub set_canceled-Readable :
      (now : ℕ) (r : Row) → Readable env r → Readable env (set_canceled now r)
  unfolding set_canceled
  set_canceled-Readable now r h = h

  pub set_action-Readable :
      (a : RequestedAction) (now : ℕ) (r : Row) → Readable env r → Readable env (set_action a now r)
  unfolding set_action
  set_action-Readable a now r h = h

  pub set_queued-Readable : (now : ℕ) (r : Row) → Readable env r → Readable env (set_queued now r)
  unfolding set_queued
  set_queued-Readable now r h = h

  changed_result-Inv :
      (id : String) (db : Db) → Inv env db → Ensures (λ e. Inv env e.0) (changed_result env id db)
  unfolding changed_result
  changed_result-Inv id db i = Ensures-bind (required env id db) _ λ t e. done i

  -- An UPDATE, and the task read again.
  update-Inv :
      (p : Row → Bool) (f : Row → Row) (id : String) (db : Db)
      → (violation (update_where p f db.tasks) ≡ none
          → Inv env (record db { tasks = update_where p f db.tasks }))
      → Ensures (λ e. Inv env e.0) (update_tasks p f db >>= changed_result env id)
  update-Inv p f id db keep =
      Ensures-then (update_tasks p f db) _ (update_tasks_lem p f db)
        λ db' (e, v). rw e (changed_result-Inv id _ (keep v))

  -- What requestAction writes, on each of its branches.
  apply_decision-Inv :
      (d : Decision) (id : String) (a : RequestedAction) (now : ℕ) (t : Task) (db : Db)
      → (d ≡ cancel_idle → count (by_queued_id id) db.tasks ≡ 0)
      → Inv env db
      → Ensures (λ e. Inv env e.0) (apply_decision env d id a now t db)
  unfolding apply_decision delete_queue
  apply_decision-Inv refuse id a now t db idle i = raised
  apply_decision-Inv unchanged id a now t db idle i = done i
  apply_decision-Inv pause_queued id a now t db idle i =
      update-Inv (by_id id) (set_paused now) id (delete_queue id db) λ v.
        Inv-dequeue env (by_id id) (set_paused now) (λ r _. set_paused-Readable now r) id db
          (pause-moves id now) v i
  apply_decision-Inv cancel_queued id a now t db idle i =
      update-Inv (by_id id) (set_canceled now) id (delete_queue id db) λ v.
        Inv-dequeue env (by_id id) (set_canceled now) (λ r _. set_canceled-Readable now r) id db
          (cancel-moves id now) v i
  apply_decision-Inv cancel_idle id a now t db idle i =
      update-Inv (by_id id) (set_canceled now) id db λ v.
        subst
          (λ q.
            Inv env
              (record { tasks = update_where (by_id id) (set_canceled now) db.tasks; queue = q }))
          (without-absent id db.queue (i.queue_matches id ∙ idle refl))
          (Inv-dequeue env (by_id id) (set_canceled now) (λ r _. set_canceled-Readable now r) id db
            (cancel-moves id now) v i)
  apply_decision-Inv request_running id a now t db idle i =
      Ensures-then (update_tasks (by_open_control id) (set_action a now) db) _
        (update_tasks_lem (by_open_control id) (set_action a now) db)
        λ db' (e, v). Ensures-guard (not (count (by_open_control id) db.tasks == 1)) _ _ λ one.
          rw e (
            changed_result-Inv id _ (
              Inv-update env (by_open_control id) (set_action a now)
                (λ r _. set_action-Readable a now r) db (action-moves id a now) v i))

  pub request_action-Inv :
      (id : String) (a : RequestedAction) (now : ℕ) (db : Db)
      → Inv env db
      → Ensures (λ e. Inv env e.0) (request_action env id a now db)
  unfolding request_action
  request_action-Inv id a now db i =
      Ensures-then (required env id db) _ (required_lem env id db) λ t e.
        apply_decision-Inv (decide_action t.status t.execution_committed t.requested_action a) id a
          now t db
          (λ d. ground (
            arith,
            count-by_id_and id (λ s. is_queued s.status) db.tasks e.row i.constrained e.found,
            decide-cancel_idle t.status t.execution_committed t.requested_action a d,
            RowOf-status e,
          ))
          i

  requeue-Inv :
      (id : String) (now : ℕ) (t : Task) (db : Db)
      → any (by_id id) db.tasks ≡ true
      → Inv env db
      → Ensures (λ e. Inv env e.0) (requeue env id now t db)
  unfolding requeue
  requeue-Inv id now t db present i =
      Ensures-guard (is_some (find (and_other id (reserves_key t.dedupe_key)) db.tasks)) _ _ λ free.
        Ensures-guard
          (if is_pos t.work_id
            then is_some (find (and_other id (reserves_work t.work_id)) db.tasks)
            else false)
          _ _
          λ free_work.
            Ensures-then (resume_error (update_tasks (by_id id) (set_queued now) db)) _
              (resume_error_lem _ (update_tasks_lem (by_id id) (set_queued now) db))
              λ db' (e, v).
                Ensures-then (insert_queue id db') _ (insert_queue_lem id db')
                  λ queued_db (e', absent, _). changed_result-Inv id queued_db (
                    rw (e', e)
                      (Inv-requeue env (by_id id) (set_queued now)
                        (λ r _. set_queued-Readable now r) id db (resume-moves id now) v
                        i.constrained present (rw e at absent) i))

  resume_from-Inv :
      (s : Status) (id : String) (now : ℕ) (t : Task) (db : Db)
      → any (by_id id) db.tasks ≡ true
      → Inv env db
      → Ensures (λ e. Inv env e.0) (resume_from env s id now t db)
  unfolding resume_from
  resume_from-Inv queued id now t db present i = done i
  resume_from-Inv running id now t db present i = done i
  resume_from-Inv canceled id now t db present i = raised
  resume_from-Inv succeeded id now t db present i = raised
  resume_from-Inv _ id now t db present i = requeue-Inv id now t db present i

  pub request_resume-Inv :
      (id : String) (now : ℕ) (db : Db)
      → Inv env db
      → Ensures (λ e. Inv env e.0) (request_resume env id now db)
  unfolding request_resume
  request_resume-Inv id now db i =
      Ensures-then (required env id db) _ (required_lem env id db) λ t e.
        resume_from-Inv t.status id now t db (any-find (by_id id) db.tasks ∙ ap is_some e.found) i
