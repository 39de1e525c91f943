-- ===== src/Taskstate/Evolution/Control.antt =====
-- taskstate/sqlite.go, RequestPause, RequestCancel and RequestResume, and the life of one task.
use mathlib.Core.Option.{some-injective}
use narou_viewer.Prelude.{
  Bool, Ensures, arith, Ensures-bind, Ensures-guard, Ensures-then, List, String, [], ap, count,
  done, false, find, if◌then◌else◌, is_pos, is_some, not, raised, refl, some, str_eq_iff, subst,
  sym, true, ℕ, ◌++◌, ◌==◌, ◌>>=◌, ◌∙◌, ◌∷◌, ◌≡◌,
}
use narou_viewer.Taskstate.Control.{
  Decision, apply_decision, by_open_control, cancel_idle, cancel_queued, changed_result,
  decide_action, decide_running, pause_queued, refuse, request_action, request_resume,
  request_running, requeue, required, resume_error, resume_from, set_action, set_canceled,
  set_paused, set_queued, unchanged,
}
use narou_viewer.Taskstate.Evolution.Updates.{
  AllEvolve, Always-refl, Evolves, Evolves-refl, cancel_failed, cancel_interrupted, cancel_paused,
  cancel_waiting, moves, pause_waiting, resume_failed, resume_interrupted, resume_paused, row_at,
  stays, update-Always, ◌⟶◌,
}
use narou_viewer.Taskstate.Keeps.Control.{resume_error_lem}
use narou_viewer.Taskstate.Model.{
  Db, RequestedAction, Row, Status, Task, cancel, canceled, failed, interrupted, is_running,
  no_request, pause, paused, queued, running, succeeded,
}
use narou_viewer.Taskstate.Reads.{RowOf-status, required_lem}
use narou_viewer.Taskstate.Schema.{
  and_other, by_id, delete_queue, insert_queue, reserves_key, reserves_work, update_tasks, without,
}
use narou_viewer.Taskstate.Tables.{insert_queue_lem, update_tasks_lem}
use narou_viewer.Taskstate.Target.{Env}

-- The decision of requestAction names the status that it starts from.
abbrev pub Fits : Decision → Status → Type 0
Fits pause_queued s = s ≡ queued
Fits cancel_queued s = s ≡ queued
Fits cancel_idle s = (s ⟶ canceled) × (is_running s ≡ false)
Fits _ s = Unit

decide_running-Fits :
    (committed : Bool) (current a : RequestedAction) (s : Status)
    → Fits (decide_running committed current a) s
decide_running-Fits true current a s = tt
decide_running-Fits false no_request no_request s = tt
decide_running-Fits false no_request pause s = tt
decide_running-Fits false no_request cancel s = tt
decide_running-Fits false pause no_request s = tt
decide_running-Fits false pause pause s = tt
decide_running-Fits false pause cancel s = tt
decide_running-Fits false cancel no_request s = tt
decide_running-Fits false cancel pause s = tt
decide_running-Fits false cancel cancel s = tt

pub decide-Fits :
    (s : Status) (committed : Bool) (current a : RequestedAction)
    → Fits (decide_action s committed current a) s
unfolding decide_action
decide-Fits succeeded committed current a = tt
decide-Fits canceled committed current a = tt
decide-Fits running committed current a = decide_running-Fits committed current a running
decide-Fits queued committed current pause = refl
decide-Fits queued committed current cancel = refl
decide-Fits paused committed current cancel = (cancel_paused, refl)
decide-Fits interrupted committed current cancel = (cancel_interrupted, refl)
decide-Fits failed committed current cancel = (cancel_failed, refl)
decide-Fits _ committed current _ = tt

-- Where every row with an id is the one that was found.
by_id-row :
    (id : String) (db : Db) (row r : Row)
    → row_at id db ≡ some row
    → row_at r.task_id db ≡ some r
    → by_id id r ≡ true
    → r ≡ row
by_id-row id db row r e f t =
    some-injective r row (sym f ∙ (ap (λ k. row_at k db) ((str_eq_iff r.task_id id).0 t) ∙ e))

set_paused-Evolves : (now : ℕ) (r : Row) → r.status ≡ queued → Evolves r (set_paused now r)
unfolding set_paused
set_paused-Evolves now r e = moves (rw e pause_waiting) refl λ live c. cc

set_canceled-Evolves :
    (now : ℕ) (r : Row)
    → r.status ⟶ canceled
    → is_running r.status ≡ false
    → Evolves r (set_canceled now r)
unfolding set_canceled
set_canceled-Evolves now r e idle = moves e refl λ live c. absurd (ground arith)

requeued-idle : (s : Status) → s ⟶ queued → is_running s ≡ false
requeued-idle running e = elim e [ ]
requeued-idle _ e = refl

set_queued-Evolves : (now : ℕ) (r : Row) → r.status ⟶ queued → Evolves r (set_queued now r)
unfolding set_queued
set_queued-Evolves now r e =
    let idle = requeued-idle r.status e in moves e refl λ live c. absurd (ground arith)

set_action-Evolves :
    (id : String) (a : RequestedAction) (now : ℕ) (r : Row)
    → by_open_control id r ≡ true
    → Evolves r (set_action a now r)
unfolding set_action
set_action-Evolves id a now r t = stays refl refl ((λ c. c), λ n. absurd (ground arith))

module _ (env : Env) where
  changed_result-AllEvolve :
      (id : String) (db db' : Db)
      → AllEvolve db db'
      → Ensures (λ e. AllEvolve db e.0) (changed_result env id db')
  unfolding changed_result
  changed_result-AllEvolve id db db' h = Ensures-bind (required env id db') _ λ t got. done h

  -- An UPDATE of one task, and the task read again.
  update-AllEvolve :
      (f : Row → Row) (id : String) (db : Db) (q : List String) (row : Row)
      → row_at id db ≡ some row
      → ((r : Row) → (f r).task_id ≡ r.task_id)
      → Evolves row (f row)
      → Ensures
          (λ e. AllEvolve db e.0)
          (update_tasks (by_id id) f (record { tasks = db.tasks; queue = q })
            >>= changed_result env id)
  unfolding changed_result
  update-AllEvolve f id db q row found ids h =
      Ensures-then (update_tasks (by_id id) f (record { tasks = db.tasks; queue = q })) _
        (update_tasks_lem (by_id id) f (record { tasks = db.tasks; queue = q }))
        λ db' (e, v). Ensures-bind (required env id db') _ λ t got. done (
          rw e (
            update-Always Evolves Evolves-refl (by_id id) f db q ids λ r here t'.
              subst (λ x. Evolves x (f x)) (sym (by_id-row id db row r found here t')) h))

  apply_decision-AllEvolve :
      (d : Decision) (id : String) (a : RequestedAction) (now : ℕ) (t : Task) (db : Db) (row : Row)
      → row_at id db ≡ some row
      → Fits d row.status
      → Ensures (λ e. AllEvolve db e.0) (apply_decision env d id a now t db)
  unfolding apply_decision delete_queue
  apply_decision-AllEvolve refuse id a now t db row found fits = raised
  apply_decision-AllEvolve unchanged id a now t db row found fits =
      done (Always-refl Evolves Evolves-refl db)
  apply_decision-AllEvolve pause_queued id a now t db row found fits =
      update-AllEvolve (set_paused now) id db (without id db.queue) row found
        (λ r. unfold set_paused in refl) (set_paused-Evolves now row fits)
  apply_decision-AllEvolve cancel_queued id a now t db row found fits =
      update-AllEvolve (set_canceled now) id db (without id db.queue) row found
        (λ r. unfold set_canceled in refl)
        (set_canceled-Evolves now row (rw fits cancel_waiting) (rw fits refl))
  apply_decision-AllEvolve cancel_idle id a now t db row found fits =
      update-AllEvolve (set_canceled now) id db db.queue row found
        (λ r. unfold set_canceled in refl) (set_canceled-Evolves now row fits.0 fits.1)
  apply_decision-AllEvolve request_running id a now t db row found fits =
      Ensures-then (update_tasks (by_open_control id) (set_action a now) db) _
        (update_tasks_lem (by_open_control id) (set_action a now) db)
        λ db' (e, v). Ensures-guard (not (count (by_open_control id) db.tasks == 1)) _ _ λ one.
          changed_result-AllEvolve id db db' (
            rw e (
              update-Always Evolves Evolves-refl (by_open_control id) (set_action a now) db db.queue
                (λ r. unfold set_action in refl) (λ r _ t'. set_action-Evolves id a now r t')))

  pub request_action-AllEvolve :
      (id : String) (a : RequestedAction) (now : ℕ) (db : Db)
      → Ensures (λ e. AllEvolve db e.0) (request_action env id a now db)
  unfolding request_action
  request_action-AllEvolve id a now db =
      Ensures-then (required env id db) _ (required_lem env id db) λ t e.
        apply_decision-AllEvolve (decide_action t.status t.execution_committed t.requested_action a)
          id a now t db e.row e.found
          (subst (Fits (decide_action t.status t.execution_committed t.requested_action a))
            (RowOf-status e) (decide-Fits t.status t.execution_committed t.requested_action a))

  requeue-AllEvolve :
      (id : String) (now : ℕ) (t : Task) (db : Db) (row : Row)
      → row_at id db ≡ some row
      → row.status ⟶ queued
      → Ensures (λ e. AllEvolve db e.0) (requeue env id now t db)
  unfolding requeue changed_result
  requeue-AllEvolve id now t db row found edge =
      Ensures-guard (is_some (find (and_other id (reserves_key t.dedupe_key)) db.tasks)) _ _ λ free.
        Ensures-guard
          (if is_pos t.work_id
            then is_some (find (and_other id (reserves_work t.work_id)) db.tasks)
            else false)
          _ _
          λ free_work.
            Ensures-then (resume_error (update_tasks (by_id id) (set_queued now) db)) _
              (resume_error_lem (update_tasks (by_id id) (set_queued now) db)
                (update_tasks_lem (by_id id) (set_queued now) db))
              λ db' (e, v).
                Ensures-then (insert_queue id db') _ (insert_queue_lem id db')
                  λ queued_db (e', absent_id, _).
                    Ensures-bind (required env id queued_db) _ λ u got. done (
                      rw (e', e)
                        (update-Always Evolves Evolves-refl (by_id id) (set_queued now) db
                          (db.queue ++ id ∷ []) (λ r. unfold set_queued in refl)
                          λ r here t'.
                            subst (λ x. Evolves x (set_queued now x))
                              (sym (by_id-row id db row r found here t'))
                              (set_queued-Evolves now row edge)))

  resume_from-AllEvolve :
      (s : Status) (id : String) (now : ℕ) (t : Task) (db : Db) (row : Row)
      → row_at id db ≡ some row
      → row.status ≡ s
      → Ensures (λ e. AllEvolve db e.0) (resume_from env s id now t db)
  unfolding resume_from
  resume_from-AllEvolve queued id now t db row found e = done (Always-refl Evolves Evolves-refl db)
  resume_from-AllEvolve running id now t db row found e = done (Always-refl Evolves Evolves-refl db)
  resume_from-AllEvolve canceled id now t db row found e = raised
  resume_from-AllEvolve succeeded id now t db row found e = raised
  resume_from-AllEvolve paused id now t db row found e =
      requeue-AllEvolve id now t db row found (rw e resume_paused)
  resume_from-AllEvolve interrupted id now t db row found e =
      requeue-AllEvolve id now t db row found (rw e resume_interrupted)
  resume_from-AllEvolve failed id now t db row found e =
      requeue-AllEvolve id now t db row found (rw e resume_failed)

  pub request_resume-AllEvolve :
      (id : String) (now : ℕ) (db : Db)
      → Ensures (λ e. AllEvolve db e.0) (request_resume env id now db)
  unfolding request_resume
  request_resume-AllEvolve id now db =
      Ensures-then (required env id db) _ (required_lem env id db)
        λ t e. resume_from-AllEvolve t.status id now t db e.row e.found (sym (RowOf-status e))
