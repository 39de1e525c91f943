-- ===== src/Taskstate/Behaviour/Control.antt =====
-- taskstate/sqlite.go, RequestPause and RequestCancel on the row of a stored task.
use narou_viewer.Prelude.{
  Bool, List, Result, String, arith, count, err, false, find, none, not, ok, refl, some,
  str_eq_refl, true, ℕ, ◌&&◌, ◌>>=◌, ◌∙◌, ◌≡◌,
}
use narou_viewer.Taskstate.Behaviour.Reading.{find-updated, Readable-row, required_ok}
use narou_viewer.Taskstate.Behaviour.Writing.{violation-update_row}
use narou_viewer.Taskstate.Constraints.{Weaker}
use narou_viewer.Taskstate.Control.{
  Decision, apply_decision, by_open_control, cancel_idle, cancel_queued, changed_result,
  decide_action, decide_running, pause_queued, refuse, request_action, request_running, set_action,
  set_canceled, set_paused, unchanged,
}
use narou_viewer.Taskstate.Evolution.Control.{Fits, decide-Fits}
use narou_viewer.Taskstate.Invariant.{Inv, Readable}
use narou_viewer.Taskstate.Keeps.Control.{
  set_action-Readable, set_canceled-Readable, set_paused-Readable,
}
use narou_viewer.Taskstate.Model.{
  ControlResult, Db, Error, Request, RequestedAction, Row, Status, canceled, failed, interrupted,
  is_no_request, is_running, paused, queued, running, succeeded, task_state_conflict,
}
use narou_viewer.Taskstate.Reads.{count-by_id_and}
use narou_viewer.Taskstate.Scan.{task_of}
use narou_viewer.Taskstate.Schema.{
  by_id, check_row, delete_queue, update_tasks, update_where, violation, without,
}
use narou_viewer.Taskstate.Tables.{update_tasks_ok}
use narou_viewer.Taskstate.Target.{Env}

abbrev pub Wrote :
    Env
    → (Row → Bool)
    → (Row → Row)
    → List String
    → Db
    → Row
    → Result Error (Db × ControlResult)
    → Type 0
Wrote env p f q db row r =
    (request : Request) × (r
      ≡ ok (
        record { tasks = update_where p f db.tasks; queue = q },
        record { task = task_of (f row) request; changed = true },
      ))
    × (find (by_id row.task_id) (update_where p f db.tasks) ≡ some (f row))

abbrev pub Answers :
    Env → Decision → RequestedAction → ℕ → Db → Row → Result Error (Db × ControlResult) → Type 0
Answers env refuse a now db row r = r ≡ err task_state_conflict
Answers env unchanged a now db row r =
    (request : Request) × (r ≡ ok (db, record { task = task_of row request; changed = false }))
Answers env pause_queued a now db row r =
    Wrote env (by_id row.task_id) (set_paused now) (without row.task_id db.queue) db row r
Answers env cancel_queued a now db row r =
    Wrote env (by_id row.task_id) (set_canceled now) (without row.task_id db.queue) db row r
Answers env cancel_idle a now db row r =
    Wrote env (by_id row.task_id) (set_canceled now) db.queue db row r
Answers env request_running a now db row r =
    Wrote env (by_open_control row.task_id) (set_action a now) db.queue db row r

set_paused-Weaker : (now : ℕ) (r : Row) → r.status ≡ queued → Weaker r (set_paused now r)
unfolding set_paused
set_paused-Weaker now r q = record {
  same_id = refl;
  same_key = refl;
  same_work = refl;
  runs_less = λ h. absurd (cc);
  reserves_less = λ h. rw q refl;
}

set_canceled-Weaker : (now : ℕ) (r : Row) → Weaker r (set_canceled now r)
unfolding set_canceled
set_canceled-Weaker now r = record {
  same_id = refl;
  same_key = refl;
  same_work = refl;
  runs_less = λ h. absurd (cc);
  reserves_less = λ h. absurd (cc);
}

set_action-Weaker : (a : RequestedAction) (now : ℕ) (r : Row) → Weaker r (set_action a now r)
unfolding set_action
set_action-Weaker a now r = record {
  same_id = refl;
  same_key = refl;
  same_work = refl;
  runs_less = λ h. h;
  reserves_less = λ h. h;
}

set_paused-check : (now : ℕ) (r : Row) → check_row r ≡ true → check_row (set_paused now r) ≡ true
unfolding check_row set_paused
set_paused-check now r h = ground arith

set_canceled-check :
    (now : ℕ) (r : Row) → check_row r ≡ true → check_row (set_canceled now r) ≡ true
unfolding check_row set_canceled
set_canceled-check now r h = ground arith

set_action-check :
    (a : RequestedAction) (now : ℕ) (r : Row)
    → is_running r.status ≡ true
    → check_row r ≡ true
    → check_row (set_action a now r) ≡ true
unfolding check_row set_action
set_action-check a now r t h = ground arith

-- The decisions, inverted.
decide_running-request :
    (c : Bool) (b a : RequestedAction)
    → decide_running c b a ≡ request_running
    → (c ≡ false) × (is_no_request b ≡ true)
decide_running-request c b a h = ground arith

decide-request :
    (s : Status) (c : Bool) (b a : RequestedAction)
    → decide_action s c b a ≡ request_running
    → (is_running s ≡ true) × (c ≡ false) × (is_no_request b ≡ true)
unfolding decide_action
decide-request running c b a h =
    let (idle, free) = decide_running-request c b a h in (refl, idle, free)
decide-request succeeded c b a h = absurd (cc)
decide-request canceled c b a h = absurd (cc)
decide-request queued c b a h = absurd (ground arith)
decide-request paused c b a h = absurd (ground arith)
decide-request interrupted c b a h = absurd (ground arith)
decide-request failed c b a h = absurd (ground arith)

module _ (env : Env) where
  pub changed_result_ok :
      (id : String) (db : Db) (r : Row) (h : Readable env r)
      → find (by_id id) db.tasks ≡ some r
      → changed_result env id db ≡ ok (db, record { task = task_of r h.request; changed = true })
  unfolding changed_result
  changed_result_ok id db r h e = rw (required_ok env id db r h e) refl

  -- An UPDATE of the row, and the task read again.
  write_ok :
      (p : Row → Bool) (f : Row → Row) (q : List String) (db : Db) (row : Row)
      → Readable env (f row)
      → violation (update_where p f db.tasks) ≡ none
      → find (by_id row.task_id) (update_where p f db.tasks) ≡ some (f row)
      → Wrote env p f q db row (
          update_tasks p f (record { tasks = db.tasks; queue = q })
          >>= changed_result env row.task_id)
  write_ok p f q db row h v found = (
    h.request,
    rw (update_tasks_ok p f (record { tasks = db.tasks; queue = q }) v) (
        changed_result_ok row.task_id (record { tasks = update_where p f db.tasks; queue = q })
          (f row) h found),
    found,
  )

  answer_write :
      (p : Row → Bool) (f : Row → Row) (q : List String) (db : Db) (row : Row)
      → Inv env db
      → find (by_id row.task_id) db.tasks ≡ some row
      → ((r : Row) → p r ≡ true → by_id row.task_id r ≡ true)
      → ((r : Row) → (f r).task_id ≡ r.task_id)
      → p row ≡ true
      → Weaker row (f row)
      → (check_row row ≡ true → check_row (f row) ≡ true)
      → (Readable env row → Readable env (f row))
      → Wrote env p f q db row (
          update_tasks p f (record { tasks = db.tasks; queue = q })
          >>= changed_result env row.task_id)
  answer_write p f q db row i found has_id ids t w c h =
      write_ok p f q db row (h (Readable-row env i row.task_id row found))
        (violation-update_row p f row.task_id db.tasks row has_id found w c i.constrained)
        (find-updated env p f row.task_id db.tasks row ids found t)

  -- The statement of each decision succeeds.
  answer :
      (d : Decision) (a : RequestedAction) (now : ℕ) (db : Db) (row : Row) (q : Request)
      → Inv env db
      → find (by_id row.task_id) db.tasks ≡ some row
      → Fits d row.status
      → (d ≡ request_running → by_open_control row.task_id row ≡ true)
      → Answers env d a now db row (apply_decision env d row.task_id a now (task_of row q) db)
  unfolding apply_decision delete_queue
  answer refuse a now db row q i found fits idle = refl
  answer unchanged a now db row q i found fits idle = (q, refl)
  answer pause_queued a now db row q i found fits idle =
      answer_write (by_id row.task_id) (set_paused now) (without row.task_id db.queue) db row i
        found (λ r t. t) (λ r. unfold set_paused in refl) (str_eq_refl row.task_id)
        (set_paused-Weaker now row fits) (set_paused-check now row)
        (set_paused-Readable env now row)
  answer cancel_queued a now db row q i found fits idle =
      answer_write (by_id row.task_id) (set_canceled now) (without row.task_id db.queue) db row i
        found (λ r t. t) (λ r. unfold set_canceled in refl) (str_eq_refl row.task_id)
        (set_canceled-Weaker now row) (set_canceled-check now row)
        (set_canceled-Readable env now row)
  answer cancel_idle a now db row q i found fits idle =
      answer_write (by_id row.task_id) (set_canceled now) db.queue db row i found (λ r t. t)
        (λ r. unfold set_canceled in refl) (str_eq_refl row.task_id) (set_canceled-Weaker now row)
        (set_canceled-check now row) (set_canceled-Readable env now row)
  answer request_running a now db row q i found fits idle =
      let (request, written, kept) = write in (request, guarded ∙ written, kept)
    where
      write : Wrote env (by_open_control row.task_id) (set_action a now) db.queue db row (
          update_tasks (by_open_control row.task_id) (set_action a now) db
          >>= changed_result env row.task_id)
      write =
          answer_write (by_open_control row.task_id) (set_action a now) db.queue db row i found
            (λ r t. ground arith) (λ r. unfold set_action in refl) (idle refl)
            (set_action-Weaker a now row) (set_action-check a now row (ground (arith, idle refl)))
            (set_action-Readable env a now row)

      one : count (by_open_control row.task_id) db.tasks ≡ 1
      one =
          count-by_id_and row.task_id
            (λ r.
              is_running r.status
              && (not r.execution_committed && is_no_request r.requested_action))
            db.tasks row i.constrained found
          ∙ ground (arith, idle refl)

      guarded : apply_decision env request_running row.task_id a now (task_of row q) db ≡ (
          update_tasks (by_open_control row.task_id) (set_action a now) db
          >>= changed_result env row.task_id)
      guarded = unfold apply_decision in rw one refl

  -- RequestPause and RequestCancel of a stored task, on tables that meet the invariant, fail in
  -- one way only, a state conflict where the ladder of tests refuses, and change nothing where the
  -- action is already in force. Otherwise they write the row that the ladder's decision names, drop
  -- a queued task from the queue, and answer the task as it then reads.
  pub request_action-Answers :
      (a : RequestedAction) (now : ℕ) (db : Db) (row : Row)
      → Inv env db
      → find (by_id row.task_id) db.tasks ≡ some row
      → Answers env
          (decide_action row.status row.execution_committed row.requested_action a)
          a
          now
          db
          row
          (request_action env row.task_id a now db)
  unfolding request_action
  request_action-Answers a now db row i found =
      rw (required_ok env row.task_id db row (Readable-row env i row.task_id row found) found) (
        answer (decide_action row.status row.execution_committed row.requested_action a) a now db
          row (Readable-row env i row.task_id row found).request i found
          (decide-Fits row.status row.execution_committed row.requested_action a) idle)
    where
      idle :
          decide_action row.status row.execution_committed row.requested_action a ≡ request_running
          → by_open_control row.task_id row ≡ true
      idle e = ground (
        arith,
        decide-request row.status row.execution_committed row.requested_action a e,
        str_eq_refl row.task_id,
      )
