-- ===== src/Scenarios/Controls.antt =====
-- Histories, controls and endings on the small tables.
use narou_viewer.Prelude.{
  List, none, pos, [], arith, count, err, false, find, inr, ok, refl, some, true, ℕ, ◌<◌, ◌∷◌, ◌≡◌,
}
use narou_viewer.Scenarios.Tables.{
  alone, env0, failed_Inv, failed_db, failed_row, pause_real, queued_row, running_Inv,
  running_accepts, running_commits, running_db, running_ref0, running_row, update_request,
  update_task, waiting_Inv, waiting_db,
}
use narou_viewer.Taskqueue.Flags.{Changes, Idles, IsQueued, Takes, flags-truthful, is_undecided}
use narou_viewer.Taskqueue.Payload.{payload}
use narou_viewer.Taskstate.Behaviour.Claim.{claim_next-head}
use narou_viewer.Taskstate.Behaviour.Control.{Answers, request_action-Answers}
use narou_viewer.Taskstate.Behaviour.Ending.{Ends}
use narou_viewer.Taskstate.Behaviour.Fence.{earlier_attempts-stale}
use narou_viewer.Taskstate.Behaviour.Decided.{
  IsCommitted, IsRequested, commit_decides, request_decides,
}
use narou_viewer.Taskstate.Behaviour.Recover.{recover_on_startup-succeeds}
use narou_viewer.Taskstate.Behaviour.Reservations.{FreeKey, FreeWork}
use narou_viewer.Taskstate.Behaviour.Resume.{ResumeAnswers, request_resume-answers}
use narou_viewer.Taskstate.Claim.{by_queued_id, claim_next, start}
use narou_viewer.Taskstate.Commit.{commit_execution}
use narou_viewer.Taskstate.Control.{
  decide_action, request_action, request_cancel, request_pause, request_resume,
}
use narou_viewer.Taskstate.Enqueue.{new_row}
use narou_viewer.Taskstate.Evolution.Forever.{step-AllEvolve, terminal_forever}
use narou_viewer.Taskstate.Evolution.Updates.{AllEvolve, row_at}
use narou_viewer.Taskstate.Finalize.{finalize, is_final}
use narou_viewer.Taskstate.History.{
  Op, checkpoints, claims, controls, finalizes, enqueues, recovers, resumes, run, run-empty-Inv,
  step,
}
use narou_viewer.Taskstate.Invariant.{Inv, empty_db}
use narou_viewer.Taskstate.Model.{
  Db, Outcome, Request, RequestedAction, Row, Task, TaskRef, cancel, canceled, pause, running,
  paused, queued, stale_task_attempt, succeeded, task_state_conflict,
}
use narou_viewer.Taskstate.Progress.{is_running_row, update_attempt}
use narou_viewer.Taskstate.Recover.{recover_on_startup}
use narou_viewer.Taskstate.Scan.{task_of}
use narou_viewer.Taskstate.Schema.{by_id, update_where}

run-empty-Inv_example :
    Inv env0 (run env0 (enqueues 1 ((update_task, "b") ∷ []) ∷ claims 2 ∷ []) empty_db)
run-empty-Inv_example = run-empty-Inv env0 (enqueues 1 ((update_task, "b") ∷ []) ∷ claims 2 ∷ [])

step-AllEvolve_example : AllEvolve waiting_db (step env0 (claims 2) waiting_db)
step-AllEvolve_example = step-AllEvolve env0 (claims 2) waiting_db

abbrev canceled_row : Row
canceled_row = record queued_row { status = canceled }

abbrev canceled_db : Db
canceled_db = record { tasks = canceled_row ∷ []; queue = [] }

terminal_forever_example :
    (s : Row) × (row_at canceled_row.task_id (run env0 (resumes 3 "a" ∷ claims 4 ∷ []) canceled_db)
      ≡ some s)
    × (s.status ≡ canceled)
terminal_forever_example =
    terminal_forever env0 canceled_row.task_id canceled (inr refl) (resumes 3 "a" ∷ claims 4 ∷ [])
      canceled_db canceled_row (alone canceled_row) refl

abbrev canceled_outcome : Outcome
canceled_outcome = record {
  status = some canceled;
  error = none;
  message = "";
  execution_committed = false;
}

-- The committed attempt is asked to cancel, reports its progress and ends.
abbrev later_ops : List Op
later_ops =
    controls 4 cancel running_row.task_id
    ∷ checkpoints 5 running_ref0 (pos 2) "3"
    ∷ finalizes 6 running_ref0 canceled_outcome
    ∷ claims 7
    ∷ []

commit_decides_example :
    (db' : Db) × (commit_execution 3 running_ref0 running_db ≡ ok db')
    × ((a : RequestedAction) (later : ℕ)
        → request_action env0 running_row.task_id a later (run env0 later_ops db')
          ≡ err task_state_conflict)
    × (s : Row) × (row_at running_row.task_id (run env0 later_ops db') ≡ some s)
    × IsCommitted running_ref0.attempt s
    × ((o : Outcome) (later : ℕ)
        → is_final o.status ≡ true
        → s.status ≡ running
        → (end : Db) × (finalize env0 later running_ref0 o (run env0 later_ops db') ≡ ok end)
          × Ends running_row.task_id succeeded end)
commit_decides_example =
    commit_decides env0 3 running_ref0 later_ops running_db running_row running_Inv
      (alone running_row) running_commits

request_decides_example :
    (db' : Db) × (t : Task) × (request_action env0 running_row.task_id pause 3 running_db
      ≡ ok (db', record { task = t; changed = true }))
    × ((later : ℕ)
        → commit_execution later running_ref0 (run env0 later_ops db') ≡ err stale_task_attempt)
    × (s : Row) × (row_at running_row.task_id (run env0 later_ops db') ≡ some s)
    × IsRequested running_row.attempt_count pause s
    × ((o : Outcome) (later : ℕ)
        → is_final o.status ≡ true
        → o.execution_committed ≡ false
        → s.status ≡ running
        → s.attempt_count ≡ running_row.attempt_count
        → (end : Db) × (finalize env0 later running_ref0 o (run env0 later_ops db') ≡ ok end)
          × Ends running_row.task_id paused end)
request_decides_example =
    request_decides env0 pause 3 later_ops running_db running_row running_Inv (alone running_row)
      running_accepts pause_real

abbrev old_ref : TaskRef
old_ref = record { task_id = running_row.task_id; attempt = 0 }

old_earlier : 0 < running_row.attempt_count
unfolding start new_row
old_earlier = omega arith

earlier_attempts-stale_example :
    ((f : Row → Row)
      → update_attempt old_ref f (run env0 (recovers 3 ∷ []) running_db) ≡ err stale_task_attempt)
    × ((now : ℕ)
        → commit_execution now old_ref (run env0 (recovers 3 ∷ []) running_db)
          ≡ err stale_task_attempt)
    × ((now : ℕ) (o : Outcome)
        → is_final o.status ≡ true
        → finalize env0 now old_ref o (run env0 (recovers 3 ∷ []) running_db)
          ≡ err stale_task_attempt)
earlier_attempts-stale_example =
    earlier_attempts-stale env0 old_ref (recovers 3 ∷ []) running_db running_row running_Inv
      (alone running_row) old_earlier

recover_on_startup-succeeds_example :
    (db' : Db) × (recover_on_startup env0 3 running_db ≡ ok db')
    × (count is_running_row db'.tasks ≡ 0)
recover_on_startup-succeeds_example = recover_on_startup-succeeds env0 3 running_db running_Inv

none_running : count is_running_row waiting_db.tasks ≡ 0
unfolding count new_row
none_running = refl

claim_next-head_example :
    (row : Row) × (q : Request) × (find (by_id "a") waiting_db.tasks ≡ some row)
    × (row.status ≡ queued)
    × (claim_next env0 2 waiting_db
        ≡ ok (
          record { tasks = update_where (by_queued_id "a") (start 2) waiting_db.tasks; queue = [] },
          some (task_of (start 2 row) q),
        ))
claim_next-head_example = claim_next-head env0 2 waiting_db "a" [] waiting_Inv refl none_running

request_action-Answers_example :
    Answers env0
      (decide_action queued_row.status queued_row.execution_committed queued_row.requested_action
        pause)
      pause
      3
      waiting_db
      queued_row
      (request_action env0 queued_row.task_id pause 3 waiting_db)
request_action-Answers_example =
    request_action-Answers env0 pause 3 waiting_db queued_row waiting_Inv (alone queued_row)

request_resume-answers_example :
    ResumeAnswers env0 failed_row.status 3 failed_db failed_row
      (request_resume env0 failed_row.task_id 3 failed_db)
request_resume-answers_example =
    request_resume-answers env0 3 failed_db failed_row failed_Inv (alone failed_row)

flags-truthful_example :
    let shown = payload (task_of queued_row update_request) in
    let id = queued_row.task_id in
    (shown.can_pause ≡ true
      → is_undecided queued_row ≡ true
      → Changes id waiting_db (Takes pause) (request_pause env0 id 3 waiting_db))
    × (shown.can_pause ≡ false → Idles waiting_db (request_pause env0 id 3 waiting_db))
    × (shown.can_cancel ≡ true
        → is_undecided queued_row ≡ true
        → Changes id waiting_db (Takes cancel) (request_cancel env0 id 3 waiting_db))
    × (shown.can_cancel ≡ false → Idles waiting_db (request_cancel env0 id 3 waiting_db))
    × (shown.can_resume ≡ true
        → FreeKey queued_row waiting_db
        → FreeWork queued_row waiting_db
        → Changes id waiting_db IsQueued (request_resume env0 id 3 waiting_db))
    × (shown.can_resume ≡ false → Idles waiting_db (request_resume env0 id 3 waiting_db))
flags-truthful_example =
    flags-truthful env0 3 waiting_db queued_row update_request waiting_Inv (alone queued_row)
