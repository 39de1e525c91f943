-- ===== src/Taskstate/Behaviour/Race.antt =====
-- taskstate/sqlite.go, requestAction of a running attempt and Finalize.
use narou_viewer.Prelude.{
  find-holds, Bool, Ensures-apply, String, arith, false, find, ok, refl, some, subst, true, ℕ, ◌≡◌,
  ◌≢◌,
}
use narou_viewer.Taskstate.Behaviour.Control.{Answers, Wrote, request_action-Answers}
use narou_viewer.Taskstate.Behaviour.Ending.{finalize_ok}
use narou_viewer.Taskstate.Control.{
  by_open_control, decide_action, request_action, request_running, set_action,
}
use narou_viewer.Taskstate.Finalize.{finalize, is_final, settle}
use narou_viewer.Taskstate.Invariant.{Inv}
use narou_viewer.Taskstate.Keeps.Control.{request_action-Inv}
use narou_viewer.Taskstate.Model.{
  TaskRef, Db, Outcome, RequestedAction, Row, Status, Task, cancel, canceled, is_no_request,
  no_request, pause, paused, running,
}
use narou_viewer.Taskstate.Scan.{task_of}
use narou_viewer.Taskstate.Schema.{by_id}
use narou_viewer.Taskstate.Target.{Env}

abbrev pub Ends : String → Status → Db → Type 0
Ends id s db = (r : Row) × (find (by_id id) db.tasks ≡ some r) × (r.status ≡ s)

abbrev pub status_of : RequestedAction → Status
status_of pause = paused
status_of cancel = canceled
status_of no_request = running

pub settle-requested :
    (t : Task) (o : Outcome) (a : RequestedAction)
    → t.execution_committed ≡ false
    → o.execution_committed ≡ false
    → t.requested_action ≡ a
    → a ≢ no_request
    → (settle t o).status ≡ some (status_of a)
unfolding settle
settle-requested t o pause h k e n = rw (h, k, e) refl
settle-requested t o cancel h k e n = rw (h, k, e) refl
settle-requested t o no_request h k e n = absurd (n refl)

pub decide-idle :
    (s : Status) (c : Bool) (b a : RequestedAction)
    → s ≡ running
    → c ≡ false
    → b ≡ no_request
    → a ≢ no_request
    → decide_action s c b a ≡ request_running
unfolding decide_action
decide-idle s c b pause e h k real = rw (e, h, k) refl
decide-idle s c b cancel e h k real = rw (e, h, k) refl
decide-idle s c b no_request e h k real = absurd (real refl)

pub action-no_request : (a : RequestedAction) → a ≢ no_request → is_no_request a ≡ false
action-no_request no_request real = absurd (real refl)
action-no_request pause real = refl
action-no_request cancel real = refl

pub status_of-is_final :
    (a : RequestedAction) → a ≢ no_request → is_final (some (status_of a)) ≡ true
status_of-is_final no_request real = absurd (real refl)
status_of-is_final pause real = refl
status_of-is_final cancel real = refl

module _ (env : Env) where
  -- A pause or cancel of a running attempt that nothing is decided of yet is recorded.
  pub request_recorded :
      (a : RequestedAction) (now : ℕ) (db : Db) (row : Row)
      → Inv env db
      → find (by_id row.task_id) db.tasks ≡ some row
      → by_open_control row.task_id row ≡ true
      → a ≢ no_request
      → (db' : Db) × (t : Task) × (request_action env row.task_id a now db
          ≡ ok (db', record { task = t; changed = true }))
        × (find (by_id row.task_id) db'.tasks ≡ some (set_action a now row))
        × Inv env db'
  request_recorded a now db row i found idle real =
      let accepted : decide_action row.status row.execution_committed row.requested_action a
          ≡ request_running =
        decide-idle row.status row.execution_committed row.requested_action a (ground arith)
          (ground arith) (ground arith) real in
      let (q, wrote, found') : Wrote env (by_open_control row.task_id) (set_action a now) db.queue
          db row (request_action env row.task_id a now db) =
        subst (λ d. Answers env d a now db row (request_action env row.task_id a now db)) accepted
          (request_action-Answers env a now db row i found) in
      (
        _,
        _,
        wrote,
        found',
        Ensures-apply {P = λ x. Inv env x.0} (request_action-Inv env row.task_id a now db i) wrote,
      )

  -- An attempt with a recorded request ends by it.
  pub requested_end :
      (a : RequestedAction) (ref : TaskRef) (o : Outcome) (later : ℕ) (db : Db) (row : Row)
      → a ≢ no_request
      → Inv env db
      → find (by_id ref.task_id) db.tasks ≡ some row
      → row.status ≡ running
      → row.attempt_count ≡ ref.attempt
      → row.requested_action ≡ a
      → row.execution_committed ≡ false
      → is_final o.status ≡ true
      → o.execution_committed ≡ false
      → (end : Db) × (finalize env later ref o db ≡ ok end) × Ends ref.task_id (status_of a) end
  requested_end a ref o later db row real i found live at asked open_yet final uncommitted =
      finalize_ok env later ref o (status_of a) db row i found
        (let same_id = find-holds (by_id ref.task_id) db.tasks row found in ground arith) final
        (status_of-is_final a real)
        (λ q. settle-requested (task_of row q) o a open_yet uncommitted asked real)
