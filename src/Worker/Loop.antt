-- ===== src/Worker/Loop.antt =====
-- worker/runner.go, Start, loop and drain, with taskqueue/queue.go, Notify: the runner, the wake-up
-- channel and the clients as steps in any order. A client commits a transaction and then notifies.
-- Where the runner stands: blocked in loop, about to claim in drain, between a claim and its
-- finalization, about to ask for queued tasks, or returned from loop.
use narou_viewer.Prelude.{Bool, List, Option, String, false, none, ok, some, suc, true, ℕ, ◌≡◌}
use narou_viewer.Taskqueue.Queue.{TaskError, finish_task}
use narou_viewer.Taskstate.Claim.{claim_next}
use narou_viewer.Taskstate.Control.{request_action, request_resume}
use narou_viewer.Taskstate.Enqueue.{EnqueueResult, enqueue}
use narou_viewer.Taskstate.History.{Op, perform}
use narou_viewer.Taskstate.Keeps.Empty.{is_quiet}
use narou_viewer.Taskstate.Model.{ControlResult, Db, RequestedAction, Task}
use narou_viewer.Taskstate.Progress.{has_queued_tasks}
use narou_viewer.Taskstate.Target.{Env}

pub data Mode : Type 0 where
  sleeping claiming executing checking returned : Mode

-- `notifying` counts the calls of Notify that are due: by a client that has committed, or by Start.
pub record System : Type 0 where
  pub db : Db
  pub wake : Bool
  pub notifying : ℕ
  pub mode : Mode

-- Start
unfoldable pub started : Db → System
started db = record { db = db; wake = false; notifying = 1; mode = sleeping }

abbrev pub if_changed : Bool → ℕ → ℕ
if_changed true n = suc n
if_changed false n = n

pub data Step (env : Env) (s : System) : System → Type 0 where
  enqueued :
      (now : ℕ) (ts : List (Task × String)) (db' : Db) (r : EnqueueResult)
      → enqueue env now ts s.db ≡ ok (db', r)
      → Step env s (record s { db = db'; notifying = suc s.notifying })
  resumed :
      (now : ℕ) (id : String) (db' : Db) (r : ControlResult)
      → request_resume env id now s.db ≡ ok (db', r)
      → Step env s (record s { db = db'; notifying = if_changed r.changed s.notifying })
  controlled :
      (now : ℕ) (id : String) (a : RequestedAction) (db' : Db) (r : ControlResult)
      → request_action env id a now s.db ≡ ok (db', r)
      → Step env s (record s { db = db'; notifying = if_changed r.changed s.notifying })
  reported :
      (op : Op) (db' : Db)
      → is_quiet op ≡ true
      → perform env op s.db ≡ ok db'
      → Step env s (record s { db = db' })
  notified : (n : ℕ) → s.notifying ≡ suc n → Step env s (record s { wake = true; notifying = n })
  woken :
      s.mode ≡ sleeping → s.wake ≡ true → Step env s (record s { wake = false; mode = claiming })
  claimed_none :
      (now : ℕ) (db' : Db)
      → s.mode ≡ claiming
      → claim_next env now s.db ≡ ok (db', none)
      → Step env s (record s { db = db'; mode = sleeping })
  claimed :
      (now : ℕ) (db' : Db) (t : Task)
      → s.mode ≡ claiming
      → claim_next env now s.db ≡ ok (db', some t)
      → Step env s (record s { db = db'; mode = executing })
  finalized :
      (now : ℕ) (t : Task) (e : Option TaskError) (db' : Db)
      → s.mode ≡ executing
      → finish_task env now t e s.db ≡ ok db'
      → Step env s (record s { db = db'; mode = checking })
  checked_queued :
      s.mode ≡ checking → has_queued_tasks s.db ≡ true → Step env s (record s { mode = claiming })
  checked_empty :
      s.mode ≡ checking → has_queued_tasks s.db ≡ false → Step env s (record s { mode = sleeping })
  check_failed_once : s.mode ≡ checking → Step env s (record s { mode = claiming })
  shut_down : Step env s (record s { mode = returned })

-- What a started runner and its clients can reach.
pub data Reachable (env : Env) (db : Db) : System → Type 0 where
  start_of : Reachable env db (started db)
  next_of : {s s' : System} → Reachable env db s → Step env s s' → Reachable env db s'
